-- ===== src/Supervisor/Run.antt =====
-- The effects that the nodes of supervisor/graph.py share: publishing, saving, adding artifacts.
use hex_agent.Base.{String, ◌<>◌, [], ◌∷◌, ◌++◌, length}
use hex_agent.Base.Decimal.{decimal_04}
use hex_agent.Base.Result.{Result, ok, err}
use hex_agent.Supervisor.State.{TaskLoopState}
use hex_agent.Supervisor.Ports.{Run, Event}

-- A step of a run, which may raise; what was written before it raised stays written.
abbrev pub Effect : Type 0 → Type 0 → Type 0
Effect W A = Result A × Run W

module _ {W : Type 0} where
  -- `ctx.emit(topic, payload)` where no emitter is wired: the bus keeps what a subscriber raises.
  unfoldable pub emit : Event → Run W → Run W
  emit e r = record r { events = r.events ++ e ∷ [] }

  -- `ctx.save(state)`
  unfoldable pub save : Run W → Run W
  save r = record r { saved = r.saved ++ r.state ∷ [] }

  -- The rest of the steps, unless this one raised.
  abbrev pub after : {A B : Type 0} → Effect W A → (A → Run W → Effect W B) → Effect W B
  after (ok a, r) f = f a r
  after (err e, r) f = (err e, r)

  -- A pure computation that may raise.
  abbrev pub lift : {A : Type 0} → Result A → Run W → Effect W A
  lift x r = (x, r)

-- `_next_id`
unfoldable pub next_id : String → TaskLoopState → String
next_id prefix s = prefix <> "-" <> decimal_04 (length s.artifacts)
