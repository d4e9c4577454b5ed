-- ===== src/Supervisor/Loop.antt =====
-- supervisor/loop.py: the task loop, from the first decision to the terminal status.
pub mod Drive
pub mod Rounds
pub mod Playing
pub mod Outcome
pub mod Entry
use hex_agent.Base.{ℕ, zero, suc, ◌-◌, String, ◌==◌, Bool, true, false, not, ◌&&◌, ◌||◌}
use hex_agent.Base.{Option, none, some, List, [], ◌∷◌, ◌++◌, map}
use hex_agent.Base.{if◌then◌else◌, length, leb, ltb, eqb, not_blank}
use hex_agent.Base.Result.{Result, ok, err, value_error, ◌>>=◌}
use hex_agent.Value.{Fields, end}
use hex_agent.Supervisor.State.{
  TaskLoopState, TaskLoopStatus, CheckStatus, all_accepted, is_terminal, acceptance_snapshot,
}
use hex_agent.Supervisor.Contracts.{DecisionKind, OrchestratorDecision}
use hex_agent.Supervisor.Bridge.{Notice, apply_pending_commands}
use hex_agent.Supervisor.Ports.{
  Ports, Run, Event, terminated, command_notice, roster_growth_starved,
}
use hex_agent.Supervisor.Run.{Effect, emit, save, after, lift}
use hex_agent.Supervisor.Acceptance.{judge_acceptance, judged_so_far}
use hex_agent.Supervisor.Round.{run_round, enqueue}
use hex_agent.Supervisor.Tools.{run_tool}
use hex_agent.Supervisor.Decide.{o_decide}
use hex_agent.Supervisor.Compose.{catalog_ids}
use hex_agent.Supervisor.Signature.{decision_signature, decision_text}

-- What the loop goes on with: it has ended, or the last signature and its repetitions.
pub data Flow : Type 0 where
  ended : Flow
  again : String → ℕ → Flow

abbrev same_status : CheckStatus → CheckStatus → Bool
same_status CheckStatus.pending CheckStatus.pending = true
same_status CheckStatus.passed CheckStatus.passed = true
same_status CheckStatus.failed CheckStatus.failed = true
same_status _ _ = false

-- Equality of acceptance snapshots
unfoldable pub same_snapshot :
    List (String × CheckStatus × ℕ) → List (String × CheckStatus × ℕ) → Bool
same_snapshot [] [] = true
same_snapshot ((i, s, n) ∷ xs) ((j, t, m) ∷ ys) =
    (i == j) && same_status s t && eqb n m && same_snapshot xs ys
same_snapshot _ _ = false

-- `a or b` of texts
abbrev pub or_else : String → String → String
or_else a b = if not_blank a then a else b

-- `repeat_count + 1 if signature == last_signature else 0`
abbrev pub repeats : String → Option String → ℕ → ℕ
repeats signature none n = 0
repeats signature (some last) n = if signature == last then suc n else 0

-- A round made progress: artifacts, a change of the acceptance, or growth of the roster.
unfoldable pub progressed : TaskLoopState → TaskLoopState → ℕ → Bool
unfolding same_snapshot acceptance_snapshot
progressed before s applied =
    ltb (length before.artifacts) (length s.artifacts)
    || not (same_snapshot (acceptance_snapshot s) (acceptance_snapshot before))
    || ltb 0 applied

-- `decision.final_output or {}`
abbrev pub output_or_empty : Option Fields → Fields
output_or_empty none = end
output_or_empty (some d) = d

module _ {W : Type 0} where
  -- `_terminate`
  unfoldable pub terminate : TaskLoopStatus → String → Run W → Run W
  unfolding emit save
  terminate status reason r =
      let s = record (r.state) { status = status; reason = reason } in
      save (emit (terminated status reason s.round_no) (record r { state = s }))

  unfoldable pub set_reason : String → Run W → Run W
  set_reason reason r = record r { state = record (r.state) { reason = reason } }

  unfoldable pub set_output : Fields → Run W → Run W
  set_output output r = record r { state = record (r.state) { final_output = some output } }

module _ (p : Ports) where
  unfoldable pub judge : OrchestratorDecision → Run p.World → Effect p.World Unit
  judge d r = elim (judge_acceptance p.python d.acceptance_status r.state) [
    | ok s ↦ (ok tt, record r { state = s })
    | err e ↦ (err e, record r { state = judged_so_far p.python d.acceptance_status r.state })
  ]

  -- The branches on the decision; true when the loop is left.
  unfoldable pub act : OrchestratorDecision → Run p.World → Effect p.World Bool
  unfolding judge run_round run_tool terminate set_reason set_output
  act d r = elim d.decision [
    | DecisionKind.finished ↦ after (judge d r) (λ _ r₁.
        if all_accepted r₁.state
        then (
          ok true,
          terminate TaskLoopStatus.finished (or_else d.reason "all criteria passed")
              (set_output (output_or_empty d.final_output) r₁),
        )
        else (ok false, set_reason "finish denied: acceptance criteria incomplete" r₁))
    | DecisionKind.need_tool ↦
        after (run_tool p d r) (λ _ r₁. after (judge d r₁) (λ _ r₂. (ok false, r₂)))
    | DecisionKind.continue ↦
        after (run_round p d r) (λ _ r₁. after (judge d r₁) (λ _ r₂. (ok false, r₂)))
    | DecisionKind.blocked ↦
        (ok true, terminate TaskLoopStatus.blocked (or_else d.reason (decision_text d.decision)) r)
    | DecisionKind.failed ↦
        (ok true, terminate TaskLoopStatus.failed (or_else d.reason (decision_text d.decision)) r)
  ]

  -- The commands are applied and the round advances in one save.
  unfoldable pub checkpoint : Run p.World → Run p.World × ℕ
  unfolding apply_pending_commands save catalog_ids
  checkpoint r =
      let (s, applied, notices) =
        apply_pending_commands p.python p.command_registry (catalog_ids p) r.state in
      (
        save (record r {
          state = record s { round_no = suc s.round_no };
          events = r.events ++ map command_notice notices;
        }),
        applied,
      )

  -- `n` commands were pending before the checkpoint.
  unfoldable pub warn_starved : ℕ → Run p.World → Run p.World
  unfolding emit
  warn_starved n r =
      let s = r.state in
      if ltb 0 n && leb s.max_rounds (suc s.round_no) && not (is_terminal s)
      then emit (roster_growth_starved n (s.max_rounds - s.round_no)) r
      else r

  -- The end of a round that began with `before`: the checkpoint, and the guards on progress and on
  -- repetition.
  unfoldable pub close_round : ℕ → TaskLoopState → String → ℕ → Run p.World → Flow × Run p.World
  unfolding checkpoint warn_starved progressed terminate
  close_round max_repeats before signature count r =
      let (r₁, applied) = checkpoint r in
      let count' = if ltb 0 applied then 0 else count in
      let r₂ = warn_starved (length r.state.pending_commands) r₁ in
      if not (progressed before r₂.state applied)
      then (ended, terminate TaskLoopStatus.blocked "no progress this round" r₂)
      else if leb max_repeats count'
      then (ended, terminate TaskLoopStatus.blocked "orchestrator repeated the same decision" r₂)
      else (again signature count', r₂)

  abbrev pub conclude_round :
      ℕ → TaskLoopState → String → ℕ → Bool → Run p.World → Effect p.World Flow
  conclude_round max_repeats before signature count true r = (ok ended, r)
  conclude_round max_repeats before signature count false r =
      let (flow, r') = close_round max_repeats before signature count r in (ok flow, r')

  -- A round, once agent O has decided.
  unfoldable pub play :
      ℕ
      → TaskLoopState
      → Option String
      → ℕ
      → OrchestratorDecision
      → Run p.World
      → Effect p.World Flow
  unfolding act close_round enqueue decision_signature
  play max_repeats before last count d r = after (enqueue p d.commands r) (λ _ r₁.
      after (lift (decision_signature p.python d) r₁) (λ signature r₂. after (act d r₂) (λ stop r₃.
        conclude_round max_repeats before signature (repeats signature last count) stop r₃)))

  -- The answer of `o_decide`: an exhausted budget of parse errors fails the run.
  unfoldable pub play_answer :
      ℕ
      → TaskLoopState
      → Option String
      → ℕ
      → Option OrchestratorDecision
      → Run p.World
      → Effect p.World Flow
  unfolding play terminate
  play_answer max_repeats before last count none r =
      (ok ended, terminate TaskLoopStatus.failed "parse-error budget exceeded" r)
  play_answer max_repeats before last count (some d) r = play max_repeats before last count d r

  unfoldable pub round : ℕ → ℕ → Option String → ℕ → Run p.World → Option (Effect p.World Flow)
  unfolding o_decide play_answer
  round limit max_repeats last count r = elim (o_decide p limit (suc limit) r) [
    | none ↦ none
    | some m ↦ some (after m (λ answer r₁. play_answer max_repeats r.state last count answer r₁))
  ]
