-- ===== src/Control/Emitter/Numbered.antt =====
-- control/emitter.py over the registry, the redactor and the counters: the numbers of what is
-- published.
use hex_agent.Base.{
  ℕ, zero, suc, ◌+◌, ◌≡◌, refl, sym, subst, ap, ◌∙◌, All, inl, inr, String, ◌==◌, List, [], ◌∷◌,
  ◌++◌, if◌then◌else◌, Bool-cases, arith,
}
use hex_agent.Base.Dict
use hex_agent.Base.Dict.{Dict, lookup-insert}
use hex_agent.Base.Int.{ℤ, pos}
use hex_agent.Base.Result.{ok}
use hex_agent.Value.{Value, Python}
use hex_agent.Control.Event.{RuntimeEvent, peek}
use hex_agent.Control.EventRegistry.{parse_event_registry}
use hex_agent.Control.Emitter.{EventSink, EventEmitter, EmitterRun}
use hex_agent.Control.EventRegistry.Visible.{parse_event_registry-AllVisible}
use hex_agent.Control.Emitter.Watched.{Seen, Publish, publish, watched, forget, publish-unwatched}
use hex_agent.Control.Emitter.Published.{IsPublished, Emitted, IsUnnumbered, publish-Emitted}

-- 1, 2, ..., n
abbrev pub up_to : ℕ → List ℤ
up_to zero = []
up_to (suc n) = up_to n ++ pos (suc n) ∷ []

-- The numbers of the events of a session, in the order in which they were published.
abbrev pub seqs_of : String → List RuntimeEvent → List ℤ
seqs_of i [] = []
seqs_of i (e ∷ rest) = if i == e.session_id then e.seq ∷ seqs_of i rest else seqs_of i rest

-- The counter of each session is how many of its events the first sink has been given, numbered from
-- 1 with no gap.
abbrev pub IsNumbered : {W : Type 0} → EmitterRun (Seen W) → Type 0
IsNumbered r = (i : String) → seqs_of i r.world.0 ≡ up_to (peek i r.counters)

seqs_of-append :
    (i : String) (xs : List RuntimeEvent) (e : RuntimeEvent)
    → seqs_of i (xs ++ e ∷ [])
      ≡ (if i == e.session_id then seqs_of i xs ++ e.seq ∷ [] else seqs_of i xs)
seqs_of-append i [] e = refl
seqs_of-append i (x ∷ xs) e = ground (arith, seqs_of-append i xs e)

peek-insert :
    (i j : String) (n : ℕ) (counters : Dict ℕ)
    → peek i (Dict.insert j n counters) ≡ (if i == j then n else peek i counters)
unfolding peek
peek-insert i j n counters = elim (Bool-cases (i == j)) [
  | inl e ↦ rw (peek, lookup-insert i j n counters, e) refl
  | inr e ↦ rw (peek, lookup-insert i j n counters, e) refl
]

up_to_next : (n : ℕ) → up_to (n + 1) ≡ up_to n ++ pos (n + 1) ∷ []
up_to_next n =
    let more : suc n ≡ n + 1 = omega arith in subst (λ m. up_to m ≡ up_to n ++ pos m ∷ []) more refl

IsPublished-IsNumbered :
    {W : Type 0} (r r' : EmitterRun (Seen W)) (e : RuntimeEvent)
    → IsPublished r r' e
    → IsNumbered r
    → IsNumbered r'
IsPublished-IsNumbered r r' e p h i =
    let n = peek e.session_id r.counters in
    rw
      (
        p.world,
        p.counters,
        seqs_of-append i r.world.0 e,
        peek-insert i e.session_id (n + 1) r.counters,
      )
      (elim (Bool-cases (i == e.session_id)) [
        | inl same ↦
            let session : i ≡ e.session_id = ground (arith, same) in
            rw same (
              subst (λ j. seqs_of j r.world.0 ++ e.seq ∷ [] ≡ up_to (n + 1)) (sym session)
                (rw (h e.session_id, p.seq) (sym (up_to_next n))))
        | inr other ↦ rw other (h i)
      ])

Emitted-IsNumbered :
    {W : Type 0} (r r' : EmitterRun (Seen W)) → Emitted r r' → IsNumbered r → IsNumbered r'
Emitted-IsNumbered r r' (inl same) h = subst IsNumbered (sym same) h
Emitted-IsNumbered r r' (inr (e, p)) h = IsPublished-IsNumbered r r' e p h

-- The calls one after the other, whether they raise or not.
abbrev pub emit_each : {W : Type 0} → EventEmitter W → List Publish → EmitterRun W → EmitterRun W
emit_each em [] r = r
emit_each em (p ∷ rest) r = emit_each em rest (publish em p r).1

module _ {W : Type 0} (py : Python) (doc : Value) (em : EventEmitter W) (first : EventSink W)
    (others : List (EventSink W)) (sinks : em.sinks ≡ first ∷ others)
    (parsed : parse_event_registry py doc ≡ ok em.registry) where
  -- An emitter with a parsed registry and one sink at least refines a list of events for each session.
  -- Whatever its sinks do, raising included, and whichever calls of `emit` and of `emit_event` on a
  -- valid event with no number raise: if the events that the first sink has been given were numbered
  -- by the counters before, then after the calls those of every session are numbered 1, 2, 3 and so on
  -- in their order, with no number skipped or used twice, and the counter of the session is how many
  -- there are. Watching the first sink leaves counters and world as they are without it.
  pub emit_each-IsNumbered :
      (calls : List Publish) (r : EmitterRun (Seen W))
      → All IsUnnumbered calls
      → IsNumbered r
      → IsNumbered (emit_each (watched em) calls r)
        × (forget (emit_each (watched em) calls r) ≡ emit_each em calls (forget r))
  emit_each-IsNumbered [] r fresh h = (h, refl)
  emit_each-IsNumbered (p ∷ rest) r (now, later) h =
      let r' = (publish (watched em) p r).1 in
      let visible = parse_event_registry-AllVisible py doc parsed in
      let once =
        Emitted-IsNumbered r r' (publish-Emitted em first others sinks visible r p now) h in
      let (numbered, same) = emit_each-IsNumbered rest r' later once in
      (numbered, same ∙ ap (λ x. emit_each em rest x.1) (publish-unwatched em p r))
