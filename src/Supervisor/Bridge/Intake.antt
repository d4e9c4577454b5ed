-- ===== src/Supervisor/Bridge/Intake.antt =====
-- What `enqueue_commands` guarantees of the queue on the Blackboard.
use hex_agent.Base.{ℕ, suc, ◌≡◌, refl, subst, String, true, false}
use hex_agent.Base.{List, [], ◌∷◌, arith, All, Distinct, contains}
use hex_agent.Base.Result.{Result, ok, err, contract_error, >>=-eq-ok}
use hex_agent.Value.{Fields, Python}
use hex_agent.Control.Command.{Stamp, RuntimeCommand}
use hex_agent.Supervisor.State.{TaskLoopState}
use hex_agent.Supervisor.Bridge.{
  Enqueue, queued_keys, push, push_result, enqueue_from, to_runtime_command,
}
use hex_agent.Supervisor.Bridge.Keys.{IsDrawn, key_of, key_of-stamp}

-- No two queued commands have one key, and no queued command has an applied key.
abbrev pub IsQueue : TaskLoopState → Type 0
IsQueue s =
    Distinct (queued_keys s.pending_commands)
    × All (λ c. contains s.applied_command_keys c.idempotency_key ≡ false) s.pending_commands

-- A command that the loop leaves out: it is refused, or its key has been seen.
abbrev pub Heard : List String → Result String → Type 0
Heard seen (ok k) = contains seen k ≡ true
Heard seen (err contract_error) = Unit
Heard seen (err _) = ⊥

push_result-Heard :
    (t : Result RuntimeCommand) (q : Enqueue) {q' : Enqueue}
    → push_result q t ≡ ok q'
    → Heard q'.seen (key_of t)
unfolding push_result push
push_result-Heard (ok c) q e = ground arith
push_result-Heard (err contract_error) q e = tt
push_result-Heard (err _) q e = cc

push_result-again :
    (t : Result RuntimeCommand) (q : Enqueue) → Heard q.seen (key_of t) → push_result q t ≡ ok q
unfolding push_result push
push_result-again (ok c) q h = rw h
push_result-again (err contract_error) q h = refl
push_result-again (err _) q h = absurd h

push_result-seen :
    (t : Result RuntimeCommand) (q : Enqueue) {q' : Enqueue} (k : String)
    → push_result q t ≡ ok q'
    → contains q.seen k ≡ true
    → contains q'.seen k ≡ true
unfolding push_result push
push_result-seen (ok c) q k e h = ground arith
push_result-seen (err contract_error) q k e h = ground arith
push_result-seen (err _) q k e h = cc

module _ (py : Python) (session_id : String) where
  pub enqueue_from-seen :
      (stamps : ℕ → Stamp) (cmds : List Fields) (i : ℕ) (q : Enqueue) {q' : Enqueue} (k : String)
      → enqueue_from py stamps session_id cmds i q ≡ ok q'
      → contains q.seen k ≡ true
      → contains q'.seen k ≡ true
  unfolding enqueue_from
  enqueue_from-seen stamps [] i q k e h = ground arith
  enqueue_from-seen stamps (raw ∷ rest) i q k e h =
      let t = to_runtime_command py (stamps i) session_id raw in
      let (q₁, e₁, e₂) = >>=-eq-ok (push_result q t) _ e in
      enqueue_from-seen stamps rest (suc i) q₁ k e₂ (push_result-seen t q k e₁ h)

  pub Heard-mono :
      (seen seen' : List String) (r : Result String)
      → ((k : String) → contains seen k ≡ true → contains seen' k ≡ true)
      → Heard seen r
      → Heard seen' r
  Heard-mono seen seen' (ok k) f h = f k h
  Heard-mono seen seen' (err contract_error) f h = tt
  Heard-mono seen seen' (err _) f h = absurd h

  module _ (stamps stamps' : ℕ → Stamp) (drawn : (i : ℕ) → IsDrawn (stamps i))
      (drawn' : (i : ℕ) → IsDrawn (stamps' i)) where
    -- After the loop every command of the list is one that another run leaves out.
    pub enqueue_from-Heard :
        (cmds : List Fields) (i : ℕ) (q : Enqueue) {q' : Enqueue}
        → enqueue_from py stamps session_id cmds i q ≡ ok q'
        → All
            (λ raw.
              (j : ℕ) → Heard q'.seen (key_of (to_runtime_command py (stamps' j) session_id raw)))
            cmds
    unfolding enqueue_from
    enqueue_from-Heard [] i q e = tt
    enqueue_from-Heard (raw ∷ rest) i q {q'} e =
        let t = to_runtime_command py (stamps i) session_id raw in
        let (q₁, e₁, e₂) = >>=-eq-ok (push_result q t) _ e in
        (
          λ j.
              subst (Heard q'.seen)
                (key_of-stamp py (stamps i) (stamps' j) session_id raw (drawn i) (drawn' j))
                (Heard-mono q₁.seen q'.seen (key_of t)
                  (λ k h. enqueue_from-seen stamps rest (suc i) q₁ k e₂ h)
                  (push_result-Heard t q e₁)),
          enqueue_from-Heard rest (suc i) q₁ e₂,
        )

    pub enqueue_from-again :
        (cmds : List Fields) (i : ℕ) (q : Enqueue)
        → All
            (λ raw.
              (j : ℕ) → Heard q.seen (key_of (to_runtime_command py (stamps' j) session_id raw)))
            cmds
        → enqueue_from py stamps' session_id cmds i q ≡ ok q
    unfolding enqueue_from
    enqueue_from-again [] i q h = refl
    enqueue_from-again (raw ∷ rest) i q h =
        rw (push_result-again (to_runtime_command py (stamps' i) session_id raw) q (h.0 i))
          (enqueue_from-again rest (suc i) q h.1)
