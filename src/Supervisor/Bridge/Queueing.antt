-- ===== src/Supervisor/Bridge/Queueing.antt =====
-- The loop of `enqueue_commands`: which commands it queues.
use hex_agent.Base.{ℕ, suc, ◌≡◌, subst, String, false, ◌||◌}
use hex_agent.Base.{List, [], ◌∷◌, ◌++◌, arith, length, All, Distinct, contains, if_rule}
use hex_agent.Base.Lists.{contains-concat, concat-Distinct, length-append, All-append}
use mathlib.Core.List.{map-append, append_assoc}
use hex_agent.Base.Result.{Result, ok, err, contract_error, >>=-eq-ok, ok_inj}
use hex_agent.Value.{Fields, Python}
use hex_agent.Control.Command.{Stamp, RuntimeCommand}
use hex_agent.Supervisor.Bridge.{
  Enqueue, queued_keys, push, push_result, enqueue_from, to_runtime_command,
}

queued_keys-concat :
    (cmds : List RuntimeCommand) (c : RuntimeCommand)
    → queued_keys (cmds ++ c ∷ []) ≡ queued_keys cmds ++ c.idempotency_key ∷ []
unfolding queued_keys
queued_keys-concat cmds c = rw map-append

-- `applied` are the keys applied before the loop.
module _ (applied : List String) where
  pub record Tidy (q : Enqueue) : Type 0 where
    pub known :
        (k : String)
        → contains q.seen k ≡ (contains (queued_keys q.pending) k || contains applied k)
    pub distinct : Distinct (queued_keys q.pending)
    pub fresh : All (λ c. contains applied c.idempotency_key ≡ false) q.pending

  push-Tidy : (c : RuntimeCommand) (q : Enqueue) → Tidy q → Tidy (push c q)
  unfolding push
  push-Tidy c q h =
      if_rule Tidy (contains q.seen c.idempotency_key) _ _ (λ _. h)
        (λ new. record {
          known = λ k. rw queued_keys-concat (
              ground
                (arith, h.known k, contains-concat (queued_keys q.pending) c.idempotency_key k));
          distinct = rw queued_keys-concat (
              concat-Distinct (queued_keys q.pending) c.idempotency_key h.distinct
                (ground (arith, h.known c.idempotency_key)));
          fresh =
              All-append _ q.pending (c ∷ []) h.fresh
                (ground (arith, h.known c.idempotency_key), tt);
        })

  push_result-Tidy :
      (t : Result RuntimeCommand) (q : Enqueue) {q' : Enqueue}
      → push_result q t ≡ ok q'
      → Tidy q
      → Tidy q'
  unfolding push_result
  push_result-Tidy (ok c) q e h = subst Tidy (ok_inj e) (push-Tidy c q h)
  push_result-Tidy (err contract_error) q e h = subst Tidy (ok_inj e) h
  push_result-Tidy (err _) q e h = cc

  pub enqueue_from-Tidy :
      (py : Python) (stamps : ℕ → Stamp) (session_id : String) (cmds : List Fields) (i : ℕ)
      (q : Enqueue) {q' : Enqueue}
      → enqueue_from py stamps session_id cmds i q ≡ ok q'
      → Tidy q
      → Tidy q'
  unfolding enqueue_from
  enqueue_from-Tidy py stamps session_id [] i q e h = subst Tidy (ok_inj e) h
  enqueue_from-Tidy py stamps session_id (raw ∷ rest) i q e h =
      let (q₁, e₁, e₂) =
        >>=-eq-ok (push_result q (to_runtime_command py (stamps i) session_id raw)) _ e in
      enqueue_from-Tidy py stamps session_id rest (suc i) q₁ e₂
        (push_result-Tidy (to_runtime_command py (stamps i) session_id raw) q e₁ h)

-- The queue is `base` followed by as many new commands as were counted since `n`.
abbrev pub Queued : List RuntimeCommand → Enqueue → Type 0
Queued base q = (new : List RuntimeCommand) × (q.pending ≡ base ++ new) × (length new ≡ q.added)

push-Queued :
    (base : List RuntimeCommand) (c : RuntimeCommand) (q : Enqueue)
    → Queued base q
    → Queued base (push c q)
unfolding push
push-Queued base c q (new, grown, counted) =
    if_rule (Queued base) (contains q.seen c.idempotency_key) _ _ (λ _. (new, grown, counted))
      λ _. (
        new ++ c ∷ [],
        rw grown (append_assoc base new (c ∷ [])),
        omega (arith, length-append new (c ∷ [])),
      )

push_result-Queued :
    (base : List RuntimeCommand) (t : Result RuntimeCommand) (q : Enqueue) {q' : Enqueue}
    → push_result q t ≡ ok q'
    → Queued base q
    → Queued base q'
unfolding push_result
push_result-Queued base (ok c) q e h = subst (Queued base) (ok_inj e) (push-Queued base c q h)
push_result-Queued base (err contract_error) q e h = subst (Queued base) (ok_inj e) h
push_result-Queued base (err _) q e h = cc

module _ (py : Python) (stamps : ℕ → Stamp) (session_id : String) where
  pub enqueue_from-Queued :
      (base : List RuntimeCommand) (cmds : List Fields) (i : ℕ) (q : Enqueue) {q' : Enqueue}
      → enqueue_from py stamps session_id cmds i q ≡ ok q'
      → Queued base q
      → Queued base q'
  unfolding enqueue_from
  enqueue_from-Queued base [] i q e h = subst (Queued base) (ok_inj e) h
  enqueue_from-Queued base (raw ∷ rest) i q e h =
      let (q₁, e₁, e₂) =
        >>=-eq-ok (push_result q (to_runtime_command py (stamps i) session_id raw)) _ e in
      enqueue_from-Queued base rest (suc i) q₁ e₂
        (push_result-Queued base (to_runtime_command py (stamps i) session_id raw) q e₁ h)
