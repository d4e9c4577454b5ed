-- ===== src/Delegation/Manager/Steps.antt =====
-- delegation/manager.py: the progress that a delegation records.
use hex_agent.Base.{
  ℕ, ◌≡◌, String, ◌==◌, not_blank, not, Option, none, some, [], arith, inl, inr, ltb, if_rule,
}
use hex_agent.Base.Result.{Result, Error, Result-cases}
use hex_agent.Core.Schemas.{DelegationSpec, DelegationPolicy, DelegationResult, rejected}
use hex_agent.Core.Kernel.{KernelRun}
use hex_agent.Core.Identity.{KernelSession, Drawn, is_active}
use hex_agent.Delegation.Targets.{DelegationHandler}
use hex_agent.Delegation.Policy.{validate, policy_or_default, validate_grants}
use hex_agent.Delegation.Store.{
  DelegationRequest, DelegationProgress, DelegationStore, start, append_progress, finish,
  progress_of,
}
use hex_agent.Delegation.Store.Ordering.{IsStore}
use hex_agent.Delegation.Handling.{
  Play, returns, raises, reports, works, DelegationManager, DelegationRun, Delegated, request_for,
  parent_of, concluded, bare_result, rejected_or_failed,
}
use hex_agent.Delegation.Manager.{
  progress_sink, played, close_child, finish_delegation, run_handler, child_for, delegate_granted,
  starting, delegate,
}
use hex_agent.Delegation.Store.Within.{
  IsWithin, append_progress-IsWithin, start-IsWithin, finish-IsWithin,
}

module _ {W : Type 0} where
  progress_sink-IsWithin :
      (i : String) (n : ℕ) (p : DelegationProgress) (d : DelegationRun W)
      → IsWithin i n d.store
      → IsWithin i n (progress_sink i n p d).1.store
  unfolding progress_sink
  progress_sink-IsWithin i n p d h =
      if_rule Kept (not (p.delegation_id == i)) _ _ (λ _. h)
        (λ mine.
          if_rule Kept (ltb n p.sequence) _ _ (λ _. h)
            (λ small. elim (Result-cases (append_progress p d.store)) [
              | inl (x, e) ↦ rw e h
              | inr (s, e) ↦
                  rw e (append_progress-IsWithin i n p d.store (ground (arith, mine)) small e h)
            ]))
    where
      Kept : Option Error × DelegationRun W → Type 0
      Kept x = IsWithin i n x.1.store

  played-IsWithin :
      (i : String) (n : ℕ) (p : Play W) (d : DelegationRun W)
      → IsWithin i n d.store
      → IsWithin i n (played i n p d).1.store
  unfolding played
  played-IsWithin i n (returns r) d h = h
  played-IsWithin i n (raises text) d h = h
  played-IsWithin i n (reports p next) d h =
      let x = progress_sink i n p d in
      played-IsWithin i n (next x.0) x.1 (progress_sink-IsWithin i n p d h)
  played-IsWithin i n (works change next) d h =
      played-IsWithin i n (next (change d.workspace)) (record d { workspace = change d.workspace })
        h

  finish_delegation-IsWithin :
      (i : String) (n : ℕ) (m : DelegationManager W) (parent : KernelSession) (target : String)
      (r : DelegationResult) (d : Delegated W)
      → IsWithin i n d.store
      → IsWithin i n (finish_delegation m parent target r d).1.store
  unfolding finish_delegation
  finish_delegation-IsWithin i n m parent target r d h =
      elim (Result-cases (finish m.equal r d.store)) [
        | inl (x, e) ↦ rw (finish_delegation, e) h
        | inr (s, e) ↦ rw (finish_delegation, e) (finish-IsWithin i n m.equal r d.store e h)
      ]

  run_handler-IsWithin :
      (m : DelegationManager W) (parent : KernelSession) (q : DelegationRequest) (n : ℕ)
      (x : DelegationHandler) (d : DelegationRun W)
      → IsWithin q.delegation_id n d.store
      → IsWithin q.delegation_id n (run_handler m parent q n x d).1.store
  unfolding run_handler
  run_handler-IsWithin m parent q n x d h =
      let p = played q.delegation_id n (m.body x q) d in
      let k = played-IsWithin q.delegation_id n (m.body x q) d h in
      let r = concluded q.delegation_id parent.identity.task_id p.1.store p.0 in
      elim (Result-cases (close_child r p.1.workspace)) [
        | inl (x, e) ↦ rw (run_handler, e) k
        | inr (w, e) ↦
            rw (run_handler, e)
              (finish_delegation-IsWithin q.delegation_id n m parent q.target r
                (record { store = p.1.store; run = w.run; child = some w.child }) k)
      ]

  delegate_granted-IsWithin :
      (m : DelegationManager W) (parent : KernelSession) (q : DelegationRequest) (drawn : Drawn)
      (d : Delegated W)
      → IsWithin q.delegation_id q.policy.max_steps d.store
      → IsWithin q.delegation_id q.policy.max_steps (delegate_granted m parent q drawn d).1.store
  unfolding delegate_granted
  delegate_granted-IsWithin m parent q drawn d h =
      elim (Result-cases (child_for m parent q drawn d.run)) [
        | inl (x, e) ↦
            rw (delegate_granted, e)
              (finish_delegation-IsWithin q.delegation_id q.policy.max_steps m parent q.target
                (bare_result q.delegation_id parent.identity.task_id (rejected_or_failed x) []
                  (m.runtime.message x))
                d h)
        | inr (x, e) ↦
            rw (delegate_granted, e)
              (run_handler-IsWithin m parent q q.policy.max_steps x.0
                (record { store = d.store; workspace = x.1 }) h)
      ]

  starting-IsWithin :
      (n : ℕ) (parent : KernelSession) (q : DelegationRequest) (d : Delegated W)
      (next : Delegated W → Result DelegationResult × Delegated W)
      → IsWithin q.delegation_id n d.store
      → ((e : Delegated W)
          → IsWithin q.delegation_id n e.store
          → IsWithin q.delegation_id n (next e).1.store)
      → IsWithin q.delegation_id n (starting parent q d next).1.store
  unfolding starting
  starting-IsWithin n parent q d next h rest = elim (Result-cases (start q d.store)) [
    | inl (x, e) ↦ rw (starting, e) h
    | inr (s, e) ↦
        rw (starting, e) (rest (record d { store = s; run = _ }) (start-IsWithin n q d.store e h.0))
  ]

-- Whatever the handler reports, in whatever order and however often: a delegation leaves the
-- progress of every delegation numbered 1, 2, 3 and so on with no event twice, and its own progress
-- has at most as many items as the engine's limit of steps. It has none when the delegation begins.
pub delegate-IsWithin :
    {W : Type 0} (m : DelegationManager W) (parent : KernelSession) (target : String)
    (spec : DelegationSpec) (policy : Option DelegationPolicy) (i : String) (drawn : Drawn)
    (store : DelegationStore) (run : KernelRun W)
    → IsStore store
    → progress_of i store ≡ []
    → IsWithin i m.policy.max_steps (delegate m parent target spec policy i drawn store run).1.store
unfolding delegate
delegate-IsWithin {W = W} m parent target spec policy i drawn store run ordered none_yet =
    if_rule Within (not (is_active parent)) _ _ (λ _. h n)
      (λ _.
        if_rule Within (not (not_blank target)) _ _ (λ _. h n)
          (λ _.
            if_rule Within (not (not_blank spec.objective)) _ _ (λ _. h n)
              (λ _. elim (Result-cases (validate m.policy (parent_of parent) policy)) [
                | inl (x, e) ↦
                    let q = request_for parent target spec (policy_or_default policy) i in
                    let r =
                      bare_result i parent.identity.task_id rejected [] (m.runtime.message x) in
                    rw e (
                      starting-IsWithin n parent q d (finish_delegation m parent target r) (h n)
                        (λ d h. finish_delegation-IsWithin i n m parent target r d h))
                | inr (granted, e) ↦
                    let q = request_for parent target spec granted i in
                    let grant = validate_grants m.policy (parent_of parent) policy e in
                    let within =
                      starting-IsWithin granted.max_steps parent q d
                        (delegate_granted m parent q drawn) (h granted.max_steps)
                        (λ d h. delegate_granted-IsWithin m parent q drawn d h) in
                    rw e (within.0, ground (arith, within.1, grant.steps_bound))
              ])))
  where
    n : ℕ
    n = m.policy.max_steps

    d : Delegated W
    d = record { store = store; run = run; child = none }

    Within : Result DelegationResult × Delegated W → Type 0
    Within x = IsWithin i n x.1.store

    h : (k : ℕ) → IsWithin i k store
    h k = (ordered, rw none_yet (ground arith))
