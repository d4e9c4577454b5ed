-- ===== src/Delegation/Manager/Settled.antt =====
-- delegation/manager.py: every delegation that is let in comes to a recorded result.
use hex_agent.Base.{
  ℕ, ◌≡◌, refl, String, ◌==◌, not_blank, true, false, not, Option, none, some, List, [], ◌∷◌, ◌++◌,
  arith, Bool-cases, inl, inr, if_rule, if◌then◌else◌,
}
use hex_agent.Base.Dict
use hex_agent.Base.Dict.{lookup-insert}
use hex_agent.Base.Result.{Result, ok, Result-cases}
use hex_agent.Value.{Value, str, Fields, set}
use hex_agent.Core.Schemas.{
  DelegationSpec, DelegationPolicy, DelegationResult, Outcome, success, failed, rejected, timeout,
}
use hex_agent.Core.Envelope.{event_fields}
use hex_agent.Core.Kernel.{KernelRun, publish}
use hex_agent.Core.Identity.{
  KernelSession, Drawn, is_active, call_context, completed_session, set_state, task_outcome,
}
use hex_agent.Core.Session.{complete_task, fail_task}
use hex_agent.Delegation.Targets.{DelegationHandler}
use hex_agent.Delegation.Policy.{validate, policy_or_default}
use hex_agent.Delegation.Store.{DelegationRequest, DelegationStore}
use hex_agent.Delegation.Handling.{
  Workspace, DelegationManager, DelegationRun, Delegated, Ending, result_given, exception,
  checked_result, concluded, finished_event, request_for, parent_of, bare_result,
}
use hex_agent.Delegation.Manager.{
  played, end_task, close_child, finish_delegation, run_handler, child_for, delegate_granted,
  starting, delegate,
}
use hex_agent.Delegation.Manager.Open.{IsOpen, start-IsOpen, finish-IsOpen, played-IsOpen}

module _ {W : Type 0} where
  complete_task-active :
      (v : Value) (status : String) (c : KernelSession) (r : KernelRun W)
      → is_active c ≡ true
      → (x : Fields × KernelSession × KernelRun W) × (complete_task v status c r ≡ ok x)
        × (is_active x.1 ≡ false)
  unfolding complete_task is_active set_state
  complete_task-active v status c r a =
      let outcome = task_outcome c v status in
      (
        (
          outcome,
          completed_session outcome c,
          publish (if status == "completed" then "task.completed" else "task.failed")
              (set "status" (str status) (event_fields (call_context c))) r,
        ),
        rw (complete_task, a) refl,
        refl,
      )

  end_task-active :
      (o : Outcome) (result : DelegationResult) (w : Workspace W)
      → is_active w.child ≡ true
      → (x : Fields × KernelSession × KernelRun W) × (end_task o result w ≡ ok x)
        × (is_active x.1 ≡ false)
  unfolding end_task fail_task
  end_task-active success result w a = complete_task-active _ "completed" w.child w.run a
  end_task-active failed result w a = complete_task-active _ "failed" w.child w.run a
  end_task-active rejected result w a = complete_task-active _ "failed" w.child w.run a
  end_task-active timeout result w a = complete_task-active _ "failed" w.child w.run a

  -- The child's task can be closed, and then the child is not active.
  close_child-closed :
      (result : DelegationResult) (w : Workspace W)
      → (w' : Workspace W) × (close_child result w ≡ ok w') × (is_active w'.child ≡ false)
  unfolding close_child
  close_child-closed result w = elim (Bool-cases (is_active w.child)) [
    | inl a ↦
        let (x, e, over) = end_task-active result.outcome result w a in
        (record { child = x.1; run = x.2 }, rw (close_child, a, e) refl, over)
    | inr a ↦ (w, rw (close_child, a) refl, a)
  ]

checked_result-ids :
    (i task : String) (s : DelegationStore) (r : DelegationResult)
    → ((checked_result i task s r).delegation_id ≡ i)
      × ((checked_result i task s r).parent_task_id ≡ task)
unfolding checked_result
checked_result-ids i task s r =
    if_rule OfTask (not (r.delegation_id == i)) _ _ (λ _. (refl, refl))
      (λ d.
        if_rule OfTask (not (r.parent_task_id == task)) _ _ (λ _. (refl, refl))
          (λ p. (ground (arith, d), ground (arith, p))))
  where
    OfTask : DelegationResult → Type 0
    OfTask x = (x.delegation_id ≡ i) × (x.parent_task_id ≡ task)

concluded-ids :
    (i task : String) (s : DelegationStore) (e : Ending)
    → ((concluded i task s e).delegation_id ≡ i) × ((concluded i task s e).parent_task_id ≡ task)
unfolding concluded
concluded-ids i task s (result_given r) = checked_result-ids i task s r
concluded-ids i task s (exception text) = (refl, refl)

-- There is no child, or its task is over.
abbrev IsOver : Option KernelSession → Type 0
IsOver none = Unit
IsOver (some c) = is_active c ≡ false

-- A result of the delegation is returned and recorded, its event is the last one, and no child is
-- left active.
pub record IsSettled {W : Type 0} (parent : KernelSession) (target i : String)
    (x : Result DelegationResult × Delegated W) : Type 0 where
  pub result : DelegationResult
  pub earlier : List (String × Fields)
  pub returned : x.0 ≡ ok result
  pub recorded : Dict.lookup i x.1.store.results ≡ some result
  pub delegation : result.delegation_id ≡ i
  pub task : result.parent_task_id ≡ parent.identity.task_id
  pub last_event :
      x.1.run.published
      ≡ earlier ++ ("delegation.finished", finished_event parent target result) ∷ []
  pub child_over : IsOver x.1.child

module _ {W : Type 0} where
  finish_delegation-IsSettled :
      (m : DelegationManager W) (parent : KernelSession) (target i : String)
      (result : DelegationResult) (d : Delegated W)
      → IsOpen i d.store
      → result.delegation_id ≡ i
      → result.parent_task_id ≡ parent.identity.task_id
      → IsOver d.child
      → IsSettled parent target i (finish_delegation m parent target result d)
  unfolding finish_delegation publish
  finish_delegation-IsSettled m parent target i result d h same task over =
      let e = finish-IsOpen m.equal i result d.store same h in
      rw (finish_delegation, e)
        (record {
          result = result;
          earlier = d.run.published;
          returned = refl;
          recorded =
              ground (arith, lookup-insert i result.delegation_id result d.store.results, same);
          delegation = same;
          task = task;
          last_event = refl;
          child_over = over;
        })

  run_handler-IsSettled :
      (m : DelegationManager W) (parent : KernelSession) (q : DelegationRequest) (n : ℕ)
      (x : DelegationHandler) (d : DelegationRun W)
      → IsOpen q.delegation_id d.store
      → IsSettled parent q.target q.delegation_id (run_handler m parent q n x d)
  unfolding run_handler
  run_handler-IsSettled m parent q n x d h =
      let p = played q.delegation_id n (m.body x q) d in
      let open_still = played-IsOpen q.delegation_id q.delegation_id n (m.body x q) d h in
      let result = concluded q.delegation_id parent.identity.task_id p.1.store p.0 in
      let ids = concluded-ids q.delegation_id parent.identity.task_id p.1.store p.0 in
      let (w, e, over) = close_child-closed result p.1.workspace in
      rw (run_handler, e)
        (finish_delegation-IsSettled m parent q.target q.delegation_id result
          (record { store = p.1.store; run = w.run; child = some w.child }) open_still ids.0 ids.1
          over)

  delegate_granted-IsSettled :
      (m : DelegationManager W) (parent : KernelSession) (q : DelegationRequest) (drawn : Drawn)
      (d : Delegated W)
      → IsOpen q.delegation_id d.store
      → IsOver d.child
      → IsSettled parent q.target q.delegation_id (delegate_granted m parent q drawn d)
  unfolding delegate_granted
  delegate_granted-IsSettled m parent q drawn d h over =
      elim (Result-cases (child_for m parent q drawn d.run)) [
        | inl (x, e) ↦
            rw (delegate_granted, e)
              (finish_delegation-IsSettled m parent q.target q.delegation_id _ d h refl refl over)
        | inr (x, e) ↦
            rw (delegate_granted, e)
              (run_handler-IsSettled m parent q q.policy.max_steps x.0
                (record { store = d.store; workspace = x.1 }) h)
      ]

  starting-IsSettled :
      (parent : KernelSession) (q : DelegationRequest) (d : Delegated W)
      (next : Delegated W → Result DelegationResult × Delegated W)
      → Dict.has_key d.store.requests q.delegation_id ≡ false
      → Dict.lookup q.delegation_id d.store.results ≡ none
      → IsOver d.child
      → ((e : Delegated W)
          → IsOpen q.delegation_id e.store
          → IsOver e.child
          → IsSettled parent q.target q.delegation_id (next e))
      → IsSettled parent q.target q.delegation_id (starting parent q d next)
  unfolding starting
  starting-IsSettled parent q d next fresh free over settles =
      let (s, e, h) = start-IsOpen q d.store fresh free in
      rw (starting, e) (settles (record d { store = s; run = _ }) h over)

-- A delegation by an active parent, to a target and with an objective that are not empty, under an
-- identifier that the store does not know yet, always comes to its end, whether its policy is
-- refused, nobody takes the target, the child is refused, or the handler raises, reports too much
-- or returns what does not match: a result with the identifiers of the delegation and of the
-- parent's task is returned and recorded in the store, "delegation.finished" is the last event, and
-- no child is left active. The handler is one that ends.
pub delegate-IsSettled :
    {W : Type 0} (m : DelegationManager W) (parent : KernelSession) (target : String)
    (spec : DelegationSpec) (policy : Option DelegationPolicy) (i : String) (drawn : Drawn)
    (store : DelegationStore) (run : KernelRun W)
    → is_active parent ≡ true
    → not_blank target ≡ true
    → not_blank spec.objective ≡ true
    → Dict.has_key store.requests i ≡ false
    → Dict.lookup i store.results ≡ none
    → IsSettled parent target i (delegate m parent target spec policy i drawn store run)
unfolding delegate
delegate-IsSettled {W = W} m parent target spec policy i drawn store run active named aimed fresh
      free =
    elim (Result-cases (validate m.policy (parent_of parent) policy)) [
      | inl (x, e) ↦
          let q = request_for parent target spec (policy_or_default policy) i in
          let r = bare_result i parent.identity.task_id rejected [] (m.runtime.message x) in
          rw (delegate, active, named, aimed, e)
            (starting-IsSettled parent q d (finish_delegation m parent target r) fresh free tt
              (λ d h over. finish_delegation-IsSettled m parent target i r d h refl refl over))
      | inr (granted, e) ↦
          let q = request_for parent target spec granted i in
          rw (delegate, active, named, aimed, e)
            (starting-IsSettled parent q d (delegate_granted m parent q drawn) fresh free tt
              (λ d h over. delegate_granted-IsSettled m parent q drawn d h over))
    ]
  where
    d : Delegated W
    d = record { store = store; run = run; child = none }
