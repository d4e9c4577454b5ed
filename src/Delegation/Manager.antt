-- ===== src/Delegation/Manager.antt =====
-- delegation/manager.py: one delegation, from its request to its recorded result. `uuid4` and the
-- equality of dataclasses are arguments.
pub mod Open
pub mod Settled
pub mod Steps
use hex_agent.Base.{
  ℕ, ◌+◌, String, ◌==◌, not_blank, Bool, true, false, not, Option, none, some, List, [], ◌∷◌, ◌++◌,
  map, contains, ltb,
}
use hex_agent.Base.{if◌then◌else◌, length}
use hex_agent.Base.Int.{pos}
use hex_agent.Base.Result.{
  Result, Error, ok, err, value_error, runtime_error, permission_error, ◌>>=◌,
}
use hex_agent.Value.{Value, num, str, obj, Fields, end, field, set, merge, optional_text}
use hex_agent.Core.Envelope.{event_fields}
use hex_agent.Core.Schemas.{
  DelegationSpec, DelegationPolicy, DelegationResult, ArtifactEnvelope, Outcome, success, failed,
  rejected, outcome_text,
}
use hex_agent.Core.Codecs.{policy_as_dict, artifact_as_dict, delegation_result_as_dict}
use hex_agent.Core.Kernel.{Runtime, KernelRun, publish}
use hex_agent.Core.Identity.{
  KernelSession, ChildRequest, Drawn, Stored, json, is_active, call_context, set_state,
}
use hex_agent.Core.Session.{complete_task, fail_task, create_child}
use hex_agent.Delegation.Policy.{DelegationPolicyEngine, ParentSession, validate, policy_or_default}
use hex_agent.Delegation.Targets.{DelegationHandler, DelegationRegistry, resolve}
use hex_agent.Delegation.Store.{
  DelegationRequest, DelegationProgress, DelegationStore, ProgressStatus, start, append_progress,
  finish, progress_of,
}
use hex_agent.Delegation.Handling.{
  Workspace, Play, DelegationManager, DelegationRun, status_text, delegation_event, progress_event,
  bare_result, progress_artifacts, unseen, checked_result, failure_reason, rejected_or_failed,
  parent_of, Ending, concluded, Delegated, finished_event, request_for, returns, raises, reports,
  works, result_given, exception,
}

module _ {W : Type 0} where
  -- `progress_sink`, with what it raises
  unfoldable pub progress_sink :
      String → ℕ → DelegationProgress → DelegationRun W → Option Error × DelegationRun W
  unfolding append_progress publish progress_event
  progress_sink delegation_id max_steps p d =
      if not (p.delegation_id == delegation_id)
      then (some value_error, d)
      else if ltb max_steps p.sequence
      then (some value_error, d)
      else elim (append_progress p d.store) [
        | err e ↦ (some e, d)
        | ok store ↦ (
          none,
          record {
            store = store;
            workspace = record d.workspace {
              run =
                  publish "delegation.progress" (progress_event d.workspace.child p)
                    d.workspace.run;
            };
          },
        )
      ]

  -- `handler.run`, up to its end
  unfoldable pub played : String → ℕ → Play W → DelegationRun W → Ending × DelegationRun W
  unfolding progress_sink
  played delegation_id max_steps (returns r) d = (result_given r, d)
  played delegation_id max_steps (raises text) d = (exception text, d)
  played delegation_id max_steps (reports p next) d =
      let (raised, d') = progress_sink delegation_id max_steps p d in
      played delegation_id max_steps (next raised) d'
  played delegation_id max_steps (works change next) d =
      let w = change d.workspace in
      played delegation_id max_steps (next w) (record d { workspace = w })

  -- How a task ends that its handler has left open.
  unfoldable pub end_task :
      Outcome → DelegationResult → Workspace W → Result (Fields × KernelSession × KernelRun W)
  unfolding complete_task fail_task delegation_result_as_dict
  end_task success result w =
      complete_task (obj (delegation_result_as_dict result)) "completed" w.child w.run
  end_task _ result w = fail_task (failure_reason result) w.child w.run

  unfoldable pub close_child : DelegationResult → Workspace W → Result (Workspace W)
  unfolding is_active end_task
  close_child result w =
      if not (is_active w.child)
      then ok w
      else (end_task result.outcome result w >>= λ x. ok (record { child = x.1; run = x.2 }))

  -- `_finish`
  unfoldable pub finish_delegation :
      DelegationManager W
      → KernelSession
      → String
      → DelegationResult
      → Delegated W
      → Result DelegationResult × Delegated W
  unfolding finish publish finished_event
  finish_delegation m parent target result d = elim (finish m.equal result d.store) [
    | err e ↦ (err e, d)
    | ok store ↦ (
      ok result,
      record d {
        store = store;
        run = publish "delegation.finished" (finished_event parent target result) d.run;
      },
    )
  ]

  -- From a child that is ready to the end.
  unfoldable pub run_handler :
      DelegationManager W
      → KernelSession
      → DelegationRequest
      → ℕ
      → DelegationHandler
      → DelegationRun W
      → Result DelegationResult × Delegated W
  unfolding played concluded close_child finish_delegation
  run_handler m parent request max_steps handler d =
      let (ending, d₁) = played request.delegation_id max_steps (m.body handler request) d in
      let result = concluded request.delegation_id parent.identity.task_id d₁.store ending in
      elim (close_child result d₁.workspace) [
        | err e ↦ (
          err e,
          record { store = d₁.store; run = d₁.workspace.run; child = some d₁.workspace.child },
        )
        | ok w ↦
            finish_delegation m parent request.target result
              (record { store = d₁.store; run = w.run; child = some w.child })
      ]

  -- The handler and the child of a delegation, with the policy in the child's state.
  unfoldable pub child_for :
      DelegationManager W
      → KernelSession
      → DelegationRequest
      → Drawn
      → KernelRun W
      → Result (DelegationHandler × Workspace W)
  unfolding resolve create_child set_state policy_as_dict
  child_for m parent request drawn run = resolve request.target m.registry >>= λ handler.
      create_child
        (record {
          delegation_id = request.delegation_id;
          target = request.target;
          user_request = request.spec.objective;
          context = request.spec.input_context;
          requested_scope = some request.policy.allowed_capabilities;
        })
        drawn parent run
      >>= λ x. ok (
        handler,
        record {
          child = set_state "delegation_policy" (json (obj (policy_as_dict request.policy))) x.0;
          run = x.1;
        },
      )

  -- A delegation whose policy was granted, once it has started.
  unfoldable pub delegate_granted :
      DelegationManager W
      → KernelSession
      → DelegationRequest
      → Drawn
      → Delegated W
      → Result DelegationResult × Delegated W
  unfolding child_for finish_delegation run_handler
  delegate_granted m parent request drawn d = elim (child_for m parent request drawn d.run) [
    | err e ↦
        finish_delegation m parent request.target
          (bare_result request.delegation_id parent.identity.task_id (rejected_or_failed e) []
            (m.runtime.message e))
          d
    | ok x ↦
        run_handler m parent request request.policy.max_steps x.0
          (record { store = d.store; workspace = x.1 })
  ]

  -- `store.start` with its event, and then the rest.
  unfoldable pub starting :
      KernelSession
      → DelegationRequest
      → Delegated W
      → (Delegated W → Result DelegationResult × Delegated W)
      → Result DelegationResult × Delegated W
  unfolding start publish delegation_event
  starting parent request d next = elim (start request d.store) [
    | err e ↦ (err e, d)
    | ok store ↦ next (record d {
      store = store;
      run =
          publish "delegation.started"
            (delegation_event parent request.delegation_id request.target) d.run;
    })
  ]

  unfoldable pub delegate :
      DelegationManager W
      → KernelSession
      → String
      → DelegationSpec
      → Option DelegationPolicy
      → String
      → Drawn
      → DelegationStore
      → KernelRun W
      → Result DelegationResult × Delegated W
  unfolding is_active validate starting finish_delegation delegate_granted
  delegate m parent target spec policy delegation_id drawn store run =
      let d : Delegated W = record { store = store; run = run; child = none } in
      if not (is_active parent)
      then (err runtime_error, d)
      else if not (not_blank target)
      then (err value_error, d)
      else if not (not_blank spec.objective)
      then (err value_error, d)
      else elim (validate m.policy (parent_of parent) policy) [
        | err e ↦
            let request = request_for parent target spec (policy_or_default policy) delegation_id in
            starting parent request d (
              finish_delegation m parent target (
                bare_result delegation_id parent.identity.task_id rejected []
                  (m.runtime.message e)))
        | ok granted ↦
            let request = request_for parent target spec granted delegation_id in
            starting parent request d (delegate_granted m parent request drawn)
      ]
