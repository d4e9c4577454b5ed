-- ===== src/Core/Session.antt =====
-- core/session.py: the operations of sessions over one shared kernel. What `uuid4` draws is an
-- argument.
pub mod Scope
pub mod System
pub mod Frozen
pub mod Governed
pub mod Unregistered
use hex_agent.Base.{
  ℕ, ◌+◌, String, Bool, true, false, not, ◌&&◌, Option, none, some, List, [], ◌∷◌, map, not_blank,
}
use hex_agent.Base.{if◌then◌else◌, ◌==◌}
use hex_agent.Base.Dict
use hex_agent.Base.Dict.{Dict}
use hex_agent.Base.Int.{ℤ, pos}
use hex_agent.Base.Result.{Result, ok, err, ◌>>=◌, runtime_error, value_error, permission_error}
use hex_agent.Value.{
  Value, null, bool, num, str, obj, Fields, end, field, set, merge, optional_text,
}
use hex_agent.Core.Schemas.{is_subset}
use hex_agent.Core.Envelope.{ToolCallContext, event_fields}
use hex_agent.Core.Registry.{CapabilityRegistry, list_tools}
use hex_agent.Core.Kernel.{Runtime, KernelRun, AgentKernel, publish, freeze_kernel}
use hex_agent.Core.Kernel
use hex_agent.Core.Identity.{
  TaskEnvelope, Stored, SessionIdentity, identity_as_dict, KernelSession, holds_task, is_active,
  call_context, closed_envelope, set_state, task_outcome, completed_session, RootRequest,
  ChildRequest, text_or, Drawn, session_with, root_session, child_session, child_scope, task, json,
}

module _ {W : Type 0} where
  -- `execute_tool` of a session
  unfoldable pub session_execute :
      Runtime
      → AgentKernel W
      → KernelSession
      → String
      → Fields
      → String
      → KernelRun W
      → Result Fields × KernelRun W
  unfolding is_active closed_envelope Kernel.execute_tool call_context
  session_execute t k s tool_name args request_id r = elim (is_active s) [
    | false ↦ (ok (closed_envelope s tool_name), r)
    | true ↦ Kernel.execute_tool t k tool_name args (some (call_context s)) request_id r
  ]

  unfoldable pub complete_task :
      Value → String → KernelSession → KernelRun W → Result (Fields × KernelSession × KernelRun W)
  unfolding is_active set_state publish event_fields call_context
  complete_task result status s r = elim (is_active s) [
    | false ↦ err runtime_error
    | true ↦
        let outcome = task_outcome s result status in
        ok (
          outcome,
          completed_session outcome s,
          publish (if status == "completed" then "task.completed" else "task.failed")
              (set "status" (str status) (event_fields (call_context s))) r,
        )
  ]

  -- `fail_task`, with no further fields
  unfoldable pub fail_task :
      String → KernelSession → KernelRun W → Result (Fields × KernelSession × KernelRun W)
  unfolding complete_task
  fail_task reason = complete_task (obj (field "reason" (str reason) end)) "failed"

  abbrev pub tool_names : AgentKernel W → List String
  tool_names k = map (λ item. item.0) (list_tools k.registry)

  unfoldable pub effective_root_scope : AgentKernel W → Option (List String) → Result (List String)
  unfolding list_tools
  effective_root_scope k none = ok (tool_names k)
  effective_root_scope k (some requested) =
      if is_subset requested (tool_names k) then ok requested else err value_error

  unfoldable pub accepted : KernelSession → KernelRun W → KernelRun W
  unfolding publish event_fields call_context
  accepted s r = publish "task.accepted" (event_fields (call_context s)) r

  -- With a scope that is refused, the kernel is left unfrozen.
  unfoldable pub create_root :
      RootRequest
      → Drawn
      → AgentKernel W
      → KernelRun W
      → Result (KernelSession × AgentKernel W × KernelRun W)
  unfolding effective_root_scope freeze_kernel root_session accepted
  create_root q drawn k r = effective_root_scope k q.allowed_capabilities >>= λ scope.
      let s = root_session q drawn scope in ok (s, freeze_kernel k, accepted s r)

  unfoldable pub create_child :
      ChildRequest → Drawn → KernelSession → KernelRun W → Result (KernelSession × KernelRun W)
  unfolding is_active child_session accepted
  create_child q drawn parent r = elim (is_active parent) [
    | false ↦ err runtime_error
    | true ↦
        let scope = child_scope parent q.requested_scope in
        if is_subset scope parent.allowed_capabilities
        then (let s = child_session parent q drawn scope in ok (s, accepted s r))
        else err permission_error
  ]

  -- `restore` of a persisted session; the kernel is frozen in any case.
  unfoldable pub restore :
      SessionIdentity
      → Dict Stored
      → List String
      → AgentKernel W
      → Result KernelSession × AgentKernel W
  unfolding freeze_kernel
  restore identity state scope k =
      let k₁ = freeze_kernel k in
      (
        if is_subset scope (tool_names k₁)
            then ok (record {
              identity = identity;
              state = state;
              allowed_capabilities = scope;
              closed = not (holds_task (Dict.lookup "current_task" state));
            })
            else err value_error,
        k₁,
      )
