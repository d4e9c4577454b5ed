-- ===== src/Core/Identity.antt =====
-- core/session.py: what a session holds, and the sessions that are made. The state of a session
-- holds JSON values, and task envelopes.
use hex_agent.Base.{
  ℕ, ◌+◌, String, Bool, true, false, not, ◌&&◌, Option, none, some, List, [], ◌∷◌, not_blank,
}
use hex_agent.Base.{if◌then◌else◌}
use hex_agent.Base.Dict
use hex_agent.Base.Dict.{Dict}
use hex_agent.Base.Int.{pos}
use hex_agent.Value.{Value, null, bool, num, str, obj, Fields, end, field, set, optional_text}
use hex_agent.Core.Envelope.{ToolCallContext, event_fields}

pub record TaskEnvelope : Type 0 where
  pub user_request : String
  pub context : Fields
  pub metadata : Fields
  pub task_id : String

-- What a key of a session's state holds.
pub data Stored : Type 0 where
  task : TaskEnvelope → Stored
  json : Value → Stored

pub record SessionIdentity : Type 0 where
  pub session_id : String
  pub run_id : String
  pub task_id : String
  pub agent_id : String
  pub parent_session_id : Option String
  pub delegation_id : Option String
  pub depth : ℕ

-- `SessionIdentity.as_dict`
unfoldable pub identity_as_dict : SessionIdentity → Fields
identity_as_dict i = field "session_id" (str i.session_id) (
    field "run_id" (str i.run_id) (
      field "task_id" (str i.task_id) (
        field "agent_id" (str i.agent_id) (
          field "parent_session_id" (optional_text i.parent_session_id) (
            field "delegation_id" (optional_text i.delegation_id)
              (field "depth" (num (pos i.depth)) end))))))

pub record KernelSession : Type 0 where
  pub identity : SessionIdentity
  pub state : Dict Stored
  pub allowed_capabilities : List String
  pub closed : Bool

abbrev pub holds_task : Option Stored → Bool
holds_task (some (task t)) = true
holds_task _ = false

unfoldable pub is_active : KernelSession → Bool
is_active s = not s.closed && holds_task (Dict.lookup "current_task" s.state)

unfoldable pub call_context : KernelSession → ToolCallContext
call_context s = record {
  run_id = some s.identity.run_id;
  task_id = some s.identity.task_id;
  session_id = some s.identity.session_id;
  parent_session_id = s.identity.parent_session_id;
  delegation_id = s.identity.delegation_id;
  actor_id = some s.identity.agent_id;
  allowed_capabilities = some s.allowed_capabilities;
}

-- The envelope of a call of a session that is not active.
unfoldable pub closed_envelope : KernelSession → String → Fields
unfolding call_context event_fields
closed_envelope s tool_name = field "ok" (bool false) (
    field "capability" (str tool_name) (
      field "feature" null (
        field "data" (obj end) (
          field "error" (str "Session is not active.") (
            field "metadata"
              (obj (set "session_closed" (bool true) (event_fields (call_context s)))) end)))))

-- `state.set`
unfoldable pub set_state : String → Stored → KernelSession → KernelSession
set_state key value s = record s { state = Dict.insert key value s.state }

abbrev pub task_outcome : KernelSession → Value → String → Fields
task_outcome s result status =
    field "task_id" (str s.identity.task_id)
      (field "status" (str status) (field "result" result end))

-- The session once its task is completed.
abbrev pub completed_session : Fields → KernelSession → KernelSession
completed_session outcome s =
    let noted = set_state "last_result" (json (obj outcome)) s in
    record (set_state "current_task" (json null) noted) { closed = true }

-- The parameters of `create_root`
pub record RootRequest : Type 0 where
  pub user_request : String
  pub context : Fields
  pub run_id : Option String
  pub agent_id : String
  pub allowed_capabilities : Option (List String)
  pub task_id : Option String

-- The parameters of `create_child`
pub record ChildRequest : Type 0 where
  pub delegation_id : String
  pub target : String
  pub user_request : String
  pub context : Fields
  pub requested_scope : Option (List String)

-- `name or default`
abbrev pub text_or : Option String → String → String
text_or none default = default
text_or (some s) default = if not_blank s then s else default

-- The identifiers that are drawn for a new session.
pub record Drawn : Type 0 where
  pub task_id : String
  pub session_id : String

abbrev pub session_with : TaskEnvelope → SessionIdentity → List String → KernelSession
session_with t identity scope = record {
  identity = identity;
  state = ("current_task", task t) ∷ [];
  allowed_capabilities = scope;
  closed = false;
}

unfoldable pub root_session : RootRequest → Drawn → List String → KernelSession
root_session q drawn scope =
    let t : TaskEnvelope = record {
      user_request = q.user_request;
      context = q.context;
      metadata = end;
      task_id = text_or q.task_id drawn.task_id;
    } in
    session_with t
      (record {
        session_id = drawn.session_id;
        run_id = text_or q.run_id t.task_id;
        task_id = t.task_id;
        agent_id = q.agent_id;
        parent_session_id = none;
        delegation_id = none;
        depth = 0;
      })
      scope

unfoldable pub child_session : KernelSession → ChildRequest → Drawn → List String → KernelSession
child_session parent q drawn scope =
    session_with
      (record {
        user_request = q.user_request;
        context = q.context;
        metadata =
            field "parent_session_id" (str parent.identity.session_id)
              (field "delegation_id" (str q.delegation_id) end);
        task_id = drawn.task_id;
      })
      (record {
        session_id = drawn.session_id;
        run_id = parent.identity.run_id;
        task_id = drawn.task_id;
        agent_id = q.target;
        parent_session_id = some parent.identity.session_id;
        delegation_id = some q.delegation_id;
        depth = parent.identity.depth + 1;
      })
      scope

-- The scope of a child: the parent's if none is asked for.
abbrev pub child_scope : KernelSession → Option (List String) → List String
child_scope parent none = parent.allowed_capabilities
child_scope parent (some scope) = scope
