-- ===== src/Supervisor/Bridge.antt =====
-- supervisor/command_bridge.py: translating, queueing and applying the commands of agent O. A
-- queued command is kept as the `RuntimeCommand` whose `as_dict` the source stores.
pub mod Keys
pub mod Queueing
pub mod Intake
pub mod Queue
pub mod Applying
pub mod Checkpoint
use hex_agent.Base.{ℕ, suc, ◌+◌, String, ◌<>◌, ◌==◌, Bool, true, false, not, Option, none, some}
use hex_agent.Base.{List, [], ◌∷◌, ◌++◌, map, if◌then◌else◌, strip, not_blank, contains}
use hex_agent.Base.Dict
use hex_agent.Base.Result.{Result, ok, err, contract_error, ◌>>=◌}
use hex_agent.Value.{null, str, obj, Fields, end, field, get_or, str_of, dict_or_empty, Python}
use hex_agent.Control.Command.{Stamp, RuntimeCommand, parse_command}
use hex_agent.Control.CommandRegistry.{CommandTypeSpec, Registry}
use hex_agent.Supervisor.State.{TaskLoopState}

abbrev pub orchestrator_id : String
orchestrator_id = "orchestrator"

-- `str(payload.get("agent_id", "")).strip()`
unfoldable pub target_agent : Python → Fields → String
target_agent py payload = strip (str_of py (get_or "agent_id" (str "") payload))

unfoldable pub derive_idempotency_key : Python → String → Fields → String
derive_idempotency_key py command_type payload =
    let agent_id = target_agent py payload in
    if not_blank agent_id then command_type <> ":" <> agent_id else command_type

-- The key of a command: the one that it carries, or the derived one.
unfoldable pub command_key : Python → Fields → String → Fields → String
unfolding derive_idempotency_key
command_key py raw command_type payload =
    let given = strip (str_of py (get_or "idempotency_key" (str "") raw)) in
    if not_blank given then given else derive_idempotency_key py command_type payload

-- The mapping that is handed to `parse_command`; agent O is always the issuer.
unfoldable pub candidate : String → String → String → Fields → Fields
candidate command_type session_id key payload = field "command_type" (str command_type) (
    field "session_id" (str session_id) (
      field "issued_by"
        (obj (field "type" (str "agent") (field "agent_id" (str orchestrator_id) end)))
        (field "idempotency_key" (str key) (field "payload" (obj payload) end))))

unfoldable pub to_runtime_command : Python → Stamp → String → Fields → Result RuntimeCommand
unfolding candidate
to_runtime_command py stamp session_id raw =
    let command_type = strip (str_of py (get_or "command_type" (str "") raw)) in
    if not (not_blank command_type)
    then err contract_error
    else (dict_or_empty py (get_or "payload" null raw) >>= λ payload.
        parse_command py stamp
          (candidate command_type session_id (command_key py raw command_type payload) payload))

unfoldable pub queued_keys : List RuntimeCommand → List String
queued_keys = map (λ c. c.idempotency_key)

-- The variables of the loop in `enqueue_commands`.
pub record Enqueue : Type 0 where
  pub seen : List String
  pub pending : List RuntimeCommand
  pub added : ℕ

unfoldable pub push : RuntimeCommand → Enqueue → Enqueue
push cmd q = if contains q.seen cmd.idempotency_key then q else record {
  seen = cmd.idempotency_key ∷ q.seen;
  pending = q.pending ++ cmd ∷ [];
  added = q.added + 1;
}

-- `except ControlContractError: continue`; any other exception leaves the loop.
unfoldable pub push_result : Enqueue → Result RuntimeCommand → Result Enqueue
push_result q (ok cmd) = ok (push cmd q)
push_result q (err contract_error) = ok q
push_result q (err e) = err e

unfoldable pub enqueue_from :
    Python → (ℕ → Stamp) → String → List Fields → ℕ → Enqueue → Result Enqueue
enqueue_from py stamps session_id [] i q = ok q
enqueue_from py stamps session_id (raw ∷ rest) i q =
    push_result q (to_runtime_command py (stamps i) session_id raw) >>= λ q'.
    enqueue_from py stamps session_id rest (suc i) q'

-- The variables of the loop where it ends: after all commands, or before the one that raises.
unfoldable pub enqueue_so_far : Python → (ℕ → Stamp) → String → List Fields → ℕ → Enqueue → Enqueue
enqueue_so_far py stamps session_id [] i q = q
enqueue_so_far py stamps session_id (raw ∷ rest) i q =
    elim (push_result q (to_runtime_command py (stamps i) session_id raw)) [
      | err e ↦ q
      | ok q' ↦ enqueue_so_far py stamps session_id rest (suc i) q'
    ]

-- The queue that a call of `enqueue_commands` leaves, also when it raises.
unfoldable pub queue_so_far :
    Python → (ℕ → Stamp) → List Fields → TaskLoopState → List RuntimeCommand
unfolding enqueue_so_far queued_keys
queue_so_far py stamps commands s =
    (enqueue_so_far py stamps s.session_id commands 0 (record {
      seen = queued_keys s.pending_commands ++ s.applied_command_keys;
      pending = s.pending_commands;
      added = 0;
    })).pending

-- The new state, and how many commands were newly queued. `stamps i` is what the i-th command of
-- the call draws.
unfoldable pub enqueue_commands :
    Python → (ℕ → Stamp) → List Fields → TaskLoopState → Result (TaskLoopState × ℕ)
unfolding queued_keys
enqueue_commands py stamps commands s =
    enqueue_from py stamps s.session_id commands 0 (record {
      seen = queued_keys s.pending_commands ++ s.applied_command_keys;
      pending = s.pending_commands;
      added = 0;
    })
    >>= λ q. ok (record s { pending_commands = q.pending }, q.added)

-- What `apply_pending_commands` publishes.
pub data Notice : Type 0 where
  unknown_type : String → String → Notice
  non_agent_issuer : String → Notice
  not_at_checkpoint : String → Notice
  unsupported : String → String → Notice
  not_in_catalog : String → String → Notice
  agent_added : String → String → Notice

-- What the loop of `apply_pending_commands` changes.
pub record Roster : Type 0 where
  pub applied_keys : List String
  pub selected : List String
  pub growth : ℕ
  pub notices : List Notice

unfoldable pub notify : Notice → Roster → Roster
notify n r = record r { notices = r.notices ++ n ∷ [] }

-- Honoured: the key is recorded, and the roster grows if the agent is new.
unfoldable pub admit : String → String → Roster → Roster
admit key agent_id r =
    if contains r.selected agent_id
    then record r { applied_keys = r.applied_keys ++ key ∷ [] }
    else record {
      applied_keys = r.applied_keys ++ key ∷ [];
      selected = r.selected ++ agent_id ∷ [];
      growth = r.growth + 1;
      notices = r.notices ++ agent_added agent_id key ∷ [];
    }

-- The tests that follow the look-up of the command's type.
unfoldable pub apply_known :
    Python → List String → RuntimeCommand → CommandTypeSpec → Roster → Roster
unfolding notify admit
apply_known py catalog cmd spec r =
    let key = cmd.idempotency_key in
    if not (cmd.issued_by.type == "agent")
    then notify (non_agent_issuer key) r
    else if not (spec.apply_at == "next_checkpoint")
    then notify (not_at_checkpoint key) r
    else if not (cmd.command_type == "AddAgentToLoop")
    then notify (unsupported key cmd.command_type) r
    else if not (contains catalog (target_agent py cmd.payload))
    then notify (not_in_catalog key (target_agent py cmd.payload)) r
    else admit key (target_agent py cmd.payload) r

unfoldable pub apply_command : Python → Registry → List String → RuntimeCommand → Roster → Roster
unfolding apply_known
apply_command py registry catalog cmd r =
    if contains r.applied_keys cmd.idempotency_key
    then r
    else elim (Dict.lookup cmd.command_type registry) [
      | none ↦ notify (unknown_type cmd.idempotency_key cmd.command_type) r
      | some spec ↦ apply_known py catalog cmd spec r
    ]

unfoldable pub apply_all : Python → Registry → List String → List RuntimeCommand → Roster → Roster
apply_all py registry catalog [] r = r
apply_all py registry catalog (cmd ∷ rest) r =
    apply_all py registry catalog rest (apply_command py registry catalog cmd r)

abbrev pub roster_of : TaskLoopState → Roster
roster_of s = record {
  applied_keys = s.applied_command_keys;
  selected = s.selected_agents;
  growth = 0;
  notices = [];
}

-- The new state, the growth of the roster, and the events in order.
unfoldable pub apply_pending_commands :
    Python → Registry → List String → TaskLoopState → TaskLoopState × ℕ × List Notice
apply_pending_commands py registry catalog s =
    let r = apply_all py registry catalog s.pending_commands (roster_of s) in
    (
      record s {
        applied_command_keys = r.applied_keys;
        selected_agents = r.selected;
        pending_commands = [];
      },
      r.growth,
      r.notices,
    )
