-- ===== src/Supervisor/Ports.antt =====
-- What the task loop calls and does not implement, and the state that a run carries. `World` is
-- the state of everything behind the ports: the kernel, the model, the delegated sessions.
use hex_agent.Base.{ℕ, String, Option, List}
use hex_agent.Base.Dict.{Dict}
use hex_agent.Base.Result.{Result}
use hex_agent.Value.{Value, Fields, Python}
use hex_agent.Core.Schemas.{DelegationSpec, DelegationPolicy, DelegationResult, Outcome}
use hex_agent.Control.Command.{Stamp}
use hex_agent.Control.CommandRegistry.{Registry}
use hex_agent.Supervisor.State.{TaskLoopState, AcceptanceCheck, AgentTurn, TaskLoopStatus}
use hex_agent.Supervisor.Contracts.{AgentAssignment, ContextPacket, DecisionKind}
use hex_agent.Supervisor.Bridge.{Notice}

-- An item of the slice that the Broker may ground a briefing in.
pub record SliceItem : Type 0 where
  pub id : String
  pub text : String

pub record RoleRow : Type 0 where
  pub agent_id : String
  pub role : String
  pub department : String

-- roles/registry.py, as far as the loop reads it.
pub record AgentRegistry : Type 0 where
  pub list_roles : List RoleRow
  pub members_of : String → List String
  pub departments : Dict (List String)

-- What agent O is shown before it decides (`_state_view`).
pub record StateView : Type 0 where
  pub round_no : ℕ
  pub selected_agents : List String
  pub acceptance : List AcceptanceCheck
  pub recent_turns : List AgentTurn
  pub artifact_ids : List String
  pub pending_commands : List (String × Value)
  pub departments : Dict (List String)

pub data Event : Type 0 where
  team_composed : List String → Event
  parse_error : ℕ → ℕ → Event
  decision_made : ℕ → DecisionKind → Event
  department_rejected : String → Event
  registry_missing : String → Event
  department_expanded : List String → List String → List String → Event
  turn_done : String → Outcome → Event
  tool_done : String → Value → Event
  command_notice : Notice → Event
  roster_growth_starved : ℕ → ℕ → Event
  terminated : TaskLoopStatus → String → ℕ → Event

pub record Ports : Type 1 where
  pub World : Type 0
  -- the orchestrator (`OrchestratorPort`): raw text
  pub compose_team : String → List RoleRow → World → String × World
  pub decide : StateView → World → String × World
  -- discipline/json_gate.py: `parse_json_object`, with none for a JsonGateError
  pub parse_json_object : String → Option Fields
  -- the Context Broker (`BrokerPort`)
  pub write_packet : AgentAssignment → List SliceItem → World → Result ContextPacket × World
  -- `DelegationServicePort.delegate` for the supervisor's session
  pub delegate :
      String → DelegationSpec → DelegationPolicy → World → Result DelegationResult × World
  -- `KernelSession.execute_tool` of the supervisor's session: an envelope
  pub execute_tool : String → Fields → World → Fields × World
  pub store_slice : AgentAssignment → TaskLoopState → List SliceItem
  pub agent_registry : Option AgentRegistry
  pub command_registry : Registry
  pub python : Python
  -- the n-th draw of `uuid4` and of the clock
  pub draw : ℕ → Stamp

-- A run: the Blackboard, the events and the checkpoints that were saved, oldest first, the number
-- of draws, the parse errors of the budget, and the world.
pub record Run (W : Type 0) : Type 0 where
  pub state : TaskLoopState
  pub events : List Event
  pub saved : List TaskLoopState
  pub draws : ℕ
  pub parse_errors : ℕ
  pub world : W
