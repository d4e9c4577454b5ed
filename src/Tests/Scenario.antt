-- ===== src/Tests/Scenario.antt =====
-- The concrete world of the examples: one developer, a department "build" of two, two rounds.
use hex_agent.Base.{ℕ, zero, suc, ◌==◌, String, false, none, some, List, [], ◌∷◌}
use hex_agent.Base.{if◌then◌else◌}
use hex_agent.Base.Result.{err, type_error, ok}
use hex_agent.Value.{str, arr, obj, nil, cons, Fields, end, field, Python}
use hex_agent.Core.Schemas.{Outcome, DelegationResult}
use hex_agent.Control.Command.{Stamp}
use hex_agent.Control.CommandRegistry.{Registry}
use hex_agent.Supervisor.State.{TaskLoopState, TaskLoopStatus, AcceptanceCheck, CheckStatus}
use hex_agent.Supervisor.Contracts.{AgentAssignment, OrchestratorDecision, DecisionKind}
use hex_agent.Supervisor.Ports.{Ports, Run, AgentRegistry}
use hex_agent.Supervisor.Loop.Drive.{Criterion, Identity}

abbrev pub py : Python
py = record { show = λ v. "value"; int_of_text = λ s. none; dict_of_list = λ xs. err type_error }

abbrev pub stamps : ℕ → Stamp
stamps n = record { hex = "c"; now = "now" }

abbrev pub commands_known : Registry
commands_known =
    (
      "AddAgentToLoop",
      record {
        command_type = "AddAgentToLoop";
        apply_at = "next_checkpoint";
        requires_permission = none;
      },
    )
    ∷ []

abbrev pub team_text : Fields
team_text = field "selected_agents" (arr (cons (obj (field "agent_id" (str "dev") end)) nil)) end

abbrev pub work_text : Fields
work_text = field "decision" (str "continue") (
    field "next_agent_calls"
      (arr (cons (obj (field "agent_id" (str "dev") (field "objective" (str "build it") end))) nil))
      end)

abbrev pub finish_text : Fields
finish_text = field "decision" (str "finished") (
    field "acceptance_status"
      (arr (
        cons
          (obj (
            field "id" (str "ac1") (
              field "status" (str "passed")
                (field "evidence_ids" (arr (cons (str "patch") nil)) end))))
          nil))
      end)

abbrev pub members : String → List String
members d = if d == "build" then "dev" ∷ "tester" ∷ [] else []

abbrev pub roles : AgentRegistry
roles = record {
  list_roles =
      record { agent_id = "dev"; role = "developer"; department = "build" }
      ∷ record { agent_id = "tester"; role = "tester"; department = "build" }
      ∷ [];
  members_of = members;
  departments = ("build", "dev" ∷ "tester" ∷ []) ∷ [];
}

abbrev pub delivered : DelegationResult
delivered = record {
  delegation_id = "d1";
  parent_task_id = "t1";
  outcome = Outcome.success;
  artifacts =
      record { artifact_id = "patch"; kind = "diff"; payload = end; schema_version = 1 } ∷ [];
  summary = end;
  error = none;
}

-- The texts of agent O, by the number of decisions so far.
abbrev said : ℕ → String
said zero = "work"
said (suc n) = "finish"

abbrev pub ports : Ports
ports = record {
  World = ℕ;
  compose_team = λ task catalog w. ("team", w);
  decide = λ view w. (said w, suc w);
  parse_json_object = λ s.
      if s == "team"
      then some team_text
      else if s == "work"
      then some work_text
      else if s == "finish"
      then some finish_text
      else none;
  write_packet = λ a slice w. (
    ok (record {
      target_agent_id = a.agent_id;
      objective = a.objective;
      briefing = "";
      source_ids = [];
      expected_output_schema = end;
    }),
    w,
  );
  delegate = λ agent spec policy w. (ok delivered, w);
  execute_tool = λ tool args w. (end, w);
  store_slice = λ a s. [];
  agent_registry = some roles;
  command_registry = commands_known;
  python = py;
  draw = stamps;
}

abbrev pub ac1 : AcceptanceCheck
ac1 = record { id = "ac1"; text = "it builds"; status = CheckStatus.pending; evidence_ids = [] }

abbrev pub board : TaskLoopState
board = record {
  session_id = "s1";
  task_id = "t1";
  status = TaskLoopStatus.team_selected;
  selected_agents = "dev" ∷ [];
  acceptance_checks = ac1 ∷ [];
  round_no = 0;
  max_rounds = 3;
  turns = [];
  artifacts = [];
  tool_results = [];
  final_output = none;
  reason = "";
  pending_commands = [];
  applied_command_keys = [];
}

abbrev pub begin : Run ℕ
begin = record { state = board; events = []; saved = []; draws = 0; parse_errors = 0; world = 0 }

abbrev pub me : Identity
me = record { session_id = "s1"; task_id = "t1" }

abbrev pub wanted : List Criterion
wanted = Criterion.check ac1 ∷ []

abbrev pub call : String → String → AgentAssignment
call agent kind = record {
  agent_id = agent;
  objective = "build it";
  scope_of_work = "";
  allowed_capabilities = "read" ∷ [];
  target_kind = kind;
}

abbrev pub decide_calls : List AgentAssignment → OrchestratorDecision
decide_calls calls = record {
  decision = DecisionKind.continue;
  next_agent_calls = calls;
  tool_requests = [];
  acceptance_status = [];
  progress_made = false;
  reason = "";
  final_output = none;
  commands = [];
}
