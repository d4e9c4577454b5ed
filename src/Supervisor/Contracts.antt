-- ===== src/Supervisor/Contracts.antt =====
-- supervisor/contracts.py: what agent O and the Context Broker emit, and the parsers of agent O's
-- answers. The parsers start at the object that `parse_json_object` has recovered.
pub mod WellFormed
use hex_agent.Base.{String, ◌==◌, Bool, true, false, not, Option, none, some, List, [], ◌∷◌, map}
use hex_agent.Base.{if◌then◌else◌, strip, not_blank, contains}
use hex_agent.Base.Result.{Result, ok, err, json_gate_error, ◌>>=◌}
use hex_agent.Value.{Value, null, bool, str, arr, obj, Fields, end, get_or, truthy, str_of, to_list}
use hex_agent.Value.{texts_of, Python}

pub record AgentSelection : Type 0 where
  pub agent_id : String
  pub reason : String

pub data DecisionKind : Type 0 where
  continue need_tool finished blocked failed : DecisionKind

-- `VALID_DECISIONS`
unfoldable pub decision_kind : String → Option DecisionKind
decision_kind s =
    if s == "continue"
    then some DecisionKind.continue
    else if s == "need_tool"
    then some DecisionKind.need_tool
    else if s == "finished"
    then some DecisionKind.finished
    else if s == "blocked"
    then some DecisionKind.blocked
    else if s == "failed"
    then some DecisionKind.failed
    else none

abbrev pub valid_target_kinds : List String
valid_target_kinds = "agent" ∷ "department" ∷ []

pub record AgentAssignment : Type 0 where
  pub agent_id : String
  pub objective : String
  pub scope_of_work : String
  pub allowed_capabilities : List String
  pub target_kind : String

pub record OrchestratorDecision : Type 0 where
  pub decision : DecisionKind
  pub next_agent_calls : List AgentAssignment
  pub tool_requests : List Fields
  pub acceptance_status : List Fields
  pub progress_made : Bool
  pub reason : String
  pub final_output : Option Fields
  pub commands : List Fields

pub record ContextPacket : Type 0 where
  pub target_agent_id : String
  pub objective : String
  pub briefing : String
  pub source_ids : List String
  pub expected_output_schema : Fields

-- The rows of `selected_agents` that are mappings with an `agent_id`.
unfoldable pub parse_selections : Python → List Value → List AgentSelection
parse_selections py [] = []
parse_selections py (obj r ∷ rest) =
    let more = parse_selections py rest in
    if truthy (get_or "agent_id" null r)
    then (record {
      agent_id = str_of py (get_or "agent_id" (str "") r);
      reason = str_of py (get_or "reason" (str "") r);
    })
      ∷ more
    else more
parse_selections py (_ ∷ rest) = parse_selections py rest

abbrev some_selected : List AgentSelection → Result (List AgentSelection)
some_selected [] = err json_gate_error
some_selected (x ∷ xs) = ok (x ∷ xs)

abbrev selection_rows : Value → Result (List Value)
selection_rows (arr items) = ok (to_list items)
selection_rows _ = err json_gate_error

-- An empty `selected_agents` list is refused with the rest: no row of it is selected.
unfoldable pub parse_session_plan : Python → Fields → Result (List AgentSelection)
unfolding parse_selections
parse_session_plan py d = selection_rows (get_or "selected_agents" null d) >>= λ rows.
    some_selected (parse_selections py rows)

-- `_require_list`
unfoldable pub require_list : Fields → String → Result (List Value)
require_list d key = elim (get_or key null d) [
  | null ↦ ok []
  | arr items ↦ ok (to_list items)
  | _ ↦ err json_gate_error
]

-- `isinstance(v, dict)`, with the mapping
abbrev pub as_mapping : Value → Result Fields
as_mapping (obj d) = ok d
as_mapping _ = err json_gate_error

unfoldable pub parse_call : Python → Fields → Result AgentAssignment
parse_call py c =
    let agent_id = strip (str_of py (get_or "agent_id" (str "") c)) in
    let objective = strip (str_of py (get_or "objective" (str "") c)) in
    let target_kind = str_of py (get_or "target_kind" (str "agent") c) in
    if not (not_blank agent_id)
    then err json_gate_error
    else if not (not_blank objective)
    then err json_gate_error
    else if not (contains valid_target_kinds target_kind)
    then err json_gate_error
    else (texts_of py (get_or "allowed_capabilities" null c) >>= λ capabilities. ok (record {
      agent_id = agent_id;
      objective = objective;
      scope_of_work = str_of py (get_or "scope_of_work" (str "") c);
      allowed_capabilities = capabilities;
      target_kind = target_kind;
    }))

unfoldable pub parse_calls : Python → List Value → Result (List AgentAssignment)
parse_calls py [] = ok []
parse_calls py (v ∷ rest) = do
  c ← as_mapping v
  call ← parse_call py c
  calls ← parse_calls py rest
  ok (call ∷ calls)

unfoldable pub parse_tool : Python → Fields → Result Fields
parse_tool py t =
    if not (not_blank (strip (str_of py (get_or "tool" (str "") t))))
    then err json_gate_error
    else (as_mapping (get_or "args" (obj end) t) >>= λ _. ok t)

unfoldable pub parse_tools : Python → List Value → Result (List Fields)
parse_tools py [] = ok []
parse_tools py (v ∷ rest) = do
  t ← as_mapping v
  tool ← parse_tool py t
  tools ← parse_tools py rest
  ok (tool ∷ tools)

unfoldable pub mappings_only : List Value → List Fields
mappings_only [] = []
mappings_only (obj d ∷ rest) = d ∷ mappings_only rest
mappings_only (_ ∷ rest) = mappings_only rest

unfoldable pub parse_commands : Python → List Value → Result (List Fields)
parse_commands py [] = ok []
parse_commands py (v ∷ rest) = do
  cmd ← as_mapping v
  named ←
      (if not_blank (strip (str_of py (get_or "command_type" (str "") cmd)))
        then ok cmd
        else err json_gate_error)
  cmds ← parse_commands py rest
  ok (named ∷ cmds)

abbrev pub kind_or_raise : Option DecisionKind → Result DecisionKind
kind_or_raise none = err json_gate_error
kind_or_raise (some k) = ok k

abbrev pub mapping_or_none : Value → Option Fields
mapping_or_none (obj d) = some d
mapping_or_none _ = none

unfoldable pub parse_decision : Python → Fields → Result OrchestratorDecision
unfolding decision_kind require_list parse_calls parse_tools mappings_only parse_commands
parse_decision py d = do
  kind ← kind_or_raise (decision_kind (str_of py (get_or "decision" (str "") d)))
  call_rows ← require_list d "next_agent_calls"
  calls ← parse_calls py call_rows
  tool_rows ← require_list d "tool_requests"
  tools ← parse_tools py tool_rows
  acceptance_rows ← require_list d "acceptance_status"
  command_rows ← require_list d "commands"
  commands ← parse_commands py command_rows
  ok (record {
    decision = kind;
    next_agent_calls = calls;
    tool_requests = tools;
    acceptance_status = mappings_only acceptance_rows;
    progress_made = truthy (get_or "progress_made" (bool false) d);
    reason = str_of py (get_or "reason" (str "") d);
    final_output = mapping_or_none (get_or "final_output" null d);
    commands = commands;
  })
