-- ===== src/Supervisor/Compose.antt =====
-- `compose_team` of supervisor/graph.py: agent O picks the team, from the catalog of roles.
pub mod Selection
use hex_agent.Base.{
  String, Bool, true, false, ◌||◌, ◌&&◌, not, Option, none, some, List, [], ◌∷◌, map,
}
use hex_agent.Base.{if◌then◌else◌, contains, is_some}
use hex_agent.Base.Result.{Result, ok, err, value_error, json_gate_error, ◌>>=◌}
use hex_agent.Value.{Items, nil, cons, str, arr, obj, Fields, end, field}
use hex_agent.Supervisor.State.{TaskLoopState, TaskLoopStatus, add_artifact}
use hex_agent.Supervisor.Contracts.{AgentSelection, parse_session_plan}
use hex_agent.Supervisor.Ports.{Ports, Run, RoleRow, team_composed}
use hex_agent.Supervisor.Run.{Effect, emit, after, next_id}

-- `SessionPlan.agent_ids`
unfoldable pub agent_ids : List AgentSelection → List String
agent_ids = map (λ a. a.agent_id)

abbrev selection_rows : List AgentSelection → Items
selection_rows [] = nil
selection_rows (a ∷ rest) =
    cons (obj (field "agent_id" (str a.agent_id) (field "reason" (str a.reason) end)))
      (selection_rows rest)

-- `{"kind": "session_plan", **plan.as_dict()}`
unfoldable pub plan_artifact : List AgentSelection → Fields
plan_artifact plan =
    field "kind" (str "session_plan") (field "selected_agents" (arr (selection_rows plan)) end)

-- Some id occurs twice: `duplicates` is not empty.
unfoldable pub has_duplicates : List String → Bool
has_duplicates [] = false
has_duplicates (a ∷ rest) = contains rest a || has_duplicates rest

-- Every id is in the catalog, if there is one: `unknown` is empty.
unfoldable pub all_in_catalog : List String → List String → Bool
all_in_catalog [] ids = true
all_in_catalog (c ∷ cs) [] = true
all_in_catalog (c ∷ cs) (a ∷ rest) = contains (c ∷ cs) a && all_in_catalog (c ∷ cs) rest

module _ (p : Ports) where
  unfoldable pub role_catalog : List RoleRow
  role_catalog = elim p.agent_registry [ none ↦ [] | some registry ↦ registry.list_roles ]

  unfoldable pub catalog_ids : List String
  unfolding role_catalog
  catalog_ids = map (λ row. row.agent_id) role_catalog

  -- The checks precede every change of the Blackboard.
  unfoldable pub select_team : List AgentSelection → Run p.World → Effect p.World Unit
  unfolding agent_ids plan_artifact has_duplicates all_in_catalog catalog_ids add_artifact emit
  select_team plan r =
      let ids = agent_ids plan in
      if has_duplicates ids
      then (err value_error, r)
      else if not (all_in_catalog catalog_ids ids)
      then (err value_error, r)
      else (let s = record (r.state) { selected_agents = ids } in
          (
            ok tt,
            emit (team_composed ids) (record r {
              state = record (add_artifact (next_id "session_plan" s) (plan_artifact plan) s) {
                status = TaskLoopStatus.team_selected;
              };
            }),
          ))

  -- The raw text, through the JSON gate and the checks of `parse_session_plan`.
  abbrev pub read_plan : String → Result (List AgentSelection)
  read_plan raw = elim (p.parse_json_object raw) [
    | none ↦ err json_gate_error
    | some d ↦ parse_session_plan p.python d
  ]

  unfoldable pub compose_team : String → Run p.World → Effect p.World Unit
  unfolding select_team role_catalog
  compose_team task r =
      let (raw, w) = p.compose_team task role_catalog r.world in
      after (read_plan raw, record r { world = w }) (λ plan r₁. select_team plan r₁)
