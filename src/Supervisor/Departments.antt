-- ===== src/Supervisor/Departments.antt =====
-- `expand_departments` of supervisor/graph.py: a call to a department becomes one call for each
-- member.
pub mod Expansion
use hex_agent.Base.{
  String, ◌==◌, Bool, true, false, not, List, [], ◌∷◌, ◌++◌, if◌then◌else◌, contains,
}
use hex_agent.Supervisor.Contracts.{AgentAssignment}

-- The expanded calls, the members to admit, and the departments that did not resolve. The reason
-- that the source pairs with each of these is one fixed text.
pub record Expanded : Type 0 where
  pub expanded : List AgentAssignment
  pub to_admit : List String
  pub rejected : List String

-- The call for one member carries the objective, scope and capabilities of the department's call.
abbrev pub member_call : AgentAssignment → String → AgentAssignment
member_call a member = record a { agent_id = member; target_kind = "agent" }

unfoldable pub expand_members : AgentAssignment → List String → List String → Expanded → Expanded
expand_members a selected [] acc = acc
expand_members a selected (member ∷ rest) acc = expand_members a selected rest (
    if contains selected member
    then record acc { expanded = acc.expanded ++ member_call a member ∷ [] }
    else record acc { to_admit = acc.to_admit ++ member ∷ [] })

unfoldable pub expand_call :
    (String → List String) → List String → AgentAssignment → Expanded → Expanded
unfolding expand_members
expand_call members_of selected a acc =
    if not (a.target_kind == "department")
    then record acc { expanded = acc.expanded ++ a ∷ [] }
    else elim (members_of a.agent_id) [
      | [] ↦ record acc { rejected = acc.rejected ++ a.agent_id ∷ [] }
      | m ∷ ms ↦ expand_members a selected (m ∷ ms) acc
    ]

unfoldable pub expand_from :
    (String → List String) → List String → List AgentAssignment → Expanded → Expanded
unfolding expand_call
expand_from members_of selected [] acc = acc
expand_from members_of selected (a ∷ rest) acc =
    expand_from members_of selected rest (expand_call members_of selected a acc)

unfoldable pub expand_departments :
    (String → List String) → List String → List AgentAssignment → Expanded
unfolding expand_from
expand_departments members_of selected calls =
    expand_from members_of selected calls (record { expanded = []; to_admit = []; rejected = [] })
