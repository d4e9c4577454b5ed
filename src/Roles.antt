-- ===== src/Roles.antt =====
-- roles/ and skills/: which tools a role may use, and the agents that are bound to it. Names of sets
-- are lists that are read by membership. A KeyError is the class `lookup_error`.
pub mod Scope
use hex_agent.Base.{
  String, ◌==◌, Bool, true, false, not, ◌&&◌, ◌||◌, Option, none, some, List, [], ◌∷◌, ◌++◌, map,
  contains, not_blank, strip,
}
use hex_agent.Base.{if◌then◌else◌, ◌<>◌}
use hex_agent.Base.Dict
use hex_agent.Base.Dict.{Dict}
use hex_agent.Base.Sorting.{sorted}
use hex_agent.Base.Result.{Result, ok, err, value_error, lookup_error, ◌>>=◌}
use hex_agent.Value.{
  Value, null, bool, str, arr, obj, Fields, end, field, get, get_or, truthy, str_of, texts, to_list,
  strs_of, Python,
}

pub record SkillSpec : Type 0 where
  pub name : String
  pub description : String
  pub triggers : List String
  pub allowed_tools : List String
  pub forbidden_tools : List String
  pub steps_md : String
  pub report_md : String

unfoldable pub register_skill : SkillSpec → Dict SkillSpec → Result (Dict SkillSpec)
register_skill s skills =
    if Dict.has_key skills s.name then err value_error else ok (Dict.insert s.name s skills)

unfoldable pub get_skill : String → Dict SkillSpec → Result SkillSpec
get_skill name skills = elim (Dict.lookup name skills) [ none ↦ err lookup_error | some s ↦ ok s ]

-- `SkillRegistry.union_tools`
unfoldable pub union_tools : List String → Dict SkillSpec → Result (List String)
unfolding get_skill
union_tools [] skills = ok []
union_tools (name ∷ names) skills =
    get_skill name skills >>= λ s. union_tools names skills >>= λ rest. ok (s.allowed_tools ++ rest)

pub record TestOwnership : Type 0 where
  pub owns_validation : Bool
  pub must_handoff_to : Option String

pub record RoleView : Type 0 where
  pub agent_id : String
  pub role : String
  pub system_prompt : String
  pub default_scope : List String
  pub department : String

pub record RoleSpec : Type 0 where
  pub name : String
  pub role : String
  pub department : String
  pub system_prompt : String
  pub explicit_tools : List String
  pub allowed_skills : List String
  pub may_route_to : List String
  pub test_ownership : TestOwnership
  pub lenses : List String

-- `xs - ys` of sets
abbrev pub without : List String → List String → List String
without [] ys = []
without (x ∷ xs) ys = let rest = without xs ys in if contains ys x then rest else x ∷ rest

-- The loop of `allowed_tools`: the union and the forbidden tools so far.
unfoldable pub skill_tools :
    Dict SkillSpec → List String → List String × List String → Result (List String × List String)
unfolding get_skill
skill_tools skills [] (union, forbidden) = ok (union, forbidden)
skill_tools skills (name ∷ names) (union, forbidden) = get_skill name skills >>= λ s.
    skill_tools skills names (union ++ s.allowed_tools, forbidden ++ s.forbidden_tools)

-- `RoleSpec.allowed_tools`: forbidden wins.
unfoldable pub allowed_tools : RoleSpec → Dict SkillSpec → List String → Result (List String)
unfolding skill_tools
allowed_tools r skills core_tools =
    skill_tools skills r.allowed_skills (r.explicit_tools ++ core_tools, []) >>= λ x.
    ok (without x.0 x.1)

-- The texts of a list, stripped, without the empty ones.
abbrev stripped : List String → List String
stripped [] = []
stripped (s ∷ rest) =
    let others = stripped rest in if not_blank (strip s) then strip s ∷ others else others

-- `_sequence_tuple`
abbrev sequence_tuple : Python → Value → Result (List String)
sequence_tuple py null = ok []
sequence_tuple py (str s) = ok (stripped (s ∷ []))
sequence_tuple py (arr items) = ok (stripped (strs_of py (to_list items)))
sequence_tuple py _ = err value_error

-- `_mapping`
abbrev role_mapping : Value → Result Fields
role_mapping null = ok end
role_mapping (obj d) = ok d
role_mapping _ = err value_error

-- A required field that is missing, None or blank.
abbrev lacks : Option Value → Bool
lacks none = true
lacks (some null) = true
lacks (some (str s)) = not (not_blank (strip s))
lacks (some v) = false

-- `str(data[k]).strip()`
abbrev stripped_text : Python → String → Fields → String
stripped_text py k d = strip (str_of py (get_or k null d))

abbrev handoff_of : Python → Value → Option String
handoff_of py v = if truthy v then some (strip (str_of py v)) else none

unfoldable pub parse_role : Python → Value → Result RoleSpec
unfolding strip
parse_role py (obj d) =
    if lacks (get "name" d)
      || lacks (get "role" d)
      || lacks (get "department" d)
      || lacks (get "system_prompt" d)
    then err value_error
    else (role_mapping (get_or "route_permissions" null d) >>= λ route.
        role_mapping (get_or "test_ownership" null d) >>= λ owns.
        sequence_tuple py (get_or "allowed_tools" null d) >>= λ explicit_tools.
        sequence_tuple py (get_or "allowed_skills" null d) >>= λ allowed_skills.
        sequence_tuple py (get_or "may_route_to" null route) >>= λ may_route_to.
        sequence_tuple py (get_or "lenses" null d) >>= λ lenses. ok (record {
          name = stripped_text py "name" d;
          role = stripped_text py "role" d;
          department = stripped_text py "department" d;
          system_prompt = stripped_text py "system_prompt" d;
          explicit_tools = explicit_tools;
          allowed_skills = allowed_skills;
          may_route_to = may_route_to;
          test_ownership = record {
            owns_validation = truthy (get_or "owns_validation" (bool true) owns);
            must_handoff_to = handoff_of py (get_or "must_handoff_to" null owns);
          };
          lenses = lenses;
        }))
parse_role py _ = err value_error

-- `AgentRegistry`
pub record AgentRegistry : Type 0 where
  pub skills : Dict SkillSpec
  pub core_tools : List String
  pub roles : Dict RoleSpec

unfoldable pub register_role : RoleSpec → AgentRegistry → Result AgentRegistry
register_role spec r =
    if Dict.has_key r.roles spec.name
    then err value_error
    else ok (record r { roles = Dict.insert spec.name spec r.roles })

unfoldable pub get_role : String → AgentRegistry → Result RoleSpec
get_role name r = elim (Dict.lookup name r.roles) [ none ↦ err lookup_error | some s ↦ ok s ]

unfoldable pub role_names : AgentRegistry → List String
unfolding sorted
role_names r = sorted (Dict.keys r.roles)

-- The names of the roles of a department, in the order of registration.
unfoldable pub in_department : String → Dict RoleSpec → List String
in_department department [] = []
in_department department ((n, spec) ∷ roles) =
    let rest = in_department department roles in
    if spec.department == department then n ∷ rest else rest

unfoldable pub members_of : String → AgentRegistry → List String
unfolding in_department sorted
members_of department r = sorted (in_department department r.roles)

unfoldable pub role_view : String → AgentRegistry → Result RoleView
unfolding get_role allowed_tools
role_view name r = get_role name r >>= λ spec. allowed_tools spec r.skills r.core_tools >>= λ scope.
    ok (record {
      agent_id = spec.name;
      role = spec.role;
      system_prompt = spec.system_prompt;
      default_scope = scope;
      department = spec.department;
    })

abbrev views : AgentRegistry → List String → Result (List RoleView)
views r [] = ok []
views r (n ∷ ns) = role_view n r >>= λ v. views r ns >>= λ rest. ok (v ∷ rest)

unfoldable pub list_roles : AgentRegistry → Result (List RoleView)
unfolding role_view role_names
list_roles r = views r (role_names r)

-- `Agent`, without what only its prompt reads
pub record RoleAgent : Type 0 where
  pub spec : RoleSpec
  pub tools : List String

-- A handoff target that is missing or empty.
abbrev no_target : Option String → Bool
no_target none = true
no_target (some s) = not (not_blank s)

unfoldable pub build_agent : String → AgentRegistry → Result RoleAgent
unfolding get_role allowed_tools
build_agent name r = get_role name r >>= λ spec.
    if not spec.test_ownership.owns_validation && no_target spec.test_ownership.must_handoff_to
    then err value_error
    else (allowed_tools spec r.skills r.core_tools >>= λ tools.
        ok (record { spec = spec; tools = tools }))

unfoldable pub guard_tool_call : String → RoleAgent → Option Fields
guard_tool_call tool_name a =
    if contains a.tools tool_name
    then none
    else some (
        field "finish_reason" (str "blocker") (
          field "blocked_tool" (str tool_name) (
            field "reason"
              (str
                ("Tool '" <> tool_name <> "' is outside role '" <> a.spec.name <> "' allowlist."))
              (field "may_route_to" (arr (texts a.spec.may_route_to)) end))))

-- What an f-string shows of the target.
abbrev target_text : Option String → String
target_text none = "None"
target_text (some s) = s

abbrev target_value : Option String → Value
target_value none = null
target_value (some s) = str s

unfoldable pub guard_finish : Bool → RoleAgent → Option Fields
guard_finish claim_validated a =
    if claim_validated && not a.spec.test_ownership.owns_validation
    then some (
        field "finish_reason" (str "blocker") (
          field "reason"
            (str (
              "Role '"
              <> a.spec.name
              <> "' does not own validation; must hand off to '"
              <> target_text a.spec.test_ownership.must_handoff_to
              <> "'."))
            (field "handoff_to" (target_value a.spec.test_ownership.must_handoff_to) end)))
    else none
