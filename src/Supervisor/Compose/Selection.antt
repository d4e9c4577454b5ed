-- ===== src/Supervisor/Compose/Selection.antt =====
-- What the team is once it is composed.
use hex_agent.Base.{◌≡◌, refl, String, true, false, not, List, [], ◌∷◌, arith}
use hex_agent.Base.{All, Distinct, contains, if_rule}
use hex_agent.Base.Result.{Result, Error, ok, err, value_error}
use hex_agent.Supervisor.State.{TaskLoopStatus, add_artifact}
use hex_agent.Supervisor.Run.{emit}
use hex_agent.Supervisor.Contracts.{AgentSelection}
use hex_agent.Supervisor.Ports.{Ports, Run}
use hex_agent.Supervisor.Run.{Effect, after, next_id}
use hex_agent.Supervisor.Keeps.{Keeps}
use hex_agent.Supervisor.Acceptance.Grounded.{Backed-insert}
use hex_agent.Supervisor.Compose.{
  plan_artifact, read_plan, role_catalog, agent_ids, has_duplicates, all_in_catalog, catalog_ids,
  select_team, compose_team,
}

has_duplicates-Distinct : (ids : List String) → has_duplicates ids ≡ false → Distinct ids
unfolding has_duplicates
has_duplicates-Distinct [] h = tt
has_duplicates-Distinct (a ∷ rest) h = (ground arith, has_duplicates-Distinct rest (ground arith))

-- A catalog with no role in it is no constraint.
abbrev pub Catalogued : List String → List String → Type 0
Catalogued [] ids = Unit
Catalogued (c ∷ cs) ids = All (λ a. contains (c ∷ cs) a ≡ true) ids

all_in_catalog-Catalogued :
    (catalog ids : List String) → all_in_catalog catalog ids ≡ true → Catalogued catalog ids
unfolding all_in_catalog
all_in_catalog-Catalogued [] ids h = tt
all_in_catalog-Catalogued (c ∷ cs) [] h = tt
all_in_catalog-Catalogued (c ∷ cs) (a ∷ rest) h =
    (ground arith, all_in_catalog-Catalogued (c ∷ cs) rest (ground arith))

module _ (p : Ports) where
  -- What `select_team` gives: a refusal that leaves the Blackboard, or the team.
  pub data Chosen (ids : List String) (r : Run p.World) : Effect p.World Unit → Type 0 where
    refused : (e : Error) → Chosen ids r (err e, r)
    chosen :
        (r' : Run p.World)
        → r'.state.selected_agents ≡ ids
        → r'.state.status ≡ TaskLoopStatus.team_selected
        → r'.state.acceptance_checks ≡ r.state.acceptance_checks
        → Keeps r.state r'.state
        → Distinct ids
        → Catalogued (catalog_ids p) ids
        → Chosen ids r (ok tt, r')

  select_team-Chosen :
      (plan : List AgentSelection) (r : Run p.World)
      → Chosen (agent_ids plan) r (select_team p plan r)
  unfolding select_team add_artifact emit
  select_team-Chosen plan r =
      if_rule (Chosen (agent_ids plan) r) (has_duplicates (agent_ids plan)) _ _
        (λ _. refused value_error)
        (λ unique.
          if_rule (Chosen (agent_ids plan) r)
            (not (all_in_catalog (catalog_ids p) (agent_ids plan))) _ _ (λ _. refused value_error)
            (λ known.
              chosen _ refl refl refl
                (record {
                  same_round = refl;
                  same_limit = refl;
                  still_grounded =
                      Backed-insert
                        (next_id "session_plan"
                          (record (r.state) { selected_agents = agent_ids plan }))
                        (plan_artifact plan) r.state.artifacts r.state.acceptance_checks;
                })
                (has_duplicates-Distinct _ unique)
                (all_in_catalog-Catalogued (catalog_ids p) (agent_ids plan) (ground arith))))

  Chosen-ok :
      {ids : List String} {r : Run p.World} {m : Effect p.World Unit}
      → Chosen ids r m
      → m.0 ≡ ok tt
      → Distinct m.1.state.selected_agents
        × Catalogued (catalog_ids p) m.1.state.selected_agents
        × (m.1.state.status ≡ TaskLoopStatus.team_selected)
        × (m.1.state.acceptance_checks ≡ r.state.acceptance_checks)
        × (m.1.state.round_no ≡ r.state.round_no)
  Chosen-ok (refused e) h = ground arith
  Chosen-ok (chosen r' ids status checks keeps distinct known) h =
      rw ids (distinct, known, status, checks, keeps.same_round)

  Chosen-err :
      {ids : List String} {r : Run p.World} {m : Effect p.World Unit} {e : Error}
      → Chosen ids r m
      → m.0 ≡ err e
      → m.1.state ≡ r.state
  Chosen-err (refused e) h = refl
  Chosen-err (chosen r' ids status checks keeps distinct known) h = ground arith

  pub after_plan :
      (answer : Result (List AgentSelection)) (r : Run p.World)
      → (ids : List String) × Chosen ids r (after (answer, r) (λ plan s. select_team p plan s))
  after_plan (ok plan) r = (agent_ids plan, select_team-Chosen plan r)
  after_plan (err e) r = ([], refused e)

  -- A team that is composed has no agent twice, and every agent of it is in the catalog of roles,
  -- when the catalog has a role. The acceptance checks and the round are as before.
  pub compose_team_selects :
      (task : String) (r : Run p.World)
      → (compose_team p task r).0 ≡ ok tt
      → let s = (compose_team p task r).1.state in
        Distinct s.selected_agents
        × Catalogued (catalog_ids p) s.selected_agents
        × (s.status ≡ TaskLoopStatus.team_selected)
        × (s.acceptance_checks ≡ r.state.acceptance_checks)
        × (s.round_no ≡ r.state.round_no)
  unfolding compose_team
  compose_team_selects task r h =
      let (raw, w) = p.compose_team task (role_catalog p) r.world in
      Chosen-ok (after_plan (read_plan p raw) (record r { world = w })).1 h

  -- A composition that is refused leaves the Blackboard as it was.
  compose_team_refused :
      (task : String) (r : Run p.World) (e : Error)
      → (compose_team p task r).0 ≡ err e
      → (compose_team p task r).1.state ≡ r.state
  unfolding compose_team
  compose_team_refused task r e h =
      let (raw, w) = p.compose_team task (role_catalog p) r.world in
      Chosen-err (after_plan (read_plan p raw) (record r { world = w })).1 h
