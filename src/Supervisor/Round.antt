-- ===== src/Supervisor/Round.antt =====
-- `run_round` of supervisor/graph.py: the agent calls of one round.
pub mod Admission
pub mod Authority
pub mod Fresh
pub mod Turns
use hex_agent.Base.{
  ℕ, ◌+◌, String, ◌==◌, Bool, true, false, not, Option, none, some, List, [], ◌∷◌, ◌++◌, map,
}
use hex_agent.Base.{if◌then◌else◌, eqb, contains, length}
use hex_agent.Base.Dict
use hex_agent.Base.Result.{Result, ok, err, permission_error}
use hex_agent.Value.{Value, null, str, arr, obj, Fields, end, field, get_or, truthy, str_of, merge}
use hex_agent.Value.{dict_or_empty, texts, optional_text, Python}
use hex_agent.Core.Schemas.{
  DelegationSpec, DelegationPolicy, DelegationResult, ArtifactEnvelope, outcome_text,
}
use hex_agent.Supervisor.State.{TaskLoopState, TaskLoopStatus, AgentTurn, add_artifact}
use hex_agent.Supervisor.Contracts.{AgentAssignment, ContextPacket, OrchestratorDecision}
use hex_agent.Supervisor.Departments.{Expanded, expand_departments}
use hex_agent.Supervisor.Bridge.{enqueue_commands, queue_so_far}
use hex_agent.Supervisor.Ports.{
  Ports, Run, Event, AgentRegistry, department_rejected, registry_missing, department_expanded,
  turn_done, tool_done,
}
use hex_agent.Supervisor.Run.{Effect, emit, save, after, lift, next_id}
use hex_agent.Supervisor.Turn.{run_turn}

-- The agents whose turn in this round is done.
unfoldable pub done_in_round : ℕ → List AgentTurn → List String
done_in_round n [] = []
done_in_round n (t ∷ ts) =
    if eqb t.round_no n then t.agent_id ∷ done_in_round n ts else done_in_round n ts

-- Every call is for a selected agent.
unfoldable pub all_selected : List String → List AgentAssignment → Bool
all_selected selected [] = true
all_selected selected (a ∷ rest) =
    if contains selected a.agent_id then all_selected selected rest else false

unfoldable pub department_targets : List AgentAssignment → List String
department_targets [] = []
department_targets (a ∷ rest) =
    if a.target_kind == "department"
    then a.agent_id ∷ department_targets rest
    else department_targets rest

unfoldable pub agent_calls : List AgentAssignment → List AgentAssignment
agent_calls [] = []
agent_calls (a ∷ rest) =
    if a.target_kind == "department" then agent_calls rest else a ∷ agent_calls rest

-- The command that admits a member next round.
unfoldable pub admit_command : String → Fields
admit_command member =
    field "command_type" (str "AddAgentToLoop")
      (field "payload" (obj (field "agent_id" (str member) end)) end)

module _ (p : Ports) where
  -- One delegation per member per round: an agent that is done is skipped.
  unfoldable pub run_calls : List AgentAssignment → List String → Run p.World → Effect p.World Unit
  run_calls [] done r = (ok tt, r)
  run_calls (a ∷ rest) done r = elim (contains done a.agent_id) [
    | true ↦ run_calls rest done r
    | false ↦ after (run_turn p a r) (λ _ r'. run_calls rest (a.agent_id ∷ done) r')
  ]

  unfoldable pub emit_all : (String → Event) → List String → Run p.World → Run p.World
  unfolding emit
  emit_all event [] r = r
  emit_all event (d ∷ ds) r = emit_all event ds (emit (event d) r)

  -- `enqueue_commands` on the Blackboard of the run
  unfoldable pub enqueue : List Fields → Run p.World → Effect p.World Unit
  enqueue cmds r = elim (enqueue_commands p.python (λ i. p.draw (r.draws + i)) cmds r.state) [
    | err e ↦ (
      err e,
      record r {
        state = record (r.state) {
          pending_commands = queue_so_far p.python (λ i. p.draw (r.draws + i)) cmds r.state;
        };
        draws = r.draws + length cmds;
      },
    )
    | ok (s, n) ↦ (ok tt, record r { state = s; draws = r.draws + length cmds })
  ]

  unfoldable pub enqueue_members : List String → Run p.World → Effect p.World Unit
  enqueue_members [] r = (ok tt, r)
  enqueue_members (m ∷ ms) r =
      after (enqueue (admit_command m ∷ []) r) (λ _ r'. enqueue_members ms r')

  -- What the round is to run, with the members to admit and the departments that are refused.
  unfoldable pub plan_calls : List AgentAssignment → TaskLoopState → Expanded
  unfolding expand_departments agent_calls
  plan_calls calls s = elim p.agent_registry [
    | none ↦ record { expanded = agent_calls calls; to_admit = []; rejected = [] }
    | some registry ↦ expand_departments registry.members_of s.selected_agents calls
  ]

  -- Without a registry every department target is refused.
  unfoldable pub announce_rejected : List AgentAssignment → Expanded → Run p.World → Run p.World
  unfolding emit_all department_targets
  announce_rejected calls plan r = elim p.agent_registry [
    | none ↦ emit_all registry_missing (department_targets calls) r
    | some _ ↦ emit_all department_rejected plan.rejected r
  ]

  unfoldable pub announce_expanded : List String → Expanded → Run p.World → Effect p.World Unit
  unfolding emit enqueue_members
  announce_expanded [] plan r = (ok tt, r)
  announce_expanded (d ∷ ds) plan r = after (enqueue_members plan.to_admit r) (λ _ r'. (
    ok tt,
    emit (department_expanded (d ∷ ds) (map (λ a. a.agent_id) plan.expanded) plan.to_admit) r',
  ))

  -- The events and the queued admissions that precede the authority check.
  unfoldable pub announce : List AgentAssignment → Expanded → Run p.World → Effect p.World Unit
  unfolding announce_rejected announce_expanded department_targets
  announce calls plan r =
      announce_expanded (department_targets calls) plan (announce_rejected calls plan r)

  unfoldable pub run_round : OrchestratorDecision → Run p.World → Effect p.World Unit
  unfolding plan_calls announce all_selected done_in_round run_calls
  run_round d r =
      let plan = plan_calls d.next_agent_calls r.state in
      after (announce d.next_agent_calls plan r) (λ _ r₁.
        if not (all_selected r.state.selected_agents plan.expanded)
        then (err permission_error, r₁)
        else after (run_calls plan.expanded (done_in_round r₁.state.round_no r₁.state.turns) r₁)
            (λ _ r₂. (
              ok tt,
              record r₂ { state = record (r₂.state) { status = TaskLoopStatus.in_discussion } },
            )))
