-- ===== src/Tests/Rounds.antt =====
-- The theorems on a round, its team and its decision, on concrete inputs.
use hex_agent.Supervisor.State.{acceptance_by_id}
use hex_agent.Supervisor.Contracts.{parse_session_plan}
use hex_agent.Supervisor.Turn.{run_turn}
use hex_agent.Control.Command.{parse_command}
use hex_agent.Supervisor.Bridge.{
  command_key, enqueue_commands, enqueue_from, push_result, target_agent, to_runtime_command,
}
use hex_agent.Supervisor.Round.{admit_command, enqueue}
use hex_agent.Base.{
  ◌≡◌, refl, All, Distinct, String-discrete, [], ◌∷◌, contains, true, false, map, strip,
}
use hex_agent.Base.Result.{Result, ok, err, permission_error}
use hex_agent.Value.{str, Fields, end, field}
use hex_agent.Supervisor.State.{TaskLoopState, TaskLoopStatus, CheckStatus}
use hex_agent.Supervisor.Contracts.{OrchestratorDecision, parse_decision, parse_call}
use hex_agent.Supervisor.Contracts.WellFormed.{
  IsCall, IsTool, IsCommand, parse_decision_well_formed,
}
use hex_agent.Supervisor.Compose.{compose_team, catalog_ids}
use hex_agent.Supervisor.Compose.Selection.{Catalogued, compose_team_selects}
use hex_agent.Supervisor.Round.{run_round, plan_calls, done_in_round, all_selected}
use hex_agent.Supervisor.Round.Authority.{Untouched, run_round_authority}
use hex_agent.Supervisor.Round.Fresh.{fresh}
use hex_agent.Supervisor.Round.Turns.{TookAll, run_round_turns}
use hex_agent.Supervisor.Acceptance.{judge_acceptance}
use hex_agent.Supervisor.Acceptance.Grounded.{IsGrounded, judge_keeps_evidence}
use hex_agent.Base.{leb, not_blank, List, [], ◌∷◌}
use hex_agent.Supervisor.Ports.{SliceItem}
use hex_agent.Base.Texts.{count_chars}
use hex_agent.Supervisor.Broker.{write_packet, write_packet_grounded}
use hex_agent.Tests.Scenario.{py, ports, board, begin, call, decide_calls, work_text}

-- Agent O names an agent that is not on the team.
run_round_authority_example :
    let d = decide_calls (call "dev" "agent" ∷ call "tester" "agent" ∷ []) in
    ((run_round ports d begin).0 ≡ err permission_error)
    × Untouched ports begin (run_round ports d begin).1
unfolding plan_calls all_selected String-discrete
run_round_authority_example =
    run_round_authority ports (decide_calls (call "dev" "agent" ∷ call "tester" "agent" ∷ [])) begin
      refl

-- A department and one of its members: the member runs once, the other one is to be admitted.
abbrev both : OrchestratorDecision
both = decide_calls (call "build" "department" ∷ call "dev" "agent" ∷ [])

run_round_turns_example :
    let done = done_in_round 0 [] in
    let ids =
      fresh done (map (λ a. a.agent_id) (plan_calls ports both.next_agent_calls board).expanded) in
    TookAll ids board (run_round ports both begin).1.state
    × Distinct ids
    × All (λ a. contains ids a ≡ false) done
unfolding run_round String-discrete enqueue enqueue_commands enqueue_from push_result
    to_runtime_command strip admit_command parse_command command_key target_agent run_turn
run_round_turns_example = run_round_turns ports both begin refl

compose_team_selects_example :
    let s = (compose_team ports "task" begin).1.state in
    Distinct s.selected_agents
    × Catalogued (catalog_ids ports) s.selected_agents
    × (s.status ≡ TaskLoopStatus.team_selected)
    × (s.acceptance_checks ≡ begin.state.acceptance_checks)
    × (s.round_no ≡ begin.state.round_no)
unfolding compose_team String-discrete parse_session_plan
compose_team_selects_example = compose_team_selects ports "task" begin refl

abbrev decision_or_none : Result OrchestratorDecision → OrchestratorDecision
decision_or_none (ok d) = d
decision_or_none (err e) = both

parse_decision_well_formed_example :
    let d = decision_or_none (parse_decision py work_text) in
    All IsCall d.next_agent_calls × All (IsTool py) d.tool_requests × All (IsCommand py) d.commands
unfolding parse_decision String-discrete parse_call strip
parse_decision_well_formed_example = parse_decision_well_formed py work_text refl

abbrev passed_board : TaskLoopState
passed_board = record board {
  artifacts = ("patch", end) ∷ [];
  acceptance_checks =
      record {
        id = "ac1";
        text = "it builds";
        status = CheckStatus.passed;
        evidence_ids = "patch" ∷ [];
      }
      ∷ [];
}

passed_board-IsGrounded : IsGrounded passed_board
unfolding String-discrete
passed_board-IsGrounded = ((λ h. (refl, refl)), tt)

abbrev claim : Fields
claim = field "id" (str "ac1") (field "status" (str "passed") (field "evidence_ids" (str "x") end))

abbrev judged_board : Result TaskLoopState → TaskLoopState
judged_board (ok s) = s
judged_board (err e) = board

-- The evidence that is claimed is not on the Blackboard.
judge_keeps_evidence_example :
    let s' = judged_board (judge_acceptance py (claim ∷ []) passed_board) in
    IsGrounded s'
    × (s' ≡ record passed_board {
      acceptance_checks = s'.acceptance_checks;
      status = TaskLoopStatus.reviewing_ac;
    })
unfolding judge_acceptance acceptance_by_id String-discrete
judge_keeps_evidence_example =
    judge_keeps_evidence py (claim ∷ []) passed_board refl passed_board-IsGrounded

abbrev slice : List SliceItem
slice = record { id = "patch"; text = "diff" } ∷ record { id = ""; text = "x" } ∷ []

write_packet_grounded_example :
    let packet = write_packet 20 (call "dev" "agent") slice in
    (packet.target_agent_id ≡ "dev")
    × (packet.objective ≡ "build it")
    × (leb (count_chars packet.briefing) 20 ≡ true)
    × All (λ i. (not_blank i ≡ true) × (contains ("patch" ∷ "" ∷ []) i ≡ true)) packet.source_ids
unfolding write_packet
write_packet_grounded_example = write_packet_grounded 20 (call "dev" "agent") slice
