-- ===== src/Tests/Examples.antt =====
-- Each theorem on a concrete run.
use hex_agent.Base.{ℕ, ◌≡◌, refl, String-discrete, Option, none, some, [], ◌∷◌, arith}
use hex_agent.Supervisor.State.{acceptance_by_id, all_accepted}
use hex_agent.Supervisor.Ports.{Run}
use hex_agent.Base.{strip}
use hex_agent.Base.Decimal.{decimal_04}
use hex_agent.Supervisor.Run.{Effect, next_id}
use hex_agent.Supervisor.Turn.{run_turn}
use hex_agent.Supervisor.Acceptance.{judge_acceptance}
use hex_agent.Supervisor.Bridge.{enqueue_commands, enqueue_from, apply_all}
use hex_agent.Supervisor.Loop.Drive.{drive, run_task_loop, resume_task_loop}
use hex_agent.Supervisor.Loop.Outcome.{Over, Evidenced, drive_ends, drive_finished}
use hex_agent.Supervisor.Loop.Entry.{
  run_task_loop_ends, run_task_loop_finished, Resumed, resume_ends,
}
use hex_agent.Supervisor.Decide.{o_decide}
use hex_agent.Supervisor.Contracts.{
  OrchestratorDecision, parse_session_plan, parse_decision, parse_call,
}
use hex_agent.Supervisor.Decide.Asking.{o_decide_enough}
use hex_agent.Base.{true}
use hex_agent.Discipline.{
  Budget, tool_count, same_tool_exceeded, record_calls, same_tool_exceeded_after,
}
use hex_agent.Tests.Scenario.{ports, board, begin, me, wanted, ac1}

abbrev landed : Option (Effect ℕ Unit) → Run ℕ
landed none = begin
landed (some m) = m.1

run_task_loop_ends_example :
    (t : Effect ℕ Unit) × (run_task_loop ports 3 3 4 me "task" 3 wanted begin ≡ some t)
    × Over ports 3 3 t
run_task_loop_ends_example = run_task_loop_ends ports 3 3 4 me "task" 3 wanted begin refl

drive_ends_example :
    (t : Effect ℕ Unit) × (drive ports 3 3 4 none 0 begin ≡ some t) × Over ports 3 3 t
drive_ends_example = drive_ends ports 3 3 4 none 0 begin refl refl refl

resume_ends_example :
    (m : Effect ℕ Unit) × (resume_task_loop ports 3 3 4 me (some board) begin ≡ some m)
    × Resumed ports 3 3 me board begin m
resume_ends_example = resume_ends ports 3 3 4 me board begin refl refl

o_decide_enough_example :
    (m : Effect ℕ (Option OrchestratorDecision)) × (o_decide ports 3 3 begin ≡ some m)
    × (m.1.state ≡ board)
    × (m.1.saved ≡ [])
o_decide_enough_example = o_decide_enough ports 3 3 begin refl

abbrev finished_run : Run ℕ
finished_run = landed (run_task_loop ports 3 3 4 me "task" 3 wanted begin)

run_task_loop_finished_example : Evidenced finished_run.state
unfolding run_task_loop String-discrete parse_session_plan parse_decision parse_call strip
    enqueue_commands enqueue_from run_turn judge_acceptance next_id decimal_04 apply_all
    acceptance_by_id all_accepted
run_task_loop_finished_example =
    run_task_loop_finished ports 3 3 4 me "task" 3 wanted (ac1 ∷ []) begin finished_run refl
      (refl, tt) refl refl

drive_finished_example : Evidenced (landed (drive ports 3 3 4 none 0 begin)).state
unfolding drive String-discrete parse_decision parse_call strip enqueue_commands enqueue_from
    run_turn judge_acceptance next_id decimal_04 apply_all acceptance_by_id all_accepted
drive_finished_example =
    drive_finished ports 3 3 4 none 0 begin (landed (drive ports 3 3 4 none 0 begin)) refl
      ((λ h. ground arith), tt) refl refl

abbrev budget : Budget
budget = record {
  max_steps = 30;
  max_parse_errors = 3;
  max_same_tool_calls = 1;
  steps = 0;
  parse_errors = 0;
  tool_calls = [];
}

same_tool_exceeded_after_example :
    same_tool_exceeded "read" (record_calls ("read" ∷ "grep" ∷ "read" ∷ []) budget) ≡ true
unfolding tool_count String-discrete
same_tool_exceeded_after_example =
    same_tool_exceeded_after "read" ("read" ∷ "grep" ∷ "read" ∷ []) budget
