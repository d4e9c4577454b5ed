-- ===== src/Tests/Commands.antt =====
-- The theorems on the queue of commands and the checkpoint, on concrete inputs.
use hex_agent.Control.Command.{parse_command}
use hex_agent.Supervisor.Bridge.{
  command_key, enqueue_from, push_result, target_agent, to_runtime_command,
}
use hex_agent.Base.{
  ℕ, ◌≡◌, refl, All, Distinct, String, String-discrete, List, [], ◌∷◌, ◌++◌, length, contains, true,
  strip,
}
use hex_agent.Base.Result.{Result, ok, err, value_error}
use hex_agent.Value.{str, obj, Fields, end, field}
use hex_agent.Control.Command.{
  RuntimeCommand, command_check, issued_by_check, command_from_dict, command_as_dict,
}
use hex_agent.Control.Command.Codec.{command_round_trip}
use hex_agent.Base.Int.{pos}
use hex_agent.Base.{some, none}
use hex_agent.Supervisor.State.{TaskLoopState}
use hex_agent.Supervisor.Bridge.{enqueue_commands, queue_so_far, push, apply_pending_commands}
use hex_agent.Supervisor.Bridge.Intake.{IsQueue}
use hex_agent.Supervisor.Bridge.Queue.{enqueue_appends, enqueue_again, enqueue_bad_payload}
use hex_agent.Supervisor.Bridge.Checkpoint.{apply_pending_grows, apply_pending_twice}
use hex_agent.Tests.Scenario.{py, stamps, commands_known, board}

abbrev add_tester : Fields
add_tester =
    field "command_type" (str "AddAgentToLoop")
      (field "payload" (obj (field "agent_id" (str "tester") end)) end)

abbrev outcome : Result (TaskLoopState × ℕ) → TaskLoopState × ℕ
outcome (ok t) = t
outcome (err e) = (board, 0)

-- The same command twice: one is queued.
abbrev queued : TaskLoopState × ℕ
queued = outcome (enqueue_commands py stamps (add_tester ∷ add_tester ∷ []) board)

enqueue_appends_example :
    IsQueue queued.0
    × (queued.0 ≡ record board { pending_commands = queued.0.pending_commands })
    × ((new : List RuntimeCommand) × (queued.0.pending_commands ≡ board.pending_commands ++ new)
        × (length new ≡ queued.1))
unfolding enqueue_commands enqueue_from push_result to_runtime_command strip String-discrete
    parse_command command_key target_agent
enqueue_appends_example =
    enqueue_appends py stamps (add_tester ∷ add_tester ∷ []) board (tt, tt) refl

enqueue_again_example :
    enqueue_commands py stamps (add_tester ∷ add_tester ∷ []) queued.0 ≡ ok (queued.0, 0)
unfolding enqueue_commands enqueue_from push_result to_runtime_command strip String-discrete
    parse_command command_key target_agent
enqueue_again_example =
    enqueue_again py stamps (add_tester ∷ add_tester ∷ []) board stamps (λ i. (refl, refl))
      (λ i. (refl, refl)) (tt, tt) refl

abbrev bad : Fields
bad = field "command_type" (str "AddAgentToLoop") (field "payload" (str "tester") end)

-- The command behind a sound one.
enqueue_bad_payload_example :
    (enqueue_commands py stamps (add_tester ∷ bad ∷ add_tester ∷ []) board ≡ err value_error)
    × (queue_so_far py stamps (add_tester ∷ bad ∷ add_tester ∷ []) board
        ≡ queued.0.pending_commands)
unfolding enqueue_commands enqueue_from push_result to_runtime_command strip String-discrete
    parse_command command_key target_agent push
enqueue_bad_payload_example =
    enqueue_bad_payload py stamps (add_tester ∷ []) bad (add_tester ∷ []) board "tester"
      {s' = queued.0} refl (refl, refl, refl)

abbrev catalog : List String
catalog = "dev" ∷ "tester" ∷ []

apply_pending_grows_example :
    let (s', growth, _) = apply_pending_commands py commands_known catalog queued.0 in
    (s'.pending_commands ≡ [])
    × Distinct s'.selected_agents
    × ((new : List String) × (s'.selected_agents ≡ queued.0.selected_agents ++ new)
        × (length new ≡ growth)
        × All (λ a. contains catalog a ≡ true) new)
unfolding enqueue_commands enqueue_from push_result to_runtime_command strip String-discrete
    parse_command command_key target_agent
apply_pending_grows_example = apply_pending_grows py commands_known catalog queued.0 (refl, tt)

apply_pending_twice_example :
    let s₁ = (apply_pending_commands py commands_known catalog queued.0).0 in
    let (s₂, growth, _) =
      apply_pending_commands py commands_known catalog
        (record s₁ { pending_commands = queued.0.pending_commands }) in
    (s₂ ≡ s₁) × (growth ≡ 0)
apply_pending_twice_example = apply_pending_twice py commands_known catalog queued.0

abbrev queued_command : RuntimeCommand
queued_command = record {
  command_type = "AddAgentToLoop";
  session_id = "s1";
  issued_by = record { type = "agent"; user_id = none; agent_id = some "orchestrator" };
  idempotency_key = "AddAgentToLoop:tester";
  payload = field "agent_id" (str "tester") end;
  command_id = "c1";
  created_at = "now";
  schema_version = pos 1;
}

command_round_trip_example :
    command_from_dict py (stamps 0) (command_as_dict queued_command) ≡ ok queued_command
unfolding command_check issued_by_check String-discrete
command_round_trip_example = command_round_trip py (stamps 0) queued_command refl refl tt refl
