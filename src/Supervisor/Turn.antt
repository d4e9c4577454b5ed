-- ===== src/Supervisor/Turn.antt =====
-- One worker turn of `run_round` (supervisor/graph.py): packet, delegation, record, checkpoint.
use hex_agent.Base.{String, ◌==◌, not, List, [], ◌∷◌, ◌++◌, map}
use hex_agent.Base.{if◌then◌else◌}
use hex_agent.Base.Result.{Result, ok, err, permission_error}
use hex_agent.Value.{str, arr, obj, Fields, end, field, merge}
use hex_agent.Value.{texts, optional_text}
use hex_agent.Core.Schemas.{
  DelegationSpec, DelegationPolicy, DelegationResult, ArtifactEnvelope, outcome_text,
}
use hex_agent.Supervisor.State.{TaskLoopState, add_artifact}
use hex_agent.Supervisor.Contracts.{AgentAssignment, ContextPacket}
use hex_agent.Supervisor.Ports.{Ports, Run, turn_done}
use hex_agent.Supervisor.Run.{Effect, emit, save, next_id}

-- `ContextPacket.to_spec`: no scope is in it.
unfoldable pub to_spec : ContextPacket → DelegationSpec
to_spec p = record {
  objective = p.objective;
  input_context =
      field "briefing" (str p.briefing) (field "source_ids" (arr (texts p.source_ids)) end);
  expected_output_schema = p.expected_output_schema;
  constraints = [];
}

-- The scope of a worker is what agent O's assignment gives; steps and depth are the defaults.
unfoldable pub scope_policy : AgentAssignment → DelegationPolicy
scope_policy a = record {
  max_steps = 20;
  max_depth = 3;
  allowed_capabilities = a.allowed_capabilities;
}

unfoldable pub packet_artifact : ContextPacket → Fields
packet_artifact p = field "kind" (str "context_packet") (
    field "target" (str p.target_agent_id) (
      field "objective" (str p.objective)
        (field "briefing" (str p.briefing) (field "source_ids" (arr (texts p.source_ids)) end))))

-- The artifacts of a worker's result, in order.
unfoldable pub add_worker_artifacts : String → List ArtifactEnvelope → TaskLoopState → TaskLoopState
add_worker_artifacts agent_id [] s = s
add_worker_artifacts agent_id (art ∷ rest) s = add_worker_artifacts agent_id rest (
    add_artifact art.artifact_id
      (merge (field "kind" (str art.kind) (field "agent_id" (str agent_id) end)) art.payload) s)

unfoldable pub result_artifact : String → DelegationResult → Fields
result_artifact agent_id result = field "kind" (str "delegation_result") (
    field "agent_id" (str agent_id) (
      field "outcome" (str (outcome_text result.outcome))
        (field "summary" (obj result.summary) (field "error" (optional_text result.error) end))))

-- What a turn writes on the Blackboard once its result is there.
unfoldable pub record_turn :
    AgentAssignment → String → DelegationResult → TaskLoopState → TaskLoopState
unfolding add_worker_artifacts add_artifact result_artifact
record_turn a packet_id result s =
    let s₁ = add_worker_artifacts a.agent_id result.artifacts s in
    let result_id = next_id "delegation_result" s₁ in
    let s₂ = add_artifact result_id (result_artifact a.agent_id result) s₁ in
    record s₂ {
      turns =
          s₂.turns
          ++ record {
            round_no = s₂.round_no;
            agent_id = a.agent_id;
            packet_id = packet_id;
            output_summary = outcome_text result.outcome;
            artifact_ids = map (λ art. art.artifact_id) result.artifacts ++ result_id ∷ [];
          }
            ∷ [];
    }

module _ (p : Ports) where
  -- After the delegation: its artifacts, its record, the turn, the event and the checkpoint.
  unfoldable pub conclude :
      AgentAssignment → String → Result DelegationResult → Run p.World → Effect p.World Unit
  unfolding record_turn emit save
  conclude a packet_id (err e) r = (err e, r)
  conclude a packet_id (ok result) r = (
    ok tt,
    save (
        emit (turn_done a.agent_id result.outcome)
          (record r { state = record_turn a packet_id result r.state })),
  )

  -- A packet for another agent is refused before anything is written.
  unfoldable pub deliver :
      AgentAssignment → Result ContextPacket → Run p.World → Effect p.World Unit
  unfolding conclude add_artifact packet_artifact to_spec scope_policy
  deliver a (err e) r = (err e, r)
  deliver a (ok packet) r =
      if not (packet.target_agent_id == a.agent_id)
      then (err permission_error, r)
      else (let packet_id = next_id "context_packet" r.state in
          let (result, w) = p.delegate a.agent_id (to_spec packet) (scope_policy a) r.world in
          conclude a packet_id result (record r {
            state = add_artifact packet_id (packet_artifact packet) r.state;
            world = w;
          }))

  unfoldable pub run_turn : AgentAssignment → Run p.World → Effect p.World Unit
  unfolding deliver
  run_turn a r =
      let (packet, w) = p.write_packet a (p.store_slice a r.state) r.world in
      deliver a packet (record r { world = w })
