-- ===== src/Supervisor/Keeps.antt =====
-- What the steps of a round leave as it is: the number of the round, the limit of rounds, and the
-- evidence of the checks that are passed.
use hex_agent.Base.{◌≡◌, refl, ap, sym, ◌∙◌, subst, String, ◌==◌, not, List, [], ◌∷◌}
use hex_agent.Base.{if_rule, contains, Bool-cases, inl, inr}
use hex_agent.Base.Dict
use hex_agent.Base.Result.{Result, Result-cases, Error, ok, err}
use hex_agent.Value.{Fields, get_or, null, dict_or_empty}
use hex_agent.Core.Schemas.{DelegationResult, ArtifactEnvelope}
use hex_agent.Supervisor.State.{TaskLoopState, TaskLoopStatus, add_artifact}
use hex_agent.Supervisor.Contracts.{AgentAssignment, ContextPacket, OrchestratorDecision}
use hex_agent.Supervisor.Ports.{Ports, Run}
use hex_agent.Supervisor.Run.{Effect, emit, save, after, lift, next_id}
use hex_agent.Supervisor.Acceptance.{judge_acceptance}
use hex_agent.Supervisor.Acceptance.Grounded.{
  IsGrounded, Backed-insert, judge_acceptance-IsGrounded,
}
use hex_agent.Supervisor.Turn.{
  add_worker_artifacts, record_turn, conclude, deliver, run_turn, result_artifact, packet_artifact,
  to_spec, scope_policy,
}
use hex_agent.Supervisor.Round.{
  run_calls, announce, run_round, all_selected, done_in_round, plan_calls, enqueue,
}
use hex_agent.Supervisor.Round.Authority.{Untouched, announce-Untouched, enqueue-Untouched}
use hex_agent.Supervisor.Tools.{run_tools, run_tool, tool_name, tool_artifact}
use hex_agent.Supervisor.Loop.{judge}

pub record Keeps (s s' : TaskLoopState) : Type 0 where
  pub same_round : s'.round_no ≡ s.round_no
  pub same_limit : s'.max_rounds ≡ s.max_rounds
  pub still_grounded : IsGrounded s → IsGrounded s'

pub Keeps-refl : (s : TaskLoopState) → Keeps s s
Keeps-refl s = record { same_round = refl; same_limit = refl; still_grounded = λ g. g }

pub Keeps-trans : (s t u : TaskLoopState) → Keeps s t → Keeps t u → Keeps s u
Keeps-trans s t u h k = record {
  same_round = k.same_round ∙ h.same_round;
  same_limit = k.same_limit ∙ h.same_limit;
  still_grounded = λ g. k.still_grounded (h.still_grounded g);
}

add_artifact-Keeps : (k : String) (v : Fields) (s : TaskLoopState) → Keeps s (add_artifact k v s)
unfolding add_artifact
add_artifact-Keeps k v s = record {
  same_round = refl;
  same_limit = refl;
  still_grounded = Backed-insert k v s.artifacts s.acceptance_checks;
}

add_worker_artifacts-Keeps :
    (agent_id : String) (arts : List ArtifactEnvelope) (s : TaskLoopState)
    → Keeps s (add_worker_artifacts agent_id arts s)
unfolding add_worker_artifacts
add_worker_artifacts-Keeps agent_id [] s = Keeps-refl s
add_worker_artifacts-Keeps agent_id (art ∷ rest) s =
    Keeps-trans s _ (add_worker_artifacts agent_id rest _) (add_artifact-Keeps art.artifact_id _ s)
      (add_worker_artifacts-Keeps agent_id rest _)

-- What `run_tools` writes for one request.
tool_stored-Keeps :
    (k : String) (envelope payload : Fields) (s : TaskLoopState)
    → Keeps s
        (add_artifact k payload (record s { tool_results = Dict.insert k envelope s.tool_results }))
unfolding add_artifact
tool_stored-Keeps k envelope payload s = record {
  same_round = refl;
  same_limit = refl;
  still_grounded = Backed-insert k payload s.artifacts s.acceptance_checks;
}

-- The record of the delegation and the turn.
record_turn-Keeps :
    (a : AgentAssignment) (packet_id : String) (result : DelegationResult) (s : TaskLoopState)
    → Keeps s (record_turn a packet_id result s)
unfolding record_turn
record_turn-Keeps a packet_id result s =
    let s₁ = add_worker_artifacts a.agent_id result.artifacts s in
    let h = add_worker_artifacts-Keeps a.agent_id result.artifacts s in
    let k =
      add_artifact-Keeps (next_id "delegation_result" s₁) (result_artifact a.agent_id result) s₁ in
    record {
      same_round = k.same_round ∙ h.same_round;
      same_limit = k.same_limit ∙ h.same_limit;
      still_grounded = λ g. k.still_grounded (h.still_grounded g);
    }

module _ (p : Ports) where
  after-Keeps :
      {A B : Type 0} (s : TaskLoopState) (m : Effect p.World A)
      (f : A → Run p.World → Effect p.World B)
      → Keeps s m.1.state
      → ((a : A) (r : Run p.World) → Keeps r.state (f a r).1.state)
      → Keeps s (after m f).1.state
  after-Keeps s (ok a, r) f h k = Keeps-trans s r.state (f a r).1.state h (k a r)
  after-Keeps s (err e, r) f h k = h

  conclude-Keeps :
      (a : AgentAssignment) (packet_id : String) (result : Result DelegationResult)
      (r : Run p.World)
      → Keeps r.state (conclude p a packet_id result r).1.state
  unfolding conclude emit save
  conclude-Keeps a packet_id (ok result) r = record_turn-Keeps a packet_id result r.state
  conclude-Keeps a packet_id (err e) r = Keeps-refl r.state

  deliver-Keeps :
      (a : AgentAssignment) (packet : Result ContextPacket) (r : Run p.World)
      → Keeps r.state (deliver p a packet r).1.state
  unfolding deliver
  deliver-Keeps a (err e) r = Keeps-refl r.state
  deliver-Keeps a (ok packet) r =
      if_rule (λ (m : Effect p.World Unit). Keeps r.state m.1.state)
        (not (packet.target_agent_id == a.agent_id)) _ _ (λ _. Keeps-refl r.state)
        (λ _.
          let (result, w) = p.delegate a.agent_id (to_spec packet) (scope_policy a) r.world in
          Keeps-trans r.state _ _
            (add_artifact-Keeps (next_id "context_packet" r.state) (packet_artifact packet) r.state)
            (conclude-Keeps a (next_id "context_packet" r.state) result (record r {
              state =
                  add_artifact (next_id "context_packet" r.state) (packet_artifact packet) r.state;
              world = w;
            })))

  run_turn-Keeps : (a : AgentAssignment) (r : Run p.World) → Keeps r.state (run_turn p a r).1.state
  unfolding run_turn
  run_turn-Keeps a r =
      let (packet, w) = p.write_packet a (p.store_slice a r.state) r.world in
      deliver-Keeps a packet (record r { world = w })

  run_calls-Keeps :
      (calls : List AgentAssignment) (done : List String) (r : Run p.World)
      → Keeps r.state (run_calls p calls done r).1.state
  unfolding run_calls
  run_calls-Keeps [] done r = Keeps-refl r.state
  run_calls-Keeps (a ∷ rest) done r =
      let skipped = run_calls-Keeps rest done r in
      let ran =
        after-Keeps r.state (run_turn p a r) (λ _ r'. run_calls p rest (a.agent_id ∷ done) r')
          (run_turn-Keeps a r) (λ _ r'. run_calls-Keeps rest (a.agent_id ∷ done) r') in
      elim (Bool-cases (contains done a.agent_id)) [
        | inl e ↦ rw (e, run_calls) skipped
        | inr e ↦ rw (e, run_calls) ran
      ]

  Untouched-Keeps : (r r' : Run p.World) → Untouched p r r' → Keeps r.state r'.state
  Untouched-Keeps r r' h =
      subst (Keeps r.state) (sym h.2)
        (record { same_round = refl; same_limit = refl; still_grounded = λ g. g })

  pub enqueue-Keeps :
      (cmds : List Fields) (r : Run p.World) → Keeps r.state (enqueue p cmds r).1.state
  enqueue-Keeps cmds r = Untouched-Keeps r (enqueue p cmds r).1 (enqueue-Untouched p cmds r)

  pub run_round-Keeps :
      (d : OrchestratorDecision) (r : Run p.World) → Keeps r.state (run_round p d r).1.state
  unfolding run_round
  run_round-Keeps d r =
      let plan = plan_calls p d.next_agent_calls r.state in
      after-Keeps r.state (announce p d.next_agent_calls plan r) _
        (Untouched-Keeps r (announce p d.next_agent_calls plan r).1
          (announce-Untouched p d.next_agent_calls plan r))
        (λ _ r₁.
          if_rule (λ (m : Effect p.World Unit). Keeps r₁.state m.1.state)
            (not (all_selected r.state.selected_agents plan.expanded)) _ _
            (λ _. Keeps-refl r₁.state)
            (λ _.
              after-Keeps r₁.state
                (run_calls p plan.expanded (done_in_round r₁.state.round_no r₁.state.turns) r₁) _
                (run_calls-Keeps plan.expanded _ r₁)
                (λ _ r₂. record { same_round = refl; same_limit = refl; still_grounded = λ g. g })))

  run_tools-Keeps :
      (reqs : List Fields) (r : Run p.World) → Keeps r.state (run_tools p reqs r).1.state
  unfolding run_tools emit add_artifact
  run_tools-Keeps [] r = Keeps-refl r.state
  run_tools-Keeps (req ∷ rest) r =
      after-Keeps r.state (lift (dict_or_empty p.python (get_or "args" null req)) r) _
        (Keeps-refl r.state)
        (λ args r₁.
          let (envelope, w) = p.execute_tool (tool_name p.python req) args r₁.world in
          Keeps-trans r₁.state _ _
            (tool_stored-Keeps (next_id "tool_result" r₁.state) envelope
              (tool_artifact (tool_name p.python req) envelope) r₁.state)
            (run_tools-Keeps rest _))

  pub run_tool-Keeps :
      (d : OrchestratorDecision) (r : Run p.World) → Keeps r.state (run_tool p d r).1.state
  unfolding run_tool
  run_tool-Keeps d r =
      after-Keeps r.state (run_tools p d.tool_requests r) _ (run_tools-Keeps d.tool_requests r)
        (λ _ r₁. record { same_round = refl; same_limit = refl; still_grounded = λ g. g })

  -- A judgement, if it does not raise, is the last thing of a round before its checkpoint.
  pub data Judged (s : TaskLoopState) : Effect p.World Unit → Type 0 where
    raised : (e : Error) (r : Run p.World) → Judged s (err e, r)
    judged :
        (r : Run p.World)
        → r.state.status ≡ TaskLoopStatus.reviewing_ac
        → Keeps s r.state
        → Judged s (ok tt, r)

  pub judge-Judged : (d : OrchestratorDecision) (r : Run p.World) → Judged r.state (judge p d r)
  unfolding judge
  judge-Judged d r = elim (Result-cases (judge_acceptance p.python d.acceptance_status r.state)) [
    | inl (e, refused) ↦ rw (refused, judge) (raised e _)
    | inr (s, e) ↦
        let (grounded, form) = judge_acceptance-IsGrounded p.python d.acceptance_status r.state e in
        rw (e, judge)
          (judged (record r { state = s }) (ap (λ (t : TaskLoopState). t.status) form)
            (record {
              same_round = ap (λ (t : TaskLoopState). t.round_no) form;
              same_limit = ap (λ (t : TaskLoopState). t.max_rounds) form;
              still_grounded = grounded;
            }))
  ]
