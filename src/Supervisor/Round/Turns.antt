-- ===== src/Supervisor/Round/Turns.antt =====
-- The turns of a round: each agent that is called and has none yet gets one.
use mathlib.Core.List.{append-nil, append_assoc}
use hex_agent.Base.{
  ◌≡◌, refl, ap, subst, sym, ◌∙◌, String, ◌==◌, false, not, List, [], ◌∷◌, ◌++◌, map, inl, inr,
  arith,
}
use hex_agent.Base.Lists.{All-map, All-contains}
use hex_agent.Base.{All, Distinct, contains, Bool-cases, if◌then◌else◌, if_rule}
use hex_agent.Base.Result.{Result, ok, err, permission_error}
use hex_agent.Core.Schemas.{DelegationResult, ArtifactEnvelope}
use hex_agent.Supervisor.State.{TaskLoopState, TaskLoopStatus, AgentTurn, add_artifact}
use hex_agent.Supervisor.Contracts.{AgentAssignment, ContextPacket, OrchestratorDecision}
use hex_agent.Supervisor.Ports.{Ports, Run}
use hex_agent.Supervisor.Departments.{Expanded}
use hex_agent.Supervisor.Round.Fresh.{fresh, fresh-Distinct}
use hex_agent.Supervisor.Round.Authority.{Untouched, announce-Untouched}
use hex_agent.Supervisor.Run.{Effect, emit, save, after, next_id}
use hex_agent.Supervisor.Turn.{
  to_spec, scope_policy, packet_artifact, add_worker_artifacts, record_turn, conclude, deliver,
  run_turn,
}
use hex_agent.Supervisor.Round.{
  run_calls, run_round, plan_calls, done_in_round, announce, all_selected,
}

-- Neither the turns nor the number of the round change with the artifacts of a worker.
add_worker_artifacts-turns :
    (agent_id : String) (arts : List ArtifactEnvelope) (s : TaskLoopState)
    → ((add_worker_artifacts agent_id arts s).turns ≡ s.turns)
      × ((add_worker_artifacts agent_id arts s).round_no ≡ s.round_no)
unfolding add_worker_artifacts add_artifact
add_worker_artifacts-turns agent_id [] s = (refl, refl)
add_worker_artifacts-turns agent_id (art ∷ rest) s = add_worker_artifacts-turns agent_id rest _

-- One turn more: of this agent, in the round of `s`.
abbrev Took : String → TaskLoopState → TaskLoopState → Type 0
Took agent_id s s' =
    (t : AgentTurn) × (s'.turns ≡ s.turns ++ t ∷ [])
    × (t.agent_id ≡ agent_id)
    × (t.round_no ≡ s.round_no)
    × (s'.round_no ≡ s.round_no)

snoc-cong : {ts us : List AgentTurn} (t : AgentTurn) → ts ≡ us → ts ++ t ∷ [] ≡ us ++ t ∷ []
snoc-cong t e = ap (λ xs. xs ++ t ∷ []) e

record_turn-Took :
    (a : AgentAssignment) (packet_id : String) (result : DelegationResult) (s : TaskLoopState)
    → Took a.agent_id s (record_turn a packet_id result s)
unfolding record_turn add_artifact
record_turn-Took a packet_id result s =
    let (turns, round) = add_worker_artifacts-turns a.agent_id result.artifacts s in
    (_, snoc-cong _ turns, refl, round, round)

module _ (p : Ports) where
  conclude-Took :
      (a : AgentAssignment) (packet_id : String) (result : Result DelegationResult)
      (r : Run p.World)
      → (conclude p a packet_id result r).0 ≡ ok tt
      → Took a.agent_id r.state (conclude p a packet_id result r).1.state
  unfolding conclude emit save
  conclude-Took a packet_id (ok result) r h = record_turn-Took a packet_id result r.state
  conclude-Took a packet_id (err e) r h = ground arith

  deliver-Took :
      (a : AgentAssignment) (packet : Result ContextPacket) (r : Run p.World)
      → (deliver p a packet r).0 ≡ ok tt
      → Took a.agent_id r.state (deliver p a packet r).1.state
  unfolding deliver add_artifact
  deliver-Took a (err e) r h = ground arith
  deliver-Took a (ok packet) r h =
      if_rule (λ (m : Effect p.World Unit). m.0 ≡ ok tt → Took a.agent_id r.state m.1.state)
        (not (packet.target_agent_id == a.agent_id)) _ _ (λ _ h'. ground arith)
        (λ _ h'.
          let (result, w) = p.delegate a.agent_id (to_spec packet) (scope_policy a) r.world in
          conclude-Took a (next_id "context_packet" r.state) result
            (record r {
              state =
                  add_artifact (next_id "context_packet" r.state) (packet_artifact packet) r.state;
              world = w;
            })
            h')
        h

  run_turn-Took :
      (a : AgentAssignment) (r : Run p.World)
      → (run_turn p a r).0 ≡ ok tt
      → Took a.agent_id r.state (run_turn p a r).1.state
  unfolding run_turn
  run_turn-Took a r h =
      let (packet, w) = p.write_packet a (p.store_slice a r.state) r.world in
      deliver-Took a packet (record r { world = w }) h

-- New turns, of these agents, in the round of `s`.
abbrev pub TookAll : List String → TaskLoopState → TaskLoopState → Type 0
TookAll ids s s' =
    (new : List AgentTurn) × (s'.turns ≡ s.turns ++ new)
    × (map (λ t. t.agent_id) new ≡ ids)
    × All (λ t. t.round_no ≡ s.round_no) new
    × (s'.round_no ≡ s.round_no)

-- A turn, then more.
Took-then :
    (a : String) (ids : List String) (s t u : TaskLoopState)
    → Took a s t
    → TookAll ids t u
    → TookAll (a ∷ ids) s u
Took-then a ids s t u (turn, turns, agent, round, same) (new, turns', agents, rounds, same') = (
  turn ∷ new,
  turns' ∙ ap (λ xs. xs ++ new) turns ∙ append_assoc s.turns (turn ∷ []) new,
  rw (agent, agents) refl,
  (round, All-map new (λ (x : AgentTurn) e. e ∙ same) rounds),
  same' ∙ same,
)

module _ (p : Ports) where
  after-Took :
      (a : String) (ids : List String) (s : TaskLoopState) (m : Effect p.World Unit)
      (f : Run p.World → Effect p.World Unit)
      → (m.0 ≡ ok tt → Took a s m.1.state)
      → ((r : Run p.World) → (f r).0 ≡ ok tt → TookAll ids r.state (f r).1.state)
      → (after m (λ _ r. f r)).0 ≡ ok tt
      → TookAll (a ∷ ids) s (after m (λ _ r. f r)).1.state
  after-Took a ids s (ok _, r) f one rest h =
      Took-then a ids s r.state (f r).1.state (one refl) (rest r h)
  after-Took a ids s (err e, r) f one rest h = ground arith

  run_calls-Took :
      (calls : List AgentAssignment) (done : List String) (r : Run p.World)
      → (run_calls p calls done r).0 ≡ ok tt
      → TookAll
          (fresh done (map (λ a. a.agent_id) calls))
          r.state
          (run_calls p calls done r).1.state
  unfolding run_calls fresh
  run_calls-Took [] done r h = ([], sym (append-nil r.state.turns), refl, tt, refl)
  run_calls-Took (a ∷ rest) done r h =
      let skipped = run_calls-Took rest done r in
      let taken = λ (r' : Run p.World) (h' : (run_calls p rest (a.agent_id ∷ done) r').0 ≡ ok tt).
        run_calls-Took rest (a.agent_id ∷ done) r' h' in
      elim (Bool-cases (contains done a.agent_id)) [
        | inl e ↦ rw (e, fresh, run_calls) (skipped (rw (e, run_calls) at h))
        | inr e ↦
            rw (e, fresh, run_calls)
              (after-Took a.agent_id _ r.state (run_turn p a r)
                (λ r'. run_calls p rest (a.agent_id ∷ done) r') (run_turn-Took p a r) taken
                (rw (e, run_calls) at h))
      ]

  -- A round that does not raise adds turns, in its own round, for the agents it is to run and that
  -- have no turn in this round yet: each of them once, in the order of the calls. A turn that is
  -- there, as after a resume, is not taken again.
  pub run_round_turns :
      (d : OrchestratorDecision) (r : Run p.World)
      → (run_round p d r).0 ≡ ok tt
      → let done = done_in_round r.state.round_no r.state.turns in
        let ids =
          fresh done (map (λ a. a.agent_id) (plan_calls p d.next_agent_calls r.state).expanded) in
        TookAll ids r.state (run_round p d r).1.state
        × Distinct ids
        × All (λ a. contains ids a ≡ false) done
  unfolding run_round
  run_round_turns d r h = (
    go (announce p d.next_agent_calls plan r) (announce-Untouched p d.next_agent_calls plan r) h,
    (fresh-Distinct done (map (λ a. a.agent_id) plan.expanded)).0,
    All-map done (fresh-Distinct done (map (λ a. a.agent_id) plan.expanded)).1 (All-contains done),
  )
    where
      done : List String
      done = done_in_round r.state.round_no r.state.turns

      plan : Expanded
      plan = plan_calls p d.next_agent_calls r.state

      discuss : Run p.World → Effect p.World Unit
      discuss r₂ =
          (ok tt, record r₂ { state = record (r₂.state) { status = TaskLoopStatus.in_discussion } })

      calls : Run p.World → Effect p.World Unit
      calls r₁ = run_calls p plan.expanded (done_in_round r₁.state.round_no r₁.state.turns) r₁

      ids : TaskLoopState → List String
      ids s = fresh (done_in_round s.round_no s.turns) (map (λ a. a.agent_id) plan.expanded)

      discussed :
          (l : List String) (s : TaskLoopState) (m : Effect p.World Unit)
          → (m.0 ≡ ok tt → TookAll l s m.1.state)
          → (after m (λ _ r₂. discuss r₂)).0 ≡ ok tt
          → TookAll l s (after m (λ _ r₂. discuss r₂)).1.state
      discussed l s (ok _, r₂) took h' = took refl
      discussed l s (err e, r₂) took h' = ground arith

      go :
          (m : Effect p.World Unit)
          → Untouched p r m.1
          → let t = after m (λ _ r₁.
            if not (all_selected r.state.selected_agents plan.expanded)
            then (err permission_error, r₁)
            else after (calls r₁) (λ _ r₂. discuss r₂)) in
            t.0 ≡ ok tt → TookAll (ids r.state) r.state t.1.state
      go (err e, r₁) u h' = ground arith
      go (ok _, r₁) u h' =
          if_rule
            (λ (t : Effect p.World Unit). t.0 ≡ ok tt → TookAll (ids r.state) r.state t.1.state)
            (not (all_selected r.state.selected_agents plan.expanded)) _ _ (λ _ k. ground arith)
            (λ _ k.
              discussed (ids r.state) r.state (calls r₁)
                (λ took.
                  subst (λ (s : TaskLoopState). TookAll (ids s) s (calls r₁).1.state) u.2
                    (run_calls-Took plan.expanded _ r₁ took))
                k)
            h'
