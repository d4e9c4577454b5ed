-- ===== src/Supervisor/Round/Authority.antt =====
-- The authority check of `run_round`: agent O cannot make an agent work that is not on the team.
use hex_agent.Base.{◌≡◌, refl, ap, ◌∙◌, String, false, not, List, [], ◌∷◌, arith, if◌then◌else◌}
use hex_agent.Base.{Option-cases, inl, inr, map}
use hex_agent.Base.Result.{ok, err, permission_error}
use hex_agent.Value.{Fields}
use hex_agent.Supervisor.State.{TaskLoopState, TaskLoopStatus}
use hex_agent.Supervisor.Contracts.{AgentAssignment, OrchestratorDecision}
use hex_agent.Supervisor.Departments.{Expanded}
use hex_agent.Supervisor.Bridge.{enqueue_commands}
use hex_agent.Supervisor.Ports.{
  Ports, Run, Event, department_rejected, registry_missing, department_expanded,
}
use hex_agent.Supervisor.Round.Admission.{enqueue_members-ok}
use hex_agent.Supervisor.Run.{Effect, emit, after}
use hex_agent.Supervisor.Round.{
  plan_calls, announce, run_round, all_selected, emit_all, enqueue, enqueue_members, run_calls,
  done_in_round, announce_rejected, announce_expanded, department_targets,
}

module _ (p : Ports) where
  -- Nothing but the queue of commands, the events and the draws has changed.
  abbrev pub Untouched : Run p.World → Run p.World → Type 0
  Untouched r r' =
      (r'.world ≡ r.world)
      × (r'.saved ≡ r.saved)
      × (r'.state ≡ record (r.state) { pending_commands = r'.state.pending_commands })

  Untouched-trans : (r s t : Run p.World) → Untouched r s → Untouched s t → Untouched r t
  Untouched-trans r s t h k = (
    k.0 ∙ h.0,
    k.1 ∙ h.1,
    k.2
        ∙ ap {A = TaskLoopState} (λ x. record x { pending_commands = t.state.pending_commands })
            h.2,
  )

  emit_all-Untouched :
      (event : String → Event) (ds : List String) (r : Run p.World)
      → Untouched r (emit_all p event ds r)
  unfolding emit_all emit
  emit_all-Untouched event [] r = (refl, refl, refl)
  emit_all-Untouched event (d ∷ ds) r = emit_all-Untouched event ds (emit (event d) r)

  pub enqueue-Untouched : (cmds : List Fields) (r : Run p.World) → Untouched r (enqueue p cmds r).1
  unfolding enqueue enqueue_commands
  enqueue-Untouched cmds r = ground arith

  after-Untouched :
      {A B : Type 0} (r : Run p.World) (m : Effect p.World A)
      (f : A → Run p.World → Effect p.World B)
      → Untouched r m.1
      → ((a : A) (s : Run p.World) → Untouched s (f a s).1)
      → Untouched r (after m f).1
  after-Untouched r (ok a, s) f h k = Untouched-trans r s (f a s).1 h (k a s)
  after-Untouched r (err e, s) f h k = h

  enqueue_members-Untouched :
      (ms : List String) (r : Run p.World) → Untouched r (enqueue_members p ms r).1
  unfolding enqueue_members
  enqueue_members-Untouched [] r = (refl, refl, refl)
  enqueue_members-Untouched (m ∷ ms) r =
      after-Untouched r (enqueue p _ r) _ (enqueue-Untouched _ r)
        (λ _ s. enqueue_members-Untouched ms s)

  announce_rejected-Untouched :
      (calls : List AgentAssignment) (plan : Expanded) (r : Run p.World)
      → Untouched r (announce_rejected p calls plan r)
  unfolding announce_rejected
  announce_rejected-Untouched calls plan r = elim (Option-cases p.agent_registry) [
    | inl missing ↦ rw missing (emit_all-Untouched registry_missing (department_targets calls) r)
    | inr (registry, e) ↦ rw e (emit_all-Untouched department_rejected plan.rejected r)
  ]

  announce_expanded-Untouched :
      (targets : List String) (plan : Expanded) (r : Run p.World)
      → Untouched r (announce_expanded p targets plan r).1
  unfolding announce_expanded emit
  announce_expanded-Untouched [] plan r = (refl, refl, refl)
  announce_expanded-Untouched (d ∷ ds) plan r =
      after-Untouched r (enqueue_members p plan.to_admit r) _
        (enqueue_members-Untouched plan.to_admit r) (λ _ s. (refl, refl, refl))

  pub announce-Untouched :
      (calls : List AgentAssignment) (plan : Expanded) (r : Run p.World)
      → Untouched r (announce p calls plan r).1
  unfolding announce
  announce-Untouched calls plan r =
      Untouched-trans r (announce_rejected p calls plan r)
        (announce_expanded p (department_targets calls) plan (announce_rejected p calls plan r)).1
        (announce_rejected-Untouched calls plan r)
        (announce_expanded-Untouched (department_targets calls) plan
          (announce_rejected p calls plan r))

  announce_expanded-ok :
      (targets : List String) (plan : Expanded) (r : Run p.World)
      → (announce_expanded p targets plan r).0 ≡ ok tt
  unfolding announce_expanded
  announce_expanded-ok [] plan r = refl
  announce_expanded-ok (d ∷ ds) plan r =
      go (enqueue_members p plan.to_admit r)
        (emit (department_expanded (d ∷ ds) (map (λ a. a.agent_id) plan.expanded) plan.to_admit))
        (enqueue_members-ok p plan.to_admit r)
    where
      go :
          (m : Effect p.World Unit) (f : Run p.World → Run p.World)
          → m.0 ≡ ok tt
          → (after m (λ _ s. (ok tt, f s))).0 ≡ ok tt
      go (ok _, s) f e = refl
      go (err x, s) f e = ground arith

  announce-ok :
      (calls : List AgentAssignment) (plan : Expanded) (r : Run p.World)
      → (announce p calls plan r).0 ≡ ok tt
  unfolding announce
  announce-ok calls plan r =
      announce_expanded-ok (department_targets calls) plan (announce_rejected p calls plan r)

  -- If one of the round's calls, after the departments are expanded, is for an agent that is not
  -- on the team, the round raises a PermissionError, and no worker has run: the world, the
  -- checkpoints and the Blackboard are as before, but for the queue of commands.
  pub run_round_authority :
      (d : OrchestratorDecision) (r : Run p.World)
      → all_selected r.state.selected_agents (plan_calls p d.next_agent_calls r.state).expanded
        ≡ false
      → ((run_round p d r).0 ≡ err permission_error) × Untouched r (run_round p d r).1
  unfolding run_round
  run_round_authority d r h =
      go (announce p d.next_agent_calls plan r) (announce-ok d.next_agent_calls plan r)
        (announce-Untouched d.next_agent_calls plan r)
    where
      plan : Expanded
      plan = plan_calls p d.next_agent_calls r.state

      go :
          (m : Effect p.World Unit)
          → m.0 ≡ ok tt
          → Untouched r m.1
          → let t = after m (λ _ r₁.
            if not (all_selected r.state.selected_agents plan.expanded)
            then (err permission_error, r₁)
            else after
                (run_calls p plan.expanded (done_in_round r₁.state.round_no r₁.state.turns) r₁)
                (λ _ r₂. (
                  ok tt,
                  record r₂ { state = record (r₂.state) { status = TaskLoopStatus.in_discussion } },
                ))) in
            (t.0 ≡ err permission_error) × Untouched r t.1
      go (ok _, s) e u = rw h (refl, u)
      go (err x, s) e u = ground arith
