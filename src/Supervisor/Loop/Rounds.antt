-- ===== src/Supervisor/Loop/Rounds.antt =====
-- What one turn of the loop in `_drive` leads to: the end of the run, or the next round.
use hex_agent.Base.{
  ◌≡◌, refl, ap, sym, subst, ℕ, suc, String, Bool, true, false, not, ◌&&◌, List, [], ◌∷◌, ◌++◌,
  arith,
}
use hex_agent.Base.{if◌then◌else◌, if_rule, ltb, leb, length}
use hex_agent.Base.Result.{Error, ok, err}
use hex_agent.Supervisor.State.{TaskLoopState, TaskLoopStatus, terminal, is_terminal, all_accepted}
use hex_agent.Supervisor.Contracts.{DecisionKind, OrchestratorDecision}
use hex_agent.Supervisor.Bridge.{apply_pending_commands}
use hex_agent.Supervisor.Ports.{Ports, Run}
use hex_agent.Supervisor.Run.{Effect, emit, save, after}
use hex_agent.Supervisor.Acceptance.Grounded.{IsGrounded}
use hex_agent.Supervisor.Keeps.{
  Keeps, Keeps-trans, Judged, judge-Judged, run_round-Keeps, run_tool-Keeps,
}
use hex_agent.Supervisor.Round.{run_round}
use hex_agent.Supervisor.Tools.{run_tool}
use hex_agent.Supervisor.Loop.{
  Flow, ended, again, terminate, set_reason, set_output, judge, act, checkpoint, warn_starved,
  close_round, or_else, output_or_empty, progressed,
}

-- A run that began a round with `s` has ended in `r`.
pub record Ended {W : Type 0} (s : TaskLoopState) (r : Run W) : Type 0 where
  pub is_over : is_terminal r.state ≡ true
  pub last_saved : (earlier : List TaskLoopState) × (r.saved ≡ earlier ++ r.state ∷ [])
  pub if_finished : r.state.status ≡ TaskLoopStatus.finished → all_accepted r.state ≡ true
  pub grounded : IsGrounded s → IsGrounded r.state
  pub in_limit : leb s.round_no s.max_rounds ≡ true → leb r.state.round_no r.state.max_rounds ≡ true
  pub same_limit : r.state.max_rounds ≡ s.max_rounds

-- The Blackboard at the start of the round after the one that began with `s`.
pub record Advanced (s s' : TaskLoopState) : Type 0 where
  pub live : is_terminal s' ≡ false
  pub one_more : s'.round_no ≡ suc s.round_no
  pub same_limit : s'.max_rounds ≡ s.max_rounds
  pub grounded : IsGrounded s → IsGrounded s'

pub terminate-Ended :
    {W : Type 0} (status : TaskLoopStatus) (reason : String) (s : TaskLoopState) (r : Run W)
    → terminal status ≡ true
    → (status ≡ TaskLoopStatus.finished → all_accepted r.state ≡ true)
    → (IsGrounded s → IsGrounded r.state)
    → (leb s.round_no s.max_rounds ≡ true → leb r.state.round_no r.state.max_rounds ≡ true)
    → r.state.max_rounds ≡ s.max_rounds
    → Ended s (terminate status reason r)
unfolding terminate emit save all_accepted
terminate-Ended status reason s r over accepted grounded bound limit = record {
  is_over = over;
  last_saved = (r.saved, refl);
  if_finished = accepted;
  grounded = grounded;
  in_limit = bound;
  same_limit = limit;
}

module _ (p : Ports) where
  pub data Acted (s : TaskLoopState) : Effect p.World Bool → Type 0 where
    raised : (e : Error) (r : Run p.World) → Acted s (err e, r)
    stopped : (r : Run p.World) → Ended s r → Acted s (ok true, r)
    kept : (r : Run p.World) → is_terminal r.state ≡ false → Keeps s r.state → Acted s (ok false, r)

  -- The judgement ends the branch.
  judged_on :
      (s : TaskLoopState) {m : Effect p.World Unit} {t : TaskLoopState}
      → Keeps s t
      → Judged p t m
      → Acted s (after m (λ _ r. (ok false, r)))
  judged_on s k (Judged.raised e r) = raised e r
  judged_on s {m} {t} k (Judged.judged r status h) =
      kept r (ap terminal status) (Keeps-trans s t r.state k h)

  after_judged :
      (s : TaskLoopState) (d : OrchestratorDecision) (m : Effect p.World Unit)
      → Keeps s m.1.state
      → Acted s (after m (λ _ r₁. after (judge p d r₁) (λ _ r₂. (ok false, r₂))))
  after_judged s d (ok _, r) h = judged_on s h (judge-Judged p d r)
  after_judged s d (err e, r) h = raised e r

  pub within :
      (s t : TaskLoopState)
      → Keeps s t
      → leb s.round_no s.max_rounds ≡ true
      → leb t.round_no t.max_rounds ≡ true
  within s t k h = rw (k.same_round, k.same_limit) (ground arith)

  -- A finish is granted only if every check is satisfied.
  finish_judged :
      (s : TaskLoopState) (d : OrchestratorDecision) {m : Effect p.World Unit} {t : TaskLoopState}
      → Keeps s t
      → Judged p t m
      → Acted s (
          after m (λ _ r₁.
            if all_accepted r₁.state
            then (
              ok true,
              terminate TaskLoopStatus.finished
                  (or_else d.reason "all criteria passed")
                  (set_output (output_or_empty d.final_output) r₁),
            )
            else (ok false, set_reason "finish denied: acceptance criteria incomplete" r₁)))
  unfolding set_output set_reason all_accepted
  finish_judged s d k (Judged.raised e r) = raised e r
  finish_judged s d {m} {t} k (Judged.judged r status h) =
      let all = Keeps-trans s t r.state k h in
      if_rule (Acted s) (all_accepted r.state) _ _
        (λ accepted. stopped _ (
          terminate-Ended TaskLoopStatus.finished _ s
            (set_output (output_or_empty d.final_output) r) refl (λ _. accepted) all.still_grounded
            (within s r.state all) all.same_limit))
        (λ _. kept _ (ap terminal status) (record {
          same_round = all.same_round;
          same_limit = all.same_limit;
          still_grounded = all.still_grounded;
        }))

  pub act-Acted :
      (s : TaskLoopState) (d : OrchestratorDecision) (r : Run p.World)
      → Keeps s r.state
      → Acted s (act p d r)
  unfolding act
  act-Acted s d r k = go d.decision refl
    where
      stop :
          (status : TaskLoopStatus) (reason : String)
          → terminal status ≡ true
          → (status ≡ TaskLoopStatus.finished → all_accepted r.state ≡ true)
          → Acted s (ok true, terminate status reason r)
      stop status reason over accepted = stopped _ (
          terminate-Ended status reason s r over accepted k.still_grounded (within s r.state k)
            k.same_limit)

      go : (kind : DecisionKind) → d.decision ≡ kind → Acted s (act p d r)
      go DecisionKind.finished e = rw (e, act) (finish_judged s d k (judge-Judged p d r))
      go DecisionKind.need_tool e =
          rw (e, act)
            (after_judged s d (run_tool p d r)
              (Keeps-trans s r.state (run_tool p d r).1.state k (run_tool-Keeps p d r)))
      go DecisionKind.continue e =
          rw (e, act)
            (after_judged s d (run_round p d r)
              (Keeps-trans s r.state (run_round p d r).1.state k (run_round-Keeps p d r)))
      go DecisionKind.blocked e = rw (e, act) (stop TaskLoopStatus.blocked _ refl (λ h. cc))
      go DecisionKind.failed e = rw (e, act) (stop TaskLoopStatus.failed _ refl (λ h. cc))

  pub data Closed (s : TaskLoopState) : Flow × Run p.World → Type 0 where
    over : (r : Run p.World) → Ended s r → Closed s (ended, r)
    more :
        (signature : String) (count : ℕ) (r : Run p.World)
        → Advanced s r.state
        → Closed s (again signature count, r)

  warn_starved-state : (n : ℕ) (r : Run p.World) → (warn_starved p n r).state ≡ r.state
  unfolding warn_starved emit
  warn_starved-state n r =
      if_rule (λ (t : Run p.World). t.state ≡ r.state)
        (ltb 0 n && leb r.state.max_rounds (suc r.state.round_no) && not (is_terminal r.state)) _ _
        (λ _. refl) (λ _. refl)

  checkpoint-Advanced :
      (s : TaskLoopState) (r : Run p.World)
      → is_terminal r.state ≡ false
      → Keeps s r.state
      → Advanced s (checkpoint p r).0.state
  unfolding checkpoint apply_pending_commands save
  checkpoint-Advanced s r live k = record {
    live = live;
    one_more = ap suc k.same_round;
    same_limit = k.same_limit;
    grounded = k.still_grounded;
  }

  Advanced-Ended :
      (s : TaskLoopState) (reason : String) (r : Run p.World)
      → ltb s.round_no s.max_rounds ≡ true
      → Advanced s r.state
      → Ended s (terminate TaskLoopStatus.blocked reason r)
  Advanced-Ended s reason r room a =
      terminate-Ended TaskLoopStatus.blocked reason s r refl (λ h. cc) a.grounded
        (λ _. rw (a.one_more, a.same_limit) (ground arith)) a.same_limit

  pub close_round-Closed :
      (max_repeats : ℕ) (s : TaskLoopState) (signature : String) (count : ℕ) (r : Run p.World)
      → ltb s.round_no s.max_rounds ≡ true
      → is_terminal r.state ≡ false
      → Keeps s r.state
      → Closed s (close_round p max_repeats s signature count r)
  unfolding close_round
  close_round-Closed max_repeats s signature count r room live k =
      let (r₁, applied) = checkpoint p r in
      let n = length r.state.pending_commands in
      let a = subst (Advanced s) (sym (warn_starved-state n r₁)) (checkpoint-Advanced s r live k) in
      if_rule (Closed s) (not (progressed s (warn_starved p n r₁).state applied)) _ _
        (λ _. over _ (Advanced-Ended s _ (warn_starved p n r₁) room a))
        (λ _.
          if_rule (Closed s) (leb max_repeats (if ltb 0 applied then 0 else count)) _ _
            (λ _. over _ (Advanced-Ended s _ (warn_starved p n r₁) room a)) (λ _. more _ _ _ a))
