-- ===== src/Supervisor/Loop/Playing.antt =====
-- What a round leads to from the answer of agent O on: enqueueing, signature, branch, checkpoint.
use hex_agent.Base.{◌≡◌, refl, ℕ, String, Bool, true, Option, none, some}
use hex_agent.Base.{ltb}
use hex_agent.Base.Result.{Result, Error, ok, err}
use hex_agent.Supervisor.State.{TaskLoopState, TaskLoopStatus}
use hex_agent.Supervisor.Contracts.{OrchestratorDecision}
use hex_agent.Supervisor.Ports.{Ports, Run}
use hex_agent.Supervisor.Run.{Effect, after, lift}
use hex_agent.Supervisor.Keeps.{Keeps, Keeps-refl, Keeps-trans, enqueue-Keeps}
use hex_agent.Supervisor.Round.{enqueue}
use hex_agent.Supervisor.Signature.{decision_signature}
use hex_agent.Supervisor.Loop.{
  Flow, ended, act, close_round, conclude_round, play, play_answer, repeats,
}
use hex_agent.Supervisor.Loop.Rounds.{
  Acted, raised, stopped, kept, Closed, over, act-Acted, close_round-Closed, terminate-Ended,
  within,
}

module _ (p : Ports) where
  pub data Played (s : TaskLoopState) : Effect p.World Flow → Type 0 where
    failed : (e : Error) (r : Run p.World) → Played s (err e, r)
    played : (flow : Flow) (r : Run p.World) → Closed p s (flow, r) → Played s (ok flow, r)

  conclude_round-Played :
      (max_repeats : ℕ) (s : TaskLoopState) (signature : String) (count : ℕ)
      {m : Effect p.World Bool}
      → ltb s.round_no s.max_rounds ≡ true
      → Acted p s m
      → Played s (after m (λ stop r. conclude_round p max_repeats s signature count stop r))
  conclude_round-Played max_repeats s signature count room (raised e r) = failed e r
  conclude_round-Played max_repeats s signature count room (stopped r h) = played ended r (over r h)
  conclude_round-Played max_repeats s signature count room (kept r live k) =
      let (flow, r') = close_round p max_repeats s signature count r in
      played flow r' (close_round-Closed p max_repeats s signature count r room live k)

  signed-Played :
      (max_repeats : ℕ) (s : TaskLoopState) (last : Option String) (count : ℕ)
      (d : OrchestratorDecision) (signature : Result String) (r : Run p.World)
      → ltb s.round_no s.max_rounds ≡ true
      → Keeps s r.state
      → Played s (
          after (lift signature r) (λ signature r₂. after (act p d r₂) (λ stop r₃.
            conclude_round p max_repeats s signature (repeats signature last count) stop r₃)))
  signed-Played max_repeats s last count d (err e) r room k = failed e r
  signed-Played max_repeats s last count d (ok signature) r room k =
      conclude_round-Played max_repeats s signature _ room (act-Acted p s d r k)

  play-Played :
      (max_repeats : ℕ) (s : TaskLoopState) (last : Option String) (count : ℕ)
      (d : OrchestratorDecision) (r : Run p.World)
      → ltb s.round_no s.max_rounds ≡ true
      → Keeps s r.state
      → Played s (play p max_repeats s last count d r)
  unfolding play
  play-Played max_repeats s last count d r room k =
      go (enqueue p d.commands r)
        (Keeps-trans s r.state (enqueue p d.commands r).1.state k (enqueue-Keeps p d.commands r))
    where
      go :
          (m : Effect p.World Unit)
          → Keeps s m.1.state
          → Played s (
              after m (λ _ r₁. after (lift (decision_signature p.python d) r₁) (λ signature r₂.
                after (act p d r₂) (λ stop r₃.
                  conclude_round p max_repeats s signature
                    (repeats signature last count)
                    stop
                    r₃))))
      go (err e, r₁) h = failed e r₁
      go (ok _, r₁) h =
          signed-Played max_repeats s last count d (decision_signature p.python d) r₁ room h

  pub answered-Played :
      (max_repeats : ℕ) (s : TaskLoopState) (last : Option String) (count : ℕ)
      (m : Effect p.World (Option OrchestratorDecision))
      → ltb s.round_no s.max_rounds ≡ true
      → m.1.state ≡ s
      → Played s (after m (λ answer r₁. play_answer p max_repeats s last count answer r₁))
  unfolding play_answer
  answered-Played max_repeats s last count (err e, r) room same = failed e r
  answered-Played max_repeats s last count (ok none, r) room same = played ended _ (
      over _ (
        terminate-Ended TaskLoopStatus.failed _ s r refl (λ h. cc) k.still_grounded
          (within p s r.state k) k.same_limit))
    where
      k : Keeps s r.state
      k = rw same (Keeps-refl s)
  answered-Played max_repeats s last count (ok (some d), r) room same =
      play-Played max_repeats s last count d r room (rw same (Keeps-refl s))
