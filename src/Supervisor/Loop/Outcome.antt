-- ===== src/Supervisor/Loop/Outcome.antt =====
-- How `_drive` ends.
use hex_agent.Base.{
  ◌≡◌, refl, ◌∙◌, subst, ◌⊎◌, inl, inr, ℕ, zero, suc, ◌-◌, String, true, false, Option, none, some,
  List, [], ◌∷◌, ◌++◌, arith,
}
use hex_agent.Base.{All, ltb, leb, Bool-cases}
use hex_agent.Base.Result.{Error, ok, err}
use hex_agent.Supervisor.State.{
  TaskLoopState, TaskLoopStatus, is_terminal, is_passed, non_empty, all_accepted,
}
use hex_agent.Supervisor.Ports.{Ports, Run}
use hex_agent.Supervisor.Run.{Effect}
use hex_agent.Supervisor.Acceptance.{all_known}
use hex_agent.Supervisor.Acceptance.Grounded.{IsGrounded, accepted_evidence}
use hex_agent.Supervisor.Decide.Asking.{o_decide_enough}
use hex_agent.Supervisor.Loop.{Flow, ended, again, round}
use hex_agent.Supervisor.Loop.Drive.{drive, next}
use hex_agent.Supervisor.Loop.Rounds.{Ended, Advanced, Closed, over, more, terminate-Ended}
use hex_agent.Supervisor.Loop.Playing.{Played, failed, played, answered-Played}

-- All checks are passed, with evidence that is on the Blackboard.
abbrev pub Evidenced : TaskLoopState → Type 0
Evidenced s =
    (all_accepted s ≡ true)
    × All
        (λ c.
          (is_passed c.status ≡ true)
          × (non_empty c.evidence_ids ≡ true)
          × (all_known s.artifacts c.evidence_ids ≡ true))
        s.acceptance_checks

Advanced-then-Ended :
    {W : Type 0} (s s' : TaskLoopState) (r : Run W)
    → ltb s.round_no s.max_rounds ≡ true
    → Advanced s s'
    → Ended s' r
    → Ended s r
Advanced-then-Ended s s' r room a h = record {
  is_over = h.is_over;
  last_saved = h.last_saved;
  if_finished = h.if_finished;
  grounded = λ g. h.grounded (a.grounded g);
  in_limit = λ _. h.in_limit (rw (a.one_more, a.same_limit) (ground arith));
  same_limit = h.same_limit ∙ a.same_limit;
}

module _ (p : Ports) (limit max_repeats : ℕ) where
  -- What a loop of n rounds at most gives: fuel that was not enough, an exception, or an end.
  pub data Driven (n : ℕ) (s : TaskLoopState) : Option (Effect p.World Unit) → Type 0 where
    out_of_fuel : leb n (s.max_rounds - s.round_no) ≡ true → Driven n s none
    raised : (e : Error) (r : Run p.World) → Driven n s (some (err e, r))
    done : (r : Run p.World) → Ended s r → Driven n s (some (ok tt, r))

  Advanced-Driven :
      (n : ℕ) (s s' : TaskLoopState) {o : Option (Effect p.World Unit)}
      → ltb s.round_no s.max_rounds ≡ true
      → Advanced s s'
      → Driven n s' o
      → Driven (suc n) s o
  Advanced-Driven n s s' room a (out_of_fuel h) =
      out_of_fuel (ground (arith, rw (a.one_more, a.same_limit) at h))
  Advanced-Driven n s s' room a (raised e r) = raised e r
  Advanced-Driven n s s' room a (done r h) = done r (Advanced-then-Ended s s' r room a h)

  next-Driven :
      (n : ℕ) (s : TaskLoopState) (k : String → ℕ → Run p.World → Option (Effect p.World Unit))
      {m : Effect p.World Flow}
      → ltb s.round_no s.max_rounds ≡ true
      → Played p s m
      → ((signature : String) (count : ℕ) (r : Run p.World)
          → Advanced s r.state
          → Driven n r.state (k signature count r))
      → Driven (suc n) s (next (some m) k)
  next-Driven n s k room (failed e r) f = raised e r
  next-Driven n s k room (played flow r c) f = close flow r c
    where
      close :
          (flow : Flow) (r : Run p.World)
          → Closed p s (flow, r)
          → Driven (suc n) s (next (some (ok flow, r)) k)
      close ended _ (over r h) = done r h
      close (again _ _) _ (more signature count r a) =
          Advanced-Driven n s r.state room a (f signature count r a)

  pub drive-Driven :
      (n : ℕ) (last : Option String) (count : ℕ) (r : Run p.World)
      → is_terminal r.state ≡ false
      → Driven n r.state (drive p limit max_repeats n last count r)
  unfolding drive round
  drive-Driven zero last count r live = out_of_fuel (ground arith)
  drive-Driven (suc n) last count r live =
      let rest =
        λ (signature : String) (count' : ℕ) (r' : Run p.World) (a : Advanced r.state r'.state).
          drive-Driven n (some signature) count' r' a.live in
      let (m, e, same, saved) = o_decide_enough p limit (suc limit) r (ground arith) in
      rw (live, drive)
        (elim (Bool-cases (leb r.state.max_rounds r.state.round_no)) [
          | inl spent ↦ rw spent (
              done _ (
                terminate-Ended TaskLoopStatus.blocked _ r.state r refl (λ h. cc) (λ g. g) (λ h. h)
                  refl))
          | inr room ↦
              let room' : ltb r.state.round_no r.state.max_rounds ≡ true = ground arith in
              rw (room, e, round)
                (next-Driven n r.state _ room'
                  (answered-Played p max_repeats r.state last count m room' same) rest)
        ])

  -- An exception, or a run that is over, within its rounds, whose last checkpoint is its Blackboard.
  abbrev pub Over : Effect p.World Unit → Type 0
  Over m =
      ((e : Error) × (m.0 ≡ err e))
      ⊎ ((m.0 ≡ ok tt)
          × (is_terminal m.1.state ≡ true)
          × (leb m.1.state.round_no m.1.state.max_rounds ≡ true)
          × ((earlier : List TaskLoopState) × (m.1.saved ≡ earlier ++ m.1.state ∷ [])))

  Driven-Over :
      {n : ℕ} {s : TaskLoopState} {o : Option (Effect p.World Unit)}
      → leb s.round_no s.max_rounds ≡ true
      → ltb (s.max_rounds - s.round_no) n ≡ true
      → Driven n s o
      → (m : Effect p.World Unit) × (o ≡ some m) × Over m
  Driven-Over bound enough (out_of_fuel h) = ground arith
  Driven-Over bound enough (raised e r) = ((err e, r), refl, inl (e, refl))
  Driven-Over bound enough (done r h) =
      ((ok tt, r), refl, inr (refl, h.is_over, h.in_limit bound, h.last_saved))

  -- The loop ends. From a live Blackboard that is within its rounds, fuel for one more turn than
  -- there are rounds left is enough: the loop raises, or it returns with a terminal status, no
  -- round beyond the limit has been counted, and the Blackboard is the last one that was saved.
  pub drive_ends :
      (n : ℕ) (last : Option String) (count : ℕ) (r : Run p.World)
      → is_terminal r.state ≡ false
      → leb r.state.round_no r.state.max_rounds ≡ true
      → ltb (r.state.max_rounds - r.state.round_no) n ≡ true
      → (m : Effect p.World Unit) × (drive p limit max_repeats n last count r ≡ some m) × Over m
  drive_ends n last count r live bound enough =
      Driven-Over bound enough (drive-Driven n last count r live)

  abbrev Granted : TaskLoopState → Option (Effect p.World Unit) → Type 0
  Granted s (some (ok _, r)) =
      IsGrounded s → r.state.status ≡ TaskLoopStatus.finished → Evidenced r.state
  Granted s _ = Unit

  Driven-Granted :
      {n : ℕ} {s : TaskLoopState} {o : Option (Effect p.World Unit)} → Driven n s o → Granted s o
  Driven-Granted (out_of_fuel h) = tt
  Driven-Granted (raised e r) = tt
  Driven-Granted (done r h) =
      λ g f. (h.if_finished f, accepted_evidence r.state (h.if_finished f) (h.grounded g))

  -- A live run whose passed checks are backed by evidence finishes only when every check is passed
  -- with evidence, and all of that evidence is on the Blackboard. This holds on any fuel.
  pub drive_finished :
      (n : ℕ) (last : Option String) (count : ℕ) (r r' : Run p.World)
      → is_terminal r.state ≡ false
      → IsGrounded r.state
      → drive p limit max_repeats n last count r ≡ some (ok tt, r')
      → r'.state.status ≡ TaskLoopStatus.finished
      → Evidenced r'.state
  drive_finished n last count r r' live grounded e finished =
      subst (Granted r.state) e (Driven-Granted (drive-Driven n last count r live)) grounded
        finished
