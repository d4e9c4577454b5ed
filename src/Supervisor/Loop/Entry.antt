-- ===== src/Supervisor/Loop/Entry.antt =====
-- What `run_task_loop` and `resume_task_loop` guarantee to their callers.
use hex_agent.Base.{
  ◌≡◌, refl, ap, inl, inr, ℕ, ◌-◌, String, ◌==◌, true, false, not, ◌||◌, Option, none, some, List,
  arith,
}
use hex_agent.Base.Lists.{All-map}
use hex_agent.Base.{All, if_rule, Bool-cases, ◌&&◌, ltb, leb}
use hex_agent.Base.Result.{Result-cases, Error, ok, err, value_error}
use hex_agent.Supervisor.State.{
  TaskLoopState, TaskLoopStatus, AcceptanceCheck, terminal, is_terminal, is_passed,
}
use hex_agent.Supervisor.Ports.{Ports, Run}
use hex_agent.Supervisor.Run.{Effect, save}
use hex_agent.Supervisor.Keeps.{Keeps}
use hex_agent.Supervisor.Acceptance.Grounded.{IsGrounded}
use hex_agent.Supervisor.Compose.{compose_team, read_plan, role_catalog}
use hex_agent.Supervisor.Compose.Selection.{Chosen, refused, chosen, after_plan}
use hex_agent.Supervisor.Loop.Drive.{
  drive_after, run_task_loop, resume_task_loop, criteria, Criterion, Identity, new_state,
}
use hex_agent.Supervisor.Loop.Outcome.{Over, Evidenced, drive_ends, drive_finished}

module _ (p : Ports) where
  -- A team that is composed, or a refusal.
  data Composed (s : TaskLoopState) : Effect p.World Unit → Type 0 where
    not_composed : (e : Error) (r : Run p.World) → Composed s (err e, r)
    composed :
        (r : Run p.World) → is_terminal r.state ≡ false → Keeps s r.state → Composed s (ok tt, r)

  Chosen-Composed :
      {ids : List String} {r : Run p.World} {m : Effect p.World Unit}
      → Chosen p ids r m
      → Composed r.state m
  Chosen-Composed {r = r} (refused e) = not_composed e r
  Chosen-Composed (chosen r' ids status checks keeps distinct known) =
      composed r' (ap terminal status) keeps

  compose_team-Composed :
      (task : String) (r : Run p.World) → Composed r.state (compose_team p task r)
  unfolding compose_team
  compose_team-Composed task r =
      let (raw, w) = p.compose_team task (role_catalog p) r.world in
      Chosen-Composed (after_plan p (read_plan p raw) (record r { world = w })).1

module _ (p : Ports) (limit max_repeats : ℕ) where
  Composed-ends :
      (n : ℕ) (s : TaskLoopState) {m : Effect p.World Unit}
      → s.round_no ≡ 0
      → ltb s.max_rounds n ≡ true
      → Composed p s m
      → (t : Effect p.World Unit) × (drive_after p limit max_repeats n m ≡ some t)
        × Over p limit max_repeats t
  unfolding drive_after save
  Composed-ends n s start enough (not_composed e r) = ((err e, r), refl, inl (e, refl))
  Composed-ends n s start enough (composed r live keeps) =
      drive_ends p limit max_repeats n none 0 (save r) live
        (rw (keeps.same_round, start) (ground arith))
        (rw (keeps.same_round, keeps.same_limit, start) (ground arith))

  -- `run_task_loop` ends: fuel for more turns than the limit of rounds is enough. It raises, or it
  -- returns a terminal Blackboard that counts no round beyond the limit and was the last one saved.
  pub run_task_loop_ends :
      (n : ℕ) (identity : Identity) (task : String) (max_rounds : ℕ) (items : List Criterion)
      (r : Run p.World)
      → ltb max_rounds n ≡ true
      → (t : Effect p.World Unit) × (run_task_loop p limit max_repeats n identity task max_rounds
            items r
          ≡ some t)
        × Over p limit max_repeats t
  unfolding run_task_loop new_state
  run_task_loop_ends n identity task max_rounds items r enough =
      elim (Result-cases (criteria p.python items)) [
        | inl (e, bad) ↦ rw (bad, run_task_loop) ((err e, r), refl, inl (e, refl))
        | inr (checks, e) ↦
            let s = new_state identity max_rounds checks in
            rw (e, run_task_loop)
              (Composed-ends n s refl enough
                (compose_team-Composed p task (record r { state = s })))
      ]

  Composed-finished :
      (n : ℕ) (s : TaskLoopState) {m : Effect p.World Unit} (r' : Run p.World)
      → IsGrounded s
      → Composed p s m
      → drive_after p limit max_repeats n m ≡ some (ok tt, r')
      → r'.state.status ≡ TaskLoopStatus.finished
      → Evidenced r'.state
  unfolding drive_after save
  Composed-finished n s r' grounded (not_composed e r) h finished = ground arith
  Composed-finished n s r' grounded (composed r live keeps) h finished =
      drive_finished p limit max_repeats n none 0 (save r) r' live (keeps.still_grounded grounded) h
        finished

  -- A run that begins with no check passed and returns "finished" has every criterion passed, with
  -- evidence that is on its Blackboard. This holds on any fuel.
  pub run_task_loop_finished :
      (n : ℕ) (identity : Identity) (task : String) (max_rounds : ℕ) (items : List Criterion)
      (checks : List AcceptanceCheck) (r r' : Run p.World)
      → criteria p.python items ≡ ok checks
      → All (λ c. is_passed c.status ≡ false) checks
      → run_task_loop p limit max_repeats n identity task max_rounds items r ≡ some (ok tt, r')
      → r'.state.status ≡ TaskLoopStatus.finished
      → Evidenced r'.state
  unfolding run_task_loop new_state
  run_task_loop_finished n identity task max_rounds items checks r r' e none_passed h finished =
      let s = new_state identity max_rounds checks in
      Composed-finished n s r'
        (All-map checks (λ (c : AcceptanceCheck) fresh passed. ground arith) none_passed)
        (compose_team-Composed p task (record r { state = s })) (rw (e, run_task_loop) at h)
        finished

  -- What resuming a checkpoint gives.
  pub data Resumed (identity : Identity) (s : TaskLoopState) (r : Run p.World)
      : Effect p.World Unit → Type 0 where
    foreign :
        ((s.session_id == identity.session_id) && (s.task_id == identity.task_id)) ≡ false
        → Resumed identity s r (err value_error, r)
    was_over :
        ((s.session_id == identity.session_id) && (s.task_id == identity.task_id)) ≡ true
        → is_terminal s ≡ true
        → Resumed identity s r (ok tt, record r { state = s })
    driven :
        {m : Effect p.World Unit}
        → ((s.session_id == identity.session_id) && (s.task_id == identity.task_id)) ≡ true
        → is_terminal s ≡ false
        → Over p limit max_repeats m
        → Resumed identity s r m

  -- Resuming a checkpoint that is within its rounds ends, on fuel for one more turn than there are
  -- rounds left. A checkpoint of another session or task is refused and nothing is written; one
  -- that is over is returned as it is; any other is driven to its end, as `drive_ends` says.
  pub resume_ends :
      (n : ℕ) (identity : Identity) (s : TaskLoopState) (r : Run p.World)
      → leb s.round_no s.max_rounds ≡ true
      → ltb (s.max_rounds - s.round_no) n ≡ true
      → (m : Effect p.World Unit) × (resume_task_loop p limit max_repeats n identity (some s) r
          ≡ some m)
        × Resumed identity s r m
  unfolding resume_task_loop
  resume_ends n identity s r bound enough =
      if_rule
        (λ (o : Option (Effect p.World Unit)).
          (m : Effect p.World Unit) × (o ≡ some m) × Resumed identity s r m)
        (not (s.session_id == identity.session_id) || not (s.task_id == identity.task_id)) _ _
        (λ other. ((err value_error, r), refl, foreign (ground arith)))
        (λ own. elim (Bool-cases (is_terminal s)) [
          | inl over ↦ ((ok tt, record r { state = s }), rw over refl, was_over (ground arith) over)
          | inr live ↦
              let (m, e, ends) =
                drive_ends p limit max_repeats n none 0 (record r { state = s }) live bound
                  enough in
              (m, rw live e, driven (ground arith) live ends)
        ])
