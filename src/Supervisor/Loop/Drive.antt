-- ===== src/Supervisor/Loop/Drive.antt =====
-- `_drive`, `run_task_loop` and `resume_task_loop` of supervisor/loop.py.
use hex_agent.Base.{
  ℕ, zero, suc, String, ◌==◌, true, false, not, ◌||◌, Option, none, some, List, [], ◌∷◌,
}
use hex_agent.Base.{if◌then◌else◌, leb}
use hex_agent.Base.Result.{Result, ok, err, value_error, lookup_error, file_not_found_error, ◌>>=◌}
use hex_agent.Value.{Value, str, Fields, get, get_or, str_of, Python}
use hex_agent.Supervisor.State.{
  TaskLoopState, TaskLoopStatus, AcceptanceCheck, CheckStatus, is_terminal,
}
use hex_agent.Supervisor.Ports.{Ports, Run}
use hex_agent.Supervisor.Run.{Effect, save}
use hex_agent.Supervisor.Compose.{compose_team}
use hex_agent.Supervisor.Loop.{Flow, ended, again, round, terminate}

-- An acceptance criterion as the caller gives it.
pub data Criterion : Type 0 where
  check : AcceptanceCheck → Criterion
  mapping : Fields → Criterion
  pair : Value → Value → Criterion

abbrev new_check : String → String → AcceptanceCheck
new_check i text = record { id = i; text = text; status = CheckStatus.pending; evidence_ids = [] }

unfoldable pub criterion : Python → Criterion → Result AcceptanceCheck
criterion py (check c) = ok c
criterion py (mapping d) = elim (get "id" d) [
  | none ↦ err lookup_error
  | some v ↦ ok (new_check (str_of py v) (str_of py (get_or "text" (str "") d)))
]
criterion py (pair i text) = ok (new_check (str_of py i) (str_of py text))

-- `_criteria`
unfoldable pub criteria : Python → List Criterion → Result (List AcceptanceCheck)
unfolding criterion
criteria py [] = ok []
criteria py (item ∷ rest) =
    criterion py item >>= λ c. criteria py rest >>= λ checks. ok (c ∷ checks)

-- The identity of the supervisor's session
pub record Identity : Type 0 where
  pub session_id : String
  pub task_id : String

unfoldable pub new_state : Identity → ℕ → List AcceptanceCheck → TaskLoopState
new_state identity max_rounds checks = record {
  session_id = identity.session_id;
  task_id = identity.task_id;
  status = TaskLoopStatus.created;
  selected_agents = [];
  acceptance_checks = checks;
  round_no = 0;
  max_rounds = max_rounds;
  turns = [];
  artifacts = [];
  tool_results = [];
  final_output = none;
  reason = "";
  pending_commands = [];
  applied_command_keys = [];
}

module _ {W : Type 0} where
  -- The loop after a round.
  abbrev pub next :
      Option (Effect W Flow)
      → (String → ℕ → Run W → Option (Effect W Unit))
      → Option (Effect W Unit)
  next none k = none
  next (some (err e, r)) k = some (err e, r)
  next (some (ok ended, r)) k = some (ok tt, r)
  next (some (ok (again signature count), r)) k = k signature count r

module _ (p : Ports) (limit max_repeats : ℕ) where
  -- The loop, on fuel: none when it is out. `limit` is the number of parse errors that is too many.
  unfoldable pub drive : ℕ → Option String → ℕ → Run p.World → Option (Effect p.World Unit)
  unfolding round terminate
  drive zero last count r = none
  drive (suc n) last count r = elim (is_terminal r.state) [
    | true ↦ some (ok tt, r)
    | false ↦ elim (leb r.state.max_rounds r.state.round_no) [
      | true ↦ some (ok tt, terminate TaskLoopStatus.blocked "max_rounds reached" r)
      | false ↦
          next (round p limit max_repeats last count r)
            (λ signature count' r'. drive n (some signature) count' r')
    ]
  ]

  unfoldable pub drive_after : ℕ → Effect p.World Unit → Option (Effect p.World Unit)
  unfolding drive save
  drive_after n (ok _, r) = drive n none 0 (save r)
  drive_after n (err e, r) = some (err e, r)

  unfoldable pub run_task_loop :
      ℕ → Identity → String → ℕ → List Criterion → Run p.World → Option (Effect p.World Unit)
  unfolding criteria new_state drive_after compose_team
  run_task_loop n identity task max_rounds items r = elim (criteria p.python items) [
    | err e ↦ some (err e, r)
    | ok checks ↦
        drive_after n
          (compose_team p task (record r { state = new_state identity max_rounds checks }))
  ]

  -- The checkpoint that is stored, if there is one.
  unfoldable pub resume_task_loop :
      ℕ → Identity → Option TaskLoopState → Run p.World → Option (Effect p.World Unit)
  unfolding drive
  resume_task_loop n identity none r = some (err file_not_found_error, r)
  resume_task_loop n identity (some s) r =
      if not (s.session_id == identity.session_id) || not (s.task_id == identity.task_id)
      then some (err value_error, r)
      else elim (is_terminal s) [
        | true ↦ some (ok tt, record r { state = s })
        | false ↦ drive n none 0 (record r { state = s })
      ]
