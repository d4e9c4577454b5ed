-- ===== src/Supervisor/Round/Admission.antt =====
-- Queueing the admission of a department's member never raises.
use hex_agent.Base.{◌+◌, ℕ, ◌≡◌, refl, String, String-discrete, not, List, [], ◌∷◌, ◌++◌}
use hex_agent.Base.{if_rule, strip, not_blank}
use hex_agent.Base.Result.{Result, ok, err, contract_error}
use hex_agent.Value.{Fields, Python}
use hex_agent.Control.Command.{Stamp, RuntimeCommand, command_check, parse_command}
use hex_agent.Supervisor.State.{TaskLoopState}
use hex_agent.Supervisor.Bridge.{
  Enqueue, push, push_result, to_runtime_command, enqueue_from, enqueue_commands, candidate,
  queued_keys,
}
use hex_agent.Supervisor.Bridge.Keys.{candidate_lem}
use hex_agent.Supervisor.Ports.{Ports, Run}
use hex_agent.Supervisor.Round.{admit_command, enqueue, enqueue_members}

-- Accepted, or refused with a ControlContractError.
data Caught : Result RuntimeCommand → Type 0 where
  accepted : (c : RuntimeCommand) → Caught (ok c)
  refused : Caught (err contract_error)

command_check-Caught : (c : RuntimeCommand) → Caught (command_check c)
unfolding command_check
command_check-Caught c = if_rule Caught _ _ _ (λ _. accepted c) (λ _. refused)

parse_candidate-Caught :
    (py : Python) (stamp : Stamp) (command_type session_id key : String) (payload : Fields)
    → Caught (parse_command py stamp (candidate command_type session_id key payload))
parse_candidate-Caught py stamp command_type session_id key payload =
    rw candidate_lem
      (if_rule Caught (not (not_blank key)) _ _ (λ _. refused) (λ _. command_check-Caught _))

admit_command-Caught :
    (py : Python) (stamp : Stamp) (session_id member : String)
    → Caught (to_runtime_command py stamp session_id (admit_command member))
unfolding to_runtime_command admit_command strip String-discrete
admit_command-Caught py stamp session_id member = parse_candidate-Caught py stamp _ session_id _ _

push_result-Caught :
    (q : Enqueue) {t : Result RuntimeCommand}
    → Caught t
    → (q' : Enqueue) × (push_result q t ≡ ok q')
unfolding push_result
push_result-Caught q (accepted c) = (push c q, refl)
push_result-Caught q refused = (q, refl)

enqueue_admission :
    (py : Python) (stamps : ℕ → Stamp) (member : String) (s : TaskLoopState)
    → (t : TaskLoopState × ℕ) × (enqueue_commands py stamps (admit_command member ∷ []) s ≡ ok t)
unfolding enqueue_commands enqueue_from
enqueue_admission py stamps member s =
    let (q, e) =
      push_result-Caught
        (record {
          seen = queued_keys s.pending_commands ++ s.applied_command_keys;
          pending = s.pending_commands;
          added = 0;
        })
        (admit_command-Caught py (stamps 0) s.session_id member) in
    ((record s { pending_commands = q.pending }, q.added), rw e)

module _ (p : Ports) where
  enqueue-admission :
      (m : String) (r : Run p.World)
      → (r' : Run p.World) × (enqueue p (admit_command m ∷ []) r ≡ (ok tt, r'))
  unfolding enqueue
  enqueue-admission m r =
      let ((s, n), e) = enqueue_admission p.python (λ i. p.draw (r.draws + i)) m r.state in
      (record r { state = s; draws = r.draws + 1 }, rw (e, enqueue))

  pub enqueue_members-ok : (ms : List String) (r : Run p.World) → (enqueue_members p ms r).0 ≡ ok tt
  unfolding enqueue_members
  enqueue_members-ok [] r = refl
  enqueue_members-ok (m ∷ ms) r =
      let (r', e) = enqueue-admission m r in rw e (enqueue_members-ok ms r')
