-- ===== src/Supervisor/Bridge/Queue.antt =====
-- What `enqueue_commands` guarantees on the whole Blackboard.
use hex_agent.Base.{ℕ, suc, ◌≡◌, refl, sym, ap, ◌∙◌, String, true, List, [], ◌∷◌, ◌++◌}
use hex_agent.Base.{arith, length, not_blank, strip}
use hex_agent.Base.Lists.{contains-append, All-map}
use mathlib.Core.List.{append-nil}
use hex_agent.Base.Result.{ok, err, value_error, >>=-eq-ok, ok_inj}
use hex_agent.Value.{Fields, Python, get_or, str, null, str_of, dict_or_empty}
use hex_agent.Control.Command.{Stamp, RuntimeCommand}
use hex_agent.Supervisor.State.{TaskLoopState}
use hex_agent.Supervisor.Bridge.{
  Enqueue, queued_keys, push_result, enqueue_from, enqueue_commands, to_runtime_command,
  enqueue_so_far, queue_so_far,
}
use hex_agent.Supervisor.Bridge.Keys.{IsDrawn}
use hex_agent.Supervisor.Bridge.Queueing.{Tidy, enqueue_from-Tidy, enqueue_from-Queued}
use hex_agent.Supervisor.Bridge.Intake.{IsQueue, Heard-mono, enqueue_from-Heard, enqueue_from-again}

abbrev start : TaskLoopState → Enqueue
start s = record {
  seen = queued_keys s.pending_commands ++ s.applied_command_keys;
  pending = s.pending_commands;
  added = 0;
}

module _ (py : Python) (stamps : ℕ → Stamp) (cmds : List Fields) (s : TaskLoopState) where
  loop_of :
      {s' : TaskLoopState} {n : ℕ}
      → enqueue_commands py stamps cmds s ≡ ok (s', n)
      → (q : Enqueue) × (enqueue_from py stamps s.session_id cmds 0 (start s) ≡ ok q)
        × (s' ≡ record s { pending_commands = q.pending })
        × (n ≡ q.added)
  unfolding enqueue_commands
  loop_of e =
      let (q, e₁, e₂) = >>=-eq-ok (enqueue_from py stamps s.session_id cmds 0 (start s)) _ e in
      (q, e₁, cc (ok_inj e₂), cc (ok_inj e₂))

  start-Tidy : IsQueue s → Tidy s.applied_command_keys (start s)
  start-Tidy h = record {
    known = λ k. contains-append (queued_keys s.pending_commands) s.applied_command_keys k;
    distinct = h.0;
    fresh = h.1;
  }

  -- A call that returns appends as many commands to the queue as it reports and leaves the rest
  -- of the Blackboard alone; if no two queued commands had one key and none had an applied key,
  -- this still holds.
  pub enqueue_appends :
      {s' : TaskLoopState} {n : ℕ}
      → IsQueue s
      → enqueue_commands py stamps cmds s ≡ ok (s', n)
      → IsQueue s'
        × (s' ≡ record s { pending_commands = s'.pending_commands })
        × ((new : List RuntimeCommand) × (s'.pending_commands ≡ s.pending_commands ++ new)
            × (length new ≡ n))
  enqueue_appends {s'} {n} h e =
      let (q, e₁, e₂, e₃) = loop_of e in
      let t =
        enqueue_from-Tidy s.applied_command_keys py stamps s.session_id cmds 0 (start s) e₁
          (start-Tidy h) in
      let (new, grown, counted) =
        enqueue_from-Queued py stamps s.session_id s.pending_commands cmds 0 (start s) e₁
          ([], sym (append-nil s.pending_commands), refl) in
      (rw e₂ (t.distinct, t.fresh), rw e₂, (new, rw e₂ grown, rw e₃ counted))

  again :
      (stamps' : ℕ → Stamp) (q : Enqueue)
      → ((i : ℕ) → IsDrawn (stamps i))
      → ((i : ℕ) → IsDrawn (stamps' i))
      → IsQueue s
      → enqueue_from py stamps s.session_id cmds 0 (start s) ≡ ok q
      → let t = record s { pending_commands = q.pending } in
        enqueue_commands py stamps' cmds t ≡ ok (t, 0)
  unfolding enqueue_commands
  again stamps' q drawn drawn' h e =
      let tidy =
        enqueue_from-Tidy s.applied_command_keys py stamps s.session_id cmds 0 (start s) e
          (start-Tidy h) in
      rw (
        enqueue_from-again py s.session_id stamps stamps' drawn drawn' cmds 0
          (start (record s { pending_commands = q.pending }))
          (All-map cmds
            (λ raw heard j.
              Heard-mono py s.session_id q.seen _ _
                (λ k old.
                  contains-append (queued_keys q.pending) s.applied_command_keys k
                  ∙ sym (tidy.known k)
                  ∙ old)
                (heard j))
            (enqueue_from-Heard py s.session_id stamps stamps' drawn drawn' cmds 0 (start s) e)))

  -- Queueing the same commands again, whatever identifiers are drawn this time, changes nothing
  -- and reports 0.
  pub enqueue_again :
      (stamps' : ℕ → Stamp) {s' : TaskLoopState} {n : ℕ}
      → ((i : ℕ) → IsDrawn (stamps i))
      → ((i : ℕ) → IsDrawn (stamps' i))
      → IsQueue s
      → enqueue_commands py stamps cmds s ≡ ok (s', n)
      → enqueue_commands py stamps' cmds s' ≡ ok (s', 0)
  enqueue_again stamps' drawn drawn' h e =
      let (q, e₁, e₂, _) = loop_of e in rw e₂ (again stamps' q drawn drawn' h e₁)

dict_or_empty-text :
    (py : Python) (text : String)
    → not_blank text ≡ true
    → dict_or_empty py (str text) ≡ err value_error
dict_or_empty-text py text h = ground arith

-- A command that names a type and has a text that is not empty as its payload.
abbrev pub IsTextCommand : Python → String → Fields → Type 0
IsTextCommand py text raw =
    (not_blank (strip (str_of py (get_or "command_type" (str "") raw))) ≡ true)
    × (get_or "payload" null raw ≡ str text)
    × (not_blank text ≡ true)

text_command_raises :
    (py : Python) (stamp : Stamp) (session_id : String) (raw : Fields) (text : String)
    → IsTextCommand py text raw
    → to_runtime_command py stamp session_id raw ≡ err value_error
unfolding to_runtime_command
text_command_raises py stamp session_id raw text (named, payload, filled) =
    rw named (rw payload (rw (dict_or_empty-text py text filled)))

-- After commands that raise nothing, such a command ends the loop: with a ValueError, and with what
-- the commands before it have queued.
text_command_ends :
    (py : Python) (stamps : ℕ → Stamp) (session_id : String) (before : List Fields) (raw : Fields)
    (rest : List Fields) (text : String) (i : ℕ) (q : Enqueue) {q' : Enqueue}
    → enqueue_from py stamps session_id before i q ≡ ok q'
    → IsTextCommand py text raw
    → (enqueue_from py stamps session_id (before ++ raw ∷ rest) i q ≡ err value_error)
      × (enqueue_so_far py stamps session_id (before ++ raw ∷ rest) i q ≡ q')
unfolding enqueue_from enqueue_so_far push_result
text_command_ends py stamps session_id [] raw rest text i q e h =
    let raises = text_command_raises py (stamps i) session_id raw text h in
    (rw raises refl, rw (enqueue_so_far, raises) (ok_inj e))
text_command_ends py stamps session_id (c ∷ before) raw rest text i q e h =
    let (q₁, m, n) =
      >>=-eq-ok (push_result q (to_runtime_command py (stamps i) session_id c)) _ e in
    let (x, y) = text_command_ends py stamps session_id before raw rest text (suc i) q₁ n h in
    (rw m x, rw (enqueue_so_far, m) y)

-- A command that names a type and has a text that is not empty as its payload, behind commands that
-- raise nothing, makes the whole call raise a ValueError: it is not skipped. The queue then holds what
-- the commands before it have queued, and the commands after it are lost.
pub enqueue_bad_payload :
    (py : Python) (stamps : ℕ → Stamp) (before : List Fields) (raw : Fields) (rest : List Fields)
    (s : TaskLoopState) (text : String) {s' : TaskLoopState} {n : ℕ}
    → enqueue_commands py stamps before s ≡ ok (s', n)
    → IsTextCommand py text raw
    → (enqueue_commands py stamps (before ++ raw ∷ rest) s ≡ err value_error)
      × (queue_so_far py stamps (before ++ raw ∷ rest) s ≡ s'.pending_commands)
unfolding enqueue_commands queue_so_far
enqueue_bad_payload py stamps before raw rest s text {s'} e h =
    let (q, e₁, e₂, _) = loop_of py stamps before s e in
    let (x, y) = text_command_ends py stamps s.session_id before raw rest text 0 (start s) e₁ h in
    (rw x refl, ap (λ q. q.pending) y ∙ sym (ap (λ t. t.pending_commands) e₂))
