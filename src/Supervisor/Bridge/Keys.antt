-- ===== src/Supervisor/Bridge/Keys.antt =====
-- The translation of a command (`to_runtime_command`): what is drawn for it does not decide its key.
use hex_agent.Base.{◌≡◌, refl, inl, inr, String, true}
use hex_agent.Base.{arith, not_blank}
use hex_agent.Base.Result.{Result, ok, err, contract_error, ◌>>=◌}
use hex_agent.Value.{Fields, end, field, str, null, get_or, str_of, dict_or_empty, Python}
use hex_agent.Base.{Bool-cases, strip}
use hex_agent.Control.Command.{Stamp, RuntimeCommand, parse_command, command_check, IssuedBy}
use hex_agent.Base.{String-discrete, not, if◌then◌else◌, none, some}
use hex_agent.Base.Int.{pos}
use hex_agent.Supervisor.Bridge.{to_runtime_command, candidate, orchestrator_id}

-- A draw gives texts that are not empty (`uuid.uuid4().hex` and the clock's ISO text).
abbrev pub IsDrawn : Stamp → Type 0
IsDrawn s = (not_blank s.hex ≡ true) × (not_blank s.now ≡ true)

abbrev pub key_of : Result RuntimeCommand → Result String
key_of r = r >>= λ c. ok c.idempotency_key

abbrev pub agent_o : IssuedBy
agent_o = record { type = "agent"; user_id = none; agent_id = some orchestrator_id }

-- What `parse_command` does with the mapping that the bridge builds.
pub candidate_lem :
    (py : Python) (stamp : Stamp) (command_type session_id key : String) (payload : Fields)
    → parse_command py stamp (candidate command_type session_id key payload) ≡ (
        if not (not_blank key)
        then err contract_error
        else command_check (record {
          command_type = command_type;
          session_id = session_id;
          issued_by = agent_o;
          idempotency_key = key;
          payload = payload;
          command_id = stamp.hex;
          created_at = stamp.now;
          schema_version = pos 1;
        }))
unfolding parse_command candidate String-discrete
candidate_lem py stamp command_type session_id key end = refl
candidate_lem py stamp command_type session_id key (field k v rest) = refl

key_of-command_check :
    (c : RuntimeCommand) (s t : Stamp)
    → IsDrawn s
    → IsDrawn t
    → key_of (command_check (record c { command_id = s.hex; created_at = s.now }))
      ≡ key_of (command_check (record c { command_id = t.hex; created_at = t.now }))
unfolding command_check
key_of-command_check c s t hs ht = rw (hs.0, hs.1, ht.0, ht.1) (ground arith)

key_of-parse :
    (py : Python) (s t : Stamp) (command_type session_id key : String) (payload : Fields)
    → IsDrawn s
    → IsDrawn t
    → key_of (parse_command py s (candidate command_type session_id key payload))
      ≡ key_of (parse_command py t (candidate command_type session_id key payload))
key_of-parse py s t command_type session_id key payload hs ht =
    simp candidate_lem (elim (Bool-cases (not_blank key)) [
      | inl given ↦ rw given (
          key_of-command_check
            (record {
              command_type = command_type;
              session_id = session_id;
              issued_by = agent_o;
              idempotency_key = key;
              payload = payload;
              command_id = "";
              created_at = "";
              schema_version = pos 1;
            })
            s t hs ht)
      | inr blank ↦ rw blank
    ])

key_of-bind :
    (r : Result Fields) (f g : Fields → Result RuntimeCommand)
    → ((d : Fields) → key_of (f d) ≡ key_of (g d))
    → key_of (r >>= f) ≡ key_of (r >>= g)
key_of-bind (ok d) f g h = h d
key_of-bind (err e) f g h = refl

-- Whether a command is accepted, and under which key, does not depend on what was drawn for it.
pub key_of-stamp :
    (py : Python) (s t : Stamp) (session_id : String) (raw : Fields)
    → IsDrawn s
    → IsDrawn t
    → key_of (to_runtime_command py s session_id raw)
      ≡ key_of (to_runtime_command py t session_id raw)
unfolding to_runtime_command
key_of-stamp py s t session_id raw hs ht =
    elim (Bool-cases (not_blank (strip (str_of py (get_or "command_type" (str "") raw))))) [
      | inl named ↦ rw named (
          key_of-bind (dict_or_empty py (get_or "payload" null raw)) _ _
            (λ payload. key_of-parse py s t _ session_id _ payload hs ht))
      | inr blank ↦ rw blank
    ]
