-- ===== src/Control/Event/Codec.antt =====
-- An event of the control plane is read back from its mapping as it is.
use hex_agent.Base.{◌≡◌, refl, String-discrete, String, Option, none, some}
use hex_agent.Base.Int.{ℤ}
use hex_agent.Base.Result.{ok}
use hex_agent.Value.{obj, Fields, end, field, dict_or_empty, texts_of-texts, optional_text, Python}
use hex_agent.Control.Command
use hex_agent.Control.Command.Codec.{IsName}
use hex_agent.Control.Event.{
  Actor, TraceContext, RedactionInfo, RuntimeEvent, actor_check, trace_check, redaction_check,
  event_check, actor_as_dict, trace_as_dict, redaction_as_dict, event_as_dict, actor_from_dict,
  trace_from_dict, redaction_from_dict, event_from_dict, optional_number, int_if_given,
  optional_mapping, dict_if_given,
}

name_read :
    (py : Python) (name : Option String)
    → IsName name
    → Command.optional_text py (some (optional_text name)) ≡ name
name_read py none h = refl
name_read py (some s) h = rw h refl

number_read : (py : Python) (n : Option ℤ) → int_if_given py (optional_number n) ≡ ok n
number_read py none = refl
number_read py (some n) = refl

mapping_read : (py : Python) (d : Option Fields) → dict_if_given py (optional_mapping d) ≡ ok d
mapping_read py none = refl
mapping_read py (some d) = refl

payload_read : (py : Python) (d : Fields) → dict_or_empty py (obj d) ≡ ok d
payload_read py end = refl
payload_read py (field k v d) = refl

actor_read :
    (py : Python) (a : Actor) → actor_check a ≡ ok a → actor_from_dict py (actor_as_dict a) ≡ ok a
unfolding actor_from_dict actor_as_dict String-discrete
actor_read py a h = h

trace_read :
    (py : Python) (t : TraceContext)
    → trace_check t ≡ ok t
    → IsName t.parent_span_id
    → trace_from_dict py (trace_as_dict t) ≡ ok t
unfolding trace_from_dict trace_as_dict String-discrete
trace_read py t h name = rw (name_read py t.parent_span_id name) h

redaction_read :
    (py : Python) (r : RedactionInfo)
    → redaction_check r ≡ ok r
    → redaction_from_dict py (redaction_as_dict r) ≡ ok r
unfolding redaction_from_dict redaction_as_dict String-discrete
redaction_read py r h = rw (texts_of-texts py r.redacted_fields) h

-- The parts of an event, checked when they were made; its optional names are missing or not empty.
pub record IsMade (e : RuntimeEvent) : Type 0 where
  pub actor : actor_check e.actor ≡ ok e.actor
  pub trace : trace_check e.trace ≡ ok e.trace
  pub redaction : redaction_check e.redaction ≡ ok e.redaction
  pub event : event_check e ≡ ok e
  pub parent_span_id : IsName e.trace.parent_span_id
  pub workflow_id : IsName e.workflow_id
  pub task_id : IsName e.task_id

-- An event that passes its checks, and whose optional names are missing or not empty, is read back
-- from its mapping as it is, with its payloads and its redaction: a sink that stores the mapping
-- loses nothing.
pub event_round_trip :
    (py : Python) (e : RuntimeEvent) → IsMade e → event_from_dict py (event_as_dict e) ≡ ok e
unfolding event_from_dict event_as_dict String-discrete
event_round_trip py e h =
    rw
      (
        actor_read py e.actor h.actor,
        trace_read py e.trace h.trace h.parent_span_id,
        redaction_read py e.redaction h.redaction,
        number_read py e.round_no,
        payload_read py e.payload,
        mapping_read py e.ui_payload,
        name_read py e.workflow_id h.workflow_id,
        name_read py e.task_id h.task_id,
      )
      h.event
