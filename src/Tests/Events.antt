-- ===== src/Tests/Events.antt =====
-- The theorems on events, their redaction and their numbers, on concrete inputs.
use hex_agent.Base.{strip}
use hex_agent.Base.{◌≡◌, refl, true, false, some, none, String, List, [], ◌∷◌, String-discrete}
use hex_agent.Base.Int.{pos}
use hex_agent.Base.Result.{ok}
use hex_agent.Value.{Value, num, str, obj, Fields, end, field}
use hex_agent.Control.Event.{
  RuntimeEvent, event_as_dict, event_from_dict, actor_check, trace_check, redaction_check,
  event_check, peek,
}
use hex_agent.Control.Event.Codec.{event_round_trip}
use hex_agent.Control.EventRegistry.{EventTypeRegistry, parse_event_registry}
use hex_agent.Control.Redaction.{Redactor, default_secret_keys, apply, is_secret}
use hex_agent.Control.Redaction.Hidden.{
  shown_of, apply_hides, same, shown, hidden, no_fields, mappings,
}
use hex_agent.Control.Emitter.{EventSink, EventEmitter, EmitterRun}
use hex_agent.Control.Emitter.Watched.{Seen, Publish, new, watched, forget}
use hex_agent.Base.{ℕ, suc}
use hex_agent.Base.Result.{runtime_error}
use hex_agent.Control.Emitter.Numbered.{IsNumbered, emit_each, emit_each-IsNumbered}
use hex_agent.Tests.Scenario.{py}

abbrev login : String → Fields
login secret =
    field "round" (num (pos 1))
      (field "headers" (obj (field "token" (str secret) (field "host" (str "h") end))) end)

abbrev event : RuntimeEvent
event = record {
  event_type = "agent.before_run";
  session_id = "s1";
  actor = record { type = "agent"; id = "a1" };
  trace = record { trace_id = "t1"; span_id = "p1"; parent_span_id = none };
  redaction = record { level = "ui_safe"; has_secret = false; redacted_fields = [] };
  event_id = "e1";
  created_at = "now";
  schema_version = pos 1;
  seq = pos 0;
  round_no = some (pos 1);
  workflow_id = none;
  task_id = some "k1";
  source = "runtime";
  payload = login "abc";
  ui_payload = none;
}

event_round_trip_example : event_from_dict py (event_as_dict event) ≡ ok event
unfolding actor_check trace_check redaction_check event_check String-discrete
event_round_trip_example = event_round_trip py event (record {
  actor = refl;
  trace = refl;
  redaction = refl;
  event = refl;
  parent_span_id = tt;
  workflow_id = tt;
  task_id = refl;
})

abbrev redactor : Redactor
redactor = record { secret_keys = default_secret_keys; lower = λ s. s }

apply_hides_example :
    shown_of (apply redactor (some "ui_safe") event)
    ≡ shown_of (apply redactor (some "ui_safe") (record event { payload = login "xyz" }))
unfolding is_secret String-discrete
apply_hides_example = apply_hides redactor (some "ui_safe") event (login "xyz") (
    shown "round" (same (num (pos 1))) (
      shown "headers"
        (mappings
          (hidden "token" (str "abc") (str "xyz") refl (shown "host" (same (str "h")) no_fields)))
        no_fields))

abbrev document : Value
document = obj (field "event_types" (obj (field "agent.before_run" (obj end) end)) end)

abbrev known : EventTypeRegistry
known =
    (
      "agent.before_run",
      record {
        event_type = "agent.before_run";
        visibility = "ui_safe";
        durable = true;
        redact_for_ui = false;
        checkpoint_candidate = false;
      },
    )
    ∷ []

-- The first sink counts its events, the second one raises each time.
abbrev counting_sink : EventSink ℕ
counting_sink e n = (none, suc n)

abbrev raising_sink : EventSink ℕ
raising_sink e n = (some runtime_error, n)

abbrev emitter : EventEmitter ℕ
emitter = record {
  sinks = counting_sink ∷ raising_sink ∷ [];
  registry = known;
  redactor = redactor;
}

abbrev nothing_yet : EmitterRun (Seen ℕ)
nothing_yet = record { counters = []; world = ([], 0) }

-- A call of `emit` with a given type
abbrev call : String → Publish
call event_type =
    new
      (record {
        event_type = event_type;
        session_id = "s1";
        actor = event.actor;
        trace = event.trace;
        payload = login "abc";
        round_no = none;
        task_id = none;
        workflow_id = none;
        source = "runtime";
      })
      (record { hex = "e1"; now = "now" })

abbrev calls : List Publish
calls =
    call "agent.before_run"
    ∷ call "agent.unknown"
    ∷ Publish.event event
    ∷ call "agent.before_run"
    ∷ []

nothing_yet-IsNumbered : IsNumbered nothing_yet
unfolding peek
nothing_yet-IsNumbered i = refl

emit_each-IsNumbered_example :
    IsNumbered (emit_each (watched emitter) calls nothing_yet)
    × (forget (emit_each (watched emitter) calls nothing_yet)
        ≡ emit_each emitter calls (forget nothing_yet))
unfolding parse_event_registry String-discrete strip
emit_each-IsNumbered_example =
    emit_each-IsNumbered py document emitter counting_sink (raising_sink ∷ []) refl refl calls
      nothing_yet (tt, (tt, ((refl, refl), (tt, tt)))) nothing_yet-IsNumbered
