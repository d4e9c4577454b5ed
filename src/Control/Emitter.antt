-- ===== src/Control/Emitter.antt =====
-- control/emitter.py: the path on which events are published. A sink acts on a world and may raise.
pub mod Watched
pub mod Published
pub mod Numbered
use hex_agent.Base.{ℕ, zero, String, false, Option, none, some, List, [], ◌∷◌}
use hex_agent.Base.Dict.{Dict}
use hex_agent.Base.Int.{ℤ, pos}
use hex_agent.Base.Result.{Result, Error, ok, err, ◌>>=◌}
use hex_agent.Value.{Fields}
use hex_agent.Control.Command.{Stamp}
use hex_agent.Control.Event.{
  Actor, TraceContext, RuntimeEvent, event_check, next_seq, event_as_dict,
}
use hex_agent.Control.EventRegistry.{EventTypeRegistry, get_event_spec}
use hex_agent.Control.Redaction.{Redactor, apply}

abbrev pub EventSink : Type 0 → Type 0
EventSink W = RuntimeEvent → W → Option Error × W

pub record EventEmitter (W : Type 0) : Type 0 where
  pub sinks : List (EventSink W)
  pub registry : EventTypeRegistry
  pub redactor : Redactor

-- The counters of `SessionSeq`, and the world behind the sinks.
pub record EmitterRun (W : Type 0) : Type 0 where
  pub counters : Dict ℕ
  pub world : W

-- The parameters of `emit`
pub record EmitCall : Type 0 where
  pub event_type : String
  pub session_id : String
  pub actor : Actor
  pub trace : TraceContext
  pub payload : Fields
  pub round_no : Option ℤ
  pub task_id : Option String
  pub workflow_id : Option String
  pub source : String

abbrev pub event_of : EmitCall → Stamp → RuntimeEvent
event_of c stamp = record {
  event_type = c.event_type;
  session_id = c.session_id;
  actor = c.actor;
  trace = c.trace;
  redaction = record { level = "ui_safe"; has_secret = false; redacted_fields = [] };
  event_id = stamp.hex;
  created_at = stamp.now;
  schema_version = pos 1;
  seq = pos 0;
  round_no = c.round_no;
  workflow_id = c.workflow_id;
  task_id = c.task_id;
  source = c.source;
  payload = c.payload;
  ui_payload = none;
}

unfoldable pub new_event : EmitCall → Stamp → Result RuntimeEvent
unfolding event_check
new_event c stamp = event_check (event_of c stamp)

-- `event if event.seq else replace(event, seq=...)`
unfoldable pub stamped : RuntimeEvent → ℤ → Dict ℕ → Result RuntimeEvent × Dict ℕ
unfolding next_seq event_check
stamped e (pos zero) counters =
    let (n, counters') = next_seq e.session_id counters in
    (event_check (record e { seq = pos n }), counters')
stamped e _ counters = (ok e, counters)

-- `BusEventSink`, over what publishes a topic.
unfoldable pub bus_sink : {W : Type 0} → (String → Fields → W → W) → EventSink W
unfolding event_as_dict
bus_sink publish e w = (none, publish e.event_type (event_as_dict e) w)

module _ {W : Type 0} where
  unfoldable pub fan_out :
      List (EventSink W) → RuntimeEvent → EmitterRun W → Result RuntimeEvent × EmitterRun W
  fan_out [] e r = (ok e, r)
  fan_out (sink ∷ sinks) e r =
      let (raised, w) = sink e r.world in
      elim raised [
        | some x ↦ (err x, record r { world = w })
        | none ↦ fan_out sinks e (record r { world = w })
      ]

  -- The event, once it has its number, is redacted and goes to the sinks.
  unfoldable pub sent :
      EventEmitter W
      → String
      → Result RuntimeEvent × Dict ℕ
      → EmitterRun W
      → Result RuntimeEvent × EmitterRun W
  unfolding apply fan_out
  sent em visibility (staged, counters) r =
      let r₁ = record r { counters = counters } in
      elim (staged >>= apply em.redactor (some visibility)) [
        | err x ↦ (err x, r₁)
        | ok final ↦ fan_out em.sinks final r₁
      ]

  unfoldable pub emit_event :
      EventEmitter W → RuntimeEvent → EmitterRun W → Result RuntimeEvent × EmitterRun W
  unfolding get_event_spec stamped sent
  emit_event em e r = elim (get_event_spec e.event_type em.registry) [
    | err x ↦ (err x, r)
    | ok spec ↦ sent em spec.visibility (stamped e e.seq r.counters) r
  ]

  unfoldable pub emit_new :
      EventEmitter W → EmitCall → Stamp → EmitterRun W → Result RuntimeEvent × EmitterRun W
  unfolding new_event emit_event
  emit_new em c stamp r = elim (new_event c stamp) [ err x ↦ (err x, r) | ok e ↦ emit_event em e r ]
