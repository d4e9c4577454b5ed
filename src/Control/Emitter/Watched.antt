-- ===== src/Control/Emitter/Watched.antt =====
-- control/emitter.py with an observer: the first sink of an emitter notes down what it is given, and
-- all sinks act, or raise, as they do without it.
use hex_agent.Base.{ℕ, String, ◌≡◌, refl, some, List, [], ◌∷◌, ◌++◌, map, inl, inr, Option-cases}
use hex_agent.Base.Dict.{Dict}
use hex_agent.Base.Result.{Result, Result-cases, ◌>>=◌}
use hex_agent.Control.Command.{Stamp}
use hex_agent.Control.Event.{RuntimeEvent}
use hex_agent.Control.EventRegistry.{get_event_spec}
use hex_agent.Control.Redaction.{apply}
use hex_agent.Control.Emitter.{
  EventSink, EventEmitter, EmitterRun, EmitCall, fan_out, sent, stamped, emit_event, emit_new,
  new_event,
}

-- What the first sink has been given, oldest first, and the world of the sinks.
abbrev pub Seen : Type 0 → Type 0
Seen W = List RuntimeEvent × W

-- One call on the path: `emit`, or `emit_event` of an event.
pub data Publish : Type 0 where
  new : EmitCall → Stamp → Publish
  event : RuntimeEvent → Publish

abbrev pub publish :
    {W : Type 0} → EventEmitter W → Publish → EmitterRun W → Result RuntimeEvent × EmitterRun W
publish em (new c stamp) r = emit_new em c stamp r
publish em (event e) r = emit_event em e r

module _ {W : Type 0} where
  -- A sink that notes the event down before it acts.
  abbrev pub noting : EventSink W → EventSink (Seen W)
  noting sink e world = let out = sink e world.1 in (out.0, (world.0 ++ e ∷ [], out.1))

  abbrev pub beside : EventSink W → EventSink (Seen W)
  beside sink e world = let out = sink e world.1 in (out.0, (world.0, out.1))

  abbrev pub watch : List (EventSink W) → List (EventSink (Seen W))
  watch [] = []
  watch (first ∷ others) = noting first ∷ map beside others

  abbrev pub watched : EventEmitter W → EventEmitter (Seen W)
  watched em = record { sinks = watch em.sinks; registry = em.registry; redactor = em.redactor }

  abbrev pub forget : EmitterRun (Seen W) → EmitterRun W
  forget r = record { counters = r.counters; world = r.world.1 }

  abbrev pub unwatched :
      Result RuntimeEvent × EmitterRun (Seen W) → Result RuntimeEvent × EmitterRun W
  unwatched x = (x.0, forget x.1)

  -- The other sinks leave what was noted down, and the counters.
  fan_out-beside :
      (sinks : List (EventSink W)) (e : RuntimeEvent) (r : EmitterRun (Seen W))
      → let x = (fan_out (map beside sinks) e r).1 in
        (x.counters ≡ r.counters) × (x.world.0 ≡ r.world.0)
  unfolding fan_out
  fan_out-beside [] e r = (refl, refl)
  fan_out-beside (sink ∷ sinks) e r = elim (Option-cases (sink e r.world.1).0) [
    | inl m ↦
        rw (fan_out, m)
          (fan_out-beside sinks e (record r { world = (r.world.0, (sink e r.world.1).1) }))
    | inr (x, m) ↦ rw (fan_out, m) (refl, refl)
  ]

  -- Once an event is sent, the first sink has it, whether sinks raise or not.
  pub fan_out-watch :
      (first : EventSink W) (others : List (EventSink W)) (e : RuntimeEvent)
      (r : EmitterRun (Seen W))
      → let x = (fan_out (watch (first ∷ others)) e r).1 in
        (x.counters ≡ r.counters) × (x.world.0 ≡ r.world.0 ++ e ∷ [])
  unfolding fan_out
  fan_out-watch first others e r = elim (Option-cases (first e r.world.1).0) [
    | inl m ↦
        rw (fan_out, m)
          (fan_out-beside others e
            (record r { world = (r.world.0 ++ e ∷ [], (first e r.world.1).1) }))
    | inr (x, m) ↦ rw (fan_out, m) (refl, refl)
  ]

  fan_out-unwatched-beside :
      (sinks : List (EventSink W)) (e : RuntimeEvent) (r : EmitterRun (Seen W))
      → unwatched (fan_out (map beside sinks) e r) ≡ fan_out sinks e (forget r)
  unfolding fan_out
  fan_out-unwatched-beside [] e r = refl
  fan_out-unwatched-beside (sink ∷ sinks) e r = elim (Option-cases (sink e r.world.1).0) [
    | inl m ↦
        rw (fan_out, m)
          (fan_out-unwatched-beside sinks e
            (record r { world = (r.world.0, (sink e r.world.1).1) }))
    | inr (x, m) ↦ rw (fan_out, m) refl
  ]

  fan_out-unwatched :
      (sinks : List (EventSink W)) (e : RuntimeEvent) (r : EmitterRun (Seen W))
      → unwatched (fan_out (watch sinks) e r) ≡ fan_out sinks e (forget r)
  unfolding fan_out
  fan_out-unwatched [] e r = refl
  fan_out-unwatched (first ∷ others) e r = elim (Option-cases (first e r.world.1).0) [
    | inl m ↦
        rw (fan_out, m)
          (fan_out-unwatched-beside others e
            (record r { world = (r.world.0 ++ e ∷ [], (first e r.world.1).1) }))
    | inr (x, m) ↦ rw (fan_out, m) refl
  ]

  sent-unwatched :
      (em : EventEmitter W) (visibility : String) (x : Result RuntimeEvent × Dict ℕ)
      (r : EmitterRun (Seen W))
      → unwatched (sent (watched em) visibility x r) ≡ sent em visibility x (forget r)
  unfolding sent
  sent-unwatched em visibility (staged, counters) r =
      elim (Result-cases (staged >>= apply em.redactor (some visibility))) [
        | inl (x, m) ↦ rw (sent, m) refl
        | inr (final, m) ↦
            rw (sent, m) (fan_out-unwatched em.sinks final (record r { counters = counters }))
      ]

  emit_event-unwatched :
      (em : EventEmitter W) (e : RuntimeEvent) (r : EmitterRun (Seen W))
      → unwatched (emit_event (watched em) e r) ≡ emit_event em e (forget r)
  unfolding emit_event
  emit_event-unwatched em e r = elim (Result-cases (get_event_spec e.event_type em.registry)) [
    | inl (x, m) ↦ rw (emit_event, m) refl
    | inr (spec, m) ↦
        rw (emit_event, m) (sent-unwatched em spec.visibility (stamped e e.seq r.counters) r)
  ]

  -- Watching changes nothing: results, counters and the world of the sinks are the same.
  pub publish-unwatched :
      (em : EventEmitter W) (p : Publish) (r : EmitterRun (Seen W))
      → unwatched (publish (watched em) p r) ≡ publish em p (forget r)
  unfolding emit_new
  publish-unwatched em (event e) r = emit_event-unwatched em e r
  publish-unwatched em (new c stamp) r = elim (Result-cases (new_event c stamp)) [
    | inl (x, m) ↦ rw (emit_new, m) refl
    | inr (e, m) ↦ rw (emit_new, m) (emit_event-unwatched em e r)
  ]
