-- ===== src/Control/Emitter/Published.antt =====
-- control/emitter.py over the registry and the redactor: what one call publishes.
use hex_agent.Base.{
  ℕ, ◌+◌, ◌≡◌, refl, sym, ap, subst, ◌∙◌, ◌⊎◌, inl, inr, String, String-discrete, true, some, List,
  [], ◌∷◌, ◌++◌, contains, not_blank, Bool-cases, Option-cases, arith,
}
use hex_agent.Base.Dict
use hex_agent.Base.Dict.{Dict, lookup-insert}
use hex_agent.Base.Int.{pos}
use hex_agent.Base.Result.{ok, ok_inj, err-absurd, ◌>>=◌, Result-cases}
use hex_agent.Value.{Fields}
use hex_agent.Control.Command.{Stamp}
use hex_agent.Control.Event.{
  RuntimeEvent, visibility_levels, event_check, is_valid_event, peek, next_seq, redaction_check,
  RedactionInfo,
}
use hex_agent.Control.EventRegistry.{EventTypeSpec, EventTypeRegistry, get_event_spec}
use hex_agent.Control.Redaction.{redact, with_shown, apply, level_or, some_hidden}
use hex_agent.Control.Emitter.{
  EventEmitter, EmitterRun, EmitCall, EventSink, event_of, new_event, stamped, sent, emit_event,
  emit_new,
}
use hex_agent.Control.Emitter.Watched.{Seen, Publish, new, event, watched, publish, fan_out-watch}
use hex_agent.Control.EventRegistry.Visible.{Visible, AllVisible, lookup-Visible}

-- One event more of its session is handed to the first sink, with the next number.
pub record IsPublished {W : Type 0} (r r' : EmitterRun (Seen W)) (e : RuntimeEvent) : Type 0 where
  pub world : r'.world.0 ≡ r.world.0 ++ e ∷ []
  pub seq : e.seq ≡ pos (peek e.session_id r.counters + 1)
  pub counters :
      r'.counters ≡ Dict.insert e.session_id (peek e.session_id r.counters + 1) r.counters

visible_is_named : (v : String) → contains visibility_levels v ≡ true → not_blank v ≡ true
unfolding String-discrete
visible_is_named String.[] h = cc
visible_is_named (String.◌∷◌ c s) h = refl

redaction_check-ok :
    (x : RedactionInfo) → contains visibility_levels x.level ≡ true → redaction_check x ≡ ok x
unfolding redaction_check
redaction_check-ok x h = rw (redaction_check, h) refl

event_check-ok : (e : RuntimeEvent) → is_valid_event e ≡ true → event_check e ≡ ok e
unfolding event_check
event_check-ok e h = rw (event_check, h) refl

-- A valid event can be shown at a known visibility, under its number and in its session.
with_shown-ok :
    (level : String) (e : RuntimeEvent) (shown : Fields × List String)
    → contains visibility_levels level ≡ true
    → is_valid_event e ≡ true
    → (final : RuntimeEvent) × (with_shown (some level) e shown ≡ ok final)
      × (final.seq ≡ e.seq)
      × (final.session_id ≡ e.session_id)
unfolding with_shown
with_shown-ok level e shown seen valid =
    let lev : String = level_or (some level) e.redaction.level in
    let info : RedactionInfo = record {
      level = lev;
      has_secret = some_hidden shown.1;
      redacted_fields = shown.1;
    } in
    let final = record e { ui_payload = some shown.0; redaction = info } in
    let known = redaction_check-ok info (rw (visible_is_named level seen) seen) in
    (
      final,
      ap (λ m. m >>= λ x. event_check (record e { ui_payload = some shown.0; redaction = x })) known
          ∙ event_check-ok final valid,
      refl,
      refl,
    )

event_check-valid :
    (e : RuntimeEvent) {f : RuntimeEvent}
    → event_check e ≡ ok f
    → (is_valid_event e ≡ true) × (f ≡ e)
unfolding event_check
event_check-valid e h = elim (Bool-cases (is_valid_event e)) [
  | inl v ↦ (v, sym (ok_inj (rw (event_check, v) at h)))
  | inr v ↦ err-absurd (rw (event_check, v) at h)
]

get_event_spec-Visible :
    (t : String) (r : EventTypeRegistry) {s : EventTypeSpec}
    → get_event_spec t r ≡ ok s
    → AllVisible r
    → Visible s
unfolding get_event_spec
get_event_spec-Visible t r e h = elim (Option-cases (Dict.lookup t r)) [
  | inl l ↦ err-absurd (rw (get_event_spec, l) at e)
  | inr (s, l) ↦ subst Visible (ok_inj (rw (get_event_spec, l) at e)) (lookup-Visible t r l h)
]

-- What one call does to the run: nothing, or it hands one event to the first sink.
abbrev pub Emitted : {W : Type 0} → EmitterRun (Seen W) → EmitterRun (Seen W) → Type 0
Emitted r r' = (r' ≡ r) ⊎ ((e : RuntimeEvent) × IsPublished r r' e)

staged_valid :
    (e : RuntimeEvent) (n : ℕ)
    → is_valid_event e ≡ true
    → is_valid_event (record e { seq = pos n }) ≡ true
staged_valid e n h = ground arith

stamped-fresh :
    (e : RuntimeEvent) (counters : Dict ℕ)
    → is_valid_event e ≡ true
    → let n = peek e.session_id counters + 1 in
      stamped e (pos 0) counters
      ≡ (ok (record e { seq = pos n }), Dict.insert e.session_id n counters)
unfolding stamped next_seq
stamped-fresh e counters h =
    let n = peek e.session_id counters + 1 in
    ap (λ m. (m, Dict.insert e.session_id n counters))
      (event_check-ok (record e { seq = pos n }) (staged_valid e n h))

new_event-fresh :
    (c : EmitCall) (stamp : Stamp) {e : RuntimeEvent}
    → new_event c stamp ≡ ok e
    → (is_valid_event e ≡ true) × (e.seq ≡ pos 0)
unfolding new_event
new_event-fresh c stamp h =
    let (v, same) = event_check-valid (event_of c stamp) h in
    (subst (λ x. is_valid_event x ≡ true) (sym same) v, ap (λ x. x.seq) same)

-- What `emit_event` is given has no number yet and has passed its checks; `emit` builds such an event.
abbrev pub IsUnnumbered : Publish → Type 0
IsUnnumbered (new c stamp) = Unit
IsUnnumbered (event e) = (is_valid_event e ≡ true) × (e.seq ≡ pos 0)

module _ {W : Type 0} (em : EventEmitter W) (first : EventSink W) (others : List (EventSink W))
    (sinks : em.sinks ≡ first ∷ others) (visible : AllVisible em.registry)
    (r : EmitterRun (Seen W)) where
  sent-Emitted :
      (visibility : String) (e : RuntimeEvent)
      → contains visibility_levels visibility ≡ true
      → is_valid_event e ≡ true
      → e.seq ≡ pos (peek e.session_id r.counters + 1)
      → Emitted r
          (sent
            (watched em)
            visibility
            (ok e, Dict.insert e.session_id (peek e.session_id r.counters + 1) r.counters)
            r).1
  unfolding sent apply
  sent-Emitted visibility e seen valid number =
      let (final, f, seq, session) =
        with_shown-ok visibility e (redact em.redactor e.payload) seen valid in
      let n = peek e.session_id r.counters + 1 in
      let (counted, noted) =
        fan_out-watch first others final
          (record r { counters = Dict.insert e.session_id n r.counters }) in
      rw (sent, f, sinks)
        (inr (
          final,
          record { world = noted; seq = rw session (seq ∙ number); counters = rw session counted },
        ))

  emit_event-Emitted :
      (e : RuntimeEvent)
      → is_valid_event e ≡ true
      → e.seq ≡ pos 0
      → Emitted r (emit_event (watched em) e r).1
  unfolding emit_event
  emit_event-Emitted e valid fresh = elim (Result-cases (get_event_spec e.event_type em.registry)) [
    | inl (x, m) ↦ rw (emit_event, m) (inl refl)
    | inr (spec, m) ↦
        let n = peek e.session_id r.counters + 1 in
        let done =
          sent-Emitted spec.visibility (record e { seq = pos n })
            (get_event_spec-Visible e.event_type em.registry m visible) (staged_valid e n valid)
            refl in
        rw (emit_event, m, fresh, stamped-fresh e r.counters valid) done
  ]

  pub publish-Emitted : (p : Publish) → IsUnnumbered p → Emitted r (publish (watched em) p r).1
  unfolding emit_new
  publish-Emitted (event e) (valid, fresh) = emit_event-Emitted e valid fresh
  publish-Emitted (new c stamp) _ = elim (Result-cases (new_event c stamp)) [
    | inl (x, m) ↦ rw (emit_new, m) (inl refl)
    | inr (e, m) ↦
        let (valid, fresh) = new_event-fresh c stamp m in
        rw (emit_new, m) (emit_event-Emitted e valid fresh)
  ]
