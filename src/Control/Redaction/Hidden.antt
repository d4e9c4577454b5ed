-- ===== src/Control/Redaction/Hidden.antt =====
-- What stands below a secret key of a payload has no effect on what is shown of it.
use hex_agent.Base.{
  ℕ, ◌+◌, ◌≡◌, refl, ap, ◌∙◌, String, true, false, Option, some, List, [], ◌∷◌, ◌++◌, Bool,
  Bool-cases, ◌⊎◌, inl, inr,
}
use hex_agent.Base.Result.{Result, ok, err, ◌>>=◌}
use hex_agent.Base.Sorting.{sorted}
use hex_agent.Value.{Value, str, arr, obj, Items, nil, cons, Fields, end, field}
use hex_agent.Control.Event.{
  RuntimeEvent, RedactionInfo, event_check, redaction_check, is_valid_event,
}
use hex_agent.Control.Redaction.{
  Redactor, is_secret, walk, walk_fields, walk_items, walk_field, redact, with_shown, distinct,
  child_path, item_path, apply, redacted_text,
}

-- Two values that differ below secret keys only.
mutual
  pub data Alike (r : Redactor) : Value → Value → Type 0 where
    same : (v : Value) → Alike r v v
    mappings : {d e : Fields} → FieldsAlike r d e → Alike r (obj d) (obj e)
    lists : {xs ys : Items} → ItemsAlike r xs ys → Alike r (arr xs) (arr ys)

  pub data FieldsAlike (r : Redactor) : Fields → Fields → Type 0 where
    no_fields : FieldsAlike r end end
    hidden :
        {d e : Fields} (k : String) (v w : Value)
        → is_secret r k ≡ true
        → FieldsAlike r d e
        → FieldsAlike r (field k v d) (field k w e)
    shown :
        {d e : Fields} {v w : Value} (k : String)
        → Alike r v w
        → FieldsAlike r d e
        → FieldsAlike r (field k v d) (field k w e)

  pub data ItemsAlike (r : Redactor) : Items → Items → Type 0 where
    no_items : ItemsAlike r nil nil
    items :
        {xs ys : Items} {v w : Value}
        → Alike r v w
        → ItemsAlike r xs ys
        → ItemsAlike r (cons v xs) (cons w ys)

walk_field-same :
    (b : Bool) (k path : String) (v w : List String → Value × List String)
    (d e : List String → Fields × List String) (fields : List String)
    → (b ≡ true ⊎ ((names : List String) → v names ≡ w names))
    → ((names : List String) → d names ≡ e names)
    → walk_field b k path v d fields ≡ walk_field b k path w e fields
walk_field-same true k path v w d e fields value rest =
    ap (λ x. (field k (str redacted_text) x.0, x.1)) (rest (fields ++ path ∷ []))
walk_field-same false k path v w d e fields (inl h) rest = cc
walk_field-same false k path v w d e fields (inr value) rest =
    let shown_w = w fields in
    rw (value fields) (ap (λ x. (field k shown_w.0 x.0, x.1)) (rest shown_w.1))

mutual
  unfolding walk

  walk-Alike :
      (r : Redactor) {v w : Value}
      → Alike r v w
      → (path : String) (fields : List String) → walk r v path fields ≡ walk r w path fields
  walk-Alike r (same v) path fields = refl
  walk-Alike r (mappings d) path fields =
      ap (λ x. (obj x.0, x.1)) (walk_fields-FieldsAlike r d path fields)
  walk-Alike r (lists xs) path fields =
      ap (λ x. (arr x.0, x.1)) (walk_items-ItemsAlike r xs path 0 fields)

  walk_fields-FieldsAlike :
      (r : Redactor) {d e : Fields}
      → FieldsAlike r d e
      → (path : String) (fields : List String)
      → walk_fields r d path fields ≡ walk_fields r e path fields
  walk_fields-FieldsAlike r no_fields path fields = refl
  walk_fields-FieldsAlike r (hidden {d = d} {e = e} k v w h rest) path fields =
      walk_field-same (is_secret r k) k (child_path path k) _ _ _ _ fields (inl h)
        (λ names. walk_fields-FieldsAlike r rest path names)
  walk_fields-FieldsAlike r (shown {d = d} {e = e} {v = v} {w = w} k value rest) path fields =
      walk_field-same (is_secret r k) k (child_path path k) _ _ _ _ fields
        (inr (λ names. walk-Alike r value (child_path path k) names))
        (λ names. walk_fields-FieldsAlike r rest path names)

  walk_items-ItemsAlike :
      (r : Redactor) {xs ys : Items}
      → ItemsAlike r xs ys
      → (path : String) (index : ℕ) (fields : List String)
      → walk_items r xs path index fields ≡ walk_items r ys path index fields
  walk_items-ItemsAlike r no_items path index fields = refl
  walk_items-ItemsAlike r (items {w = w} value rest) path index fields =
      let shown_w = walk r w (item_path path index) fields in
      rw (walk-Alike r value (item_path path index) fields) (
        ap (λ x. (cons shown_w.0 x.0, x.1))
          (walk_items-ItemsAlike r rest path (index + 1) shown_w.1))

-- What the event shows: all of it but its raw payload.
abbrev pub shown_of : Result RuntimeEvent → Result RuntimeEvent
shown_of m = m >>= λ e. ok (record e { payload = end })

checked_alike :
    (m : Result RedactionInfo) (ui_payload payload : Fields) (e : RuntimeEvent)
    → shown_of
        (m >>= λ info. event_check (record e { ui_payload = some ui_payload; redaction = info }))
      ≡ shown_of (
          m >>= λ info.
          event_check
            (record e { payload = payload; ui_payload = some ui_payload; redaction = info }))
unfolding event_check
checked_alike (err x) ui_payload payload e = refl
checked_alike (ok info) ui_payload payload e = elim (Bool-cases (is_valid_event e)) [
  | inl v ↦ rw (event_check, v) refl
  | inr v ↦ rw (event_check, v) refl
]

-- Secrets do not reach what is shown: two events whose payloads differ below secret keys only, at
-- whatever depth of mappings and lists, are given the same payload for the user interface and the
-- same redaction, and one is refused if the other is.
pub apply_hides :
    (r : Redactor) (level : Option String) (event : RuntimeEvent) (payload : Fields)
    → FieldsAlike r event.payload payload
    → shown_of (apply r level event) ≡ shown_of (apply r level (record event { payload = payload }))
unfolding apply redact with_shown
apply_hides r level event payload h =
    ap (λ x. shown_of (with_shown level event (x.0, sorted (distinct x.1))))
      (walk_fields-FieldsAlike r h "" [])
    ∙ checked_alike (redaction_check _) _ payload event
