-- ===== src/Control/EventRegistry/Visible.antt =====
-- control/event_registry.py: the visibility of every type of a parsed registry is a known one.
use hex_agent.Base.{
  ◌≡◌, subst, String, ◌==◌, not, ◌||◌, true, Option, some, [], ◌∷◌, All, contains, not_blank,
  if_rule, arith, strip,
}
use hex_agent.Base.Dict
use hex_agent.Base.Dict.{Dict, lookup-insert}
use hex_agent.Base.Result.{Result, ok, ok_inj, err-absurd, >>=-eq-ok}
use hex_agent.Value.{
  Value, null, bool, num, str, arr, obj, Fields, end, field, get_or, str_of, Python,
}
use hex_agent.Control.Event.{visibility_levels}
use hex_agent.Control.EventRegistry.{
  EventTypeSpec, EventTypeRegistry, parse_event_row, parse_event_rows, parse_event_registry,
  event_row_mapping, event_rows_or_raise, is_dotted,
}

abbrev pub Visible : EventTypeSpec → Type 0
Visible s = contains visibility_levels s.visibility ≡ true

abbrev pub AllVisible : EventTypeRegistry → Type 0
AllVisible r = All (λ x. Visible x.1) r

insert-AllVisible :
    (k : String) (s : EventTypeSpec) (r : EventTypeRegistry)
    → Visible s
    → AllVisible r
    → AllVisible (Dict.insert k s r)
insert-AllVisible k s [] v h = (v, tt)
insert-AllVisible k s ((j, t) ∷ r) v h =
    if_rule AllVisible (k == j) _ _ (λ _. (v, h.1)) (λ _. (h.0, insert-AllVisible k s r v h.1))

pub lookup-Visible :
    (k : String) (r : EventTypeRegistry) {s : EventTypeSpec}
    → Dict.lookup k r ≡ some s
    → AllVisible r
    → Visible s
lookup-Visible k [] e h = cc
lookup-Visible k ((j, t) ∷ r) {s} e h =
    if_rule Found (k == j) _ _ (λ _ e. subst Visible (some_inj e) h.0)
      (λ _ e. lookup-Visible k r e h.1) e
  where
    Found : Option EventTypeSpec → Type 0
    Found o = o ≡ some s → Visible s

    some_inj : {a b : EventTypeSpec} → some a ≡ some b → a ≡ b
    some_inj e = cc

parse_event_row-Visible :
    (py : Python) (name : String) (raw : Value) {s : EventTypeSpec}
    → parse_event_row py name raw ≡ ok s
    → Visible s
unfolding parse_event_row
parse_event_row-Visible py name raw {s} e =
    if_rule Parsed (not (not_blank (strip name)) || not (is_dotted (strip name))) _ _
      (λ _ e. err-absurd e)
      (λ _ e.
        let (row, m, n) = >>=-eq-ok (event_row_mapping raw) _ e in
        if_rule Parsed
          (not (contains visibility_levels (str_of py (get_or "visibility" (str "ui_safe") row)))) _
          _ (λ _ e. err-absurd e) (λ seen e. subst Visible (ok_inj e) (ground arith)) n)
      e
  where
    Parsed : Result EventTypeSpec → Type 0
    Parsed m = m ≡ ok s → Visible s

parse_event_rows-AllVisible :
    (py : Python) (rows : Fields) (r : EventTypeRegistry) {r' : EventTypeRegistry}
    → parse_event_rows py rows r ≡ ok r'
    → AllVisible r
    → AllVisible r'
unfolding parse_event_rows
parse_event_rows-AllVisible py end r e h = subst AllVisible (ok_inj e) h
parse_event_rows-AllVisible py (field name raw rest) r e h =
    let (s, m, n) = >>=-eq-ok (parse_event_row py name raw) _ e in
    parse_event_rows-AllVisible py rest (Dict.insert s.event_type s r) n
      (insert-AllVisible s.event_type s r (parse_event_row-Visible py name raw m) h)

pub parse_event_registry-AllVisible :
    (py : Python) (doc : Value) {r : EventTypeRegistry}
    → parse_event_registry py doc ≡ ok r
    → AllVisible r
unfolding parse_event_registry
parse_event_registry-AllVisible py (obj doc) e =
    let (rows, m, n) = >>=-eq-ok (event_rows_or_raise (get_or "event_types" null doc)) _ e in
    parse_event_rows-AllVisible py rows [] n tt
parse_event_registry-AllVisible py null e = err-absurd e
parse_event_registry-AllVisible py (bool b) e = err-absurd e
parse_event_registry-AllVisible py (num n) e = err-absurd e
parse_event_registry-AllVisible py (str s) e = err-absurd e
parse_event_registry-AllVisible py (arr xs) e = err-absurd e
