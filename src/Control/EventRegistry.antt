-- ===== src/Control/EventRegistry.antt =====
-- control/event_registry.py: which event types exist, and who may see them. Reading the YAML file is
-- left out: `parse_event_registry` starts at the loaded document.
pub mod Visible
use hex_agent.Base.{
  String, ◌==◌, not, Bool, true, false, ◌||◌, Option, none, some, List, [], ◌∷◌, contains, strip,
  not_blank,
}
use hex_agent.Base.{if◌then◌else◌}
use hex_agent.Base.Dict
use hex_agent.Base.Dict.{Dict}
use hex_agent.Base.Result.{Result, ok, err, contract_error, ◌>>=◌}
use hex_agent.Value.{
  Value, null, bool, str, obj, Fields, end, field, get_or, truthy, str_of, Python,
}
use hex_agent.Control.Event.{visibility_levels}

pub record EventTypeSpec : Type 0 where
  pub event_type : String
  pub visibility : String
  pub durable : Bool
  pub redact_for_ui : Bool
  pub checkpoint_candidate : Bool

-- `EventTypeSpec.as_dict`
unfoldable pub event_spec_as_dict : EventTypeSpec → Fields
event_spec_as_dict s = field "event_type" (str s.event_type) (
    field "visibility" (str s.visibility) (
      field "durable" (bool s.durable) (
        field "redact_for_ui" (bool s.redact_for_ui)
          (field "checkpoint_candidate" (bool s.checkpoint_candidate) end))))

abbrev pub EventTypeRegistry : Type 0
EventTypeRegistry = Dict EventTypeSpec

-- `EventTypeRegistry.get`, which calls `assert_known`
unfoldable pub get_event_spec : String → EventTypeRegistry → Result EventTypeSpec
get_event_spec t r = elim (Dict.lookup t r) [ none ↦ err contract_error | some spec ↦ ok spec ]

-- `"." in s`
abbrev pub is_dotted : String → Bool
is_dotted String.[] = false
is_dotted (String.◌∷◌ c s) = String.◌∷◌ c String.[] == "." || is_dotted s

-- `raw or {}`, which must be a mapping
abbrev pub event_row_mapping : Value → Result Fields
event_row_mapping (obj d) = ok d
event_row_mapping v = if truthy v then err contract_error else ok end

unfoldable pub parse_event_row : Python → String → Value → Result EventTypeSpec
parse_event_row py name raw =
    let event_type = strip name in
    if not (not_blank event_type) || not (is_dotted event_type)
    then err contract_error
    else (event_row_mapping raw >>= λ row.
        let visibility = str_of py (get_or "visibility" (str "ui_safe") row) in
        if not (contains visibility_levels visibility)
        then err contract_error
        else ok (record {
          event_type = event_type;
          visibility = visibility;
          durable = truthy (get_or "durable" (bool true) row);
          redact_for_ui = truthy (get_or "redact_for_ui" (bool false) row);
          checkpoint_candidate = truthy (get_or "checkpoint_candidate" (bool false) row);
        }))

unfoldable pub parse_event_rows : Python → Fields → EventTypeRegistry → Result EventTypeRegistry
unfolding parse_event_row
parse_event_rows py end specs = ok specs
parse_event_rows py (field name raw rest) specs = parse_event_row py name raw >>= λ spec.
    parse_event_rows py rest (Dict.insert spec.event_type spec specs)

abbrev pub event_rows_or_raise : Value → Result Fields
event_rows_or_raise (obj (field k v d)) = ok (field k v d)
event_rows_or_raise _ = err contract_error

unfoldable pub parse_event_registry : Python → Value → Result EventTypeRegistry
unfolding parse_event_rows
parse_event_registry py (obj doc) =
    event_rows_or_raise (get_or "event_types" null doc) >>= λ rows. parse_event_rows py rows []
parse_event_registry py _ = err contract_error
