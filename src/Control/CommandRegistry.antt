-- ===== src/Control/CommandRegistry.antt =====
-- control/command_registry.py: which command types exist, and when each applies. Reading the
-- YAML file is left out: `parse_command_registry` starts at the loaded document.
use hex_agent.Base.{String, not, Option, none, some, List, [], ◌∷◌}
use hex_agent.Base.{if◌then◌else◌, strip, not_blank, contains}
use hex_agent.Base.Dict
use hex_agent.Base.Dict.{Dict}
use hex_agent.Base.Result.{Result, ok, err, contract_error, ◌>>=◌}
use hex_agent.Value.{Value, null, str, obj, Fields, end, field, get_or, truthy, str_of, Python}

pub record CommandTypeSpec : Type 0 where
  pub command_type : String
  pub apply_at : String
  pub requires_permission : Option String

abbrev pub Registry : Type 0
Registry = Dict CommandTypeSpec

abbrev pub apply_at_values : List String
apply_at_values = "next_checkpoint" ∷ "immediate_if_waiting" ∷ "immediate" ∷ []

-- `CommandTypeRegistry.get`, which calls `assert_known`
unfoldable pub get_spec : Registry → String → Result CommandTypeSpec
get_spec r t = elim (Dict.lookup t r) [ none ↦ err contract_error | some spec ↦ ok spec ]

unfoldable pub apply_at_of : Registry → String → Result String
unfolding get_spec
apply_at_of r t = get_spec r t >>= λ spec. ok spec.apply_at

-- `raw or {}`, which must be a mapping
abbrev row_mapping : Value → Result Fields
row_mapping (obj d) = ok d
row_mapping v = if truthy v then err contract_error else ok end

abbrev permission_of : Python → Value → Option String
permission_of py v = if truthy v then some (str_of py v) else none

unfoldable pub parse_row : Python → String → Value → Result CommandTypeSpec
parse_row py name raw =
    let command_type = strip name in
    if not (not_blank command_type)
    then err contract_error
    else (row_mapping raw >>= λ row.
        let apply_at = str_of py (get_or "apply_at" (str "next_checkpoint") row) in
        if not (contains apply_at_values apply_at)
        then err contract_error
        else ok (record {
          command_type = command_type;
          apply_at = apply_at;
          requires_permission = permission_of py (get_or "requires_permission" null row);
        }))

unfoldable pub parse_rows : Python → Fields → Registry → Result Registry
unfolding parse_row
parse_rows py end specs = ok specs
parse_rows py (field name raw rest) specs =
    parse_row py name raw >>= λ spec. parse_rows py rest (Dict.insert spec.command_type spec specs)

abbrev rows_or_raise : Value → Result Fields
rows_or_raise (obj (field k v d)) = ok (field k v d)
rows_or_raise _ = err contract_error

unfoldable pub parse_command_registry : Python → Value → Result Registry
unfolding parse_rows
parse_command_registry py (obj doc) =
    rows_or_raise (get_or "command_types" null doc) >>= λ rows. parse_rows py rows []
parse_command_registry py _ = err contract_error
