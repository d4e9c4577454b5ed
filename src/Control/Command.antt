-- ===== src/Control/Command.antt =====
-- control/commands.py: `IssuedBy`, `RuntimeCommand` and `parse_command`. `Stamp` is one draw of
-- `uuid.uuid4().hex` and of the clock.
pub mod Codec
use hex_agent.Base.{String, ◌==◌, Bool, true, false, not, ◌&&◌}
use hex_agent.Base.{Option, none, some, ltb, if◌then◌else◌, not_blank, contains, ◌∷◌}
use hex_agent.Base.{List, []}
use hex_agent.Base.Result.{Result, ok, err, contract_error, ◌>>=◌}
use hex_agent.Value.{Value, null, str, obj, Fields, end, field, get, get_or, truthy, str_of}
use hex_agent.Value.{num, int_of, dict_or_empty, Python}
use hex_agent.Base.Int.{ℤ, pos, negsuc}
use hex_agent.Base.Result.{attribute_error}

pub record Stamp : Type 0 where
  pub hex : String
  pub now : String

pub record IssuedBy : Type 0 where
  pub type : String
  pub user_id : Option String
  pub agent_id : Option String

abbrev pub issuer_types : List String
issuer_types = "human" ∷ "agent" ∷ "system" ∷ []

-- A field that is neither None nor the empty text.
abbrev pub filled : Option String → Bool
filled none = false
filled (some s) = not_blank s

-- `IssuedBy.__post_init__`
unfoldable pub issued_by_check : IssuedBy → Result IssuedBy
issued_by_check i =
    if not (contains issuer_types i.type)
    then err contract_error
    else if i.type == "human" && not (filled i.user_id)
    then err contract_error
    else if i.type == "agent" && not (filled i.agent_id)
    then err contract_error
    else ok i

-- `str(d[k]) if d.get(k) else None`
abbrev pub optional_text : Python → Option Value → Option String
optional_text py none = none
optional_text py (some v) = if truthy v then some (str_of py v) else none

unfoldable pub issued_by_from_dict : Python → Fields → Result IssuedBy
unfolding issued_by_check
issued_by_from_dict py d = issued_by_check (record {
  type = str_of py (get_or "type" (str "") d);
  user_id = optional_text py (get "user_id" d);
  agent_id = optional_text py (get "agent_id" d);
})

pub record RuntimeCommand : Type 0 where
  pub command_type : String
  pub session_id : String
  pub issued_by : IssuedBy
  pub idempotency_key : String
  pub payload : Fields
  pub command_id : String
  pub created_at : String
  pub schema_version : ℤ

-- `n >= 1`
abbrev pub positive : ℤ → Bool
positive (pos n) = ltb 0 n
positive (negsuc n) = false

-- `RuntimeCommand.__post_init__`
unfoldable pub command_check : RuntimeCommand → Result RuntimeCommand
command_check c =
    if not_blank c.command_id
      && not_blank c.command_type
      && not_blank c.session_id
      && not_blank c.idempotency_key
      && not_blank c.created_at
      && positive c.schema_version
    then ok c
    else err contract_error

-- `s or fresh`
abbrev pub or_else : String → String → String
or_else s fresh = if not_blank s then s else fresh

-- `d.get(k) or {}`, on which `.get` is called
abbrev pub mapping_or_empty : Value → Result Fields
mapping_or_empty (obj d) = ok d
mapping_or_empty v = if truthy v then err attribute_error else ok end

-- `RuntimeCommand.from_dict`
unfoldable pub command_from_dict : Python → Stamp → Fields → Result RuntimeCommand
unfolding issued_by_from_dict command_check
command_from_dict py stamp d = do
  issuer_fields ← mapping_or_empty (get_or "issued_by" null d)
  issuer ← issued_by_from_dict py issuer_fields
  payload ← dict_or_empty py (get_or "payload" null d)
  version ← int_of py (get_or "schema_version" (num (pos 1)) d)
  command_check (record {
    command_type = str_of py (get_or "command_type" (str "") d);
    session_id = str_of py (get_or "session_id" (str "") d);
    issued_by = issuer;
    idempotency_key = str_of py (get_or "idempotency_key" (str "") d);
    payload = payload;
    command_id = or_else (str_of py (get_or "command_id" (str "") d)) stamp.hex;
    created_at = or_else (str_of py (get_or "created_at" (str "") d)) stamp.now;
    schema_version = version;
  })

-- `isinstance(v, dict)`
abbrev is_mapping : Value → Bool
is_mapping (obj d) = true
is_mapping _ = false

unfoldable pub parse_command : Python → Stamp → Fields → Result RuntimeCommand
unfolding command_from_dict
parse_command py stamp d =
    if not (truthy (get_or "idempotency_key" null d))
    then err contract_error
    else if not (is_mapping (get_or "issued_by" null d))
    then err contract_error
    else command_from_dict py stamp d

abbrev pub optional : Option String → Value
optional none = null
optional (some s) = str s

unfoldable pub issued_by_as_dict : IssuedBy → Fields
issued_by_as_dict i =
    field "type" (str i.type)
      (field "user_id" (optional i.user_id) (field "agent_id" (optional i.agent_id) end))

unfoldable pub command_as_dict : RuntimeCommand → Fields
unfolding issued_by_as_dict
command_as_dict c = field "command_id" (str c.command_id) (
    field "command_type" (str c.command_type) (
      field "schema_version" (num c.schema_version) (
        field "session_id" (str c.session_id) (
          field "issued_by" (obj (issued_by_as_dict c.issued_by)) (
            field "payload" (obj c.payload) (
              field "idempotency_key" (str c.idempotency_key)
                (field "created_at" (str c.created_at) end)))))))
