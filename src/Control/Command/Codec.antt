-- ===== src/Control/Command/Codec.antt =====
-- A control command is read back from its mapping as it is.
use hex_agent.Base.{◌≡◌, refl, String, String-discrete, true, Option, none, some, arith, not_blank}
use hex_agent.Base.Result.{ok}
use hex_agent.Value.{obj, Fields, end, field, dict_or_empty, Python}
use hex_agent.Control.Command.{
  Stamp, IssuedBy, RuntimeCommand, issued_by_check, issued_by_from_dict, command_check,
  command_from_dict, issued_by_as_dict, command_as_dict, optional, optional_text,
}

-- An optional name that is missing or not empty.
abbrev pub IsName : Option String → Type 0
IsName none = Unit
IsName (some s) = not_blank s ≡ true

optional_text-optional :
    (py : Python) (name : Option String)
    → IsName name
    → optional_text py (some (optional name)) ≡ name
optional_text-optional py none h = refl
optional_text-optional py (some s) h = rw h refl

dict_or_empty-obj : (py : Python) (d : Fields) → dict_or_empty py (obj d) ≡ ok d
dict_or_empty-obj py end = refl
dict_or_empty-obj py (field k v d) = refl

issued_by_round_trip :
    (py : Python) (i : IssuedBy)
    → issued_by_check i ≡ ok i
    → IsName i.user_id
    → IsName i.agent_id
    → issued_by_from_dict py (issued_by_as_dict i) ≡ ok i
unfolding issued_by_from_dict issued_by_as_dict String-discrete
issued_by_round_trip py i h user agent =
    rw (optional_text-optional py i.user_id user, optional_text-optional py i.agent_id agent) h

command_check-named :
    (c : RuntimeCommand)
    → command_check c ≡ ok c
    → (not_blank c.command_id ≡ true) × (not_blank c.created_at ≡ true)
unfolding command_check
command_check-named c h = ground arith

-- A command that passes its check, issued by names that are missing or not empty, is read back
-- from its mapping as it is: a queue that is stored as mappings loses nothing.
pub command_round_trip :
    (py : Python) (stamp : Stamp) (c : RuntimeCommand)
    → command_check c ≡ ok c
    → issued_by_check c.issued_by ≡ ok c.issued_by
    → IsName c.issued_by.user_id
    → IsName c.issued_by.agent_id
    → command_from_dict py stamp (command_as_dict c) ≡ ok c
unfolding command_from_dict command_as_dict String-discrete
command_round_trip py stamp c h hi user agent =
    let named = command_check-named c h in
    rw (issued_by_round_trip py c.issued_by hi user agent)
      (rw (dict_or_empty-obj py c.payload) (rw (named.0, named.1) h))
