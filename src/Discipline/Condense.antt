-- ===== src/Discipline/Condense.antt =====
-- discipline/condense.py: a tool result made small enough for the model.
use hex_agent.Base.{ℕ, zero, suc, ◌-◌, String, ◌<>◌}
use hex_agent.Base.{if◌then◌else◌, leb}
use hex_agent.Base.Decimal.{decimal}
use hex_agent.Base.Texts.{take_chars, count_chars}
use hex_agent.Value.{Value, null, bool, num, str, arr, obj, Items, nil, cons, Fields, end, field}

-- `_truncate`
unfoldable pub truncate : String → ℕ → String
unfolding take_chars count_chars decimal
truncate text max_chars =
    if leb (count_chars text) max_chars
    then text
    else take_chars max_chars text
      <> "... [+"
      <> decimal (count_chars text - max_chars)
      <> " chars]"

abbrev count_items : Items → ℕ
count_items nil = 0
count_items (cons v rest) = suc (count_items rest)

-- What stands for the items that are left out.
unfoldable pub left_out : Items → Items
unfolding decimal
left_out nil = nil
left_out (cons v rest) =
    cons (str ("... [+" <> decimal (count_items (cons v rest)) <> " items]")) nil

-- `condense`; a list keeps its first n items.
unfoldable mutual
  unfolding truncate left_out

  pub condense : ℕ → ℕ → Value → Value
  condense max_chars max_list (obj d) = obj (condense_fields max_chars max_list d)
  condense max_chars max_list (arr items) = arr (condense_items max_chars max_list max_list items)
  condense max_chars max_list (str s) = str (truncate s max_chars)
  condense max_chars max_list null = null
  condense max_chars max_list (bool b) = bool b
  condense max_chars max_list (num n) = num n

  pub condense_fields : ℕ → ℕ → Fields → Fields
  condense_fields max_chars max_list end = end
  condense_fields max_chars max_list (field k v d) =
      field k (condense max_chars max_list v) (condense_fields max_chars max_list d)

  pub condense_items : ℕ → ℕ → ℕ → Items → Items
  condense_items max_chars max_list n nil = nil
  condense_items max_chars max_list zero (cons v rest) = left_out (cons v rest)
  condense_items max_chars max_list (suc n) (cons v rest) =
      cons (condense max_chars max_list v) (condense_items max_chars max_list n rest)
