-- ===== src/Control/Redaction.antt =====
-- control/redaction.py: what a payload shows to the user interface. `lower` is `str.lower`, of the
-- language; the keys of a mapping are texts.
pub mod Hidden
use hex_agent.Base.{
  ℕ, ◌+◌, String, ◌<>◌, Bool, true, false, Option, none, some, List, [], ◌∷◌, ◌++◌, contains,
  not_blank, map,
}
use hex_agent.Base.{if◌then◌else◌}
use hex_agent.Base.Decimal.{decimal}
use hex_agent.Base.Sorting.{sorted}
use hex_agent.Base.Result.{Result, ok, ◌>>=◌}
use hex_agent.Value.{Value, null, bool, num, str, arr, obj, Items, nil, cons, Fields, end, field}
use hex_agent.Control.Event.{RuntimeEvent, RedactionInfo, redaction_check, event_check}

-- `SECRET_KEYS`
abbrev pub default_secret_keys : List String
default_secret_keys =
    "api_key" ∷ "apikey" ∷ "authorization" ∷ "password" ∷ "passwd" ∷ "secret" ∷ "secret_key"
    ∷ "client_secret" ∷ "token" ∷ "access_token" ∷ "refresh_token" ∷ "private_key" ∷ "set-cookie"
    ∷ "cookie" ∷ []

abbrev pub redacted_text : String
redacted_text = "[REDACTED]"

pub record Redactor : Type 0 where
  pub secret_keys : List String
  pub lower : String → String

-- `Redactor.__init__`
unfoldable pub new_redactor : (String → String) → List String → Redactor
new_redactor lower keys = record { secret_keys = map lower keys; lower = lower }

unfoldable pub is_secret : Redactor → String → Bool
is_secret r key = contains r.secret_keys (r.lower key)

abbrev pub child_path : String → String → String
child_path path key = if not_blank path then path <> "." <> key else key

abbrev pub item_path : String → ℕ → String
item_path path index = path <> "[" <> decimal index <> "]"

-- One field of a mapping, with what walks its value and the rest of the mapping.
abbrev pub walk_field :
    Bool
    → String
    → String
    → (List String → Value × List String)
    → (List String → Fields × List String)
    → List String
    → Fields × List String
walk_field true key path value rest fields =
    let (out, fields') = rest (fields ++ path ∷ []) in (field key (str redacted_text) out, fields')
walk_field false key path value rest fields =
    let (shown, fields₁) = value fields in
    let (out, fields₂) = rest fields₁ in (field key shown out, fields₂)

-- `_walk`, with the paths that it adds
unfoldable mutual
  unfolding decimal

  pub walk : Redactor → Value → String → List String → Value × List String
  walk r (obj d) path fields =
      let (out, fields') = walk_fields r d path fields in (obj out, fields')
  walk r (arr items) path fields =
      let (out, fields') = walk_items r items path 0 fields in (arr out, fields')
  walk r null path fields = (null, fields)
  walk r (bool b) path fields = (bool b, fields)
  walk r (num n) path fields = (num n, fields)
  walk r (str s) path fields = (str s, fields)

  pub walk_fields : Redactor → Fields → String → List String → Fields × List String
  walk_fields r end path fields = (end, fields)
  walk_fields r (field key item d) path fields =
      walk_field (is_secret r key) key (child_path path key)
        (λ names. walk r item (child_path path key) names) (λ names. walk_fields r d path names)
        fields

  pub walk_items : Redactor → Items → String → ℕ → List String → Items × List String
  walk_items r nil path index fields = (nil, fields)
  walk_items r (cons item rest) path index fields =
      let (shown, fields₁) = walk r item (item_path path index) fields in
      let (out, fields₂) = walk_items r rest path (index + 1) fields₁ in (cons shown out, fields₂)

-- `set(fields)`
abbrev pub distinct : List String → List String
distinct [] = []
distinct (x ∷ xs) = let rest = distinct xs in if contains rest x then rest else x ∷ rest

unfoldable pub redact : Redactor → Fields → Fields × List String
unfolding walk walk_fields walk_items sorted
redact r payload =
    let (out, fields) = walk_fields r payload "" [] in (out, sorted (distinct fields))

-- `level or event.redaction.level`
abbrev pub level_or : Option String → String → String
level_or none default = default
level_or (some level) default = if not_blank level then level else default

abbrev pub some_hidden : List String → Bool
some_hidden [] = false
some_hidden (x ∷ xs) = true

-- The event with the payload that is shown, and the paths that were hidden.
unfoldable pub with_shown :
    Option String → RuntimeEvent → Fields × List String → Result RuntimeEvent
unfolding redaction_check event_check
with_shown level event (ui_payload, fields) =
    redaction_check (record {
      level = level_or level event.redaction.level;
      has_secret = some_hidden fields;
      redacted_fields = fields;
    })
    >>= λ info. event_check (record event { ui_payload = some ui_payload; redaction = info })

-- `Redactor.apply`
unfoldable pub apply : Redactor → Option String → RuntimeEvent → Result RuntimeEvent
unfolding redact with_shown
apply r level event = with_shown level event (redact r event.payload)
