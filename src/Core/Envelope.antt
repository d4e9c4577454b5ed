-- ===== src/Core/Envelope.antt =====
-- core/schemas.py: what a tool call is asked with, and the envelope that it returns. An `error` and
-- a `feature` are kept as values, since a tool may give anything for them.
use hex_agent.Base.{String, Bool, true, false, ◌&&◌, Option, List, [], ◌∷◌}
use hex_agent.Base.{if◌then◌else◌, contains, is_some}
use hex_agent.Base.Sorting.{sorted}
use hex_agent.Base.Result.{Result, ok, ◌>>=◌}
use hex_agent.Value.{
  Value, null, bool, str, arr, obj, Fields, end, field, get, get_or, truthy, str_of, texts, set,
  merge, optional_text, dict_or_empty, Python,
}

pub record ToolCallContext : Type 0 where
  pub run_id : Option String
  pub task_id : Option String
  pub session_id : Option String
  pub parent_session_id : Option String
  pub delegation_id : Option String
  pub actor_id : Option String
  -- none stands for no scope at all: every tool is in it
  pub allowed_capabilities : Option (List String)

pub record ToolRequest : Type 0 where
  pub name : String
  pub args : Fields
  pub context : Option ToolCallContext
  pub request_id : String

-- `ToolCallContext.event_fields`
unfoldable pub event_fields : ToolCallContext → Fields
event_fields c = field "run_id" (optional_text c.run_id) (
    field "task_id" (optional_text c.task_id) (
      field "session_id" (optional_text c.session_id) (
        field "parent_session_id" (optional_text c.parent_session_id) (
          field "delegation_id" (optional_text c.delegation_id)
            (field "actor_id" (optional_text c.actor_id) end)))))

pub record CapabilityResult : Type 0 where
  pub ok : Bool
  pub capability : String
  pub feature : Value
  pub data_fields : Fields
  pub error : Value
  pub metadata : Fields

unfoldable pub result_as_dict : CapabilityResult → Fields
result_as_dict r = field "ok" (bool r.ok) (
    field "capability" (str r.capability) (
      field "feature" r.feature (
        field "data" (obj r.data_fields)
          (field "error" r.error (field "metadata" (obj r.metadata) end)))))

abbrev pub has : String → Fields → Bool
has k d = is_some (get k d)

-- `is_capability_result`, of a mapping
unfoldable pub is_capability_result : Fields → Bool
is_capability_result d =
    has "ok" d
    && has "capability" d
    && has "feature" d
    && has "data" d
    && has "error" d
    && has "metadata" d

-- `d.setdefault(k, v)`
abbrev pub set_default : String → Value → Fields → Fields
set_default k v d = elim (has k d) [ true ↦ d | false ↦ set k v d ]

abbrev pub key_names : Fields → List String
key_names end = []
key_names (field k v d) = k ∷ key_names d

-- The fields of a raw result that are its data.
unfoldable pub data_of : Fields → Fields
data_of end = end
data_of (field k v d) =
    let rest = data_of d in
    if contains ("ok" ∷ "error" ∷ "metadata" ∷ []) k then rest else field k v rest

-- `str(result.get("error") or "Capability execution failed.")`
abbrev pub error_text : Python → Value → String
error_text py v = if truthy v then str_of py v else "Capability execution failed."

-- `str(result.get("capability") or capability)`
abbrev pub capability_of : Python → Value → String → String
capability_of py v capability = if truthy v then str_of py v else capability

-- `result.get("feature") if result.get("feature") is not None else feature`
abbrev pub feature_of : Value → Value → Value
feature_of null feature = feature
feature_of v feature = v

-- `CapabilityResult.from_raw`
unfoldable pub from_raw : Python → String → Value → Fields → Fields → Result CapabilityResult
unfolding is_capability_result data_of sorted
from_raw py capability feature raw extra = elim (is_capability_result raw) [
  | true ↦ dict_or_empty py (get_or "metadata" null raw) >>= λ meta.
      dict_or_empty py (get_or "data" null raw) >>= λ content. ok (record {
        ok = truthy (get_or "ok" null raw);
        capability = capability_of py (get_or "capability" null raw) capability;
        feature = feature_of (get_or "feature" null raw) feature;
        data_fields = content;
        error = get_or "error" null raw;
        metadata = merge meta extra;
      })
  | false ↦ dict_or_empty py (get_or "metadata" null raw) >>= λ meta. ok (record {
    ok = truthy (get_or "ok" (bool false) raw);
    capability = capability;
    feature = feature;
    data_fields = data_of raw;
    error =
        if truthy (get_or "ok" (bool false) raw)
        then null
        else str (error_text py (get_or "error" null raw));
    metadata = set_default "raw_keys" (arr (texts (sorted (key_names raw)))) (merge meta extra);
  })
]
