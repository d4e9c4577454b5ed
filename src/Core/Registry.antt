-- ===== src/Core/Registry.antt =====
-- core/registry.py: which executor a tool name is resolved to. An executor acts on a state S.
use hex_agent.Base.{String, ◌<>◌, Bool, true, false, Option, none, some, List, [], ◌∷◌, map}
use hex_agent.Base.{if◌then◌else◌, not_blank}
use hex_agent.Base.Dict
use hex_agent.Base.Dict.{Dict}
use hex_agent.Base.Sorting.{sorted}
use hex_agent.Base.Result.{Result, ok, err, runtime_error, ◌>>=◌}
use hex_agent.Value.{Value, bool, str, obj, Fields, end, field}
use hex_agent.Core.Envelope.{ToolRequest}

-- What a call of foreign code leaves: a value, or the text of an exception.
pub data Attempt : Type 0 where
  returned : Value → Attempt
  raised : String → Attempt

pub record ToolDescriptor : Type 0 where
  pub kind : String
  pub idempotent : Bool
  pub risk : String

abbrev pub default_descriptor : ToolDescriptor
default_descriptor = record { kind = "tool"; idempotent = false; risk = "low" }

pub record Executor (S : Type 0) : Type 0 where
  pub name : String
  pub execute : ToolRequest → S → Attempt × S

pub record FeatureDescriptor : Type 0 where
  pub name : String
  pub version : String
  pub capabilities : List String
  pub enabled : Bool
  pub description : String

pub record ToolResolution (S : Type 0) : Type 0 where
  pub executor : Executor S
  pub feature : Option String
  pub descriptor : ToolDescriptor

pub record CapabilityRegistry (S : Type 0) : Type 0 where
  pub tools : Dict (Executor S)
  pub features : Dict FeatureDescriptor
  pub tool_features : Dict String
  pub descriptors : Dict ToolDescriptor
  pub fallback : Option (Executor S)
  pub fallback_feature : Option String
  pub frozen : Bool

unfoldable pub missing_tool : String → Fields
missing_tool name = field "ok" (bool false) (
    field "tool" (str name) (
      field "missing_capability" (bool true)
        (field "error" (str ("No tool capability is registered for '" <> name <> "'.")) end)))

-- A name, unless it is None or empty.
abbrev given : Option String → Option String
given none = none
given (some s) = if not_blank s then some s else none

module _ {S : Type 0} where
  -- `NullToolPort`
  unfoldable pub null_tool : Executor S
  unfolding missing_tool
  null_tool = record {
    name = "null_tool";
    execute = λ req s. (returned (obj (missing_tool req.name)), s);
  }

  -- `_ensure_mutable`, and then the change
  abbrev pub if_mutable :
      CapabilityRegistry S → CapabilityRegistry S → Result (CapabilityRegistry S)
  if_mutable r changed = if r.frozen then err runtime_error else ok changed

  unfoldable pub freeze_registry : CapabilityRegistry S → CapabilityRegistry S
  freeze_registry r = record r { frozen = true }

  unfoldable pub register_feature :
      FeatureDescriptor → CapabilityRegistry S → Result (CapabilityRegistry S)
  register_feature d r = if_mutable r (record r { features = Dict.insert d.name d r.features })

  unfoldable pub register_tool :
      String
      → Executor S
      → Option String
      → ToolDescriptor
      → CapabilityRegistry S
      → Result (CapabilityRegistry S)
  register_tool name executor feature_name descriptor r = if_mutable r (record r {
    tools = Dict.insert name executor r.tools;
    tool_features = elim (given feature_name) [
      | none ↦ r.tool_features
      | some f ↦ Dict.insert name f r.tool_features
    ];
    descriptors = Dict.insert name descriptor r.descriptors;
  })

  unfoldable pub set_fallback :
      Option (Executor S) → Option String → CapabilityRegistry S → Result (CapabilityRegistry S)
  set_fallback executor feature_name r = if_mutable r (record r {
    fallback = executor;
    fallback_feature = elim executor [ none ↦ none | some _ ↦ feature_name ];
  })

  -- Exact registration wins; then the fallback; then the null tool.
  unfoldable pub resolve_tool : CapabilityRegistry S → String → ToolResolution S
  unfolding null_tool
  resolve_tool r name = elim (Dict.lookup name r.tools) [
    | some executor ↦ record {
      executor = executor;
      feature = Dict.lookup name r.tool_features;
      descriptor = elim (Dict.lookup name r.descriptors) [ none ↦ default_descriptor | some d ↦ d ];
    }
    | none ↦ elim r.fallback [
      | some executor ↦ record {
        executor = executor;
        feature = r.fallback_feature;
        descriptor = default_descriptor;
      }
      | none ↦ record { executor = null_tool; feature = none; descriptor = default_descriptor }
    ]
  ]

  -- `list_tools`, with the feature of each name
  unfoldable pub list_tools : CapabilityRegistry S → List (String × Option String)
  unfolding sorted
  list_tools r = map (λ n. (n, Dict.lookup n r.tool_features)) (sorted (Dict.keys r.tools))

  -- `register_tools`: only the first registration can raise, on a frozen registry.
  unfoldable pub register_tools :
      List String
      → Executor S
      → Option String
      → ToolDescriptor
      → CapabilityRegistry S
      → Result (CapabilityRegistry S)
  unfolding register_tool
  register_tools [] executor feature_name descriptor r = ok r
  register_tools (name ∷ names) executor feature_name descriptor r =
      register_tool name executor feature_name descriptor r >>= λ r'.
      register_tools names executor feature_name descriptor r'

  unfoldable pub has_tool : String → CapabilityRegistry S → Bool
  has_tool name r = Dict.has_key r.tools name
