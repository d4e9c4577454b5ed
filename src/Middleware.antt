-- ===== src/Middleware.antt =====
-- middleware/: the handlers that stand around a tool call. What a callback does to the world is a
-- parameter; `BudgetPort` is where the world keeps the budget that a guard shares.
pub mod Retry
pub mod Effects
pub mod Chain
pub mod Denied
use hex_agent.Base.{
  ℕ, zero, suc, ◌+◌, ◌-◌, String, ◌<>◌, ◌==◌, Bool, true, false, not, ◌&&◌, Option, none, some,
  List, [], ◌∷◌, map,
}
use hex_agent.Base.{if◌then◌else◌, contains}
use hex_agent.Value.{Value, null, bool, str, arr, obj, Fields, end, field, get, get_or, truthy, set}
use hex_agent.Discipline.{Budget, record_tool_call, same_tool_exceeded}
use hex_agent.Base.Texts.{take_chars}
use hex_agent.Discipline.Condense.{condense}
use hex_agent.Core.Envelope.{ToolRequest}
use hex_agent.Core.Registry.{Attempt, returned, raised}
use hex_agent.Core.Kernel.{KernelRun, Handler, Middleware}

pub record BudgetPort (W : Type 0) : Type 0 where
  pub read : W → Budget
  pub write : Budget → W → W

-- The envelope of a call that a guard answers itself.
unfoldable pub guard_envelope : ToolRequest → String → String → Fields
guard_envelope request error flag = field "ok" (bool false) (
    field "capability" (str request.name) (
      field "feature" null (
        field "data" (obj end)
          (field "error" (str error) (field "metadata" (obj (field flag (bool true) end)) end)))))

-- `meta.get(k) is False`
abbrev pub is_false : Option Value → Bool
is_false (some (bool false)) = true
is_false _ = false

abbrev pub is_text : String → Option Value → Bool
is_text s (some (str t)) = t == s
is_text s _ = false

-- `_retryable` of an envelope whose metadata are the mapping `meta`
unfoldable pub retryable : Fields → Bool
retryable meta =
    if truthy (get_or "policy_block" null meta)
    then false
    else if is_text "effect" (get "kind" meta) && is_false (get "idempotent" meta)
    then false
    else true

-- Whether the loop of `Retry` calls once more, but for the number of tries; none when
-- `(env.get("metadata") or {}).get` raises.
abbrev pub meta_retryable : Value → Option Bool
meta_retryable (obj meta) = some (retryable meta)
meta_retryable v = if truthy v then none else some (retryable end)

unfoldable pub call_again : Attempt → Option Bool
call_again (returned (obj env)) =
    if truthy (get_or "ok" null env)
    then some false
    else meta_retryable (get_or "metadata" null env)
call_again _ = some false

-- `isinstance(v, (dict, list, str))`, of the data of an envelope
abbrev pub condensable : Option Value → Option Value
condensable (some (obj d)) = some (obj d)
condensable (some (arr items)) = some (arr items)
condensable (some (str s)) = some (str s)
condensable _ = none

-- `request.name.startswith("llm.")`
abbrev pub is_model_call : ToolRequest → Bool
is_model_call request = take_chars 4 request.name == "llm."

-- What `CondenseResult` does to its data; `equal` is the equality of values.
pub record Condenser : Type 0 where
  pub max_chars : ℕ
  pub max_list : ℕ
  pub equal : Value → Value → Bool

unfoldable pub condensed_env : Condenser → Fields → Fields
condensed_env c env = elim (condensable (get "data" env)) [
  | none ↦ env
  | some v ↦ set "data" (condense c.max_chars c.max_list v) env
]

abbrev pub data_changed : Condenser → Fields → Bool
data_changed c env = elim (condensable (get "data" env)) [
  | none ↦ false
  | some v ↦ not (c.equal (condense c.max_chars c.max_list v) v)
]

module _ {W : Type 0} where
  -- A change of the world
  abbrev pub on_world : (W → W) → KernelRun W → KernelRun W
  on_world f r = record r { world = f r.world }

  -- `PolicyGate`
  unfoldable pub policy_gate : List String → (ToolRequest → W → W) → Middleware W
  unfolding guard_envelope
  policy_gate deny on_block nxt request r = elim (contains deny request.name) [
    | true ↦ (
      returned
          (obj (guard_envelope request ("Blocked by policy: " <> request.name) "policy_block")),
      on_world (on_block request) r,
    )
    | false ↦ nxt request r
  ]

  -- `BudgetGuard`; `tool_key` is the JSON text of a call.
  unfoldable pub budget_guard :
      BudgetPort W → (String → Fields → String) → (ToolRequest → W → W) → Middleware W
  unfolding guard_envelope record_tool_call same_tool_exceeded
  budget_guard port tool_key on_block nxt request r =
      let key = tool_key request.name request.args in
      let budget = record_tool_call key (port.read r.world) in
      let r₁ = on_world (port.write budget) r in
      elim (same_tool_exceeded key budget) [
        | true ↦ (
          returned (obj (guard_envelope request "Same-tool budget exceeded." "budget_block")),
          on_world (on_block request) r₁,
        )
        | false ↦ nxt request r₁
      ]

  -- The loop of `Retry`, with at most n calls more; `attribute` is the text of its exception.
  unfoldable pub retry_loop :
      String → ℕ → Handler W → ToolRequest → Attempt × KernelRun W → Attempt × KernelRun W
  unfolding call_again
  retry_loop attribute zero nxt request (env, r) = (env, r)
  retry_loop attribute (suc n) nxt request (env, r) = elim (call_again env) [
    | none ↦ (raised attribute, r)
    | some false ↦ (env, r)
    | some true ↦ retry_loop attribute n nxt request (nxt request r)
  ]

  -- `Retry`, of max(1, attempts) calls
  unfoldable pub retry : String → ℕ → Middleware W
  unfolding retry_loop
  retry attribute attempts nxt request r =
      retry_loop attribute (attempts - 1) nxt request (nxt request r)

  abbrev pub timed_attempt :
      (ToolRequest → Value → W → W) → ToolRequest → Attempt × KernelRun W → Attempt × KernelRun W
  timed_attempt sink request (returned env, r) = (returned env, on_world (sink request env) r)
  timed_attempt sink request (raised text, r) = (raised text, r)

  -- `TimingLog`: the sink sees every call that returns, and cannot make it fail.
  unfoldable pub timing_log : (ToolRequest → Value → W → W) → Middleware W
  timing_log sink nxt request r = timed_attempt sink request (nxt request r)

  abbrev pub condensed_attempt :
      Condenser
      → (ToolRequest → W → W)
      → ToolRequest
      → Attempt × KernelRun W
      → Attempt × KernelRun W
  condensed_attempt c on_condense request (returned (obj env), r) = (
    returned (obj (condensed_env c env)),
    (if data_changed c env then on_world (on_condense request) r else r),
  )
  condensed_attempt c on_condense request (attempt, r) = (attempt, r)

  -- `CondenseResult`: the answers of a model are left as they are.
  unfoldable pub condense_result : Condenser → (ToolRequest → W → W) → Middleware W
  unfolding condense condensed_env take_chars
  condense_result c on_condense nxt request r = elim (is_model_call request) [
    | true ↦ nxt request r
    | false ↦ condensed_attempt c on_condense request (nxt request r)
  ]
