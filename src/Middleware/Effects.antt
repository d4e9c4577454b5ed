-- ===== src/Middleware/Effects.antt =====
-- core/kernel.py with middleware/: a tool with effects is run once at most.
use hex_agent.Base.{
  ℕ, ◌+◌, ◌≤◌, ◌≡◌, refl, ap, String, ◌==◌, true, false, Option, none, some, List, Bool-cases, inl,
  inr, arith, String-discrete, All, map,
}
use hex_agent.Base.Result.{Result, ok, err, Result-cases}
use hex_agent.Value.{
  Value, null, bool, str, obj, Fields, get, get_or, optional_text, truthy, last_value,
}
use hex_agent.Core.Envelope.{
  ToolRequest, ToolCallContext, event_fields, CapabilityResult, result_as_dict, from_raw,
}
use hex_agent.Core.Metadata.{get-from_raw}
use hex_agent.Core.Registry.{
  returned, CapabilityRegistry, resolve_tool, ToolResolution, ToolDescriptor,
}
use hex_agent.Core.Kernel.{
  KernelRun, Runtime, AgentKernel, core_handler, lineage_of, tool_result, execute_tool, in_scope,
  publish, close_call, call_metadata, requested_event,
}
use hex_agent.Middleware.{call_again, retryable}
use hex_agent.Middleware.Retry.{Layer, layer, Quiet, Once, wrap_all-Once, raised_is_final}

-- The descriptor of the tool says that it has effects which must not be repeated.
abbrev pub IsEffect : ToolDescriptor → Type 0
IsEffect d = (d.kind ≡ "effect") × (d.idempotent ≡ false)

retryable_effect :
    (meta : Fields)
    → get "kind" meta ≡ some (str "effect")
    → get "idempotent" meta ≡ some (bool false)
    → retryable meta ≡ false
unfolding retryable String-discrete
retryable_effect meta kind idempotent =
    elim (Bool-cases (truthy (get_or "policy_block" null meta))) [
      | inl e ↦ rw (retryable, e) refl
      | inr e ↦ rw (retryable, e, kind, idempotent) refl
    ]

effect_result_is_final {ℓ} :
    {A : Type ℓ} (result : CapabilityResult)
    → get "kind" result.metadata ≡ some (str "effect")
    → get "idempotent" result.metadata ≡ some (bool false)
    → call_again (returned (obj (result_as_dict result))) ≡ some true
    → A
unfolding call_again result_as_dict String-discrete
effect_result_is_final {A = A} result kind idempotent repeated = elim (Bool-cases result.ok) [
  | inl e ↦ final (rw (call_again, e) at repeated)
  | inr e ↦ final (rw (call_again, e, retryable_effect result.metadata kind idempotent) at repeated)
]
  where
    final : some false ≡ some true → A
    final e = cc

metadata_of_effect :
    {W : Type 0} (q : ToolRequest) (found : ToolResolution (KernelRun W))
    (c : Option ToolCallContext)
    → IsEffect found.descriptor
    → (last_value "kind" (call_metadata q (lineage_of c) found) ≡ some (str "effect"))
      × (last_value "idempotent" (call_metadata q (lineage_of c) found) ≡ some (bool false))
unfolding call_metadata lineage_of event_fields String-discrete
metadata_of_effect q found none e = (ap (λ k. some (str k)) e.0, ap (λ b. some (bool b)) e.1)
metadata_of_effect q found (some c) e = (ap (λ k. some (str k)) e.0, ap (λ b. some (bool b)) e.1)

core_handler-Once :
    {W : Type 0} (t : Runtime) (f : W → ℕ) (registry : CapabilityRegistry (KernelRun W))
    (c : Option ToolCallContext) (q : ToolRequest)
    → IsEffect (resolve_tool registry q.name).descriptor
    → ((r : KernelRun W)
        → f ((resolve_tool registry q.name).executor.execute q r).1.world ≤ f r.world + 1)
    → (r : KernelRun W) → Once f r (core_handler t registry (lineage_of c) q r)
unfolding core_handler String-discrete
core_handler-Once {W = W} t f registry c q e runs r = (
  runs r,
  λ repeated. elim (Result-cases content) [
    | inl (x, m) ↦ raised_is_final (t.message x) (rw m at repeated)
    | inr (result, m) ↦
        let (kind, idempotent) = metadata_of_effect q found c e in
        effect_result_is_final result (kept "kind" (str "effect") m kind refl)
          (kept "idempotent" (bool false) m idempotent refl) (rw m at repeated)
  ],
)
  where
    found : ToolResolution (KernelRun W)
    found = resolve_tool registry q.name

    raw : Fields
    raw = tool_result t q (found.executor.execute q r).0

    content : Result CapabilityResult
    content =
        from_raw t.python q.name (optional_text found.feature) raw
          (call_metadata q (lineage_of c) found)

    kept :
        (k : String) (v : Value) {result : CapabilityResult}
        → content ≡ ok result
        → last_value k (call_metadata q (lineage_of c) found) ≡ some v
        → k == "raw_keys" ≡ false
        → get k result.metadata ≡ some v
    kept k v m l d =
        get-from_raw t.python q.name (optional_text found.feature) raw
          (call_metadata q (lineage_of c) found) k v m l d

close_call-world :
    {W : Type 0} (q : ToolRequest) (m : Result Fields) (r : KernelRun W)
    → (close_call q m r).1.world ≡ r.world
unfolding close_call publish
close_call-world q (ok d) r = refl
close_call-world q (err x) r = refl

-- A tool that is registered as an effect and not idempotent is run at most once by a call of the
-- kernel, whatever gates, budget guards, retries, timing logs and condensers stand around it in
-- whatever order: a measure of the world that one run of the tool raises by one at most, and that
-- the callbacks of the middleware do not raise, is not raised by more than one.
pub execute_effect_once :
    {W : Type 0} (t : Runtime) (f : W → ℕ) (k : AgentKernel W) (ls : List (Layer W)) (name : String)
    (args : Fields) (context : Option ToolCallContext) (request_id : String) (r : KernelRun W)
    → k.middlewares ≡ map layer ls
    → All (Quiet f) ls
    → IsEffect (resolve_tool k.registry name).descriptor
    → ((q : ToolRequest) (s : KernelRun W)
        → f ((resolve_tool k.registry name).executor.execute q s).1.world ≤ f s.world + 1)
    → f (execute_tool t k name args context request_id r).1.world ≤ f r.world + 1
unfolding execute_tool publish
execute_effect_once {W = W} t f k ls name args context request_id r stack quiet e runs =
    elim (Bool-cases (in_scope context name)) [
      | inl i ↦
          let once =
            wrap_all-Once f ls quiet q (core_handler t k.registry (lineage_of context))
              (core_handler-Once t f k.registry context q e (runs q)) r₁ in
          rw (execute_tool, i, stack, close_call-world q _ _) once.0
      | inr i ↦ rw (execute_tool, i) (omega arith)
    ]
  where
    q : ToolRequest
    q = record { name = name; args = args; context = context; request_id = request_id }

    r₁ : KernelRun W
    r₁ = publish "tool.requested" (requested_event q) r
