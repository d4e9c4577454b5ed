-- ===== src/Middleware/Denied.antt =====
-- core/kernel.py with middleware/: what a gate keeps from the tool.
use hex_agent.Base.{
  ℕ, zero, suc, ◌-◌, ◌≡◌, refl, ap, String, true, Option, List, [], ◌∷◌, ◌++◌, Bool-cases,
  Option-cases, inl, inr, contains, map,
}
use hex_agent.Value.{Fields}
use hex_agent.Discipline.{record_tool_call, same_tool_exceeded}
use hex_agent.Core.Envelope.{ToolRequest, ToolCallContext}
use hex_agent.Core.Registry.{Attempt}
use hex_agent.Core.Kernel.{
  KernelRun, Handler, Middleware, Runtime, AgentKernel, core_handler, lineage_of, wrap_all,
  execute_tool, in_scope, publish, close_call, with_lineage, envelope_of, requested_event,
}
use hex_agent.Middleware.{condensed_attempt, condense_result, is_model_call}
use hex_agent.Middleware.Retry.{condensing}
use hex_agent.Middleware.{
  call_again, policy_gate, budget_guard, retry, retry_loop, timing_log, timed_attempt,
}
use hex_agent.Middleware.Retry.{Layer, gate, guard, again, timed, layer}

module _ {W : Type 0} where
  -- Two handlers that do the same with a request.
  abbrev Same : ToolRequest → Handler W → Handler W → Type 0
  Same q a b = (r : KernelRun W) → a q r ≡ b q r

  retry_loop-Same :
      (attribute : String) (n : ℕ) (q : ToolRequest) (a b : Handler W)
      → Same q a b
      → (p : Attempt × KernelRun W) → retry_loop attribute n a q p ≡ retry_loop attribute n b q p
  unfolding retry_loop
  retry_loop-Same attribute zero q a b h (env, r) = refl
  retry_loop-Same attribute (suc n) q a b h (env, r) =
      let rest = retry_loop-Same attribute n q a b h (b q r) in
      elim (Option-cases (call_again env)) [
        | inl c ↦ rw (retry_loop, c) refl
        | inr (x, c) ↦ elim (Bool-cases x) [
          | inl t ↦ rw (retry_loop, c, t, h r) rest
          | inr t ↦ rw (retry_loop, c, t) refl
        ]
      ]

  layer-Same :
      (l : Layer W) (q : ToolRequest) (a b : Handler W)
      → Same q a b
      → Same q (layer l a) (layer l b)
  unfolding policy_gate budget_guard retry timing_log condense_result
  layer-Same (gate deny on_block) q a b h r = elim (Bool-cases (contains deny q.name)) [
    | inl e ↦ rw (policy_gate, e) refl
    | inr e ↦ rw (policy_gate, e) (h r)
  ]
  layer-Same (guard port key on_block) q a b h r =
      let k = key q.name q.args in
      let x = record_tool_call k (port.read r.world) in
      elim (Bool-cases (same_tool_exceeded k x)) [
        | inl e ↦ rw (budget_guard, e) refl
        | inr e ↦ rw (budget_guard, e) (h (record r { world = port.write x r.world }))
      ]
  layer-Same (again attribute attempts) q a b h r =
      rw (h r) (retry_loop-Same attribute (attempts - 1) q a b h (b q r))
  layer-Same (timed sink) q a b h r = ap (λ p. timed_attempt sink q p) (h r)
  layer-Same (condensing c on_condense) q a b h r = elim (Bool-cases (is_model_call q)) [
    | inl e ↦ rw (condense_result, e) (h r)
    | inr e ↦ rw (condense_result, e) (ap (λ p. condensed_attempt c on_condense q p) (h r))
  ]

  wrap_all-Same :
      (ls : List (Layer W)) (q : ToolRequest) (xs ys : List (Middleware W)) (a b : Handler W)
      → Same q (wrap_all xs a) (wrap_all ys b)
      → Same q (wrap_all (map layer ls ++ xs) a) (wrap_all (map layer ls ++ ys) b)
  unfolding wrap_all
  wrap_all-Same [] q xs ys a b h r = h r
  wrap_all-Same (l ∷ ls) q xs ys a b h r =
      layer-Same l q (wrap_all (map layer ls ++ xs) a) (wrap_all (map layer ls ++ ys) b)
        (wrap_all-Same ls q xs ys a b h) r

  gate-Same :
      (deny : List String) (on_block : ToolRequest → W → W) (q : ToolRequest)
      (xs ys : List (Middleware W)) (a b : Handler W)
      → contains deny q.name ≡ true
      → Same q
          (wrap_all (policy_gate deny on_block ∷ xs) a)
          (wrap_all (policy_gate deny on_block ∷ ys) b)
  unfolding wrap_all policy_gate
  gate-Same deny on_block q xs ys a b e r = rw (policy_gate, e) refl

-- A denied tool is never reached: if a policy gate of the chain denies the name, the outcome of the
-- call, its events and the world after it do not depend on the registry nor on the middleware
-- behind the gate. Gates, budget guards, retries, timing logs and condensers may stand before it.
pub denied_never_runs :
    {W : Type 0} (t : Runtime) (k₁ k₂ : AgentKernel W) (ls : List (Layer W)) (deny : List String)
    (on_block : ToolRequest → W → W) (xs ys : List (Middleware W)) (name : String) (args : Fields)
    (context : Option ToolCallContext) (request_id : String) (r : KernelRun W)
    → k₁.middlewares ≡ map layer ls ++ policy_gate deny on_block ∷ xs
    → k₂.middlewares ≡ map layer ls ++ policy_gate deny on_block ∷ ys
    → contains deny name ≡ true
    → execute_tool t k₁ name args context request_id r
      ≡ execute_tool t k₂ name args context request_id r
unfolding execute_tool
denied_never_runs {W = W} t k₁ k₂ ls deny on_block xs ys name args context request_id r stack₁
      stack₂ denied =
    elim (Bool-cases (in_scope context name)) [
      | inl i ↦
          rw (execute_tool, i, stack₁, stack₂)
            (ap (λ p. close_call q (with_lineage q (envelope_of t q p.0)) p.1)
              (wrap_all-Same ls q (policy_gate deny on_block ∷ xs) (policy_gate deny on_block ∷ ys)
                (core_handler t k₁.registry (lineage_of context))
                (core_handler t k₂.registry (lineage_of context))
                (gate-Same deny on_block q xs ys _ _ denied) r₁))
      | inr i ↦ rw (execute_tool, i) refl
    ]
  where
    q : ToolRequest
    q = record { name = name; args = args; context = context; request_id = request_id }

    r₁ : KernelRun W
    r₁ = publish "tool.requested" (requested_event q) r
