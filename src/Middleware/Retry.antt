-- ===== src/Middleware/Retry.antt =====
-- middleware/retry.py with the other handlers around a tool: how often the tool can be run.
use hex_agent.Base.{
  ℕ, zero, suc, ◌+◌, ◌-◌, ◌≤◌, ◌≡◌, inl, inr, String, true, some, List, [], ◌∷◌, All, arith,
  Bool-cases, Option-cases, map, contains,
}
use hex_agent.Value.{Value, Fields}
use hex_agent.Discipline.{Budget, record_tool_call, same_tool_exceeded}
use hex_agent.Core.Envelope.{ToolRequest}
use hex_agent.Core.Registry.{Attempt, returned, raised}
use hex_agent.Core.Kernel.{KernelRun, Handler, Middleware, wrap_all}
use hex_agent.Base.{false, ◌==◌, String-discrete, if_rule, if◌then◌else◌, sym, ◌∙◌, refl}
use hex_agent.Value.{get, get-set, null, bool, num, str, arr, obj}
use hex_agent.Discipline.Condense.{condense}
use hex_agent.Base.{ap, Bool, Option, none}
use hex_agent.Value.{truthy}
use hex_agent.Middleware.{meta_retryable}
use hex_agent.Middleware.{
  Condenser, condensable, condensed_env, data_changed, condensed_attempt, condense_result,
  is_model_call, on_world,
}
use hex_agent.Middleware.{
  BudgetPort, call_again, policy_gate, budget_guard, retry, retry_loop, timing_log, timed_attempt,
}

-- The handlers of middleware/ that can stand around a call.
pub data Layer (W : Type 0) : Type 0 where
  gate : List String → (ToolRequest → W → W) → Layer W
  guard : BudgetPort W → (String → Fields → String) → (ToolRequest → W → W) → Layer W
  again : String → ℕ → Layer W
  timed : (ToolRequest → Value → W → W) → Layer W
  condensing : Condenser → (ToolRequest → W → W) → Layer W

-- An exception is never tried again.
pub raised_is_final {ℓ} : {A : Type ℓ} (text : String) → call_again (raised text) ≡ some true → A
unfolding call_again
raised_is_final text c = cc

-- Condensing changes no field but the data.
pub get-condensed_env :
    (c : Condenser) (env : Fields) (k : String)
    → k == "data" ≡ false
    → get k (condensed_env c env) ≡ get k env
unfolding condensed_env
get-condensed_env c env k other = elim (Option-cases (condensable (get "data" env))) [
  | inl e ↦ rw (condensed_env, e) refl
  | inr (v, e) ↦
      rw (condensed_env, e, get-set k "data" (condense c.max_chars c.max_list v) env, other) refl
]

call_again-condensed_env :
    (c : Condenser) (env : Fields)
    → call_again (returned (obj (condensed_env c env))) ≡ call_again (returned (obj env))
unfolding call_again String-discrete
call_again-condensed_env c env =
    ap (λ o. again_by o (get "metadata" (condensed_env c env))) (get-condensed_env c env "ok" refl)
    ∙ ap (λ m. again_by (get "ok" env) m) (get-condensed_env c env "metadata" refl)
  where
    again_by : Option Value → Option Value → Option Bool
    again_by o m =
        if truthy (elim o [ none ↦ null | some v ↦ v ])
        then some false
        else meta_retryable (elim m [ none ↦ null | some v ↦ v ])

module _ {W : Type 0} where
  abbrev pub layer : Layer W → Middleware W
  layer (gate deny on_block) = policy_gate deny on_block
  layer (guard port key on_block) = budget_guard port key on_block
  layer (again attribute attempts) = retry attribute attempts
  layer (timed sink) = timing_log sink
  layer (condensing c on_condense) = condense_result c on_condense

  -- The callbacks of the layer do not raise the measure.
  abbrev pub Quiet : (W → ℕ) → Layer W → Type 0
  Quiet f (gate deny on_block) = (q : ToolRequest) (w : W) → f (on_block q w) ≤ f w
  Quiet f (guard port key on_block) =
      ((b : Budget) (w : W) → f (port.write b w) ≤ f w)
      × ((q : ToolRequest) (w : W) → f (on_block q w) ≤ f w)
  Quiet f (again attribute attempts) = Unit
  Quiet f (timed sink) = (q : ToolRequest) (v : Value) (w : W) → f (sink q v w) ≤ f w
  Quiet f (condensing c on_condense) = (q : ToolRequest) (w : W) → f (on_condense q w) ≤ f w

  -- What a call leaves: the measure has grown by one at most, and not at all if Retry would call
  -- once more.
  abbrev pub Once : (W → ℕ) → KernelRun W → Attempt × KernelRun W → Type 0
  Once f r p =
      (f p.1.world ≤ f r.world + 1) × (call_again p.0 ≡ some true → f p.1.world ≤ f r.world)

  -- What the next call leaves, once the last one is to be repeated.
  Once-repeated :
      (f : W → ℕ) (r : KernelRun W) (p next : Attempt × KernelRun W)
      → call_again p.0 ≡ some true
      → Once f r p
      → Once f p.1 next
      → Once f r next
  Once-repeated f r p next e h once =
      let same = h.1 e in
      (omega (arith, once.0, same), λ c. let down = once.1 c in omega (arith, down, same))

  Once-below :
      (f : W → ℕ) (r r₁ : KernelRun W) (p : Attempt × KernelRun W)
      → f r₁.world ≤ f r.world
      → Once f r₁ p
      → Once f r p
  Once-below f r r₁ p down h =
      (omega (arith, down, h.0), λ e. let same = h.1 e in omega (arith, down, same))

  retry_loop-Once :
      (f : W → ℕ) (attribute : String) (n : ℕ) (nxt : Handler W) (q : ToolRequest)
      → ((r : KernelRun W) → Once f r (nxt q r))
      → (r : KernelRun W) (p : Attempt × KernelRun W) → Once f r p
      → Once f r (retry_loop attribute n nxt q p)
  unfolding retry_loop
  retry_loop-Once f attribute zero nxt q h r (env, r') p = p
  retry_loop-Once f attribute (suc n) nxt q h r (env, r') p = elim (Option-cases (call_again env)) [
    | inl e ↦ rw (retry_loop, e) (p.0, raised_is_final attribute)
    | inr (b, e) ↦ elim (Bool-cases b) [
      | inl t ↦
          rw (retry_loop, e, t)
            (retry_loop-Once f attribute n nxt q h r (nxt q r')
              (Once-repeated f r (env, r') (nxt q r') (rw t at e) p (h r')))
      | inr t ↦ rw (retry_loop, e, t) p
    ]
  ]

  timing-Once :
      (f : W → ℕ) (sink : ToolRequest → Value → W → W)
      → ((q : ToolRequest) (v : Value) (w : W) → f (sink q v w) ≤ f w)
      → (q : ToolRequest) (r : KernelRun W) (nxt : Handler W) → Once f r (nxt q r)
      → Once f r (timing_log sink nxt q r)
  unfolding timing_log
  timing-Once f sink quiet q r nxt h = timed_cases (nxt q r) h
    where
      timed_cases : (p : Attempt × KernelRun W) → Once f r p → Once f r (timed_attempt sink q p)
      timed_cases (returned env, r') h =
          let down = quiet q env r'.world in
          (omega (arith, down, h.0), λ e. let same = h.1 e in omega (arith, down, same))
      timed_cases (raised text, r') h = h

  condensed-Once :
      (f : W → ℕ) (c : Condenser) (on_condense : ToolRequest → W → W)
      → ((q : ToolRequest) (w : W) → f (on_condense q w) ≤ f w)
      → (q : ToolRequest) (r : KernelRun W) (p : Attempt × KernelRun W) → Once f r p
      → Once f r (condensed_attempt c on_condense q p)
  condensed-Once f c on_condense quiet q r (returned (obj env), r') h =
      let down : f (if data_changed c env then on_world (on_condense q) r' else r').world
          ≤ f r'.world =
        if_rule (λ (x : KernelRun W). f x.world ≤ f r'.world) (data_changed c env) _ _
          (λ _. quiet q r'.world) (λ _. omega arith) in
      (
        omega (arith, down, h.0),
        λ e. let same = h.1 (sym (call_again-condensed_env c env) ∙ e) in omega (arith, down, same),
      )
  condensed-Once f c on_condense quiet q r (returned null, r') h = h
  condensed-Once f c on_condense quiet q r (returned (bool b), r') h = h
  condensed-Once f c on_condense quiet q r (returned (num n), r') h = h
  condensed-Once f c on_condense quiet q r (returned (str s), r') h = h
  condensed-Once f c on_condense quiet q r (returned (arr xs), r') h = h
  condensed-Once f c on_condense quiet q r (raised text, r') h = h

  layer-Once :
      (f : W → ℕ) (l : Layer W)
      → Quiet f l
      → (q : ToolRequest) (nxt : Handler W) → ((r : KernelRun W) → Once f r (nxt q r))
      → (r : KernelRun W) → Once f r (layer l nxt q r)
  unfolding policy_gate budget_guard retry condense_result
  layer-Once f (gate deny on_block) quiet q nxt h r = elim (Bool-cases (contains deny q.name)) [
    | inl e ↦ let down = quiet q r.world in rw (policy_gate, e) (omega (arith, down), λ c. down)
    | inr e ↦ rw (policy_gate, e) (h r)
  ]
  layer-Once f (guard port key on_block) quiet q nxt h r =
      let k = key q.name q.args in
      let b = record_tool_call k (port.read r.world) in
      let w = port.write b r.world in
      let r₁ : KernelRun W = record r { world = w } in
      let down = quiet.0 b r.world in
      elim (Bool-cases (same_tool_exceeded k b)) [
        | inl e ↦
            let down₁ = quiet.1 q w in
            rw (budget_guard, e) (omega (arith, down, down₁), λ c. omega (arith, down, down₁))
        | inr e ↦ rw (budget_guard, e) (Once-below f r r₁ (nxt q r₁) down (h r₁))
      ]
  layer-Once f (again attribute attempts) quiet q nxt h r =
      retry_loop-Once f attribute (attempts - 1) nxt q h r (nxt q r) (h r)
  layer-Once f (timed sink) quiet q nxt h r = timing-Once f sink quiet q r nxt (h r)
  layer-Once f (condensing c on_condense) quiet q nxt h r = elim (Bool-cases (is_model_call q)) [
    | inl e ↦ rw (condense_result, e) (h r)
    | inr e ↦ rw (condense_result, e) (condensed-Once f c on_condense quiet q r (nxt q r) (h r))
  ]

  pub wrap_all-Once :
      (f : W → ℕ) (ls : List (Layer W))
      → All (Quiet f) ls
      → (q : ToolRequest) (inner : Handler W) → ((r : KernelRun W) → Once f r (inner q r))
      → (r : KernelRun W) → Once f r (wrap_all (map layer ls) inner q r)
  unfolding wrap_all
  wrap_all-Once f [] quiet q inner h r = h r
  wrap_all-Once f (l ∷ ls) quiet q inner h r =
      layer-Once f l quiet.0 q (wrap_all (map layer ls) inner)
        (wrap_all-Once f ls quiet.1 q inner h) r
