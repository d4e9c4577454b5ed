-- ===== src/Middleware/Chain.antt =====
-- core/kernel.py with middleware/: what a call of the kernel leaves, whatever handlers stand around
-- the tool.
use hex_agent.Base.{
  ℕ, zero, suc, ◌-◌, ◌≡◌, refl, String, Bool, true, false, Option, List, [], ◌∷◌, ◌++◌,
  String-discrete, Bool-cases, Option-cases, inl, inr, contains, map,
}
use hex_agent.Base.Result.{Result, ok, err}
use hex_agent.Value.{Value, null, bool, str, arr, obj, num, Fields, end, get_or, truthy, set}
use hex_agent.Discipline.{record_tool_call, same_tool_exceeded}
use hex_agent.Core.Envelope.{
  ToolRequest, ToolCallContext, CapabilityResult, result_as_dict, set_default,
}
use hex_agent.Core.Registry.{Attempt, returned, raised}
use hex_agent.Core.Kernel.{
  KernelRun, Handler, Runtime, AgentKernel, core_handler, lineage_of, wrap_all, enveloped,
  execute_tool, in_scope, publish, close_call, with_lineage, envelope_of, requested_event,
  outcome_event, completed_or_failed, refusal, outside_scope, set_defaults,
}
use hex_agent.Base.{ap, ◌∙◌, none, some}
use hex_agent.Middleware.{Condenser, condensed_attempt, condense_result, is_model_call}
use hex_agent.Middleware.Retry.{condensing, get-condensed_env}
use hex_agent.Middleware.{
  call_again, policy_gate, budget_guard, retry, retry_loop, timing_log, guard_envelope,
  timed_attempt,
}
use hex_agent.Middleware.Retry.{Layer, gate, guard, again, timed, layer}

abbrev is_mapping : Value → Bool
is_mapping (obj d) = true
is_mapping _ = false

-- The metadata of an envelope, if there are any, are a mapping.
abbrev sound : Attempt → Bool
sound (returned (obj d)) = is_mapping (get_or "metadata" (obj end) d)
sound _ = true

enveloped-sound : (t : Runtime) (m : Result CapabilityResult) → sound (enveloped t m) ≡ true
unfolding result_as_dict String-discrete
enveloped-sound t (ok r) = refl
enveloped-sound t (err x) = refl

module _ {W : Type 0} where
  timed-sound :
      (sink : ToolRequest → Value → W → W) (q : ToolRequest) (p : Attempt × KernelRun W)
      → sound p.0 ≡ true
      → sound (timed_attempt sink q p).0 ≡ true
  timed-sound sink q (returned v, r) e = e
  timed-sound sink q (raised text, r) e = e

  condensed-sound :
      (c : Condenser) (on_condense : ToolRequest → W → W) (q : ToolRequest)
      (p : Attempt × KernelRun W)
      → sound p.0 ≡ true
      → sound (condensed_attempt c on_condense q p).0 ≡ true
  unfolding String-discrete
  condensed-sound c on_condense q (returned (obj env), r) e =
      ap (λ m. is_mapping (elim m [ none ↦ obj end | some v ↦ v ]))
        (get-condensed_env c env "metadata" refl)
      ∙ e
  condensed-sound c on_condense q (returned null, r) e = refl
  condensed-sound c on_condense q (returned (bool b), r) e = refl
  condensed-sound c on_condense q (returned (num n), r) e = refl
  condensed-sound c on_condense q (returned (str s), r) e = refl
  condensed-sound c on_condense q (returned (arr xs), r) e = refl
  condensed-sound c on_condense q (raised text, r) e = refl

  retry_loop-sound :
      (attribute : String) (n : ℕ) (nxt : Handler W) (q : ToolRequest)
      → ((r : KernelRun W) → sound (nxt q r).0 ≡ true)
      → (p : Attempt × KernelRun W) → sound p.0 ≡ true
      → sound (retry_loop attribute n nxt q p).0 ≡ true
  unfolding retry_loop
  retry_loop-sound attribute zero nxt q h (env, r) e = e
  retry_loop-sound attribute (suc n) nxt q h (env, r) e =
      let rest = retry_loop-sound attribute n nxt q h (nxt q r) (h r) in
      elim (Option-cases (call_again env)) [
        | inl c ↦ rw (retry_loop, c) refl
        | inr (b, c) ↦ elim (Bool-cases b) [
          | inl t ↦ rw (retry_loop, c, t) rest
          | inr t ↦ rw (retry_loop, c, t) e
        ]
      ]

  layer-sound :
      (l : Layer W) (q : ToolRequest) (nxt : Handler W)
      → ((r : KernelRun W) → sound (nxt q r).0 ≡ true)
      → (r : KernelRun W) → sound (layer l nxt q r).0 ≡ true
  unfolding policy_gate budget_guard retry guard_envelope timing_log condense_result String-discrete
  layer-sound (gate deny on_block) q nxt h r = elim (Bool-cases (contains deny q.name)) [
    | inl e ↦ rw (policy_gate, e) refl
    | inr e ↦ rw (policy_gate, e) (h r)
  ]
  layer-sound (guard port key on_block) q nxt h r =
      let k = key q.name q.args in
      let b = record_tool_call k (port.read r.world) in
      elim (Bool-cases (same_tool_exceeded k b)) [
        | inl e ↦ rw (budget_guard, e) refl
        | inr e ↦ rw (budget_guard, e) (h (record r { world = port.write b r.world }))
      ]
  layer-sound (again attribute attempts) q nxt h r =
      retry_loop-sound attribute (attempts - 1) nxt q h (nxt q r) (h r)
  layer-sound (timed sink) q nxt h r = timed-sound sink q (nxt q r) (h r)
  layer-sound (condensing c on_condense) q nxt h r = elim (Bool-cases (is_model_call q)) [
    | inl e ↦ rw (condense_result, e) (h r)
    | inr e ↦ rw (condense_result, e) (condensed-sound c on_condense q (nxt q r) (h r))
  ]

  wrap_all-sound :
      (ls : List (Layer W)) (q : ToolRequest) (inner : Handler W)
      → ((r : KernelRun W) → sound (inner q r).0 ≡ true)
      → (r : KernelRun W) → sound (wrap_all (map layer ls) inner q r).0 ≡ true
  unfolding wrap_all
  wrap_all-sound [] q inner h r = h r
  wrap_all-sound (l ∷ ls) q inner h r =
      layer-sound l q (wrap_all (map layer ls) inner) (wrap_all-sound ls q inner h) r

  -- The call returns an envelope, and the last event is the one that this envelope calls for.
  abbrev pub Closes : ToolRequest → Result Fields × KernelRun W → Type 0
  Closes q p =
      (envelope : Fields) × (earlier : List (String × Fields)) × (p.0 ≡ ok envelope)
      × (p.1.published
          ≡ earlier
            ++ (
              completed_or_failed envelope,
              outcome_event q (bool (truthy (get_or "ok" null envelope)))
                  (get_or "error" null envelope),
            )
              ∷ [])

  close_call-Closes :
      (q : ToolRequest) (m : Result Fields) (d : Fields) (r : KernelRun W)
      → m ≡ ok d
      → Closes q (close_call q m r)
  unfolding close_call publish
  close_call-Closes q (ok d) e r h = (d, r.published, refl, refl)
  close_call-Closes q (err x) e r h = cc

mapping_of : (v : Value) → is_mapping v ≡ true → (d : Fields) × (v ≡ obj d)
mapping_of (obj d) e = (d, refl)
mapping_of null e = cc
mapping_of (bool b) e = cc
mapping_of (num n) e = cc
mapping_of (str x) e = cc
mapping_of (arr xs) e = cc

envelope_of-sound :
    (t : Runtime) (q : ToolRequest) (a : Attempt)
    → sound a ≡ true
    → is_mapping (get_or "metadata" (obj end) (envelope_of t q a)) ≡ true
unfolding envelope_of refusal result_as_dict String-discrete
envelope_of-sound t q (returned (obj d)) e = e
envelope_of-sound t q (returned null) e = refl
envelope_of-sound t q (returned (bool b)) e = refl
envelope_of-sound t q (returned (num n)) e = refl
envelope_of-sound t q (returned (str x)) e = refl
envelope_of-sound t q (returned (arr xs)) e = refl
envelope_of-sound t q (raised text) e = refl

with_lineage_sound :
    (q : ToolRequest) (d : Fields)
    → is_mapping (get_or "metadata" (obj end) d) ≡ true
    → (envelope : Fields) × (with_lineage q d ≡ ok envelope)
unfolding with_lineage
with_lineage_sound q d e =
    let (meta, m) = mapping_of (get_or "metadata" (obj end) d) e in
    (
      set "metadata"
          (obj (
            set_default "request_id" (str q.request_id) (set_defaults (lineage_of q.context) meta)))
          d,
      rw (with_lineage, m) refl,
    )

-- With any gates, budget guards, retries, timing logs and condensers around it, in whatever order,
-- and whatever the tool does, a call of the kernel returns an envelope and never raises; the last
-- event that it publishes is tool.completed if the envelope is ok and tool.failed if it is not, with
-- the envelope's error.
pub execute_tool-Closes :
    {W : Type 0} (t : Runtime) (k : AgentKernel W) (ls : List (Layer W)) (name : String)
    (args : Fields) (context : Option ToolCallContext) (request_id : String) (r : KernelRun W)
    → k.middlewares ≡ map layer ls
    → Closes
        (record { name = name; args = args; context = context; request_id = request_id })
        (execute_tool t k name args context request_id r)
unfolding execute_tool refusal result_as_dict publish String-discrete
execute_tool-Closes {W = W} t k ls name args context request_id r stack =
    elim (Bool-cases (in_scope context name)) [
      | inl i ↦
          let (d, e) = with_lineage_sound q (envelope_of t q passed.0) (
            envelope_of-sound t q passed.0
              (wrap_all-sound ls q inner (λ s. enveloped-sound t _) r₁)) in
          rw (execute_tool, i, stack) (close_call-Closes q _ d passed.1 e)
      | inr i ↦ rw (execute_tool, i) (result_as_dict (outside_scope q), r₁.published, refl, refl)
    ]
  where
    q : ToolRequest
    q = record { name = name; args = args; context = context; request_id = request_id }

    r₁ : KernelRun W
    r₁ = publish "tool.requested" (requested_event q) r

    inner : Handler W
    inner = core_handler t k.registry (lineage_of context)

    passed : Attempt × KernelRun W
    passed = wrap_all (map layer ls) inner q r₁
