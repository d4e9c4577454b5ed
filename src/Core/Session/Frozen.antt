-- ===== src/Core/Session/Frozen.antt =====
-- core/session.py over core/kernel.py and core/registry.py: changes of the kernel before it is
-- frozen, and freezing it.
use hex_agent.Base.{
  ◌≡◌, refl, sym, subst, ◌∙◌, true, false, List, [], ◌∷◌, ◌++◌, All, Bool-cases, inl, inr,
}
use hex_agent.Base.Result.{ok, ok_inj, err-absurd}
use hex_agent.Core.Registry.{CapabilityRegistry, freeze_registry, if_mutable, list_tools}
use hex_agent.Core.Kernel.{KernelRun, AgentKernel, Middleware, freeze_kernel, use_middleware}
use hex_agent.Core.Identity.{KernelSession}
use hex_agent.Core.Session.System.{System, Registered, IsGoverned, with_registry}

module _ {W : Type 0} where
  -- A session there means that the kernel is frozen.
  pub in_use :
      (s : System W) (before after : List KernelSession) (x : KernelSession)
      → s.sessions ≡ before ++ x ∷ after
      → IsGoverned s
      → s.kernel.frozen ≡ true
  in_use s before after x at_x g = elim g.once_used [
    | inl empty ↦ some_session before (sym at_x ∙ empty)
    | inr used ↦ used
  ]
    where
      some_session : (xs : List KernelSession) → xs ++ x ∷ after ≡ [] → s.kernel.frozen ≡ true
      some_session [] e = cc
      some_session (y ∷ ys) e = cc

  -- Before the kernel is used, any change of it is allowed.
  pub unused-IsGoverned :
      (s : System W) (k : AgentKernel W)
      → IsGoverned s
      → s.kernel.frozen ≡ false
      → k.frozen ≡ false
      → IsGoverned (record s { kernel = k })
  unused-IsGoverned s k g e f =
      let empty : s.sessions ≡ [] = elim g.once_used [
        | inl none_yet ↦ none_yet
        | inr used ↦ absurd used
      ] in
      record {
        registry_too = λ used. frozen_twice used;
        once_used = inl empty;
        scopes = rw empty tt;
      }
    where
      absurd : s.kernel.frozen ≡ true → s.sessions ≡ []
      absurd used = cc

      frozen_twice : k.frozen ≡ true → k.registry.frozen ≡ true
      frozen_twice used = cc

  pub registry-IsGoverned :
      (s : System W) (changed : CapabilityRegistry (KernelRun W))
      {reg : CapabilityRegistry (KernelRun W)}
      → IsGoverned s
      → if_mutable s.kernel.registry changed ≡ ok reg
      → IsGoverned (with_registry reg s)
  registry-IsGoverned s changed {reg = reg} g e = elim (Bool-cases s.kernel.registry.frozen) [
    | inl f ↦ err-absurd (rw f at e)
    | inr f ↦ elim (Bool-cases s.kernel.frozen) [
      | inl used ↦ twice (g.registry_too used) f
      | inr u ↦ unused-IsGoverned s (record s.kernel { registry = reg }) g u u
    ]
  ]
    where
      twice :
          s.kernel.registry.frozen ≡ true
          → s.kernel.registry.frozen ≡ false
          → IsGoverned (with_registry reg s)
      twice a b = cc

  pub middleware-IsGoverned :
      (s : System W) (m : Middleware W) {k : AgentKernel W}
      → IsGoverned s
      → use_middleware m s.kernel ≡ ok k
      → IsGoverned (record s { kernel = k })
  unfolding use_middleware
  middleware-IsGoverned s m g e = elim (Bool-cases s.kernel.frozen) [
    | inl f ↦ err-absurd (rw (use_middleware, f) at e)
    | inr f ↦
        subst (λ k. IsGoverned (record s { kernel = k })) (ok_inj (rw (use_middleware, f) at e))
          (unused-IsGoverned s
            (record s.kernel { middlewares = s.kernel.middlewares ++ m ∷ []; frozen = false }) g f
            refl)
  ]

  -- Freezing the kernel keeps its tools.
  pub frozen-IsGoverned :
      (s : System W) (r : KernelRun W) (xs : List KernelSession)
      → IsGoverned s
      → All (Registered s.kernel) xs
      → IsGoverned (record { kernel = freeze_kernel s.kernel; run = r; sessions = xs })
  unfolding freeze_kernel freeze_registry list_tools
  frozen-IsGoverned s r xs g h = elim (Bool-cases s.kernel.frozen) [
    | inl f ↦
        rw (freeze_kernel, f)
          (record { registry_too = λ _. g.registry_too f; once_used = inr refl; scopes = h })
    | inr f ↦
        rw (freeze_kernel, f)
          (record { registry_too = λ _. refl; once_used = inr refl; scopes = h })
  ]
