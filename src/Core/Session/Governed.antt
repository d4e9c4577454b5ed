-- ===== src/Core/Session/Governed.antt =====
-- core/session.py over core/kernel.py and core/registry.py: what holds of the kernel and its
-- sessions after any operations.
use hex_agent.Base.{
  ◌≡◌, refl, sym, ap, subst, String, true, Option, none, some, List, [], ◌∷◌, ◌++◌, All, Bool-cases,
  inl, inr,
}
use hex_agent.Base.Lists.{All-append, All-member, All-replaced}
use hex_agent.Base.Dict.{Dict}
use hex_agent.Base.Result.{ok, ok_inj, err-absurd, >>=-eq-ok}
use hex_agent.Core.Schemas.{is_subset}
use hex_agent.Core.Registry.{
  register_feature, register_tool, set_fallback, freeze_registry, list_tools,
}
use hex_agent.Core.Kernel.{Runtime, KernelRun, AgentKernel, freeze_kernel}
use hex_agent.Core.Identity.{
  KernelSession, SessionIdentity, Stored, RootRequest, ChildRequest, Drawn, set_state,
  child_session, child_scope, root_session,
}
use hex_agent.Core.Session.{create_root, restore, tool_names, effective_root_scope, accepted}
use hex_agent.Core.Session.Scope.{
  create_child-child, complete_task-completed, subset_refl, subset_trans,
}
use hex_agent.Core.Session.System.{
  System, Step, Reach, Registered, IsGoverned, feature_registered, tool_registered, fallback_set,
  middleware_used, frozen, root_created, child_created, tool_called, task_completed, state_set,
  restored, here, next,
}
use hex_agent.Core.Session.Frozen.{
  in_use, registry-IsGoverned, middleware-IsGoverned, frozen-IsGoverned,
}

module _ {W : Type 0} where
  -- One session more, whose scope is of registered tools.
  added-Registered :
      (k : AgentKernel W) (xs : List KernelSession) (x : KernelSession)
      → All (Registered k) xs
      → Registered k x
      → All (Registered k) (xs ++ x ∷ [])
  added-Registered k xs x h e = All-append (Registered k) xs (x ∷ []) h (e, tt)

  -- A session is replaced by one with the same scope.
  replaced-IsGoverned :
      (s : System W) (r : KernelRun W) (before after : List KernelSession) (x y : KernelSession)
      → s.sessions ≡ before ++ x ∷ after
      → y.allowed_capabilities ≡ x.allowed_capabilities
      → IsGoverned s
      → IsGoverned (record s { run = r; sessions = before ++ y ∷ after })
  replaced-IsGoverned s r before after x y at_x same g =
      let h = subst (All (Registered s.kernel)) at_x g.scopes in
      let e = All-member (Registered s.kernel) before after x h in
      record {
        registry_too = g.registry_too;
        once_used = inr (in_use s before after x at_x g);
        scopes =
            All-replaced (Registered s.kernel) before after x y h
              (subst (λ a. is_subset a (tool_names s.kernel) ≡ true) (sym same) e);
      }

  child-IsGoverned :
      (s : System W) (r : KernelRun W) (before after : List KernelSession) (p : KernelSession)
      (q : ChildRequest) (drawn : Drawn)
      → s.sessions ≡ before ++ p ∷ after
      → is_subset (child_scope p q.requested_scope) p.allowed_capabilities ≡ true
      → IsGoverned s
      → IsGoverned (record s {
        run = r;
        sessions = s.sessions ++ child_session p q drawn (child_scope p q.requested_scope) ∷ [];
      })
  unfolding child_session
  child-IsGoverned s r before after p q drawn at_p i g =
      let scope = child_scope p q.requested_scope in
      let e =
        All-member (Registered s.kernel) before after p
          (subst (All (Registered s.kernel)) at_p g.scopes) in
      record {
        registry_too = g.registry_too;
        once_used = inr (in_use s before after p at_p g);
        scopes =
            added-Registered s.kernel s.sessions (child_session p q drawn scope) g.scopes
              (subset_trans scope p.allowed_capabilities (tool_names s.kernel) i e);
      }

  effective_root_scope-subset :
      (k : AgentKernel W) (asked : Option (List String)) {scope : List String}
      → effective_root_scope k asked ≡ ok scope
      → is_subset scope (tool_names k) ≡ true
  unfolding effective_root_scope
  effective_root_scope-subset k none e =
      subst (λ a. is_subset a (tool_names k) ≡ true) (ok_inj e) (subset_refl (tool_names k))
  effective_root_scope-subset k (some a) e = elim (Bool-cases (is_subset a (tool_names k))) [
    | inl i ↦
        subst (λ a. is_subset a (tool_names k) ≡ true) (ok_inj (rw (effective_root_scope, i) at e))
          i
    | inr i ↦ err-absurd (rw (effective_root_scope, i) at e)
  ]

  root-IsGoverned :
      (s : System W) (q : RootRequest) (drawn : Drawn) {x : KernelSession} {k : AgentKernel W}
      {r : KernelRun W}
      → create_root q drawn s.kernel s.run ≡ ok (x, k, r)
      → IsGoverned s
      → IsGoverned (record { kernel = k; run = r; sessions = s.sessions ++ x ∷ [] })
  unfolding create_root root_session
  root-IsGoverned s q drawn e g =
      let (scope, h, rest) = >>=-eq-ok (effective_root_scope s.kernel q.allowed_capabilities) _ e in
      let x = root_session q drawn scope in
      subst
        (λ z. IsGoverned (record { kernel = z.1; run = z.2; sessions = s.sessions ++ z.0 ∷ [] }))
        (ok_inj rest)
        (frozen-IsGoverned s (accepted x s.run) (s.sessions ++ x ∷ []) g (
          added-Registered s.kernel s.sessions x g.scopes
            (effective_root_scope-subset s.kernel q.allowed_capabilities h)))

  tool_names-freeze_kernel : (k : AgentKernel W) → tool_names (freeze_kernel k) ≡ tool_names k
  unfolding freeze_kernel freeze_registry list_tools
  tool_names-freeze_kernel k = elim (Bool-cases k.frozen) [
    | inl f ↦ rw (freeze_kernel, f) refl
    | inr f ↦ rw (freeze_kernel, f) refl
  ]

  restored-IsGoverned :
      (s : System W) (i : SessionIdentity) (state : Dict Stored) (scope : List String)
      {x : KernelSession}
      → (restore i state scope s.kernel).0 ≡ ok x
      → IsGoverned s
      → IsGoverned (record s {
        kernel = (restore i state scope s.kernel).1;
        sessions = s.sessions ++ x ∷ [];
      })
  unfolding restore
  restored-IsGoverned s i state scope e g =
      elim (Bool-cases (is_subset scope (tool_names (freeze_kernel s.kernel)))) [
        | inl h ↦
            subst
              (λ x.
                IsGoverned
                  (record s { kernel = freeze_kernel s.kernel; sessions = s.sessions ++ x ∷ [] }))
              (ok_inj (rw (restore, h) at e))
              (frozen-IsGoverned s s.run _ g (
                added-Registered s.kernel s.sessions _ g.scopes
                  (subst (λ a. is_subset scope a ≡ true) (tool_names-freeze_kernel s.kernel) h)))
        | inr h ↦ err-absurd (rw (restore, h) at e)
      ]

  Step-IsGoverned : {t : Runtime} {s u : System W} → Step t s u → IsGoverned s → IsGoverned u
  unfolding register_feature register_tool set_fallback set_state
  Step-IsGoverned {s = s} (feature_registered d e) g = registry-IsGoverned s _ g e
  Step-IsGoverned {s = s} (tool_registered name x f d e) g = registry-IsGoverned s _ g e
  Step-IsGoverned {s = s} (fallback_set x f e) g = registry-IsGoverned s _ g e
  Step-IsGoverned {s = s} (middleware_used m e) g = middleware-IsGoverned s m g e
  Step-IsGoverned {s = s} frozen g = frozen-IsGoverned s s.run s.sessions g g.scopes
  Step-IsGoverned {s = s} (root_created q drawn e) g = root-IsGoverned s q drawn e g
  Step-IsGoverned {s = s} (child_created {r = r} q drawn before after p at_p e) g =
      let (i, same) = create_child-child q drawn p s.run e in
      subst (λ x. IsGoverned (record s { run = r; sessions = s.sessions ++ x ∷ [] })) (sym same)
        (child-IsGoverned s r before after p q drawn at_p i g)
  Step-IsGoverned (tool_called x name args request_id) g = record {
    registry_too = g.registry_too;
    once_used = g.once_used;
    scopes = g.scopes;
  }
  Step-IsGoverned {s = s} (task_completed {y = y} {r = r} v status before after x at_x e) g =
      replaced-IsGoverned s r before after x y at_x
        (ap (λ z. z.allowed_capabilities) (complete_task-completed v status x s.run e).1) g
  Step-IsGoverned {s = s} (state_set key v before after x at_x) g =
      replaced-IsGoverned s s.run before after x (set_state key v x) at_x refl g
  Step-IsGoverned {s = s} (restored i state scope e) g = restored-IsGoverned s i state scope e g

  -- Whatever is registered, mounted, created, called, completed, written or restored, in any order,
  -- from a kernel that is not frozen and has no sessions (or any other state that is governed): once
  -- there is a session the kernel and its registry are frozen, and the scope of every session is of
  -- tools that the registry has.
  pub Reach-IsGoverned : {t : Runtime} {s u : System W} → IsGoverned s → Reach t s u → IsGoverned u
  Reach-IsGoverned g here = g
  Reach-IsGoverned g (next path step) = Step-IsGoverned step (Reach-IsGoverned g path)
