-- ===== src/Core/Session/Scope.antt =====
-- core/session.py: the scopes of the sessions that descend from one session, and what their calls can
-- reach.
use hex_agent.Base.{
  ◌≤◌, ◌≡◌, refl, sym, ap, subst, String, true, false, List, [], ◌∷◌, arith, contains, Bool-cases,
  inl, inr,
}
use hex_agent.Base.Result.{ok, ok_inj, err-absurd}
use hex_agent.Value.{Value, Fields}
use hex_agent.Core.Schemas.{is_subset}
use hex_agent.Core.Kernel.{Runtime, KernelRun, AgentKernel, in_scope, publish, execute_tool}
use hex_agent.Core.Identity.{
  KernelSession, Stored, ChildRequest, Drawn, is_active, call_context, set_state, child_session,
  child_scope, completed_session, task_outcome,
}
use hex_agent.Core.Session.{session_execute, complete_task, create_child}

subset-contains :
    (a b : List String) (x : String)
    → is_subset a b ≡ true
    → contains a x ≡ true
    → contains b x ≡ true
subset-contains [] b x s h = cc
subset-contains (y ∷ a) b x s h = ground (arith, subset-contains a b x)

pub subset_not-contains :
    (a b : List String) (x : String)
    → is_subset a b ≡ true
    → contains b x ≡ false
    → contains a x ≡ false
subset_not-contains a b x s h = elim (Bool-cases (contains a x)) [
  | inl e ↦ ground (arith, subset-contains a b x s e)
  | inr e ↦ e
]

subset_of :
    (a b : List String)
    → ((x : String) → contains a x ≡ true → contains b x ≡ true)
    → is_subset a b ≡ true
subset_of [] b f = refl
subset_of (x ∷ a) b f = ground (arith, f x, subset_of a b (λ y h. f y (ground arith)))

pub subset_refl : (a : List String) → is_subset a a ≡ true
subset_refl a = subset_of a a (λ x h. h)

pub subset_trans :
    (a b c : List String) → is_subset a b ≡ true → is_subset b c ≡ true → is_subset a c ≡ true
subset_trans a b c h k = subset_of a c (λ x e. subset-contains b c x k (subset-contains a b x h e))

-- A session is made from another by any number of delegations, with what happens to a session in
-- between.
pub data Descends (W : Type 0) (root : KernelSession) : KernelSession → Type 0 where
  itself : Descends W root root
  child :
      {p s : KernelSession} {r' : KernelRun W} (q : ChildRequest) (drawn : Drawn) (r : KernelRun W)
      → Descends W root p
      → create_child q drawn p r ≡ ok (s, r')
      → Descends W root s
  completed :
      {p s : KernelSession} {d : Fields} {r' : KernelRun W} (v : Value) (status : String)
      (r : KernelRun W)
      → Descends W root p
      → complete_task v status p r ≡ ok (d, s, r')
      → Descends W root s
  noted :
      {p : KernelSession} (key : String) (v : Stored)
      → Descends W root p
      → Descends W root (set_state key v p)

-- What a session keeps of one that it descends from.
pub record IsUnder (root s : KernelSession) : Type 0 where
  pub scope : is_subset s.allowed_capabilities root.allowed_capabilities ≡ true
  pub depth : root.identity.depth ≤ s.identity.depth
  pub run_id : s.identity.run_id ≡ root.identity.run_id

IsUnder-completed :
    (root p : KernelSession) (d : Fields) → IsUnder root p → IsUnder root (completed_session d p)
unfolding set_state
IsUnder-completed root p d u = record { scope = u.scope; depth = u.depth; run_id = u.run_id }

IsUnder-child :
    (root p : KernelSession) (q : ChildRequest) (drawn : Drawn) (scope : List String)
    → IsUnder root p
    → is_subset scope p.allowed_capabilities ≡ true
    → IsUnder root (child_session p q drawn scope)
unfolding child_session
IsUnder-child root p q drawn scope u i = record {
  scope = subset_trans scope p.allowed_capabilities root.allowed_capabilities i u.scope;
  depth = omega (arith, u.depth);
  run_id = u.run_id;
}

module _ {W : Type 0} where
  -- The child of a session that may have one.
  pub create_child-child :
      (q : ChildRequest) (drawn : Drawn) (p : KernelSession) (r : KernelRun W) {s : KernelSession}
      {r' : KernelRun W}
      → create_child q drawn p r ≡ ok (s, r')
      → (is_subset (child_scope p q.requested_scope) p.allowed_capabilities ≡ true)
        × (s ≡ child_session p q drawn (child_scope p q.requested_scope))
  unfolding create_child
  create_child-child q drawn p r e = elim (Bool-cases (is_active p)) [
    | inl a ↦
        elim (Bool-cases (is_subset (child_scope p q.requested_scope) p.allowed_capabilities)) [
          | inl i ↦
              let same = ok_inj (rw (create_child, a, i) at e) in (i, sym (ap (λ x. x.0) same))
          | inr i ↦ err-absurd (rw (create_child, a, i) at e)
        ]
    | inr a ↦ err-absurd (rw (create_child, a) at e)
  ]

  pub complete_task-completed :
      (v : Value) (status : String) (p : KernelSession) (r : KernelRun W) {d : Fields}
      {s : KernelSession} {r' : KernelRun W}
      → complete_task v status p r ≡ ok (d, s, r')
      → (is_active p ≡ true) × (s ≡ completed_session (task_outcome p v status) p)
  unfolding complete_task
  complete_task-completed v status p r e = elim (Bool-cases (is_active p)) [
    | inl a ↦ (a, sym (ap (λ x. x.1) (ok_inj (rw (complete_task, a) at e))))
    | inr a ↦ err-absurd (rw (complete_task, a) at e)
  ]

  Descends-IsUnder : {root s : KernelSession} → Descends W root s → IsUnder root s
  unfolding set_state
  Descends-IsUnder {root = root} itself = record {
    scope = subset_refl root.allowed_capabilities;
    depth = omega arith;
    run_id = refl;
  }
  Descends-IsUnder {root = root} (child {p = p} q drawn r d e) =
      let (i, same) = create_child-child q drawn p r e in
      subst (IsUnder root) (sym same)
        (IsUnder-child root p q drawn (child_scope p q.requested_scope) (Descends-IsUnder d) i)
  Descends-IsUnder {root = root} (completed {p = p} v status r d e) =
      subst (IsUnder root) (sym (complete_task-completed v status p r e).1)
        (IsUnder-completed root p (task_outcome p v status) (Descends-IsUnder d))
  Descends-IsUnder (noted key v d) =
      let u = Descends-IsUnder d in record { scope = u.scope; depth = u.depth; run_id = u.run_id }

  pub session_execute-outside :
      (t : Runtime) (k : AgentKernel W) (s : KernelSession) (name : String) (args : Fields)
      (request_id : String) (r : KernelRun W)
      → contains s.allowed_capabilities name ≡ false
      → (session_execute t k s name args request_id r).1.world ≡ r.world
  unfolding session_execute execute_tool in_scope call_context publish
  session_execute-outside t k s name args request_id r e = elim (Bool-cases (is_active s)) [
    | inl a ↦ rw (session_execute, a, execute_tool, e) refl
    | inr a ↦ rw (session_execute, a) refl
  ]

-- Authority does not grow on the way down: a session that descends from a root session by any
-- number of delegations has a scope within the root's, the root's run and no smaller depth; and a
-- call by it of a tool outside the root's scope leaves the world as it is, whatever is registered.
pub descendant_confined :
    {W : Type 0} (t : Runtime) (k : AgentKernel W) (root s : KernelSession) (name : String)
    (args : Fields) (request_id : String) (r : KernelRun W)
    → Descends W root s
    → contains root.allowed_capabilities name ≡ false
    → IsUnder root s × ((session_execute t k s name args request_id r).1.world ≡ r.world)
descendant_confined t k root s name args request_id r d e =
    let u = Descends-IsUnder d in
    (
      u,
      session_execute-outside t k s name args request_id r
          (subset_not-contains s.allowed_capabilities root.allowed_capabilities name u.scope e),
    )
