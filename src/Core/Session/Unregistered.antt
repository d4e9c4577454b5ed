-- ===== src/Core/Session/Unregistered.antt =====
-- core/session.py: calls of names that the registry does not have.
use hex_agent.Base.{
  ◌≡◌, refl, subst, ◌∙◌, String, ◌==◌, true, false, ◌||◌, Option, none, List, [], ◌∷◌, ◌++◌, map,
  arith, contains, ap, is_some, All, inl,
}
use hex_agent.Base.Lists.{All-member}
use hex_agent.Base.Sorting.{sorted, insert_sorted}
use hex_agent.Base.Dict
use hex_agent.Base.Dict.{Dict}
use hex_agent.Value.{Fields}
use hex_agent.Core.Registry.{list_tools}
use hex_agent.Core.Kernel.{Runtime, KernelRun, AgentKernel}
use hex_agent.Core.Identity.{KernelSession}
use hex_agent.Core.Session.{session_execute, tool_names}
use hex_agent.Core.Session.Scope.{subset_not-contains, session_execute-outside}
use hex_agent.Core.Session.System.{System, Reach, Registered, IsGoverned}
use hex_agent.Core.Session.Governed.{Reach-IsGoverned}
use Prim.Native.String.{compare}
use Prim.Native.Nat.{Ordering}

contains-insert_sorted :
    (a : String) (xs : List String) (x : String)
    → contains (insert_sorted a xs) x ≡ (x == a || contains xs x)
contains-insert_sorted a [] x = refl
contains-insert_sorted a (b ∷ xs) x = by_order (compare a b) refl (contains-insert_sorted a xs x)
  where
    by_order :
        (o : Ordering)
        → compare a b ≡ o
        → contains (insert_sorted a xs) x ≡ (x == a || contains xs x)
        → contains (insert_sorted a (b ∷ xs)) x ≡ (x == a || contains (b ∷ xs) x)
    by_order Ordering.lt e rest = rw (insert_sorted, e) refl
    by_order Ordering.eq e rest = rw (insert_sorted, e) refl
    by_order Ordering.gt e rest = rw (insert_sorted, e) (ground (arith, rest))

pub contains-sorted : (xs : List String) (x : String) → contains (sorted xs) x ≡ contains xs x
unfolding sorted
contains-sorted [] x = refl
contains-sorted (a ∷ xs) x =
    ground (arith, contains-insert_sorted a (sorted xs) x, contains-sorted xs x)

contains-keys :
    {V : Type 0} (d : Dict V) (x : String) → contains (Dict.keys d) x ≡ is_some (Dict.lookup x d)
contains-keys [] x = refl
contains-keys ((k, v) ∷ d) x = ground (arith, contains-keys d x)

map-features :
    {V : Type 0} (d : Dict V) (xs : List String)
    → map {A = String × Option V} (λ item. item.0) (map (λ n. (n, Dict.lookup n d)) xs) ≡ xs
map-features d [] = refl
map-features d (x ∷ xs) = ap (λ ys. x ∷ ys) (map-features d xs)

contains-tool_names :
    {W : Type 0} (k : AgentKernel W) (x : String)
    → contains (tool_names k) x ≡ is_some (Dict.lookup x k.registry.tools)
unfolding list_tools
contains-tool_names k x =
    ap (λ xs. contains xs x)
      (map-features k.registry.tool_features (sorted (Dict.keys k.registry.tools)))
    ∙ contains-sorted (Dict.keys k.registry.tools) x
    ∙ contains-keys k.registry.tools x

-- The fallback executor is out of reach of sessions: in every state that is reached from an unfrozen
-- kernel without sessions, a call by any session of a name for which no tool is registered leaves
-- the world as it is.
pub unregistered_never_runs :
    {W : Type 0} (t : Runtime) (k : AgentKernel W) (r₀ : KernelRun W) (u : System W)
    (before after : List KernelSession) (s : KernelSession) (name : String) (args : Fields)
    (request_id : String) (r : KernelRun W)
    → k.frozen ≡ false
    → Reach t (record { kernel = k; run = r₀; sessions = [] }) u
    → u.sessions ≡ before ++ s ∷ after
    → Dict.lookup name u.kernel.registry.tools ≡ none
    → (session_execute t u.kernel s name args request_id r).1.world ≡ r.world
unregistered_never_runs {W = W} t k r₀ u before after s name args request_id r fresh path at_s
      missing =
    let start : System W = record { kernel = k; run = r₀; sessions = [] } in
    let g₀ : IsGoverned start = record {
      registry_too = λ used. frozen_twice used;
      once_used = inl refl;
      scopes = tt;
    } in
    let g = Reach-IsGoverned g₀ path in
    let scope =
      All-member (Registered u.kernel) before after s
        (subst (All (Registered u.kernel)) at_s g.scopes) in
    session_execute-outside t u.kernel s name args request_id r (
      subset_not-contains s.allowed_capabilities (tool_names u.kernel) name scope
        (contains-tool_names {W = W} u.kernel name ∙ ap is_some missing))
  where
    frozen_twice : k.frozen ≡ true → k.registry.frozen ≡ true
    frozen_twice used = cc
