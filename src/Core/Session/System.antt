-- ===== src/Core/Session/System.antt =====
-- core/session.py over core/kernel.py and core/registry.py: the kernel with all of its sessions, one
-- operation at a time.
use hex_agent.Base.{◌≡◌, ◌⊎◌, String, true, Option, List, [], ◌∷◌, ◌++◌, All}
use hex_agent.Base.Dict.{Dict}
use hex_agent.Base.Result.{ok}
use hex_agent.Value.{Value, Fields}
use hex_agent.Core.Schemas.{is_subset}
use hex_agent.Core.Registry.{
  CapabilityRegistry, Executor, FeatureDescriptor, ToolDescriptor, register_feature, register_tool,
  set_fallback,
}
use hex_agent.Core.Kernel.{
  Runtime, KernelRun, AgentKernel, Middleware, freeze_kernel, use_middleware,
}
use hex_agent.Core.Identity.{
  KernelSession, SessionIdentity, Stored, RootRequest, ChildRequest, Drawn, set_state,
}
use hex_agent.Core.Session.{
  session_execute, complete_task, create_root, create_child, restore, tool_names,
}

pub record System (W : Type 0) : Type 0 where
  pub kernel : AgentKernel W
  pub run : KernelRun W
  pub sessions : List KernelSession

module _ {W : Type 0} where
  -- The system with another registry.
  abbrev pub with_registry : CapabilityRegistry (KernelRun W) → System W → System W
  with_registry reg s = record s { kernel = record s.kernel { registry = reg } }

  -- One operation.
  pub data Step (t : Runtime) (s : System W) : System W → Type 0 where
    feature_registered :
        {reg : CapabilityRegistry (KernelRun W)} (d : FeatureDescriptor)
        → register_feature d s.kernel.registry ≡ ok reg
        → Step t s (with_registry reg s)
    tool_registered :
        {reg : CapabilityRegistry (KernelRun W)} (name : String) (x : Executor (KernelRun W))
        (f : Option String) (d : ToolDescriptor)
        → register_tool name x f d s.kernel.registry ≡ ok reg
        → Step t s (with_registry reg s)
    fallback_set :
        {reg : CapabilityRegistry (KernelRun W)} (x : Option (Executor (KernelRun W)))
        (f : Option String)
        → set_fallback x f s.kernel.registry ≡ ok reg
        → Step t s (with_registry reg s)
    middleware_used :
        {k : AgentKernel W} (m : Middleware W)
        → use_middleware m s.kernel ≡ ok k
        → Step t s (record s { kernel = k })
    frozen : Step t s (record s { kernel = freeze_kernel s.kernel })
    root_created :
        {x : KernelSession} {k : AgentKernel W} {r : KernelRun W} (q : RootRequest) (drawn : Drawn)
        → create_root q drawn s.kernel s.run ≡ ok (x, k, r)
        → Step t s (record { kernel = k; run = r; sessions = s.sessions ++ x ∷ [] })
    child_created :
        {x : KernelSession} {r : KernelRun W} (q : ChildRequest) (drawn : Drawn)
        (before after : List KernelSession) (p : KernelSession)
        → s.sessions ≡ before ++ p ∷ after
        → create_child q drawn p s.run ≡ ok (x, r)
        → Step t s (record s { run = r; sessions = s.sessions ++ x ∷ [] })
    tool_called :
        (x : KernelSession) (name : String) (args : Fields) (request_id : String)
        → Step t s (record s { run = (session_execute t s.kernel x name args request_id s.run).1 })
    task_completed :
        {d : Fields} {y : KernelSession} {r : KernelRun W} (v : Value) (status : String)
        (before after : List KernelSession) (x : KernelSession)
        → s.sessions ≡ before ++ x ∷ after
        → complete_task v status x s.run ≡ ok (d, y, r)
        → Step t s (record s { run = r; sessions = before ++ y ∷ after })
    state_set :
        (key : String) (v : Stored) (before after : List KernelSession) (x : KernelSession)
        → s.sessions ≡ before ++ x ∷ after
        → Step t s (record s { sessions = before ++ set_state key v x ∷ after })
    restored :
        {x : KernelSession} (i : SessionIdentity) (state : Dict Stored) (scope : List String)
        → (restore i state scope s.kernel).0 ≡ ok x
        → Step t s (record s {
          kernel = (restore i state scope s.kernel).1;
          sessions = s.sessions ++ x ∷ [];
        })

  pub data Reach (t : Runtime) (s : System W) : System W → Type 0 where
    here : Reach t s s
    next : {u v : System W} → Reach t s u → Step t u v → Reach t s v

  -- The scope of the session holds tools of the registry only.
  abbrev pub Registered : AgentKernel W → KernelSession → Type 0
  Registered k x = is_subset x.allowed_capabilities (tool_names k) ≡ true

  -- With a session there, the kernel and its registry are frozen; every session's scope is of tools
  -- that are registered.
  pub record IsGoverned (s : System W) : Type 0 where
    pub registry_too : s.kernel.frozen ≡ true → s.kernel.registry.frozen ≡ true
    pub once_used : (s.sessions ≡ []) ⊎ (s.kernel.frozen ≡ true)
    pub scopes : All (Registered s.kernel) s.sessions
