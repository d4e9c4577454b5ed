-- ===== src/Tests/Kernels.antt =====
-- The theorems on the kernel, its middleware and its sessions, on concrete inputs: the world counts
-- the runs of a tool that has effects and fails.
use hex_agent.Core.Registry.{freeze_registry}
use hex_agent.Base.{
  ℕ, ◌+◌, ◌≤◌, ◌≡◌, refl, false, none, some, List, [], ◌∷◌, arith, map, inl, String-discrete,
}
use hex_agent.Value.{end}
use hex_agent.Core.Envelope.{ToolRequest}
use hex_agent.Core.Registry.{raised, Executor, CapabilityRegistry, resolve_tool}
use hex_agent.Core.Kernel.{KernelRun, AgentKernel, Runtime, execute_tool, freeze_kernel}
use hex_agent.Core.Identity.{KernelSession, RootRequest, ChildRequest, task, child_session}
use hex_agent.Core.Session.{create_root, create_child, session_execute, accepted}
use hex_agent.Core.Session.Scope.{itself, child, IsUnder, descendant_confined}
use hex_agent.Core.Session.System.{System, Reach, IsGoverned, here, next, root_created}
use hex_agent.Core.Session.Governed.{Reach-IsGoverned}
use hex_agent.Core.Session.Unregistered.{unregistered_never_runs}
use hex_agent.Middleware.Retry.{Layer, gate, again, layer}
use hex_agent.Middleware.Chain.{Closes, execute_tool-Closes}
use hex_agent.Middleware.Effects.{execute_effect_once}
use hex_agent.Middleware.Denied.{denied_never_runs}
use hex_agent.Tests.Scenario.{py}

abbrev pub runtime : Runtime
runtime = record { python = py; message = λ e. "error"; type_name = λ v. "value" }

abbrev deployer : Executor (KernelRun ℕ)
deployer = record {
  name = "deployer";
  execute = λ q r. (raised "connection lost", record r { world = r.world + 1 });
}

abbrev no_tools : CapabilityRegistry (KernelRun ℕ)
no_tools = record {
  tools = [];
  features = [];
  tool_features = [];
  descriptors = [];
  fallback = none;
  fallback_feature = none;
  frozen = false;
}

abbrev tools : CapabilityRegistry (KernelRun ℕ)
tools = record no_tools {
  tools = ("deploy", deployer) ∷ [];
  descriptors = ("deploy", record { kind = "effect"; idempotent = false; risk = "high" }) ∷ [];
  fallback = some deployer;
}

abbrev layers : List (Layer ℕ)
layers = again "no metadata" 3 ∷ gate ("rm" ∷ []) (λ q w. w) ∷ []

abbrev kernel : AgentKernel ℕ
kernel = record { registry = tools; middlewares = map layer layers; frozen = false }

abbrev pub start_run : KernelRun ℕ
start_run = record { published = []; world = 0 }

abbrev deploy_request : ToolRequest
deploy_request = record { name = "deploy"; args = end; context = none; request_id = "q1" }

execute_effect_once_example :
    (execute_tool runtime kernel "deploy" end none "q1" start_run).1.world ≤ 1
unfolding resolve_tool String-discrete
execute_effect_once_example =
    execute_effect_once runtime (λ n. n) kernel layers "deploy" end none "q1" start_run refl
      (tt, ((λ q w. omega arith), tt)) (refl, refl) (λ q s. omega arith)

execute_tool-Closes_example :
    Closes deploy_request (execute_tool runtime kernel "deploy" end none "q1" start_run)
execute_tool-Closes_example =
    execute_tool-Closes runtime kernel layers "deploy" end none "q1" start_run refl

-- The same kernel with no tools and no middleware behind the gate
abbrev bare_kernel : AgentKernel ℕ
bare_kernel = record kernel { registry = no_tools }

denied_never_runs_example :
    execute_tool runtime kernel "rm" end none "q1" start_run
    ≡ execute_tool runtime bare_kernel "rm" end none "q1" start_run
unfolding String-discrete
denied_never_runs_example =
    denied_never_runs runtime kernel bare_kernel (again "no metadata" 3 ∷ []) ("rm" ∷ []) (λ q w. w)
      [] [] "rm" end none "q1" start_run refl refl refl

abbrev root_request : RootRequest
root_request = record {
  user_request = "deploy it";
  context = end;
  run_id = none;
  agent_id = "agent:root";
  allowed_capabilities = none;
  task_id = some "t1";
}

abbrev child_request : ChildRequest
child_request = record {
  delegation_id = "d1";
  target = "worker";
  user_request = "look at it";
  context = end;
  requested_scope = some [];
}

abbrev pub root : KernelSession
root = record {
  identity = record {
    session_id = "s1";
    run_id = "t1";
    task_id = "t1";
    agent_id = "agent:root";
    parent_session_id = none;
    delegation_id = none;
    depth = 0;
  };
  state =
      (
        "current_task",
        task (record { user_request = "deploy it"; context = end; metadata = end; task_id = "t1" }),
      )
      ∷ [];
  allowed_capabilities = "deploy" ∷ [];
  closed = false;
}

abbrev worker : KernelSession
worker = child_session root child_request (record { task_id = "t2"; session_id = "s2" }) []

descendant_confined_example :
    IsUnder root worker
    × ((session_execute runtime kernel worker "rm" end "q2" start_run).1.world ≡ 0)
unfolding create_child String-discrete
descendant_confined_example =
    descendant_confined runtime kernel root worker "rm" end "q2" start_run
      (child child_request (record { task_id = "t2"; session_id = "s2" }) start_run itself refl)
      refl

abbrev system : System ℕ
system = record { kernel = kernel; run = start_run; sessions = [] }

abbrev used_system : System ℕ
used_system = record {
  kernel = freeze_kernel kernel;
  run = accepted root start_run;
  sessions = root ∷ [];
}

used : Reach runtime system used_system
unfolding create_root String-discrete
used = next here (root_created root_request (record { task_id = "t0"; session_id = "s1" }) refl)

Reach-IsGoverned_example : IsGoverned used_system
unfolding String-discrete
Reach-IsGoverned_example =
    Reach-IsGoverned (record { registry_too = λ e. cc; once_used = inl refl; scopes = tt }) used

unregistered_never_runs_example :
    (session_execute runtime used_system.kernel root "undeploy" end "q3" start_run).1.world ≡ 0
unfolding String-discrete freeze_kernel freeze_registry
unregistered_never_runs_example =
    unregistered_never_runs runtime kernel start_run used_system [] [] root "undeploy" end "q3"
      start_run refl used refl refl
