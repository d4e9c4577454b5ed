-- ===== src/Tests/Managers.antt =====
-- The theorems on the delegation manager, on a concrete delegation: the worker reports once with the
-- wrong number, which the store refuses, then once with the right one, and then fails.
use hex_agent.Core.Identity.{is_active}
use hex_agent.Base.{ℕ, refl, ◌==◌, String-discrete, true, none, [], ◌∷◌}
use hex_agent.Value.{end}
use hex_agent.Core.Schemas.{DelegationSpec}
use hex_agent.Core.Identity.{Drawn}
use hex_agent.Delegation.Store.{DelegationProgress, DelegationStore, ProgressStatus, progress_of}
use hex_agent.Delegation.Store.Ordering.{IsStore}
use hex_agent.Delegation.Store.Within.{IsWithin}
use hex_agent.Delegation.Handling.{Play, raises, reports, DelegationManager}
use hex_agent.Delegation.Manager.{delegate}
use hex_agent.Delegation.Manager.Settled.{IsSettled, delegate-IsSettled}
use hex_agent.Delegation.Manager.Steps.{delegate-IsWithin}
use hex_agent.Tests.Kernels.{root, runtime, start_run}

abbrev report : ℕ → DelegationProgress
report n = record {
  delegation_id = "d1";
  sequence = n;
  event_id = "e1";
  artifact = record { artifact_id = "a1"; kind = "note"; payload = end; schema_version = 1 };
  status = ProgressStatus.running;
}

abbrev worker_play : Play ℕ
worker_play = reports (report 2) (λ _. reports (report 1) (λ _. raises "tool broke"))

abbrev manager : DelegationManager ℕ
manager = record {
  registry = record {
    handlers = record { name = "worker"; can_handle = λ t. t == "dev" } ∷ [];
    frozen = true;
  };
  policy = record { max_steps = 100; max_depth = 8 };
  body = λ h q. worker_play;
  equal = λ a b. true;
  runtime = runtime;
}

abbrev spec : DelegationSpec
spec = record {
  objective = "look";
  input_context = end;
  expected_output_schema = end;
  constraints = [];
}

abbrev nothing : DelegationStore
nothing = record { requests = []; progress = []; results = [] }

abbrev drawn : Drawn
drawn = record { task_id = "t2"; session_id = "s2" }

delegate-IsSettled_example :
    IsSettled root "dev" "d1" (delegate manager root "dev" spec none "d1" drawn nothing start_run)
unfolding is_active String-discrete
delegate-IsSettled_example =
    delegate-IsSettled manager root "dev" spec none "d1" drawn nothing start_run refl refl refl refl
      refl

nothing-IsStore : IsStore nothing
unfolding progress_of
nothing-IsStore i = (tt, tt)

delegate-IsWithin_example :
    IsWithin "d1" 100 (delegate manager root "dev" spec none "d1" drawn nothing start_run).1.store
unfolding progress_of
delegate-IsWithin_example =
    delegate-IsWithin manager root "dev" spec none "d1" drawn nothing start_run nothing-IsStore refl
