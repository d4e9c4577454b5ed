-- ===== src/Tests/Delegations.antt =====
-- The theorems on delegation and on permissions, on concrete inputs.
use hex_agent.Base.{
  ◌≡◌, refl, String-discrete, none, some, [], ◌∷◌, true, false, ◌==◌, contains, Bool-cases, inl,
  inr,
}
use hex_agent.Base.Result.{ok}
use hex_agent.Value.{bool, field, end}
use hex_agent.Control.Permission.{
  Permission, effective_times, permission_check, permission_as_dict, permission_from_dict, patched,
  permission_round_trip, patched_authority,
}
use hex_agent.Core.Schemas.{DelegationPolicy}
use hex_agent.Delegation.Policy.{
  DelegationPolicyEngine, ParentSession, validate, IsGrant, validate_grants,
}
use hex_agent.Delegation.Store.{
  DelegationProgress, DelegationStore, ProgressStatus, append_progress, progress_of,
}
use hex_agent.Delegation.Store.Ordering.{IsStore, append_progress-IsStore, append_progress_again}
use hex_agent.Delegation.Targets.{
  DelegationHandler, DelegationRegistry, resolve, OnlyHandler, resolve_only,
}
use hex_agent.Tests.Scenario.{py}

abbrev engine : DelegationPolicyEngine
engine = record { max_steps = 100; max_depth = 8 }

abbrev parent : ParentSession
parent = record { depth = 0; allowed_capabilities = "read" ∷ "write" ∷ [] }

abbrev reader : DelegationPolicy
reader = record { max_steps = 20; max_depth = 3; allowed_capabilities = "read" ∷ [] }

validate_grants_example : IsGrant engine parent reader reader
unfolding validate String-discrete
validate_grants_example = validate_grants engine parent (some reader) refl

abbrev progress_1 : DelegationProgress
progress_1 = record {
  delegation_id = "d1";
  sequence = 1;
  event_id = "e1";
  artifact = record { artifact_id = "a1"; kind = "note"; payload = end; schema_version = 1 };
  status = ProgressStatus.running;
}

abbrev empty_store : DelegationStore
empty_store = record { requests = []; progress = ("d1", []) ∷ []; results = [] }

abbrev store_1 : DelegationStore
store_1 = record { requests = []; progress = ("d1", progress_1 ∷ []) ∷ []; results = [] }

empty_store-IsStore : IsStore empty_store
unfolding progress_of
empty_store-IsStore i = elim (Bool-cases (i == "d1")) [
  | inl e ↦ rw (e, progress_of) (tt, tt)
  | inr e ↦ rw (e, progress_of) (tt, tt)
]

append_progress-IsStore_example : IsStore store_1
unfolding append_progress String-discrete
append_progress-IsStore_example =
    append_progress-IsStore progress_1 empty_store refl empty_store-IsStore

append_progress_again_example : append_progress progress_1 store_1 ≡ ok store_1
unfolding append_progress String-discrete
append_progress_again_example = append_progress_again progress_1 empty_store refl

abbrev worker : DelegationHandler
worker = record { name = "worker"; can_handle = λ t. t == "dev" }

abbrev other : DelegationHandler
other = record { name = "other"; can_handle = λ t. t == "ops" }

abbrev taking : DelegationRegistry
taking = record { handlers = other ∷ worker ∷ []; frozen = true }

resolve_only_example : OnlyHandler "dev" (other ∷ worker ∷ []) worker
unfolding resolve String-discrete
resolve_only_example = resolve_only "dev" taking refl

abbrev first_registry : DelegationRegistry
first_registry = record { handlers = other ∷ []; frozen = false }

abbrev second_registry : DelegationRegistry
second_registry = record { handlers = other ∷ worker ∷ []; frozen = false }

abbrev limited : Permission
limited = record {
  allowed_tools = "read" ∷ "grep" ∷ [];
  can_write_artifacts = true;
  can_call_other_agents = false;
  can_execute_shell = false;
  can_modify_workflow = false;
  can_modify_permissions = false;
  effective_from = "next_turn";
}

permission_round_trip_example : permission_from_dict py (permission_as_dict limited) ≡ ok limited
unfolding permission_check String-discrete
permission_round_trip_example = permission_round_trip py limited refl

abbrev with_shell : Permission
with_shell = record limited { can_execute_shell = true }

patched_authority_example :
    (with_shell.can_modify_permissions ≡ limited.can_modify_permissions)
    × (contains effective_times with_shell.effective_from ≡ true)
unfolding patched String-discrete
patched_authority_example =
    patched_authority py (field "can_execute_shell" (bool true) end) none limited refl refl
