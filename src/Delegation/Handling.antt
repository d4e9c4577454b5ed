-- ===== src/Delegation/Handling.antt =====
-- delegation/manager.py: what a delegation is about: a handler at work, the events and the results.
-- What a handler does is a `Play`: its calls of the progress sink, its work on the child and the
-- kernel, and its end.
use hex_agent.Base.{
  String, ◌==◌, not_blank, Bool, not, Option, none, some, List, [], ◌∷◌, ◌++◌, map, contains,
}
use hex_agent.Base.{if◌then◌else◌, length}
use hex_agent.Base.Int.{pos}
use hex_agent.Base.Result.{Error, permission_error}
use hex_agent.Value.{num, str, obj, Fields, end, field, set, merge, optional_text}
use hex_agent.Core.Envelope.{event_fields}
use hex_agent.Core.Schemas.{
  DelegationSpec, DelegationPolicy, DelegationResult, ArtifactEnvelope, Outcome, failed, rejected,
  outcome_text,
}
use hex_agent.Core.Codecs.{artifact_as_dict}
use hex_agent.Core.Kernel.{Runtime, KernelRun}
use hex_agent.Core.Identity.{KernelSession, call_context}
use hex_agent.Delegation.Policy.{DelegationPolicyEngine, ParentSession}
use hex_agent.Delegation.Targets.{DelegationHandler, DelegationRegistry}
use hex_agent.Delegation.Store.{
  DelegationRequest, DelegationProgress, DelegationStore, ProgressStatus, progress_of,
}

-- What a handler works on.
pub record Workspace (W : Type 0) : Type 0 where
  pub child : KernelSession
  pub run : KernelRun W

-- A handler at work: it returns, raises, reports progress and goes on with what the sink raised, if
-- anything, or works on its session and goes on with what it finds there.
pub data Play (W : Type 0) : Type 0 where
  returns : DelegationResult → Play W
  raises : String → Play W
  reports : DelegationProgress → (Option Error → Play W) → Play W
  works : (Workspace W → Workspace W) → (Workspace W → Play W) → Play W

pub record DelegationManager (W : Type 0) : Type 0 where
  pub registry : DelegationRegistry
  pub policy : DelegationPolicyEngine
  -- `handler.run`
  pub body : DelegationHandler → DelegationRequest → Play W
  pub equal : DelegationResult → DelegationResult → Bool
  pub runtime : Runtime

pub record DelegationRun (W : Type 0) : Type 0 where
  pub store : DelegationStore
  pub workspace : Workspace W

abbrev pub status_text : ProgressStatus → String
status_text ProgressStatus.running = "running"
status_text ProgressStatus.waiting = "waiting"
status_text ProgressStatus.blocked = "blocked"

unfoldable pub delegation_event : KernelSession → String → String → Fields
unfolding event_fields call_context
delegation_event parent delegation_id target =
    set "target" (str target)
      (set "delegation_id" (str delegation_id) (event_fields (call_context parent)))

unfoldable pub progress_event : KernelSession → DelegationProgress → Fields
unfolding event_fields call_context artifact_as_dict
progress_event child p = merge (event_fields (call_context child)) (
    field "event_id" (str p.event_id) (
      field "sequence" (num (pos p.sequence)) (
        field "status" (str (status_text p.status))
          (field "artifact" (obj (artifact_as_dict p.artifact)) end))))

-- A result without artifacts and summary
abbrev pub bare_result :
    String → String → Outcome → List ArtifactEnvelope → String → DelegationResult
bare_result delegation_id task_id outcome artifacts error = record {
  delegation_id = delegation_id;
  parent_task_id = task_id;
  outcome = outcome;
  artifacts = artifacts;
  summary = end;
  error = some error;
}

abbrev pub progress_artifacts : String → DelegationStore → List ArtifactEnvelope
progress_artifacts delegation_id store =
    map (λ item. item.artifact) (progress_of delegation_id store)

-- The artifacts whose identifiers have not been seen.
unfoldable pub unseen : List String → List ArtifactEnvelope → List ArtifactEnvelope
unseen seen [] = []
unseen seen (a ∷ rest) =
    let later = unseen seen rest in if contains seen a.artifact_id then later else a ∷ later

-- The result of a handler that has returned.
unfoldable pub checked_result :
    String → String → DelegationStore → DelegationResult → DelegationResult
unfolding unseen progress_of
checked_result delegation_id task_id store result =
    let reported = progress_artifacts delegation_id store in
    if not (result.delegation_id == delegation_id)
    then bare_result delegation_id task_id failed reported
        "Delegation result ID does not match the request."
    else if not (result.parent_task_id == task_id)
    then bare_result delegation_id task_id failed reported
        "Delegation result parent_task_id does not match the parent."
    else record result {
      artifacts = reported ++ unseen (map (λ a. a.artifact_id) reported) result.artifacts;
    }

-- `result.error or result.outcome`
abbrev pub failure_reason : DelegationResult → String
failure_reason r = elim r.error [
  | none ↦ outcome_text r.outcome
  | some e ↦ if not_blank e then e else outcome_text r.outcome
]

abbrev pub rejected_or_failed : Error → Outcome
rejected_or_failed permission_error = rejected
rejected_or_failed _ = failed

abbrev pub parent_of : KernelSession → ParentSession
parent_of s = record { depth = s.identity.depth; allowed_capabilities = s.allowed_capabilities }

-- How a handler ends.
pub data Ending : Type 0 where
  result_given : DelegationResult → Ending
  exception : String → Ending

unfoldable pub concluded : String → String → DelegationStore → Ending → DelegationResult
unfolding checked_result progress_of
concluded delegation_id task_id store (result_given r) =
    checked_result delegation_id task_id store r
concluded delegation_id task_id store (exception text) =
    bare_result delegation_id task_id failed (progress_artifacts delegation_id store) text

-- What a delegation leaves.
pub record Delegated (W : Type 0) : Type 0 where
  pub store : DelegationStore
  pub run : KernelRun W
  pub child : Option KernelSession

unfoldable pub finished_event : KernelSession → String → DelegationResult → Fields
unfolding delegation_event
finished_event parent target result = set "error" (optional_text result.error) (
    set "artifact_count" (num (pos (length result.artifacts))) (
      set "outcome" (str (outcome_text result.outcome))
        (delegation_event parent result.delegation_id target)))

abbrev pub request_for :
    KernelSession → String → DelegationSpec → DelegationPolicy → String → DelegationRequest
request_for parent target spec policy delegation_id = record {
  delegation_id = delegation_id;
  parent_session_id = parent.identity.session_id;
  parent_task_id = parent.identity.task_id;
  target = target;
  spec = spec;
  policy = policy;
}
