-- ===== src/Delegation/Store.antt =====
-- delegation/store.py: the ordered, idempotent progress of delegations. The lock is left out: each
-- call holds it from its first line to its last one.
pub mod Ordering
pub mod Within
use hex_agent.Base.{
  ℕ, ◌+◌, ◌≡◌, refl, String, ◌==◌, Bool, true, false, not, ◌||◌, Option, none, some, List, [], ◌∷◌,
  ◌++◌, arith, map,
}
use hex_agent.Base.{if◌then◌else◌, eqb, length, contains, Distinct}
use hex_agent.Base.Dict
use hex_agent.Base.Dict.{Dict}
use hex_agent.Base.Result.{Result, ok, err, value_error, lookup_error}
use hex_agent.Core.Schemas.{DelegationSpec, DelegationPolicy, DelegationResult, ArtifactEnvelope}

pub data ProgressStatus : Type 0 where
  running waiting blocked : ProgressStatus

pub record DelegationProgress : Type 0 where
  pub delegation_id : String
  pub sequence : ℕ
  pub event_id : String
  pub artifact : ArtifactEnvelope
  pub status : ProgressStatus

pub record DelegationRequest : Type 0 where
  pub delegation_id : String
  pub parent_session_id : String
  pub parent_task_id : String
  pub target : String
  pub spec : DelegationSpec
  pub policy : DelegationPolicy

pub record DelegationStore : Type 0 where
  pub requests : Dict DelegationRequest
  pub progress : Dict (List DelegationProgress)
  pub results : Dict DelegationResult

unfoldable pub start : DelegationRequest → DelegationStore → Result DelegationStore
start request s =
    if Dict.has_key s.requests request.delegation_id
    then err value_error
    else ok (record s {
      requests = Dict.insert request.delegation_id request s.requests;
      progress = Dict.insert request.delegation_id [] s.progress;
    })

abbrev pub event_ids : List DelegationProgress → List String
event_ids = map (λ item. item.event_id)

-- What `append_progress` does with the items of the delegation.
unfoldable pub append_item :
    DelegationProgress → List DelegationProgress → DelegationStore → Result DelegationStore
append_item item items s =
    if contains (event_ids items) item.event_id
    then ok s
    else if not (eqb item.sequence (length items + 1))
    then err value_error
    else ok (record s { progress = Dict.insert item.delegation_id (items ++ item ∷ []) s.progress })

unfoldable pub append_progress : DelegationProgress → DelegationStore → Result DelegationStore
unfolding append_item
append_progress item s = elim (Dict.lookup item.delegation_id s.progress) [
  | none ↦ err lookup_error
  | some items ↦ append_item item items s
]

-- `progress`
unfoldable pub progress_of : String → DelegationStore → List DelegationProgress
progress_of i s = elim (Dict.lookup i s.progress) [ none ↦ [] | some items ↦ items ]

-- There is a result that is not this one; `equal` is the equality that dataclasses have.
abbrev pub differs :
    (DelegationResult → DelegationResult → Bool) → Option DelegationResult → DelegationResult → Bool
differs equal none result = false
differs equal (some existing) result = not (equal existing result)

unfoldable pub finish :
    (DelegationResult → DelegationResult → Bool)
    → DelegationResult
    → DelegationStore
    → Result DelegationStore
finish equal result s =
    if not (Dict.has_key s.requests result.delegation_id)
    then err lookup_error
    else if differs equal (Dict.lookup result.delegation_id s.results) result
    then err value_error
    else ok (record s { results = Dict.insert result.delegation_id result s.results })

-- `result`
unfoldable pub result_of : String → DelegationStore → Option DelegationResult
result_of i s = Dict.lookup i s.results
