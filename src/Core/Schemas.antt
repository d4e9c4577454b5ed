-- ===== src/Core/Schemas.antt =====
-- core/schemas.py: the data of a delegation. Sets of capabilities are lists, read only by
-- membership and inclusion.
use hex_agent.Base.{ℕ, String, Bool, true, ◌&&◌, Option, List, [], ◌∷◌, contains}
use hex_agent.Value.{Fields}

pub record DelegationSpec : Type 0 where
  pub objective : String
  pub input_context : Fields
  pub expected_output_schema : Fields
  pub constraints : List String

pub record DelegationPolicy : Type 0 where
  pub max_steps : ℕ
  pub max_depth : ℕ
  pub allowed_capabilities : List String

pub record ArtifactEnvelope : Type 0 where
  pub artifact_id : String
  pub kind : String
  pub payload : Fields
  pub schema_version : ℕ

pub data Outcome : Type 0 where
  success failed rejected timeout : Outcome

abbrev pub outcome_text : Outcome → String
outcome_text success = "success"
outcome_text failed = "failed"
outcome_text rejected = "rejected"
outcome_text timeout = "timeout"

pub record DelegationResult : Type 0 where
  pub delegation_id : String
  pub parent_task_id : String
  pub outcome : Outcome
  pub artifacts : List ArtifactEnvelope
  pub summary : Fields
  pub error : Option String

-- `a <= b` on sets
abbrev pub is_subset : List String → List String → Bool
is_subset [] b = true
is_subset (x ∷ a) b = contains b x && is_subset a b
