-- ===== src/Supervisor/State.antt =====
-- supervisor/state.py: the Blackboard of one run. A status is kept as the member of the enum
-- whose value the source stores.
use mathlib.Core.Bool.{◌&&◌}
use hex_agent.Base.{ℕ, String, ◌==◌, Bool, true, false, Option, none, some, List, [], ◌∷◌, map}
use hex_agent.Base.{length, if◌then◌else◌}
use hex_agent.Base.Dict
use hex_agent.Base.Dict.{Dict}
use hex_agent.Value.{Fields}
use hex_agent.Control.Command.{RuntimeCommand}

pub data TaskLoopStatus : Type 0 where
  created team_selected in_discussion waiting_tool reviewing_ac : TaskLoopStatus
  finished blocked failed : TaskLoopStatus

pub data CheckStatus : Type 0 where
  pending passed failed : CheckStatus

pub record AcceptanceCheck : Type 0 where
  pub id : String
  pub text : String
  pub status : CheckStatus
  pub evidence_ids : List String

pub record AgentTurn : Type 0 where
  pub round_no : ℕ
  pub agent_id : String
  pub packet_id : String
  pub output_summary : String
  pub artifact_ids : List String

pub record TaskLoopState : Type 0 where
  pub session_id : String
  pub task_id : String
  pub status : TaskLoopStatus
  pub selected_agents : List String
  pub acceptance_checks : List AcceptanceCheck
  pub round_no : ℕ
  pub max_rounds : ℕ
  pub turns : List AgentTurn
  pub artifacts : Dict Fields
  pub tool_results : Dict Fields
  pub final_output : Option Fields
  pub reason : String
  pub pending_commands : List RuntimeCommand
  pub applied_command_keys : List String

abbrev pub is_passed : CheckStatus → Bool
is_passed CheckStatus.passed = true
is_passed _ = false

abbrev pub non_empty : List String → Bool
non_empty [] = false
non_empty (_ ∷ _) = true

unfoldable pub is_satisfied : AcceptanceCheck → Bool
is_satisfied c = is_passed c.status && non_empty c.evidence_ids

unfoldable pub add_artifact : String → Fields → TaskLoopState → TaskLoopState
add_artifact k payload s = record s { artifacts = Dict.insert k payload s.artifacts }

-- The first check with this id.
find_check : String → List AcceptanceCheck → Option AcceptanceCheck
find_check i [] = none
find_check i (c ∷ cs) = if c.id == i then some c else find_check i cs

unfoldable pub acceptance_by_id : String → TaskLoopState → Option AcceptanceCheck
unfolding find_check
acceptance_by_id i s = find_check i s.acceptance_checks

unfoldable pub all_satisfied : List AcceptanceCheck → Bool
unfolding is_satisfied
all_satisfied [] = true
all_satisfied (c ∷ cs) = is_satisfied c && all_satisfied cs

abbrev has_checks : List AcceptanceCheck → Bool
has_checks [] = false
has_checks (_ ∷ _) = true

unfoldable pub all_accepted : TaskLoopState → Bool
unfolding all_satisfied
all_accepted s = has_checks s.acceptance_checks && all_satisfied s.acceptance_checks

abbrev pub terminal : TaskLoopStatus → Bool
terminal TaskLoopStatus.finished = true
terminal TaskLoopStatus.blocked = true
terminal TaskLoopStatus.failed = true
terminal _ = false

abbrev pub is_terminal : TaskLoopState → Bool
is_terminal s = terminal s.status

unfoldable pub acceptance_snapshot : TaskLoopState → List (String × CheckStatus × ℕ)
acceptance_snapshot s = map (λ c. (c.id, c.status, length c.evidence_ids)) s.acceptance_checks
