-- ===== src/Supervisor/Acceptance.antt =====
-- `judge_acceptance` of supervisor/graph.py: what agent O reports is believed only with evidence.
pub mod Grounded
use hex_agent.Base.{String, ◌==◌, Bool, true, false, ◌&&◌, Option, none, some, List, [], ◌∷◌}
use hex_agent.Base.{if◌then◌else◌, is_some}
use hex_agent.Base.Dict
use hex_agent.Base.Dict.{Dict}
use hex_agent.Base.Result.{Result, ok, err, ◌>>=◌}
use hex_agent.Value.{null, str, Fields, get_or, str_of, texts_of, Python}
use hex_agent.Supervisor.State.{
  AcceptanceCheck, CheckStatus, TaskLoopState, TaskLoopStatus, acceptance_by_id, non_empty,
}

-- Every id is a key of the artifacts.
abbrev pub all_known : Dict Fields → List String → Bool
all_known artifacts [] = true
all_known artifacts (e ∷ rest) = Dict.has_key artifacts e && all_known artifacts rest

-- What a row does to the check that it names.
unfoldable pub judged : Dict Fields → String → List String → AcceptanceCheck → AcceptanceCheck
judged artifacts claimed evidence c =
    if (claimed == "passed") && non_empty evidence && all_known artifacts evidence
    then record c { status = CheckStatus.passed; evidence_ids = evidence }
    else if claimed == "failed"
    then record c { status = CheckStatus.failed; evidence_ids = evidence }
    else record c { status = CheckStatus.pending }

-- The first check with this id is changed in place.
unfoldable pub update_check :
    String → (AcceptanceCheck → AcceptanceCheck) → List AcceptanceCheck → List AcceptanceCheck
update_check i f [] = []
update_check i f (c ∷ cs) = if c.id == i then f c ∷ cs else c ∷ update_check i f cs

unfoldable pub judge_row : Python → TaskLoopState → Fields → Result TaskLoopState
unfolding judged update_check
judge_row py s row =
    let i = str_of py (get_or "id" (str "") row) in
    elim (acceptance_by_id i s) [
      | none ↦ ok s
      | some _ ↦ texts_of py (get_or "evidence_ids" null row) >>= λ evidence. ok (record s {
        acceptance_checks =
            update_check i
              (judged s.artifacts (str_of py (get_or "status" (str "pending") row)) evidence)
              s.acceptance_checks;
      })
    ]

unfoldable pub judge_rows : Python → List Fields → TaskLoopState → Result TaskLoopState
unfolding judge_row
judge_rows py [] s = ok s
judge_rows py (row ∷ rest) s = judge_row py s row >>= λ s'. judge_rows py rest s'

-- The state in which the rows leave it: after all of them, or before the one that raises.
unfoldable pub judged_so_far : Python → List Fields → TaskLoopState → TaskLoopState
unfolding judge_row
judged_so_far py [] s = s
judged_so_far py (row ∷ rest) s = elim (judge_row py s row) [
  | err e ↦ s
  | ok s' ↦ judged_so_far py rest s'
]

unfoldable pub judge_acceptance : Python → List Fields → TaskLoopState → Result TaskLoopState
unfolding judge_rows
judge_acceptance py rows s =
    judge_rows py rows s >>= λ s'. ok (record s' { status = TaskLoopStatus.reviewing_ac })
