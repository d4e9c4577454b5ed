-- ===== src/Supervisor/Acceptance/Grounded.antt =====
-- The acceptance gate: a criterion counts as passed only with evidence that is on the Blackboard.
use hex_agent.Base.{◌≡◌, refl, subst, String, ◌==◌, true, ◌&&◌, List, [], ◌∷◌, arith}
use hex_agent.Base.{All, Option-cases, ◌∙◌, if_rule, inl, inr, ap}
use hex_agent.Base.Lists.{All-map}
use hex_agent.Base.Dict
use hex_agent.Base.Dict.{Dict, has_key-insert}
use hex_agent.Base.Result.{ok, >>=-eq-ok, ok_inj}
use hex_agent.Value.{null, str, Fields, get_or, str_of, texts_of, Python}
use hex_agent.Supervisor.State.{
  AcceptanceCheck, TaskLoopState, TaskLoopStatus, acceptance_by_id, non_empty, is_passed,
  all_satisfied, all_accepted,
}
use hex_agent.Supervisor.Acceptance.{
  all_known, judged, update_check, judge_row, judge_rows, judge_acceptance,
}

-- A check that is passed has evidence, and each piece of it is an artifact.
abbrev pub Backed : Dict Fields → AcceptanceCheck → Type 0
Backed artifacts c =
    is_passed c.status ≡ true
    → (non_empty c.evidence_ids ≡ true) × (all_known artifacts c.evidence_ids ≡ true)

abbrev pub IsGrounded : TaskLoopState → Type 0
IsGrounded s = All (Backed s.artifacts) s.acceptance_checks

all_known-insert :
    (k : String) (v : Fields) (d : Dict Fields) (ids : List String)
    → all_known d ids ≡ true
    → all_known (Dict.insert k v d) ids ≡ true
all_known-insert k v d [] h = refl
all_known-insert k v d (i ∷ ids) h =
    ground (arith, has_key-insert i k v d, all_known-insert k v d ids)

-- Adding an artifact keeps every check backed.
pub Backed-insert :
    (k : String) (v : Fields) (d : Dict Fields) (checks : List AcceptanceCheck)
    → All (Backed d) checks
    → All (Backed (Dict.insert k v d)) checks
Backed-insert k v d checks =
    All-map checks
      (λ c h passed. ((h passed).0, all_known-insert k v d c.evidence_ids (h passed).1))

judged-Backed :
    (d : Dict Fields) (claimed : String) (evidence : List String) (c : AcceptanceCheck)
    → Backed d (judged d claimed evidence c)
unfolding judged
judged-Backed d claimed evidence c h = ground arith

-- A report makes a check passed exactly when it says "passed" and gives evidence, all of which
-- is on the Blackboard.
judged_passed :
    (d : Dict Fields) (claimed : String) (evidence : List String) (c : AcceptanceCheck)
    → is_passed (judged d claimed evidence c).status
      ≡ ((claimed == "passed") && non_empty evidence && all_known d evidence)
unfolding judged
judged_passed d claimed evidence c = ground arith

update_check-All {ℓ} :
    (P : AcceptanceCheck → Type ℓ) (i : String) (f : AcceptanceCheck → AcceptanceCheck)
    (cs : List AcceptanceCheck)
    → ((c : AcceptanceCheck) → P (f c))
    → All P cs
    → All P (update_check i f cs)
unfolding update_check
update_check-All P i f [] keep h = tt
update_check-All P i f (c ∷ cs) keep h =
    if_rule (All P) (c.id == i) _ _ (λ _. (keep c, h.1))
      (λ _. (h.0, update_check-All P i f cs keep h.1))

-- Only the acceptance checks differ.
abbrev pub Rechecked : TaskLoopState → TaskLoopState → Type 0
Rechecked s s' = s' ≡ record s { acceptance_checks = s'.acceptance_checks }

judge_row-IsGrounded :
    (py : Python) (s : TaskLoopState) (row : Fields) {s' : TaskLoopState}
    → judge_row py s row ≡ ok s'
    → (IsGrounded s → IsGrounded s') × Rechecked s s'
unfolding judge_row
judge_row-IsGrounded py s row e =
    let i = str_of py (get_or "id" (str "") row) in
    elim (Option-cases (acceptance_by_id i s)) [
      | inl missing ↦
          subst (λ t. (IsGrounded s → IsGrounded t) × Rechecked s t)
            (ok_inj (rw (missing, judge_row) at e)) ((λ h. h), refl)
      | inr (c, found) ↦
          let (evidence, _, e₁) =
            >>=-eq-ok (texts_of py (get_or "evidence_ids" null row)) _
              (rw (found, judge_row) at e) in
          subst (λ t. (IsGrounded s → IsGrounded t) × Rechecked s t) (ok_inj e₁)
            (
              λ h.
                  update_check-All (Backed s.artifacts) i _ s.acceptance_checks
                    (judged-Backed s.artifacts (str_of py (get_or "status" (str "pending") row))
                      evidence)
                    h,
              refl,
            )
    ]

judge_rows-IsGrounded :
    (py : Python) (rows : List Fields) (s : TaskLoopState) {s' : TaskLoopState}
    → judge_rows py rows s ≡ ok s'
    → (IsGrounded s → IsGrounded s') × Rechecked s s'
unfolding judge_rows
judge_rows-IsGrounded py [] s e =
    subst (λ t. (IsGrounded s → IsGrounded t) × Rechecked s t) (ok_inj e) ((λ h. h), refl)
judge_rows-IsGrounded py (row ∷ rest) s {s'} e =
    let (s₁, e₁, e₂) = >>=-eq-ok (judge_row py s row) _ e in
    let (h₁, r₁) = judge_row-IsGrounded py s row e₁ in
    let (h₂, r₂) = judge_rows-IsGrounded py rest s₁ e₂ in
    (
      (λ h. h₂ (h₁ h)),
      r₂ ∙ ap {A = TaskLoopState} (λ t. record t { acceptance_checks = s'.acceptance_checks }) r₁,
    )

-- The form of the Blackboard after a judgement.
pub judge_acceptance-IsGrounded :
    (py : Python) (rows : List Fields) (s : TaskLoopState) {s' : TaskLoopState}
    → judge_acceptance py rows s ≡ ok s'
    → (IsGrounded s → IsGrounded s')
      × (s' ≡ record s {
        acceptance_checks = s'.acceptance_checks;
        status = TaskLoopStatus.reviewing_ac;
      })
unfolding judge_acceptance
judge_acceptance-IsGrounded py rows s e =
    let (s₁, e₁, e₂) = >>=-eq-ok (judge_rows py rows s) _ e in
    let (h₁, r₁) = judge_rows-IsGrounded py rows s e₁ in
    subst
      (λ t.
        (IsGrounded s → IsGrounded t)
        × (t ≡ record s {
          acceptance_checks = t.acceptance_checks;
          status = TaskLoopStatus.reviewing_ac;
        }))
      (ok_inj e₂)
      (h₁, ap {A = TaskLoopState} (λ t. record t { status = TaskLoopStatus.reviewing_ac }) r₁)

-- Judging keeps every passed check backed by evidence on the Blackboard, and changes nothing but
-- the checks and the status.
pub judge_keeps_evidence :
    (py : Python) (rows : List Fields) (s : TaskLoopState) {s' : TaskLoopState}
    → judge_acceptance py rows s ≡ ok s'
    → IsGrounded s
    → IsGrounded s'
      × (s' ≡ record s {
        acceptance_checks = s'.acceptance_checks;
        status = TaskLoopStatus.reviewing_ac;
      })
judge_keeps_evidence py rows s e h =
    let (grounded, form) = judge_acceptance-IsGrounded py rows s e in (grounded h, form)

all_satisfied-All :
    (d : Dict Fields) (cs : List AcceptanceCheck)
    → all_satisfied cs ≡ true
    → All (Backed d) cs
    → All
        (λ c.
          (is_passed c.status ≡ true)
          × (non_empty c.evidence_ids ≡ true)
          × (all_known d c.evidence_ids ≡ true))
        cs
unfolding all_satisfied
all_satisfied-All d [] e h = tt
all_satisfied-All d (c ∷ cs) e h =
    let passed : is_passed c.status ≡ true = ground arith in
    ((passed, (h.0 passed).0, (h.0 passed).1), all_satisfied-All d cs (ground arith) h.1)

-- When all is accepted, every check is passed with evidence, and all of it is on the Blackboard.
pub accepted_evidence :
    (s : TaskLoopState)
    → all_accepted s ≡ true
    → IsGrounded s
    → All
        (λ c.
          (is_passed c.status ≡ true)
          × (non_empty c.evidence_ids ≡ true)
          × (all_known s.artifacts c.evidence_ids ≡ true))
        s.acceptance_checks
unfolding all_accepted
accepted_evidence s e h = all_satisfied-All s.artifacts s.acceptance_checks (ground arith) h
