-- ===== src/Delegation/Store/Ordering.antt =====
-- The progress of a delegation is numbered from 1 and holds no event twice.
use hex_agent.Base.{
  ℕ, suc, ◌+◌, ◌≡◌, refl, ap, subst, String, ◌==◌, true, false, not, some, List, [], ◌∷◌, ◌++◌,
  arith, inl, inr,
}
use hex_agent.Base.{if_rule, eqb, length, contains, Distinct, Option-cases, Bool-cases}
use hex_agent.Base.Lists.{concat-Distinct, contains-concat}
use hex_agent.Base.Dict
use hex_agent.Base.Dict.{lookup-insert}
use hex_agent.Base.Result.{Result, ok, ok_inj}
use hex_agent.Delegation.Store.{
  DelegationProgress, DelegationStore, event_ids, append_item, append_progress, progress_of,
}

-- The numbers are n + 1, n + 2 and so on.
abbrev pub Numbered : ℕ → List DelegationProgress → Type 0
Numbered n [] = Unit
Numbered n (item ∷ rest) = (item.sequence ≡ suc n) × Numbered (suc n) rest

abbrev pub IsOrdered : List DelegationProgress → Type 0
IsOrdered items = Numbered 0 items × Distinct (event_ids items)

abbrev pub IsStore : DelegationStore → Type 0
IsStore s = (i : String) → IsOrdered (progress_of i s)

concat-Numbered :
    (n : ℕ) (items : List DelegationProgress) (item : DelegationProgress)
    → Numbered n items
    → item.sequence ≡ n + length items + 1
    → Numbered n (items ++ item ∷ [])
concat-Numbered n [] item h e = (omega (arith, e), tt)
concat-Numbered n (x ∷ rest) item h e =
    (h.0, concat-Numbered (suc n) rest item h.1 (omega (arith, e)))

event_ids-concat :
    (items : List DelegationProgress) (item : DelegationProgress)
    → event_ids (items ++ item ∷ []) ≡ event_ids items ++ item.event_id ∷ []
event_ids-concat [] item = refl
event_ids-concat (x ∷ rest) item = ap (λ ids. x.event_id ∷ ids) (event_ids-concat rest item)

concat-IsOrdered :
    (items : List DelegationProgress) (item : DelegationProgress)
    → IsOrdered items
    → contains (event_ids items) item.event_id ≡ false
    → eqb item.sequence (length items + 1) ≡ true
    → IsOrdered (items ++ item ∷ [])
concat-IsOrdered items item h fresh e = (
  concat-Numbered 0 items item h.0 (ground arith),
  rw (event_ids-concat items item) (concat-Distinct (event_ids items) item.event_id h.1 fresh),
)

append_item-IsStore :
    (item : DelegationProgress) (items : List DelegationProgress) (s : DelegationStore)
    {s' : DelegationStore}
    → Dict.lookup item.delegation_id s.progress ≡ some items
    → append_item item items s ≡ ok s'
    → IsStore s
    → IsStore s'
unfolding append_item progress_of
append_item-IsStore item items s {s'} found h all =
    if_rule Kept (contains (event_ids items) item.event_id) _ _
      (λ _ e. subst IsStore (ok_inj e) all)
      (λ fresh.
        if_rule Kept (not (eqb item.sequence (length items + 1))) _ _ (λ _ e. cc)
          (λ next e. subst IsStore (ok_inj e) (stored fresh (ground arith))))
      h
  where
    Kept : Result DelegationStore → Type 0
    Kept m = m ≡ ok s' → IsStore s'

    had : IsOrdered items
    had = rw (found, progress_of) at (all item.delegation_id)

    stored :
        contains (event_ids items) item.event_id ≡ false
        → eqb item.sequence (length items + 1) ≡ true
        → IsStore
            (record s { progress = Dict.insert item.delegation_id (items ++ item ∷ []) s.progress })
    stored fresh e i = elim (Bool-cases (i == item.delegation_id)) [
      | inl same ↦
          rw (lookup-insert i item.delegation_id (items ++ item ∷ []) s.progress, same, progress_of)
            (concat-IsOrdered items item had fresh e)
      | inr other ↦
          rw
            (lookup-insert i item.delegation_id (items ++ item ∷ []) s.progress, other, progress_of)
            (all i)
    ]

-- Appending progress keeps every delegation's progress numbered 1, 2, 3 and so on, with no event
-- in it twice.
pub append_progress-IsStore :
    (item : DelegationProgress) (s : DelegationStore) {s' : DelegationStore}
    → append_progress item s ≡ ok s'
    → IsStore s
    → IsStore s'
unfolding append_progress
append_progress-IsStore item s h all =
    elim (Option-cases (Dict.lookup item.delegation_id s.progress)) [
      | inl missing ↦ ground (arith, rw (missing, append_progress) at h)
      | inr (items, found) ↦
          append_item-IsStore item items s found (rw (found, append_progress) at h) all
    ]

append_item_again :
    (item : DelegationProgress) (items : List DelegationProgress) (s : DelegationStore)
    {s' : DelegationStore}
    → Dict.lookup item.delegation_id s.progress ≡ some items
    → append_item item items s ≡ ok s'
    → append_progress item s' ≡ ok s'
unfolding append_item append_progress
append_item_again item items s {s'} found h =
    if_rule Kept (contains (event_ids items) item.event_id) _ _
      (λ seen e.
        subst (λ t. append_progress item t ≡ ok t) (ok_inj e)
          (rw (found, seen, append_progress, append_item) refl))
      (λ fresh.
        if_rule Kept (not (eqb item.sequence (length items + 1))) _ _ (λ _ e. cc)
          (λ next e. subst (λ t. append_progress item t ≡ ok t) (ok_inj e) stored))
      h
  where
    Kept : Result DelegationStore → Type 0
    Kept m = m ≡ ok s' → append_progress item s' ≡ ok s'

    s₁ : DelegationStore
    s₁ = record s { progress = Dict.insert item.delegation_id (items ++ item ∷ []) s.progress }

    stored : append_progress item s₁ ≡ ok s₁
    stored =
        let l : Dict.lookup item.delegation_id s₁.progress ≡ some (items ++ item ∷ []) = ground (
          arith,
          lookup-insert item.delegation_id item.delegation_id (items ++ item ∷ []) s.progress,
        ) in
        let c : contains (event_ids (items ++ item ∷ [])) item.event_id ≡ true =
          rw (event_ids-concat items item)
            (ground (arith, contains-concat (event_ids items) item.event_id item.event_id)) in
        rw (l, c, append_progress, append_item) refl

-- Appending the same progress once more, as a retried write would, succeeds and changes nothing.
pub append_progress_again :
    (item : DelegationProgress) (s : DelegationStore) {s' : DelegationStore}
    → append_progress item s ≡ ok s'
    → append_progress item s' ≡ ok s'
unfolding append_progress
append_progress_again item s h = elim (Option-cases (Dict.lookup item.delegation_id s.progress)) [
  | inl missing ↦ ground (arith, rw (missing, append_progress) at h)
  | inr (items, found) ↦ append_item_again item items s found (rw (found, append_progress) at h)
]
