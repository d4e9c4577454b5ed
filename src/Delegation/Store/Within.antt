-- ===== src/Delegation/Store/Within.antt =====
-- delegation/store.py: how much progress a delegation has.
use hex_agent.Base.{
  ℕ, ◌+◌, ◌≤◌, ◌≡◌, subst, String, ◌==◌, Bool, true, false, not, some, List, [], ◌∷◌, ◌++◌, arith,
  Bool-cases, Option-cases, inl, inr, contains, ltb, eqb, length, if_rule,
}
use hex_agent.Base.Lists.{length-append}
use hex_agent.Base.Dict
use hex_agent.Base.Dict.{lookup-insert}
use hex_agent.Base.Result.{Result, ok, ok_inj, err-absurd}
use hex_agent.Core.Schemas.{DelegationResult}
use hex_agent.Delegation.Store.{
  DelegationRequest, DelegationProgress, DelegationStore, start, append_progress, append_item,
  finish, event_ids, progress_of, differs,
}
use hex_agent.Delegation.Store.Ordering.{IsStore, append_progress-IsStore}

-- Every delegation's progress is in order, and that of one has at most n items.
abbrev pub IsWithin : String → ℕ → DelegationStore → Type 0
IsWithin i n s = IsStore s × (length (progress_of i s) ≤ n)

append_item-length :
    (i : String) (n : ℕ) (p : DelegationProgress) (items : List DelegationProgress)
    (s : DelegationStore) {s' : DelegationStore}
    → Dict.lookup p.delegation_id s.progress ≡ some items
    → p.delegation_id == i ≡ true
    → ltb n p.sequence ≡ false
    → append_item p items s ≡ ok s'
    → length (progress_of i s) ≤ n
    → length (progress_of i s') ≤ n
unfolding append_item progress_of
append_item-length i n p items s {s'} found mine small e =
    if_rule Kept (contains (event_ids items) p.event_id) _ _
      (λ _ e h. subst (λ x. length (progress_of i x) ≤ n) (ok_inj e) h)
      (λ _.
        if_rule Kept (not (eqb p.sequence (length items + 1))) _ _ (λ _ e h. err-absurd e)
          (λ next e h.
            subst (λ x. length (progress_of i x) ≤ n) (ok_inj e) (longer (ground arith))))
      e
  where
    Kept : Result DelegationStore → Type 0
    Kept m = m ≡ ok s' → length (progress_of i s) ≤ n → length (progress_of i s') ≤ n

    longer :
        eqb p.sequence (length items + 1) ≡ true
        → length (
            progress_of i
              (record s { progress = Dict.insert p.delegation_id (items ++ p ∷ []) s.progress }))
          ≤ n
    longer next =
        rw (progress_of, lookup-insert i p.delegation_id (items ++ p ∷ []) s.progress)
          (ground (arith, mine, small, next, length-append items (p ∷ [])))

pub append_progress-IsWithin :
    (i : String) (n : ℕ) (p : DelegationProgress) (s : DelegationStore) {s' : DelegationStore}
    → p.delegation_id == i ≡ true
    → ltb n p.sequence ≡ false
    → append_progress p s ≡ ok s'
    → IsWithin i n s
    → IsWithin i n s'
unfolding append_progress
append_progress-IsWithin i n p s mine small e h = (
  append_progress-IsStore p s e h.0,
  elim (Option-cases (Dict.lookup p.delegation_id s.progress)) [
    | inl l ↦ err-absurd (rw (append_progress, l) at e)
    | inr (items, l) ↦
        append_item-length i n p items s l mine small (rw (append_progress, l) at e) h.1
  ],
)

pub start-IsWithin :
    (n : ℕ) (q : DelegationRequest) (s : DelegationStore) {s' : DelegationStore}
    → start q s ≡ ok s'
    → IsStore s
    → IsWithin q.delegation_id n s'
unfolding start progress_of
start-IsWithin n q s {s'} e h =
    if_rule Started (Dict.has_key s.requests q.delegation_id) _ _ (λ _ e. err-absurd e)
      (λ _ e. subst (IsWithin q.delegation_id n) (ok_inj e) (kept, empty)) e
  where
    Started : Result DelegationStore → Type 0
    Started m = m ≡ ok s' → IsWithin q.delegation_id n s'

    after : DelegationStore
    after = record s {
      requests = Dict.insert q.delegation_id q s.requests;
      progress = Dict.insert q.delegation_id [] s.progress;
    }

    kept : IsStore after
    kept i = elim (Bool-cases (i == q.delegation_id)) [
      | inl e ↦ rw (progress_of, lookup-insert i q.delegation_id [] s.progress, e) (tt, tt)
      | inr e ↦ rw (progress_of, lookup-insert i q.delegation_id [] s.progress, e) (h i)
    ]

    empty : length (progress_of q.delegation_id after) ≤ n
    empty =
        rw (progress_of, lookup-insert q.delegation_id q.delegation_id [] s.progress) (ground arith)

pub finish-IsWithin :
    (i : String) (n : ℕ) (equal : DelegationResult → DelegationResult → Bool) (r : DelegationResult)
    (s : DelegationStore) {s' : DelegationStore}
    → finish equal r s ≡ ok s'
    → IsWithin i n s
    → IsWithin i n s'
unfolding finish progress_of
finish-IsWithin i n equal r s {s'} e h =
    if_rule Finished (not (Dict.has_key s.requests r.delegation_id)) _ _ (λ _ e. err-absurd e)
      (λ _.
        if_rule Finished (differs equal (Dict.lookup r.delegation_id s.results) r) _ _
          (λ _ e. err-absurd e) (λ _ e. subst (IsWithin i n) (ok_inj e) h))
      e
  where
    Finished : Result DelegationStore → Type 0
    Finished m = m ≡ ok s' → IsWithin i n s'
