-- ===== src/Delegation/Manager/Open.antt =====
-- delegation/manager.py: a delegation between its start and its result.
use hex_agent.Base.{
  ℕ, ◌≡◌, refl, sym, subst, String, ◌==◌, Bool, true, false, not, Option, none, List, [], arith,
  Option-cases, ◌+◌, inl, inr, contains, ltb, eqb, length, if_rule,
}
use hex_agent.Base.Dict
use hex_agent.Base.Dict.{lookup-insert}
use hex_agent.Base.Result.{Result, Error, ok, Result-cases, ok_inj, err-absurd}
use hex_agent.Core.Schemas.{DelegationResult}
use hex_agent.Delegation.Store.{
  DelegationRequest, DelegationProgress, DelegationStore, start, append_progress, append_item,
  finish, event_ids,
}
use hex_agent.Delegation.Handling.{Play, returns, raises, reports, works, DelegationRun}
use hex_agent.Delegation.Manager.{progress_sink, played}

-- The delegation has started and has no result yet.
abbrev pub IsOpen : String → DelegationStore → Type 0
IsOpen i s = (Dict.has_key s.requests i ≡ true) × (Dict.lookup i s.results ≡ none)

pub append_item-IsOpen :
    (i : String) (p : DelegationProgress) (items : List DelegationProgress) (s : DelegationStore)
    {s' : DelegationStore}
    → append_item p items s ≡ ok s'
    → IsOpen i s
    → IsOpen i s'
unfolding append_item
append_item-IsOpen i p items s {s'} e =
    if_rule Kept (contains (event_ids items) p.event_id) _ _
      (λ _ e h. subst (IsOpen i) (ok_inj e) h)
      (λ _.
        if_rule Kept (not (eqb p.sequence (length items + 1))) _ _ (λ _ e h. err-absurd e)
          (λ _ e h. subst (IsOpen i) (ok_inj e) h))
      e
  where
    Kept : Result DelegationStore → Type 0
    Kept m = m ≡ ok s' → IsOpen i s → IsOpen i s'

pub append_progress-IsOpen :
    (i : String) (p : DelegationProgress) (s : DelegationStore) {s' : DelegationStore}
    → append_progress p s ≡ ok s'
    → IsOpen i s
    → IsOpen i s'
unfolding append_progress
append_progress-IsOpen i p s e = elim (Option-cases (Dict.lookup p.delegation_id s.progress)) [
  | inl l ↦ err-absurd (rw (append_progress, l) at e)
  | inr (items, l) ↦ append_item-IsOpen i p items s (rw (append_progress, l) at e)
]

pub start-IsOpen :
    (q : DelegationRequest) (s : DelegationStore)
    → Dict.has_key s.requests q.delegation_id ≡ false
    → Dict.lookup q.delegation_id s.results ≡ none
    → (s' : DelegationStore) × (start q s ≡ ok s') × IsOpen q.delegation_id s'
unfolding start
start-IsOpen q s h l = (
  record s {
    requests = Dict.insert q.delegation_id q s.requests;
    progress = Dict.insert q.delegation_id [] s.progress;
  },
  rw (start, h) refl,
  (ground (arith, lookup-insert q.delegation_id q.delegation_id q s.requests), l),
)

pub finish-IsOpen :
    (equal : DelegationResult → DelegationResult → Bool) (i : String) (r : DelegationResult)
    (s : DelegationStore)
    → r.delegation_id ≡ i
    → IsOpen i s
    → finish equal r s ≡ ok (record s { results = Dict.insert r.delegation_id r s.results })
unfolding finish
finish-IsOpen equal i r s same h =
    let (there, free) = subst (λ j. IsOpen j s) (sym same) h in rw (finish, there, free) refl

module _ {W : Type 0} where
  pub progress_sink-IsOpen :
      (i j : String) (n : ℕ) (p : DelegationProgress) (d : DelegationRun W)
      → IsOpen i d.store
      → IsOpen i (progress_sink j n p d).1.store
  unfolding progress_sink
  progress_sink-IsOpen i j n p d h =
      if_rule Open (not (p.delegation_id == j)) _ _ (λ _. h)
        (λ _.
          if_rule Open (ltb n p.sequence) _ _ (λ _. h)
            (λ _. elim (Result-cases (append_progress p d.store)) [
              | inl (x, e) ↦ rw e h
              | inr (s, e) ↦ rw e (append_progress-IsOpen i p d.store e h)
            ]))
    where
      Open : Option Error × DelegationRun W → Type 0
      Open x = IsOpen i x.1.store

  pub played-IsOpen :
      (i j : String) (n : ℕ) (p : Play W) (d : DelegationRun W)
      → IsOpen i d.store
      → IsOpen i (played j n p d).1.store
  unfolding played
  played-IsOpen i j n (returns r) d h = h
  played-IsOpen i j n (raises text) d h = h
  played-IsOpen i j n (reports p next) d h =
      let x = progress_sink j n p d in
      played-IsOpen i j n (next x.0) x.1 (progress_sink-IsOpen i j n p d h)
  played-IsOpen i j n (works change next) d h =
      played-IsOpen i j n (next (change d.workspace)) (record d { workspace = change d.workspace })
        h
