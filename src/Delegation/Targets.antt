-- ===== src/Delegation/Targets.antt =====
-- delegation/registry.py: which handler takes a target. A handler is read by its name and by what
-- it says it can handle.
use hex_agent.Base.{
  ◌≡◌, refl, String, Bool, true, false, List, [], ◌∷◌, ◌++◌, arith, map, ap, subst, sym, ◌∙◌,
}
use hex_agent.Base.{if◌then◌else◌, if_rule, All, contains, Distinct}
use hex_agent.Base.Lists.{concat-Distinct}
use hex_agent.Base.Result.{Result, ok, err, value_error, runtime_error, lookup_error, ok_inj}

pub record DelegationHandler : Type 0 where
  pub name : String
  pub can_handle : String → Bool

pub record DelegationRegistry : Type 0 where
  pub handlers : List DelegationHandler
  pub frozen : Bool

unfoldable pub register : DelegationHandler → DelegationRegistry → Result DelegationRegistry
register handler r =
    if r.frozen
    then err runtime_error
    else if contains (map (λ h. h.name) r.handlers) handler.name
    then err value_error
    else ok (record r { handlers = r.handlers ++ handler ∷ [] })

unfoldable pub freeze : DelegationRegistry → DelegationRegistry
freeze r = record r { frozen = true }

unfoldable pub matches : String → List DelegationHandler → List DelegationHandler
matches target [] = []
matches target (h ∷ hs) = if h.can_handle target then h ∷ matches target hs else matches target hs

abbrev only_one : List DelegationHandler → Result DelegationHandler
only_one [] = err lookup_error
only_one (h ∷ []) = ok h
only_one (h ∷ g ∷ rest) = err lookup_error

unfoldable pub resolve : String → DelegationRegistry → Result DelegationHandler
unfolding matches
resolve target r = only_one (matches target r.handlers)

names-concat :
    (hs : List DelegationHandler) (h : DelegationHandler)
    → map (λ (x : DelegationHandler). x.name) (hs ++ h ∷ []) ≡ map (λ x. x.name) hs ++ h.name ∷ []
names-concat [] h = refl
names-concat (x ∷ hs) h = ap (λ ids. x.name ∷ ids) (names-concat hs h)

-- The only handler of a target, with the others around it.
abbrev pub OnlyHandler : String → List DelegationHandler → DelegationHandler → Type 0
OnlyHandler target hs h =
    (before : List DelegationHandler) × (later : List DelegationHandler) × (hs
      ≡ before ++ h ∷ later)
    × (h.can_handle target ≡ true)
    × All (λ g. g.can_handle target ≡ false) before
    × All (λ g. g.can_handle target ≡ false) later

matches-none :
    (target : String) (hs : List DelegationHandler)
    → matches target hs ≡ []
    → All (λ g. g.can_handle target ≡ false) hs
unfolding matches
matches-none target [] e = tt
matches-none target (h ∷ hs) e =
    if_rule
      (λ (m : List DelegationHandler). m ≡ [] → All (λ g. g.can_handle target ≡ false) (h ∷ hs))
      (h.can_handle target) (h ∷ matches target hs) (matches target hs) (λ _ k. ground arith)
      (λ no k. (no, matches-none target hs k)) e

matches-one :
    (target : String) (hs : List DelegationHandler) (g : DelegationHandler)
    → matches target hs ≡ g ∷ []
    → OnlyHandler target hs g
unfolding matches
matches-one target [] g e = ground arith
matches-one target (h ∷ hs) g e =
    let rest : matches target hs ≡ g ∷ [] → OnlyHandler target hs g =
      λ k. matches-one target hs g k in
    if_rule (λ (m : List DelegationHandler). m ≡ g ∷ [] → OnlyHandler target (h ∷ hs) g)
      (h.can_handle target) (h ∷ matches target hs) (matches target hs)
      (λ yes k.
        let first : h ≡ g = cc in
        let none_left : matches target hs ≡ [] = cc in
        ([], hs, ap (λ x. x ∷ hs) first, rw (sym first) yes, tt, matches-none target hs none_left))
      (λ no k.
        let (before, later, same, can, none_before, none_later) = rest k in
        (h ∷ before, later, ap (λ xs. h ∷ xs) same, can, (no, none_before), none_later))
      e

-- A target that is resolved goes to the one handler, of all that are registered, that can handle it.
pub resolve_only :
    (target : String) (r : DelegationRegistry) {h : DelegationHandler}
    → resolve target r ≡ ok h
    → OnlyHandler target r.handlers h
unfolding resolve
resolve_only target r {h} e = go (matches target r.handlers) refl e
  where
    go :
        (m : List DelegationHandler)
        → matches target r.handlers ≡ m
        → only_one m ≡ ok h
        → OnlyHandler target r.handlers h
    go [] k e' = cc
    go (x ∷ []) k e' = matches-one target r.handlers h (k ∙ ap (λ y. y ∷ []) (ok_inj e'))
    go (x ∷ y ∷ rest) k e' = cc

-- Registering keeps the names of the handlers distinct, and nothing is registered once the
-- registry is frozen.
register-Distinct :
    (handler : DelegationHandler) (r : DelegationRegistry) {r' : DelegationRegistry}
    → register handler r ≡ ok r'
    → Distinct (map (λ h. h.name) r.handlers)
    → Distinct (map (λ h. h.name) r'.handlers)
      × (r.frozen ≡ false)
      × (r'.handlers ≡ r.handlers ++ handler ∷ [])
unfolding register
register-Distinct handler r {r'} e distinct =
    if_rule Registered r.frozen _ _ (λ _ k. cc)
      (λ thawed.
        if_rule Registered (contains (map (λ h. h.name) r.handlers) handler.name) _ _ (λ _ k. cc)
          (λ fresh k.
            subst
              (λ (t : DelegationRegistry).
                Distinct (map (λ h. h.name) t.handlers)
                × (r.frozen ≡ false)
                × (t.handlers ≡ r.handlers ++ handler ∷ []))
              (ok_inj k)
              (
                rw (names-concat r.handlers handler)
                    (concat-Distinct (map (λ h. h.name) r.handlers) handler.name distinct fresh),
                thawed,
                refl,
              )))
      e
  where
    Registered : Result DelegationRegistry → Type 0
    Registered m =
        m ≡ ok r'
        → Distinct (map (λ h. h.name) r'.handlers)
          × (r.frozen ≡ false)
          × (r'.handlers ≡ r.handlers ++ handler ∷ [])
