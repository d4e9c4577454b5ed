-- ===== src/Supervisor/Round/Fresh.antt =====
-- The agents that a round is to run, by an independent description: those with no turn, each once.
use hex_agent.Base.{◌≡◌, refl, String, true, false, List, [], ◌∷◌, inl, inr, arith}
use hex_agent.Base.{Distinct, contains, Bool-cases}

-- The ids that are not done yet, each once, in order.
unfoldable pub fresh : List String → List String → List String
fresh done [] = []
fresh done (a ∷ rest) = elim (contains done a) [
  | true ↦ fresh done rest
  | false ↦ a ∷ fresh (a ∷ done) rest
]

-- What is not done is fresh once: no repetition, and nothing that is done.
pub fresh-Distinct :
    (done ids : List String)
    → Distinct (fresh done ids)
      × ((a : String) → contains done a ≡ true → contains (fresh done ids) a ≡ false)
unfolding fresh
fresh-Distinct done [] = (tt, λ a h. refl)
fresh-Distinct done (a ∷ rest) =
    let skipped = fresh-Distinct done rest in
    let taken = fresh-Distinct (a ∷ done) rest in
    elim (Bool-cases (contains done a)) [
      | inl e ↦ rw (e, fresh) skipped
      | inr e ↦
          rw (e, fresh) ((taken.1 a (ground arith), taken.0), λ b h. ground (arith, taken.1 b))
    ]
