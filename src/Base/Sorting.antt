-- ===== src/Base/Sorting.antt =====
-- `sorted` of texts, by the codes of their characters.
use Prim.Native.Nat.{Ordering}
use Prim.Native.String.{String, compare}
use mathlib.Core.List.{List, [], ◌∷◌}

abbrev pub insert_sorted : String → List String → List String
insert_sorted a [] = a ∷ []
insert_sorted a (b ∷ rest) = elim (compare a b) [
  | Ordering.gt ↦ b ∷ insert_sorted a rest
  | _ ↦ a ∷ b ∷ rest
]

-- `sorted(...)` of texts
unfoldable pub sorted : List String → List String
sorted [] = []
sorted (a ∷ rest) = insert_sorted a (sorted rest)
