-- ===== src/Base/Lists.antt =====
-- Lists of texts: membership as a test, and lists with no repetition.
use Prim.Native.Nat.{ℕ, zero, suc, ◌+◌}
use Prim.Native.String.{String}
use mathlib.Core.Path.{◌≡◌, refl}
use mathlib.Core.Bool.{Bool, true, false, ◌||◌}
use mathlib.Core.List.{List, [], ◌∷◌, ◌++◌}
use native.Mathlib.Omega.{arith}
use hex_agent.Base.Texts.{◌==◌}

module _ {ℓ} {A : Type ℓ} where
  abbrev pub length : List A → ℕ
  length [] = 0
  length (a ∷ rest) = suc (length rest)

  -- Without the first n.
  abbrev pub drop : ℕ → List A → List A
  drop zero xs = xs
  drop (suc n) [] = []
  drop (suc n) (x ∷ xs) = drop n xs

  abbrev pub All {κ} : (A → Type κ) → List A → Type κ
  All P [] = Unit
  All P (a ∷ rest) = P a × All P rest

module _ {ℓ} {A : Type ℓ} where
  pub length-append : (xs ys : List A) → length (xs ++ ys) ≡ length xs + length ys
  length-append [] ys = omega arith
  length-append (x ∷ xs) ys = omega (arith, length-append xs ys)

  pub All-append {κ} : (P : A → Type κ) (xs ys : List A) → All P xs → All P ys → All P (xs ++ ys)
  All-append P [] ys h k = k
  All-append P (x ∷ xs) ys h k = (h.0, All-append P xs ys h.1 k)

  pub All-member {κ} : (P : A → Type κ) (xs ys : List A) (a : A) → All P (xs ++ a ∷ ys) → P a
  All-member P [] ys a h = h.0
  All-member P (x ∷ xs) ys a h = All-member P xs ys a h.1

  pub All-replaced {κ} :
      (P : A → Type κ) (xs ys : List A) (a b : A)
      → All P (xs ++ a ∷ ys)
      → P b
      → All P (xs ++ b ∷ ys)
  All-replaced P [] ys a b h k = (k, h.1)
  All-replaced P (x ∷ xs) ys a b h k = (h.0, All-replaced P xs ys a b h.1 k)

  pub All-map {κ μ} :
      {P : A → Type κ} {Q : A → Type μ} (xs : List A) → ((a : A) → P a → Q a) → All P xs → All Q xs
  All-map [] f h = tt
  All-map (x ∷ xs) f h = (f x h.0, All-map xs f h.1)

-- `a in xs`
abbrev pub contains : List String → String → Bool
contains [] a = false
contains (x ∷ xs) a = a == x || contains xs a

abbrev pub Distinct : List String → Type 0
Distinct [] = Unit
Distinct (x ∷ xs) = (contains xs x ≡ false) × Distinct xs

pub contains-append :
    (xs ys : List String) (a : String) → contains (xs ++ ys) a ≡ (contains xs a || contains ys a)
contains-append [] ys a = refl
contains-append (x ∷ xs) ys a = ground (arith, contains-append xs ys a)

pub contains-concat :
    (xs : List String) (b a : String) → contains (xs ++ b ∷ []) a ≡ (contains xs a || a == b)
contains-concat xs b a = ground (arith, contains-append xs (b ∷ []) a)

pub concat-Distinct :
    (xs : List String) (b : String) → Distinct xs → contains xs b ≡ false → Distinct (xs ++ b ∷ [])
concat-Distinct [] b u h = (refl, tt)
concat-Distinct (x ∷ xs) b u h = ground (arith, concat-Distinct xs b u.1, contains-concat xs b x)

All-contains_of :
    (xs ys : List String)
    → ((a : String) → contains xs a ≡ true → contains ys a ≡ true)
    → All (λ a. contains ys a ≡ true) xs
All-contains_of [] ys f = tt
All-contains_of (x ∷ xs) ys f =
    (f x (ground arith), All-contains_of xs ys (λ a h. f a (ground arith)))

pub All-contains : (xs : List String) → All (λ a. contains xs a ≡ true) xs
All-contains xs = All-contains_of xs xs (λ a h. h)
