-- ===== src/Base/Result.antt =====
-- What a call that may raise returns. The exceptions are told apart by their class; the text of
-- their messages is not modelled.
use mathlib.Core.Path.{◌≡◌, refl}
use mathlib.Core.Logic.{◌⊎◌, inl, inr}

pub data Error : Type 0 where
  contract_error json_gate_error value_error type_error attribute_error : Error
  permission_error runtime_error lookup_error file_not_found_error : Error

pub data Result {ℓ} (A : Type ℓ) : Type ℓ where
  err : Error → Result A
  ok : A → Result A

-- The next call, if this one has not raised.
infixl 5 ◌>>=◌
abbrev pub ◌>>=◌ {ℓ κ} : {A : Type ℓ} {B : Type κ} → Result A → (A → Result B) → Result B
err raised >>= next = err raised
ok value >>= next = next value

-- A chain that returns has a first call that returned, and the rest returned on its value.
pub >>=-eq-ok {ℓ κ} :
    {A : Type ℓ} {B : Type κ} (first : Result A) (rest : A → Result B) {end_value : B}
    → (first >>= rest) ≡ ok end_value
    → (middle : A) × (first ≡ ok middle) × (rest middle ≡ ok end_value)
>>=-eq-ok (err raised) rest e = cc
>>=-eq-ok (ok middle) rest e = (middle, refl, e)

pub ok_inj {ℓ} : {A : Type ℓ} {a b : A} → ok a ≡ ok b → a ≡ b
ok_inj e = cc

pub Result-cases {ℓ} :
    {A : Type ℓ} (m : Result A) → ((e : Error) × (m ≡ err e)) ⊎ ((a : A) × (m ≡ ok a))
Result-cases (ok a) = inr (a, refl)
Result-cases (err e) = inl (e, refl)

-- What raises has not returned.
pub err-absurd {ℓ κ} : {A : Type ℓ} {B : Type κ} {b : B} {e : Error} → err e ≡ ok b → A
err-absurd e = cc
