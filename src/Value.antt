-- ===== src/Value.antt =====
-- The values of a decoded JSON document, with Python's `dict.get`, `bool()` and `str()` on them.
-- Fractional numbers are not modelled. `Python` holds what the interpreter does with values that
-- the code hands to it and that this library does not look into.
use hex_agent.Base.{zero, String, ◌==◌, Bool, true, false, Option, none, some, not_blank}
use hex_agent.Base.{◌≡◌, refl, ap, if◌then◌else◌, List, [], ◌∷◌, arith}
use hex_agent.Base.Int.{ℤ, pos}
use hex_agent.Base.Result.{Result, ok, err, type_error, value_error, ◌>>=◌}

mutual
  pub data Value : Type 0 where
    null : Value
    bool : Bool → Value
    num : ℤ → Value
    str : String → Value
    arr : Items → Value
    obj : Fields → Value

  -- a mapping, in the order of its keys
  pub data Fields : Type 0 where
    end : Fields
    field : String → Value → Fields → Fields

  pub data Items : Type 0 where
    nil : Items
    cons : Value → Items → Items

-- `d.get(k)`, with none for a missing key.
abbrev pub get : String → Fields → Option Value
get k end = none
get k (field j v d) = if k == j then some v else get k d

-- `d.get(k, default)`
abbrev pub get_or : String → Value → Fields → Value
get_or k default d = elim (get k d) [ none ↦ default | some v ↦ v ]

-- `bool(v)`
abbrev pub truthy : Value → Bool
truthy null = false
truthy (bool b) = b
truthy (num (pos zero)) = false
truthy (num _) = true
truthy (str s) = not_blank s
truthy (arr nil) = false
truthy (arr (cons _ _)) = true
truthy (obj end) = false
truthy (obj (field _ _ _)) = true

pub record Python : Type 0 where
  -- `str(v)` of a value that is not a `str`
  pub show : Value → String
  -- `int(s)` of a text
  pub int_of_text : String → Option ℤ
  -- `dict(v)` of a list: a list of pairs is accepted, anything else raises a TypeError or, when an
  -- element has another length than two, a ValueError
  pub dict_of_list : Items → Result Fields

-- `str(v)`
abbrev pub str_of : Python → Value → String
str_of py (str s) = s
str_of py v = py.show v

abbrev int_or_raise : Option ℤ → Result ℤ
int_or_raise none = err value_error
int_or_raise (some n) = ok n

-- `int(v)`
abbrev pub int_of : Python → Value → Result ℤ
int_of py (num n) = ok n
int_of py (bool b) = ok (if b then pos 1 else pos 0)
int_of py (str s) = int_or_raise (py.int_of_text s)
int_of py _ = err type_error

-- `dict(v)`
abbrev pub dict_of : Python → Value → Result Fields
dict_of py (obj d) = ok d
dict_of py (arr items) = py.dict_of_list items
dict_of py (str s) = if not_blank s then err value_error else ok end
dict_of py _ = err type_error

-- `dict(v or {})`
abbrev pub dict_or_empty : Python → Value → Result Fields
dict_or_empty py v = elim (truthy v) [ true ↦ dict_of py v | false ↦ ok end ]

abbrev pub to_list : Items → List Value
to_list nil = []
to_list (cons v rest) = v ∷ to_list rest

abbrev pub texts : List String → Items
texts [] = nil
texts (s ∷ rest) = cons (str s) (texts rest)

abbrev chars : String → List Value
chars String.[] = []
chars (String.◌∷◌ c s) = str (String.◌∷◌ c String.[]) ∷ chars s

abbrev names : Fields → List Value
names end = []
names (field k v d) = str k ∷ names d

-- `for x in v`: the members of a list, the characters of a text, the keys of a mapping.
abbrev pub iterate : Value → Result (List Value)
iterate (arr items) = ok (to_list items)
iterate (str s) = ok (chars s)
iterate (obj d) = ok (names d)
iterate _ = err type_error

abbrev pub strs_of : Python → List Value → List String
strs_of py [] = []
strs_of py (v ∷ rest) = str_of py v ∷ strs_of py rest

-- `[str(x) for x in (v or [])]`
abbrev pub texts_of : Python → Value → Result (List String)
texts_of py v = elim (truthy v) [ true ↦ iterate v >>= λ xs. ok (strs_of py xs) | false ↦ ok [] ]

-- `d[k] = v`
abbrev pub set : String → Value → Fields → Fields
set k v end = field k v end
set k v (field j w d) = if k == j then field k v d else field j w (set k v d)

-- `{**d, **e}`
abbrev pub merge : Fields → Fields → Fields
merge d end = d
merge d (field k v e) = merge (set k v d) e

abbrev pub optional_text : Option String → Value
optional_text none = null
optional_text (some s) = str s

pub strs_of-texts : (py : Python) (xs : List String) → strs_of py (to_list (texts xs)) ≡ xs
strs_of-texts py [] = refl
strs_of-texts py (x ∷ xs) = ap (λ ys. x ∷ ys) (strs_of-texts py xs)

-- A list of texts is read back as it is.
pub texts_of-texts : (py : Python) (xs : List String) → texts_of py (arr (texts xs)) ≡ ok xs
texts_of-texts py [] = refl
texts_of-texts py (x ∷ xs) = ap (λ ys. ok (x ∷ ys)) (strs_of-texts py xs)

-- What a mapping gives for a key that may come twice: its last value.
abbrev pub last_value : String → Fields → Option Value
last_value k end = none
last_value k (field j v d) =
    let rest = last_value k d in
    elim rest [ some w ↦ some w | none ↦ if k == j then some v else none ]

abbrev pub first_of {ℓ} : {A : Type ℓ} → Option A → Option A → Option A
first_of (some a) b = some a
first_of none b = b

pub get-set :
    (j k : String) (v : Value) (d : Fields)
    → get j (set k v d) ≡ (if j == k then some v else get j d)
get-set j k v end = refl
get-set j k v (field i w d) = ground (arith, get-set j k v d)

pub get-merge :
    (k : String) (d e : Fields) → get k (merge d e) ≡ first_of (last_value k e) (get k d)
get-merge k d end = refl
get-merge k d (field j v e) = ground (arith, get-merge k (set j v d) e, get-set k j v d)
