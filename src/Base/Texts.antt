-- ===== src/Base/Texts.antt =====
-- Python's `==` on `str`, and `str.strip()` with the characters that it takes for white space.
use Prim.Native.Nat.{ℕ, zero, suc}
use Prim.Native.Char.{Char, code}
use Prim.Native.String.{String, [], ◌∷◌}
use mathlib.Core.Logic.{ite, dite}
use mathlib.Core.Bool.{Bool, true, false, ◌&&◌, ◌||◌, Bool-discrete}
use text.Mathlib.Text
use text.Mathlib.TextEquality.{eq_iff}
use hex_agent.Base.Tests.{leb, eqb, if◌then◌else◌}

-- Shut in proofs, where a split on `s == t` gives the equation or its negation.
unfoldable pub String-discrete : Discrete String
String-discrete s t =
    dite (Bool-discrete (Text.◌==◌ s t) true) (λ same. yes ((eq_iff s t).0 same))
      (λ differ. no (λ p. differ ((eq_iff s t).1 p)))

infix 50 ◌==◌
abbrev pub ◌==◌ : String → String → Bool
s == t = ite (String-discrete s t) true false

-- `str.isspace` of one character.
unfoldable pub is_space : Char → Bool
is_space c =
    let n : ℕ = code c in
    (leb 9 n && leb n 13)
    || (leb 28 n && leb n 32)
    || eqb n 133
    || eqb n 160
    || eqb n 5760
    || (leb 8192 n && leb n 8202)
    || eqb n 8232
    || eqb n 8233
    || eqb n 8239
    || eqb n 8287
    || eqb n 12288

lstrip : String → String
lstrip [] = []
lstrip (c ∷ s) = let rest = lstrip s in if is_space c then rest else c ∷ s

-- What `rstrip` leaves of a text whose tail is stripped already.
keep : Char → String → String
keep c [] = if is_space c then [] else c ∷ []
keep c (d ∷ s) = c ∷ d ∷ s

rstrip : String → String
rstrip [] = []
rstrip (c ∷ s) = keep c (rstrip s)

unfoldable pub strip : String → String
unfolding is_space lstrip keep rstrip
strip s = rstrip (lstrip s)

-- The truth value of a text: false for the empty one.
abbrev pub not_blank : String → Bool
not_blank [] = false
not_blank (_ ∷ _) = true

-- `s[:n]`
unfoldable pub take_chars : ℕ → String → String
take_chars zero s = ""
take_chars (suc n) [] = ""
take_chars (suc n) (c ∷ s) = c ∷ take_chars n s

-- `len(s)`
unfoldable pub count_chars : String → ℕ
count_chars [] = 0
count_chars (c ∷ s) = suc (count_chars s)

begins : String → String → Bool
begins [] s = true
begins (c ∷ p) [] = false
begins (c ∷ p) (d ∷ s) = eqb (code c) (code d) && begins p s

-- `part in s`
unfoldable pub includes : String → String → Bool
unfolding begins
includes part [] = begins part []
includes part (c ∷ s) = begins part (c ∷ s) || includes part s

-- A slash, or a backslash.
is_separator : Char → Bool
is_separator c = eqb (code c) 47 || eqb (code c) 92

has_separator : String → Bool
unfolding is_separator
has_separator [] = false
has_separator (c ∷ s) = is_separator c || has_separator s

-- `s.replace("\\", "/").split("/")[-1]`
unfoldable pub last_segment : String → String
unfolding is_separator has_separator
last_segment [] = []
last_segment (c ∷ s) =
    let rest = last_segment s in
    if has_separator s then rest else if is_separator c then s else c ∷ s

-- What is left of a text by `replace`, where the flag says that a backslash stands before it which
-- is not yet half of a pair.
after_backslash : Bool → String → String
after_backslash pending [] = []
after_backslash pending (c ∷ s) = elim (eqb (code c) 92) [
  | false ↦ c ∷ after_backslash false s
  | true ↦ elim pending [ true ↦ after_backslash false s | false ↦ c ∷ after_backslash true s ]
]

-- `s.replace("\\\\", "\\")`
unfoldable pub single_backslashes : String → String
unfolding after_backslash
single_backslashes s = after_backslash false s
