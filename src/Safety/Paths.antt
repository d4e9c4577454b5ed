-- ===== src/Safety/Paths.antt =====
-- safety/policy.py: `_ABS_PATH_RE.findall`, the absolute paths in a text. A match is the longest run
-- of characters that are neither white space nor quotes, after "/" or after a drive letter and ":".
use Prim.Native.Char.{Char, code}
use Prim.Native.String.{String, [], ◌∷◌}
use hex_agent.Base.{ℕ, zero, suc, Bool, not, ◌&&◌, ◌||◌, Option, none, some, List}
use hex_agent.Base.{leb, eqb, if◌then◌else◌}
use hex_agent.Base.Texts.{is_space, count_chars, not_blank}

-- `[^\s'"]`
abbrev is_plain : Char → Bool
is_plain c = not (is_space c || eqb (code c) 39 || eqb (code c) 34)

-- `[A-Za-z]`
abbrev is_letter : Char → Bool
is_letter c = (leb 65 (code c) && leb (code c) 90) || (leb 97 (code c) && leb (code c) 122)

-- `[\\/]`
abbrev is_slash : Char → Bool
is_slash c = eqb (code c) 47 || eqb (code c) 92

-- The longest match of `[^\s'"]*` at the start of a text.
unfoldable pub plain_run : String → String
unfolding is_space
plain_run [] = []
plain_run (c ∷ s) = let rest = plain_run s in if is_plain c then c ∷ rest else []

-- `[\\/]+[^\s'"]+` at the start of a text: a slash is itself a plain character, so the match is the
-- whole run, which must have one character more.
rooted : String → Option String
unfolding plain_run
rooted [] = none
rooted (c ∷ s) = if is_slash c && not_blank (plain_run s) then some (c ∷ plain_run s) else none

-- `[A-Za-z]:[\\/]+[^\s'"]+`
drive_path : String → Option String
unfolding rooted
drive_path (c ∷ d ∷ s) =
    if is_letter c && eqb (code d) 58
    then elim (rooted s) [ none ↦ none | some m ↦ some (c ∷ d ∷ m) ]
    else none
drive_path _ = none

-- `/[^\s'"]+`
slash_path : String → Option String
unfolding plain_run
slash_path [] = none
slash_path (c ∷ s) =
    if eqb (code c) 47 && not_blank (plain_run s) then some (c ∷ plain_run s) else none

-- `_ABS_PATH_RE.match`: the first alternative that matches.
unfoldable pub path_at : String → Option String
unfolding drive_path slash_path
path_at s = elim (drive_path s) [ some m ↦ some m | none ↦ slash_path s ]

-- The characters of a match after its first.
abbrev tail_length : String → ℕ
tail_length [] = zero
tail_length (c ∷ s) = count_chars s

-- The matches from here on, where so many characters still belong to the last one.
unfoldable pub paths_from : ℕ → String → List String
unfolding path_at count_chars
paths_from n [] = List.[]
paths_from (suc n) (c ∷ s) = paths_from n s
paths_from zero (c ∷ s) = elim (path_at (c ∷ s)) [
  | none ↦ paths_from zero s
  | some m ↦ List.◌∷◌ m (paths_from (tail_length m) s)
]

-- `_ABS_PATH_RE.findall`
unfoldable pub find_paths : String → List String
unfolding paths_from
find_paths s = paths_from zero s
