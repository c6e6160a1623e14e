-- ===== src/Prelude/Chars.antt =====
-- What the code does with the characters of a text: spaces, lines, the case of letters.
use Prim.Native.Nat.{ℕ, ◌-◌}
use Prim.Native.Char.{Char, code}
use Prim.Native.String.{String, ◌++◌ as ◌<>◌, slice}
use mathlib.Core.Bool.{Bool, false, ◌&&◌, ◌||◌}
use mathlib.Core.Option.{Option, none, some}
use mathlib.Core.List.{List, [], ◌∷◌}
use catallaxy.Prelude.Tests.{leb, eqb, if◌then◌else◌}
use catallaxy.Prelude.Lists.{any}
use catallaxy.Prelude.Text.{is_empty}

-- `char::is_whitespace`
abbrev pub is_space : Char → Bool
is_space c =
    let n = code c in
    any (λ k. eqb n k) (32 ∷ 133 ∷ 160 ∷ 5760 ∷ 8232 ∷ 8233 ∷ 8239 ∷ 8287 ∷ 12288 ∷ [])
    || (leb 9 n && leb n 13)
    || (leb 8192 n && leb n 8202)

module _ (p : Char → Bool) where
  abbrev pub trim_start_matches : String → String
  trim_start_matches String.[] = ""
  trim_start_matches (String.◌∷◌ c s) =
      let rest = trim_start_matches s in if p c then rest else String.◌∷◌ c s

  abbrev pub trim_end_matches : String → String
  trim_end_matches String.[] = ""
  trim_end_matches (String.◌∷◌ c s) =
      let rest = trim_end_matches s in if p c && is_empty rest then "" else String.◌∷◌ c rest

  -- `trim_matches`
  unfoldable pub trim_matches : String → String
  trim_matches s = trim_start_matches (trim_end_matches s)

-- `trim`
unfoldable pub trim : String → String
unfolding trim_matches
trim s = trim_matches is_space s

-- The pieces between the characters of the code, at least one.
abbrev pub split_at : ℕ → String → List String
split_at n String.[] = "" ∷ []
split_at n (String.◌∷◌ c s) =
    let rest = split_at n s in
    if eqb (code c) n
    then "" ∷ rest
    else elim rest [ [] ↦ String.◌∷◌ c "" ∷ [] | piece ∷ more ↦ String.◌∷◌ c piece ∷ more ]

-- `split_once` at the first character of the code.
unfoldable pub split_once : ℕ → String → Option (String × String)
split_once n String.[] = none
split_once n (String.◌∷◌ c s) =
    let rest = split_once n s in
    if eqb (code c) n
    then some ("", s)
    else elim rest [ none ↦ none | some (a, b) ↦ some (String.◌∷◌ c a, b) ]

-- Whether a character of the code is in the text.
unfoldable pub contains_char : ℕ → String → Bool
contains_char n String.[] = false
contains_char n (String.◌∷◌ c s) = eqb (code c) n || contains_char n s

-- `rsplit_once`: the text before and after the last character of the code.
unfoldable pub rsplit_once : ℕ → String → Option (String × String)
rsplit_once n String.[] = none
rsplit_once n (String.◌∷◌ c s) = elim (rsplit_once n s) [
  | some (a, b) ↦ some (String.◌∷◌ c a, b)
  | none ↦ if eqb (code c) n then some ("", s) else none
]

unfoldable pub keep_full : List String → List String
unfolding trim
keep_full [] = []
keep_full (l ∷ ls) = let rest = keep_full ls in if is_empty (trim l) then rest else trim l ∷ rest

-- The lines of a text, trimmed, without the empty ones.
unfoldable pub full_lines : String → List String
unfolding keep_full
full_lines s = keep_full (split_at b'\n' s)

-- `to_ascii_lowercase`
unfoldable pub to_ascii_lowercase : String → String
to_ascii_lowercase String.[] = ""
to_ascii_lowercase (String.◌∷◌ c s) =
    let rest = to_ascii_lowercase s in
    if leb 65 (code c) && leb (code c) 90
    then slice "abcdefghijklmnopqrstuvwxyz" (code c - 65) (code c - 64) <> rest
    else String.◌∷◌ c rest

-- `char::is_ascii_alphanumeric`
abbrev pub is_ascii_alphanumeric : Char → Bool
is_ascii_alphanumeric c =
    let n = code c in
    (leb b'0' n && leb n b'9') || (leb b'A' n && leb n b'Z') || (leb b'a' n && leb n b'z')
