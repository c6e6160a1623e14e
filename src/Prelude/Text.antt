-- ===== src/Prelude/Text.antt =====
-- What the code does with texts: decimal numbers in messages, joins, emptiness.
use Prim.Native.Nat.{ℕ, zero, suc, ◌/◌, ◌%◌}
use Prim.Native.String.{String, ◌++◌ as ◌<>◌}
use mathlib.Core.Bool.{Bool, true, false}
use mathlib.Core.List.{List, [], ◌∷◌}
use Prim.Native.String.{len, slice}
use Prim.Native.Nat.{◌-◌}
use mathlib.Core.Option.{Option, none, some}
use text.Mathlib.Text.{◌==◌, starts_with, get?, find?}
use catallaxy.Prelude.Tests.{ltb, eqb, if◌then◌else◌}
use catallaxy.Prelude.Lists.{any}

-- The text of one decimal digit.
abbrev pub digit : ℕ → String
digit d =
    if eqb d 0
    then "0"
    else if eqb d 1
    then "1"
    else if eqb d 2
    then "2"
    else if eqb d 3
    then "3"
    else if eqb d 4
    then "4"
    else if eqb d 5
    then "5"
    else if eqb d 6
    then "6"
    else if eqb d 7
    then "7"
    else if eqb d 8
    then "8"
    else "9"

-- A number has at most as many digits as its value and one more.
unfoldable pub decimal_fuel : ℕ → ℕ → String
decimal_fuel zero n = ""
decimal_fuel (suc f) n =
    let more = decimal_fuel f (n / 10) <> digit (n % 10) in if ltb n 10 then digit n else more

-- `{}` at an unsigned number.
unfoldable pub decimal : ℕ → String
unfolding decimal_fuel
decimal n = decimal_fuel (suc n) n

-- `items.join(sep)`
unfoldable pub join : String → List String → String
join sep [] = ""
join sep (s ∷ []) = s
join sep (s ∷ t ∷ rest) = s <> (sep <> join sep (t ∷ rest))

abbrev pub is_empty : String → Bool
is_empty s = s == ""

-- `items.contains(text)`
abbrev pub contains : List String → String → Bool
contains items t = any (λ s. s == t) items

-- `s.contains(t)`
abbrev pub has_text : String → String → Bool
has_text s t = elim (find? s t) [ none ↦ false | some _ ↦ true ]

-- `s.strip_prefix(p)`
unfoldable pub strip_prefix : String → String → Option String
strip_prefix s p = if starts_with s p then some (slice s (len p) (len s)) else none

-- `s.strip_suffix(t)`
unfoldable pub strip_suffix : String → String → Option String
strip_suffix s t = elim (get? s (len s - len t) (len s)) [
  | none ↦ none
  | some rest ↦ if rest == t then some (slice s 0 (len s - len t)) else none
]

-- `and_then`
abbrev pub and_then : {A B : Type 0} → Option A → (A → Option B) → Option B
and_then none f = none
and_then (some a) f = f a

-- `filter(|s| !s.is_empty())`
abbrev pub non_empty : String → Option String
non_empty s = if is_empty s then none else some s
