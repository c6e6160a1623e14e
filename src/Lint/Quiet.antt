-- ===== src/Lint/Quiet.antt =====
-- Lists of diagnostics without an error.
use catallaxy.Prelude.{
  ◌≡◌, Bool, true, false, List, ◌++◌, arith, any, flat_map, Mem-any, Mem-front, Mem-back,
  flat_map-Mem, Bool-cases, inl, inr,
}
use mathlib.Core.List.{Memᴰ}
use catallaxy.Lint.{Diagnostic, is_error}

abbrev pub NoErrors : List Diagnostic → Type 0
NoErrors ds = (d : Diagnostic) → Memᴰ d ds → is_error d ≡ false

pub any-NoErrors : (ds : List Diagnostic) → any is_error ds ≡ false → NoErrors ds
any-NoErrors ds h d m = elim (Bool-cases (is_error d)) [
  | inl hit ↦ absurd (ground (arith, Mem-any is_error ds d m hit))
  | inr miss ↦ miss
]

pub front-NoErrors : (ds es : List Diagnostic) → NoErrors (ds ++ es) → NoErrors ds
front-NoErrors ds es h d m = h d (Mem-front ds es d m)

pub back-NoErrors : (ds es : List Diagnostic) → NoErrors (ds ++ es) → NoErrors es
back-NoErrors ds es h d m = h d (Mem-back ds es d m)

pub flat_map-NoErrors :
    {A : Type 0} (f : A → List Diagnostic) (xs : List A) (x : A)
    → NoErrors (flat_map f xs)
    → Memᴰ x xs
    → NoErrors (f x)
flat_map-NoErrors f xs x h m d n = h d (flat_map-Mem f xs x d m n)

-- A test that would have reported an error holds.
pub test-NoErrors :
    (b : Bool) (d : Diagnostic) (ds : List Diagnostic)
    → is_error d ≡ true
    → (b ≡ false → Memᴰ d ds)
    → NoErrors ds
    → b ≡ true
test-NoErrors b d ds e there h = elim (Bool-cases b) [
  | inl hit ↦ hit
  | inr miss ↦ absurd (ground (arith, h d (there miss)))
]
