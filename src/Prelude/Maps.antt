-- ===== src/Prelude/Maps.antt =====
-- Maps with texts for keys (`BTreeMap`, `HashMap`) as lists of entries, each key once.
use Prim.Native.String.{String}
use mathlib.Core.Path.{◌≡◌, refl}
use mathlib.Core.Logic.{inl, inr}
use mathlib.Core.Option.{Option, none, some}
use mathlib.Core.List.{List, [], ◌∷◌, Memᴰ}
use native.Mathlib.Omega.{arith}
use text.Mathlib.Text.{◌==◌}
use text.Mathlib.TextEquality.{eq_iff}
use text.Mathlib.TextPositions.{eq_refl}
use catallaxy.Prelude.Tests.{if◌then◌else◌, Bool-cases}

abbrev pub Map : Type 0 → Type 0
Map A = List (String × A)

-- `unwrap_or`
abbrev pub or_else {ℓ} : {A : Type ℓ} → Option A → A → A
or_else (some a) d = a
or_else none d = d

-- `get`
abbrev pub get : {A : Type 0} → String → Map A → Option A
get k [] = none
get k ((j, a) ∷ m) = if j == k then some a else get k m

-- `entry(k).or_insert(d)`, and a change of the entry by `f`.
unfoldable pub upsert : {A : Type 0} → String → A → (A → A) → Map A → Map A
upsert k d f [] = (k, f d) ∷ []
upsert k d f ((j, a) ∷ m) = if j == k then (j, f a) ∷ m else (j, a) ∷ upsert k d f m

-- A change of the entry by `f` where there is one (`get_mut`).
unfoldable pub modify : {A : Type 0} → String → (A → A) → Map A → Map A
modify k f [] = []
modify k f ((j, a) ∷ m) = if j == k then (j, f a) ∷ m else (j, a) ∷ modify k f m

-- No key stands twice.
abbrev pub IsMap : {A : Type 0} → Map A → Type 0
IsMap [] = Unit
IsMap ((k, a) ∷ m) = (get k m ≡ none) × IsMap m

module _ {A : Type 0} where
  pub get-upsert :
      (k j : String) (d : A) (f : A → A) (m : Map A)
      → get j (upsert k d f m) ≡ (if k == j then some (f (or_else (get k m) d)) else get j m)
  unfolding upsert
  get-upsert k j d f [] = refl
  get-upsert k j d f ((i, a) ∷ m) =
      ground (arith, eq_iff k j, eq_iff i k, eq_iff i j, get-upsert k j d f m)

  pub get-upsert_self :
      (k : String) (d : A) (f : A → A) (m : Map A)
      → get k (upsert k d f m) ≡ some (f (or_else (get k m) d))
  get-upsert_self k d f m = ground (arith, get-upsert k k d f m, eq_refl k)

  pub get-modify :
      (k j : String) (f : A → A) (m : Map A)
      → get j (modify k f m)
        ≡ elim (get j m) [ none ↦ none | some a ↦ if k == j then some (f a) else some a ]
  unfolding modify
  get-modify k j f [] = refl
  get-modify k j f ((i, a) ∷ m) =
      ground (arith, eq_iff k j, eq_iff i k, eq_iff i j, get-modify k j f m)

  pub upsert-IsMap : (k : String) (d : A) (f : A → A) (m : Map A) → IsMap m → IsMap (upsert k d f m)
  unfolding upsert
  upsert-IsMap k d f [] h = (refl, tt)
  upsert-IsMap k d f ((i, a) ∷ m) h = elim (Bool-cases (i == k)) [
    | inl same ↦ rw (same, upsert) h
    | inr other ↦
        rw (other, upsert)
          (ground (arith, get-upsert k i d f m, eq_iff k i, eq_iff i k), upsert-IsMap k d f m h.1)
  ]

  pub modify-IsMap : (k : String) (f : A → A) (m : Map A) → IsMap m → IsMap (modify k f m)
  unfolding modify
  modify-IsMap k f [] h = tt
  modify-IsMap k f ((i, a) ∷ m) h = elim (Bool-cases (i == k)) [
    | inl same ↦ rw (same, modify) h
    | inr other ↦ rw (other, modify) (ground (arith, get-modify k i f m), modify-IsMap k f m h.1)
  ]

  pub get-Mem : (k : String) (a : A) (m : Map A) → get k m ≡ some a → Memᴰ (k, a) m
  get-Mem k a [] h = absurd (cc)
  get-Mem k a ((j, b) ∷ m) h = elim (Bool-cases (j == k)) [
    | inl same ↦ Memᴰ.head (ground (arith, eq_iff j k))
    | inr other ↦ Memᴰ.tail (get-Mem k a m (ground arith))
  ]

  pub Mem-get : (k : String) (a : A) (m : Map A) → IsMap m → Memᴰ (k, a) m → get k m ≡ some a
  Mem-get k a [] h n = elim n [ ]
  Mem-get k a ((j, b) ∷ m) h (Memᴰ.head e) = ground (arith, eq_refl k)
  Mem-get k a ((j, b) ∷ m) h (Memᴰ.tail n) = ground (arith, Mem-get k a m h.1 n, eq_iff j k, h.0)
