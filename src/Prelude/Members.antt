-- ===== src/Prelude/Members.antt =====
-- What is in a list that was joined, filtered or mapped.
use mathlib.Core.Path.{◌≡◌, refl, sym, ap, ◌∙◌, subst}
use mathlib.Core.Logic.{◌⊎◌, inl, inr}
use mathlib.Core.Bool.{Bool, true, ◌||◌}
use mathlib.Core.Option.{Option, some}
use native.Mathlib.Omega.{arith}
use mathlib.Core.List.{List, [], ◌∷◌, ◌++◌, Memᴰ}
use catallaxy.Prelude.Tests.{Bool-cases, Option-cases, some-injective}
use catallaxy.Prelude.Lists.{keep, any, find, filter_map}

-- `flat_map`
abbrev pub flat_map : {A B : Type 0} → (A → List B) → List A → List B
flat_map f [] = []
flat_map f (x ∷ xs) = f x ++ flat_map f xs

module _ {A : Type 0} where
  pub Mem-append : (xs ys : List A) (x : A) → Memᴰ x (xs ++ ys) → Memᴰ x xs ⊎ Memᴰ x ys
  Mem-append [] ys x m = inr m
  Mem-append (y ∷ xs) ys x (Memᴰ.head e) = inl (Memᴰ.head e)
  Mem-append (y ∷ xs) ys x (Memᴰ.tail m) = elim (Mem-append xs ys x m) [
    | inl here ↦ inl (Memᴰ.tail here)
    | inr there ↦ inr there
  ]

  pub Mem-front : (xs ys : List A) (x : A) → Memᴰ x xs → Memᴰ x (xs ++ ys)
  Mem-front [] ys x m = elim m [ ]
  Mem-front (y ∷ xs) ys x (Memᴰ.head e) = Memᴰ.head e
  Mem-front (y ∷ xs) ys x (Memᴰ.tail m) = Memᴰ.tail (Mem-front xs ys x m)

  pub Mem-back : (xs ys : List A) (x : A) → Memᴰ x ys → Memᴰ x (xs ++ ys)
  Mem-back [] ys x m = m
  Mem-back (y ∷ xs) ys x m = Memᴰ.tail (Mem-back xs ys x m)

  pub Mem-keep :
      (p : A → Bool) (xs : List A) (x : A) → Memᴰ x (keep p xs) → Memᴰ x xs × (p x ≡ true)
  Mem-keep p [] x m = elim m [ ]
  Mem-keep p (y ∷ xs) x m = elim (Bool-cases (p y)) [
    | inl h ↦ elim (rw h at m) [
      | Memᴰ.head e ↦ (Memᴰ.head e, ap p e ∙ h)
      | Memᴰ.tail n ↦ (Memᴰ.tail (Mem-keep p xs x n).0, (Mem-keep p xs x n).1)
    ]
    | inr h ↦ let (n, q) = Mem-keep p xs x (rw h at m) in (Memᴰ.tail n, q)
  ]

  pub keep-Mem : (p : A → Bool) (xs : List A) (x : A) → Memᴰ x xs → p x ≡ true → Memᴰ x (keep p xs)
  keep-Mem p [] x m h = elim m [ ]
  keep-Mem p (y ∷ xs) x (Memᴰ.head e) h = rw (sym (ap p e) ∙ h) (Memᴰ.head e)
  keep-Mem p (y ∷ xs) x (Memᴰ.tail m) h = elim (Bool-cases (p y)) [
    | inl q ↦ rw q (Memᴰ.tail (keep-Mem p xs x m h))
    | inr q ↦ rw q (keep-Mem p xs x m h)
  ]

module _ {A B : Type 0} (f : A → List B) where
  pub Mem-flat_map :
      (xs : List A) (y : B) → Memᴰ y (flat_map f xs) → (x : A) × Memᴰ x xs × Memᴰ y (f x)
  Mem-flat_map [] y m = elim m [ ]
  Mem-flat_map (x ∷ xs) y m = elim (Mem-append (f x) (flat_map f xs) y m) [
    | inl here ↦ (x, Memᴰ.head refl, here)
    | inr there ↦ let (z, n, h) = Mem-flat_map xs y there in (z, Memᴰ.tail n, h)
  ]

  pub flat_map-Mem :
      (xs : List A) (x : A) (y : B) → Memᴰ x xs → Memᴰ y (f x) → Memᴰ y (flat_map f xs)
  flat_map-Mem [] x y m h = elim m [ ]
  flat_map-Mem (z ∷ xs) x y (Memᴰ.head e) h =
      Mem-front (f z) (flat_map f xs) y (subst (λ t. Memᴰ y (f t)) e h)
  flat_map-Mem (z ∷ xs) x y (Memᴰ.tail m) h =
      Mem-back (f z) (flat_map f xs) y (flat_map-Mem xs x y m h)

module _ {A : Type 0} (p : A → Bool) where
  pub any-Mem : (xs : List A) → any p xs ≡ true → (x : A) × Memᴰ x xs × (p x ≡ true)
  any-Mem [] h = absurd (cc)
  any-Mem (x ∷ xs) h = elim (Bool-cases (p x)) [
    | inl hit ↦ (x, Memᴰ.head refl, hit)
    | inr miss ↦ let (y, m, e) = any-Mem xs (ground arith) in (y, Memᴰ.tail m, e)
  ]

  pub Mem-any : (xs : List A) (x : A) → Memᴰ x xs → p x ≡ true → any p xs ≡ true
  Mem-any [] x m h = elim m [ ]
  Mem-any (y ∷ ys) x (Memᴰ.head e) h = rw (sym (ap p e) ∙ h) refl
  Mem-any (y ∷ ys) x (Memᴰ.tail m) h = let rest = Mem-any ys x m h in ground arith

  pub any-append : (xs ys : List A) → any p (xs ++ ys) ≡ (any p xs || any p ys)
  any-append [] ys = refl
  any-append (x ∷ xs) ys = ground (arith, any-append xs ys)

  pub Mem-find : (xs : List A) (x : A) → find p xs ≡ some x → Memᴰ x xs
  Mem-find [] x h = absurd (cc)
  Mem-find (y ∷ ys) x h = elim (Bool-cases (p y)) [
    | inl hit ↦ let same : some y ≡ some x = rw hit at h in Memᴰ.head (sym (some-injective same))
    | inr miss ↦ Memᴰ.tail (Mem-find ys x (rw miss at h))
  ]

module _ {A B : Type 0} (f : A → Option B) where
  pub Mem-filter_map :
      (xs : List A) (y : B) → Memᴰ y (filter_map f xs) → (x : A) × Memᴰ x xs × (f x ≡ some y)
  Mem-filter_map [] y m = elim m [ ]
  Mem-filter_map (x ∷ xs) y m = elim (Option-cases (f x)) [
    | inl miss ↦
        let (z, n, e) = Mem-filter_map xs y (rw (miss, filter_map) at m) in (z, Memᴰ.tail n, e)
    | inr (v, h) ↦ elim (rw (h, filter_map) at m) [
      | Memᴰ.head e ↦ (x, Memᴰ.head refl, h ∙ ap some (sym e))
      | Memᴰ.tail n ↦ let (z, k, e) = Mem-filter_map xs y n in (z, Memᴰ.tail k, e)
    ]
  ]

  pub filter_map-Mem :
      (xs : List A) (x : A) (y : B) → Memᴰ x xs → f x ≡ some y → Memᴰ y (filter_map f xs)
  filter_map-Mem [] x y m h = elim m [ ]
  filter_map-Mem (z ∷ zs) x y (Memᴰ.head e) h = rw (sym (ap f e) ∙ h, filter_map) (Memᴰ.head refl)
  filter_map-Mem (z ∷ zs) x y (Memᴰ.tail m) h = elim (Option-cases (f z)) [
    | inl miss ↦ rw (miss, filter_map) (filter_map-Mem zs x y m h)
    | inr (v, e) ↦ rw (e, filter_map) (Memᴰ.tail (filter_map-Mem zs x y m h))
  ]
