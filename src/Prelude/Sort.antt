-- ===== src/Prelude/Sort.antt =====
-- `sort` of the standard library: a stable sort by a Boolean order.
use mathlib.Core.Logic.{inl, inr}
use mathlib.Core.Bool.{Bool, true, false}
use mathlib.Core.List.Perm
use mathlib.Core.List.{List, [], ◌∷◌, Perm, Memᴰ}
use Prim.Native.String.{String, compare}
use Prim.Native.Nat.{Ordering}
use Prim.Native.Nat.{suc}
use mathlib.Core.Path.{◌≡◌, refl, ap, ◌∙◌}
use native.Mathlib.Omega.{arith}
use catallaxy.Prelude.Lists.{All, length}
use catallaxy.Prelude.Tests.{if◌then◌else◌, Bool-cases}

module _ {ℓ} {A : Type ℓ} (le : A → A → Bool) where
  unfoldable pub insert : A → List A → List A
  insert a [] = a ∷ []
  insert a (x ∷ xs) = let rest = insert a xs in if le a x then a ∷ x ∷ xs else x ∷ rest

  unfoldable pub sort : List A → List A
  unfolding insert
  sort [] = []
  sort (x ∷ xs) = insert x (sort xs)

  insert-perm : (a : A) (xs : List A) → Perm (insert a xs) (a ∷ xs)
  unfolding insert
  insert-perm a [] = Perm.rfl
  insert-perm a (x ∷ xs) = elim (Bool-cases (le a x)) [
    | inl h ↦ rw h Perm.rfl
    | inr h ↦ rw h (Perm.trans (Perm.cons x (insert-perm a xs)) (Perm.swap a x xs))
  ]

  pub sort-perm : (xs : List A) → Perm (sort xs) xs
  unfolding sort
  sort-perm [] = Perm.rfl
  sort-perm (x ∷ xs) = Perm.trans (insert-perm x (sort xs)) (Perm.cons x (sort-perm xs))

module _ {ℓ κ} {A : Type ℓ} (P : A → Type κ) (le : A → A → Bool) where
  pub All-insert : (a : A) (xs : List A) → P a → All P xs → All P (insert le a xs)
  unfolding insert
  All-insert a [] p h = (p, tt)
  All-insert a (x ∷ xs) p h = elim (Bool-cases (le a x)) [
    | inl t ↦ rw (t, insert) (p, h)
    | inr t ↦ rw (t, insert) (h.0, All-insert a xs p h.1)
  ]

  -- Sorting keeps what holds of every element.
  pub All-sort : (xs : List A) → All P xs → All P (sort le xs)
  unfolding sort
  All-sort [] h = tt
  All-sort (x ∷ xs) h = All-insert x (sort le xs) h.0 (All-sort xs h.1)

module _ {ℓ} {A : Type ℓ} (le : A → A → Bool) where
  length-insert : (a : A) (xs : List A) → length (insert le a xs) ≡ suc (length xs)
  unfolding insert
  length-insert a [] = refl
  length-insert a (x ∷ xs) = ground (arith, length-insert a xs)

  pub length-sort : (xs : List A) → length (sort le xs) ≡ length xs
  unfolding sort
  length-sort [] = refl
  length-sort (x ∷ xs) = length-insert x (sort le xs) ∙ ap suc (length-sort xs)

module _ {ℓ} {A : Type ℓ} (le : A → A → Bool) where
  Mem-insert : (a y : A) (xs : List A) → Memᴰ y (a ∷ xs) → Memᴰ y (insert le a xs)
  unfolding insert
  Mem-insert a y [] m = m
  Mem-insert a y (x ∷ xs) m = elim (Bool-cases (le a x)) [
    | inl t ↦ rw (t, insert) m
    | inr t ↦
        rw (t, insert)
          (elim m [
            | Memᴰ.head e ↦ Memᴰ.tail (Mem-insert a y xs (Memᴰ.head e))
            | Memᴰ.tail (Memᴰ.head e) ↦ Memᴰ.head e
            | Memᴰ.tail (Memᴰ.tail n) ↦ Memᴰ.tail (Mem-insert a y xs (Memᴰ.tail n))
          ])
  ]

  -- Sorting loses no element.
  pub Mem-sort : (y : A) (xs : List A) → Memᴰ y xs → Memᴰ y (sort le xs)
  unfolding sort
  Mem-sort y [] m = m
  Mem-sort y (x ∷ xs) (Memᴰ.head e) = Mem-insert x y (sort le xs) (Memᴰ.head e)
  Mem-sort y (x ∷ xs) (Memᴰ.tail m) = Mem-insert x y (sort le xs) (Memᴰ.tail (Mem-sort y xs m))

-- How two texts compare.
abbrev pub text_cmp : String → String → Ordering
text_cmp s t = compare s t

-- The order of texts.
abbrev pub text_le : String → String → Bool
text_le s t = elim (compare s t) [ Ordering.gt ↦ false | _ ↦ true ]

unfoldable pub sort_texts : List String → List String
unfolding sort
sort_texts = sort text_le

pub sort_texts-perm : (xs : List String) → Perm (sort_texts xs) xs
unfolding sort_texts
sort_texts-perm xs = sort-perm text_le xs
