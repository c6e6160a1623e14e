-- ===== src/Prelude/Lists.antt =====
-- Lists measured by native numbers, with Boolean searches and filters that run.
use Prim.Native.Nat.{ℕ, zero, suc, ◌+◌}
use mathlib.Core.Path.{◌≡◌, refl, sym, ap, subst}
use mathlib.Core.Logic.{◌⊎◌, inl, inr}
use mathlib.Core.Bool.{Bool, true, false, ◌||◌, ◌&&◌}
use mathlib.Core.Option.{Option, none, some}
use mathlib.Core.List.{List, [], ◌∷◌, ◌++◌, map, Memᴰ}
use native.Mathlib.Omega.{arith}
use catallaxy.Prelude.Tests.{if◌then◌else◌}

module _ {ℓ} {A : Type ℓ} where
  abbrev pub length : List A → ℕ
  length [] = 0
  length (x ∷ xs) = suc (length xs)

  abbrev pub get_elem? : List A → ℕ → Option A
  get_elem? [] i = none
  get_elem? (x ∷ xs) zero = some x
  get_elem? (x ∷ xs) (suc i) = get_elem? xs i

  abbrev pub take : ℕ → List A → List A
  take zero xs = []
  take (suc n) [] = []
  take (suc n) (x ∷ xs) = x ∷ take n xs

  abbrev pub drop : ℕ → List A → List A
  drop zero xs = xs
  drop (suc n) [] = []
  drop (suc n) (x ∷ xs) = drop n xs

  abbrev pub is_nil : List A → Bool
  is_nil [] = true
  is_nil (x ∷ xs) = false

  pub length-eq-zero : (xs : List A) → length xs ≡ 0 → xs ≡ []
  length-eq-zero [] h = refl
  length-eq-zero (x ∷ xs) h = absurd (omega arith)

  pub length-append : (xs ys : List A) → length (xs ++ ys) ≡ length xs + length ys
  length-append [] ys = omega arith
  length-append (x ∷ xs) ys = omega (arith, length-append xs ys)

module _ {ℓ} {A : Type ℓ} (p : A → Bool) where
  -- `iter().any(p)`
  abbrev pub any : List A → Bool
  any [] = false
  any (x ∷ xs) = p x || any xs

  -- `iter().all(p)`
  abbrev pub all : List A → Bool
  all [] = true
  all (x ∷ xs) = p x && all xs

  -- `iter().filter(p).collect()`
  abbrev pub keep : List A → List A
  keep [] = []
  keep (x ∷ xs) = let rest = keep xs in if p x then x ∷ rest else rest

  -- `iter().find(p)`
  abbrev pub find : List A → Option A
  find [] = none
  find (x ∷ xs) = let rest = find xs in if p x then some x else rest

-- `iter().filter_map(f)`
abbrev pub filter_map {ℓ κ} : {A : Type ℓ} {B : Type κ} → (A → Option B) → List A → List B
filter_map f [] = []
filter_map f (x ∷ xs) = let rest = filter_map f xs in elim (f x) [ none ↦ rest | some y ↦ y ∷ rest ]

module _ {ℓ} {A : Type ℓ} where
  pub find-eq-some : (p : A → Bool) (xs : List A) (x : A) → find p xs ≡ some x → p x ≡ true
  find-eq-some p [] x h = cc
  find-eq-some p (y ∷ ys) x h = ground (arith, find-eq-some p ys x)

  pub find-eq-none : (p : A → Bool) (xs : List A) → find p xs ≡ none → any p xs ≡ false
  find-eq-none p [] h = refl
  find-eq-none p (y ∷ ys) h = ground (arith, find-eq-none p ys)

module _ {ℓ κ} {A : Type ℓ} where
  -- Every element satisfies the predicate.
  abbrev pub All : (A → Type κ) → List A → Type κ
  All P [] = Unit
  All P (x ∷ xs) = P x × All P xs

  pub All-append_cons :
      (P : A → Type κ) (xs : List A) (y : A) (ys : List A) → All P (xs ++ y ∷ ys) → P y
  All-append_cons P [] y ys h = h.0
  All-append_cons P (x ∷ xs) y ys h = All-append_cons P xs y ys h.1

pub All-Mem : {A : Type 0} (P : A → Type 0) (xs : List A) → ((x : A) → Memᴰ x xs → P x) → All P xs
All-Mem P [] h = tt
All-Mem P (x ∷ xs) h = (h x (Memᴰ.head refl), All-Mem P xs (λ y m. h y (Memᴰ.tail m)))

pub Mem-All : {A : Type 0} (P : A → Type 0) (xs : List A) (x : A) → All P xs → Memᴰ x xs → P x
Mem-All P [] x h m = elim m [ ]
Mem-All P (y ∷ ys) x h (Memᴰ.head e) = subst P (sym e) h.0
Mem-All P (y ∷ ys) x h (Memᴰ.tail m) = Mem-All P ys x h.1 m

pub Mem-snoc : {A : Type 0} (xs : List A) (f g : A) → Memᴰ g (xs ++ (f ∷ [])) → Memᴰ g xs ⊎ (g ≡ f)
Mem-snoc [] f g (Memᴰ.head e) = inr e
Mem-snoc [] f g (Memᴰ.tail m) = elim m [ ]
Mem-snoc (x ∷ xs) f g (Memᴰ.head e) = inl (Memᴰ.head e)
Mem-snoc (x ∷ xs) f g (Memᴰ.tail m) = elim (Mem-snoc xs f g m) [
  | inl old ↦ inl (Memᴰ.tail old)
  | inr last ↦ inr last
]

pub Mem-old : {A : Type 0} (xs : List A) (f g : A) → Memᴰ g xs → Memᴰ g (xs ++ (f ∷ []))
Mem-old [] f g m = elim m [ ]
Mem-old (x ∷ xs) f g (Memᴰ.head e) = Memᴰ.head e
Mem-old (x ∷ xs) f g (Memᴰ.tail m) = Memᴰ.tail (Mem-old xs f g m)

pub Mem-last : {A : Type 0} (xs : List A) (f : A) → Memᴰ f (xs ++ (f ∷ []))
Mem-last [] f = Memᴰ.head refl
Mem-last (x ∷ xs) f = Memᴰ.tail (Mem-last xs f)

-- A filter, one element at a time.
pub keep-cons :
    {A : Type 0} (p : A → Bool) (x : A) (xs : List A)
    → keep p (x ∷ xs) ≡ keep p (x ∷ []) ++ keep p xs
keep-cons p x xs = ground arith

pub is_nil-append : {A : Type 0} (xs ys : List A) → is_nil (xs ++ ys) ≡ (is_nil xs && is_nil ys)
is_nil-append [] ys = refl
is_nil-append (x ∷ xs) ys = refl

pub Mem-map :
    {A B : Type 0} (f : A → B) (xs : List A) (y : B)
    → Memᴰ y (map f xs)
    → (x : A) × Memᴰ x xs × (f x ≡ y)
Mem-map f [] y m = elim m [ ]
Mem-map f (x ∷ xs) y (Memᴰ.head e) = (x, Memᴰ.head refl, sym e)
Mem-map f (x ∷ xs) y (Memᴰ.tail m) = let (z, n, e) = Mem-map f xs y m in (z, Memᴰ.tail n, e)

pub map-Mem : {A B : Type 0} (f : A → B) (xs : List A) (x : A) → Memᴰ x xs → Memᴰ (f x) (map f xs)
map-Mem f [] x m = elim m [ ]
map-Mem f (y ∷ ys) x (Memᴰ.head e) = Memᴰ.head (ap f e)
map-Mem f (y ∷ ys) x (Memᴰ.tail m) = Memᴰ.tail (map-Mem f ys x m)
