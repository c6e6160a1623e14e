-- ===== src/Images/Splits.antt =====
-- How texts that were joined are split again, at the first or at the last character of a code.
use catallaxy.Prelude.{
  ℕ, ◌≡◌, refl, sym, ap, ◌∙◌, true, false, ◌||◌, Option, none, some, String, ◌<>◌, arith, eqb,
  eqb_iff, subst, split_once, rsplit_once, contains_char, Bool-cases, Option-cases, inl, inr,
  some-injective,
}
use Prim.Native.Char.{Char, code}
use text.Mathlib.TextLemmas.{nil-append, cons-append}

-- The pieces, with a text in front of the first, or behind the second.
abbrev pub in_front : String → Option (String × String) → Option (String × String)
in_front a none = none
in_front a (some halves) = some (a <> halves.0, halves.1)

abbrev pub at_end : String → Option (String × String) → Option (String × String)
at_end s none = none
at_end s (some halves) = some (halves.0, halves.1 <> s)

-- The first pieces, or else the second.
abbrev pub or_pieces :
    Option (String × String) → Option (String × String) → Option (String × String)
or_pieces none q = q
or_pieces (some halves) q = some halves

in_front-nil : (o : Option (String × String)) → in_front "" o ≡ o
in_front-nil none = refl
in_front-nil (some halves) = ap (λ a. some (a, halves.1)) (nil-append halves.0)

in_front-cons :
    (c : Char) (a : String) (o : Option (String × String))
    → in_front (String.◌∷◌ c "") (in_front a o) ≡ in_front (String.◌∷◌ c a) o
in_front-cons c a none = refl
in_front-cons c a (some halves) =
    ap (λ t. some (t, halves.1))
      (cons-append c "" (a <> halves.0)
        ∙ ap (λ t. String.◌∷◌ c t) (nil-append (a <> halves.0))
        ∙ sym (cons-append c a halves.0))

pub contains_char-append :
    (n : ℕ) (a s : String) → contains_char n (a <> s) ≡ (contains_char n a || contains_char n s)
unfolding contains_char
contains_char-append n String.[] s = rw (nil-append s) refl
contains_char-append n (String.◌∷◌ c a) s =
    rw (cons-append c a s) (ground (arith, contains_char-append n a s))

pub cons_one : (c : Char) (s : String) → String.◌∷◌ c "" <> s ≡ String.◌∷◌ c s
cons_one c s = cons-append c "" s ∙ ap (λ t. String.◌∷◌ c t) (nil-append s)

-- The pieces of a text with one more character, where that is not the one to split at.
split_once-cons :
    (n : ℕ) (c : Char) (s : String)
    → eqb (code c) n ≡ false
    → split_once n (String.◌∷◌ c s) ≡ in_front (String.◌∷◌ c "") (split_once n s)
unfolding split_once
split_once-cons n c s h = elim (Option-cases (split_once n s)) [
  | inl miss ↦ rw (h, miss, split_once) refl
  | inr (halves, e) ↦
      rw (h, e, split_once) (ap (λ t. some (t, halves.1)) (sym (cons_one c halves.0)))
]

pub split_once-append :
    (n : ℕ) (a s : String)
    → contains_char n a ≡ false
    → split_once n (a <> s) ≡ in_front a (split_once n s)
unfolding contains_char
split_once-append n String.[] s h = rw (nil-append s) (sym (in_front-nil (split_once n s)))
split_once-append n (String.◌∷◌ c a) s h = rw (cons-append c a s) (
    split_once-cons n c (a <> s) (ground (arith, h))
    ∙ ap (in_front (String.◌∷◌ c "")) (split_once-append n a s (ground (arith, h)))
    ∙ in_front-cons c a (split_once n s))

or_pieces-none : (o : Option (String × String)) → or_pieces o none ≡ o
or_pieces-none none = refl
or_pieces-none (some halves) = refl

pub rsplit_once-append :
    (n : ℕ) (a s : String)
    → rsplit_once n (a <> s) ≡ or_pieces (in_front a (rsplit_once n s)) (at_end s (rsplit_once n a))
unfolding rsplit_once
rsplit_once-append n String.[] s =
    rw (nil-append s)
      (sym (or_pieces-none (in_front "" (rsplit_once n s)) ∙ in_front-nil (rsplit_once n s)))
rsplit_once-append n (String.◌∷◌ c a) s = elim (Option-cases (rsplit_once n s)) [
  | inr (halves, e) ↦
      let there : rsplit_once n (a <> s) ≡ some (a <> halves.0, halves.1) =
        rsplit_once-append n a s
        ∙ ap (λ o. or_pieces (in_front a o) (at_end s (rsplit_once n a))) e in
      rw (cons-append c a s, there, e, rsplit_once)
        (ap (λ t. some (t, halves.1)) (sym (cons-append c a halves.0)))
  | inl miss ↦
      let there : rsplit_once n (a <> s) ≡ at_end s (rsplit_once n a) =
        rsplit_once-append n a s
        ∙ ap (λ o. or_pieces (in_front a o) (at_end s (rsplit_once n a))) miss in
      elim (Option-cases (rsplit_once n a)) [
        | inr (halves, e) ↦
            let here : rsplit_once n (a <> s) ≡ some (halves.0, halves.1 <> s) =
              there ∙ ap (at_end s) e in
            rw (cons-append c a s, here, miss, e, rsplit_once) refl
        | inl none_there ↦
            let here : rsplit_once n (a <> s) ≡ none = there ∙ ap (at_end s) none_there in
            elim (Bool-cases (eqb (code c) n)) [
              | inl hit ↦ rw (cons-append c a s, here, miss, none_there, hit, rsplit_once) refl
              | inr other ↦ rw (cons-append c a s, here, miss, none_there, other, rsplit_once) refl
            ]
      ]
]

-- A text without the character is not split, and a text that is split is the pieces around it.
pub split_once-none : (n : ℕ) (s : String) → contains_char n s ≡ false → split_once n s ≡ none
unfolding contains_char split_once
split_once-none n String.[] h = refl
split_once-none n (String.◌∷◌ c s) h =
    rw (split_once-cons n c s (ground (arith, h)), split_once-none n s (ground (arith, h))) refl

pub rsplit_once-none : (n : ℕ) (s : String) → rsplit_once n s ≡ none → contains_char n s ≡ false
unfolding contains_char rsplit_once
rsplit_once-none n String.[] h = refl
rsplit_once-none n (String.◌∷◌ c s) h = elim (Option-cases (rsplit_once n s)) [
  | inl miss ↦ let rest = rsplit_once-none n s miss in ground (arith, rw (miss, rsplit_once) at h)
  | inr (halves, e) ↦ absurd (ground (arith, rw (e, rsplit_once) at h))
]

-- The two pieces around a character of the code.
abbrev pub Around : ℕ → String → String → String → Type 0
Around n s a b = (c : Char) × (code c ≡ n) × (s ≡ a <> String.◌∷◌ c b)

longer :
    (n : ℕ) (c : Char) (s a b : String)
    → Around n s a b
    → Around n (String.◌∷◌ c s) (String.◌∷◌ c a) b
longer n c s a b (d, e, h) =
    (d, e, ap (λ t. String.◌∷◌ c t) h ∙ sym (cons-append c a (String.◌∷◌ d b)))

pub split_once-Around :
    (n : ℕ) (s a b : String)
    → split_once n s ≡ some (a, b)
    → (contains_char n a ≡ false) × Around n s a b
unfolding contains_char split_once
split_once-Around n String.[] a b h = absurd (cc)
split_once-Around n (String.◌∷◌ c s) a b h = elim (Bool-cases (eqb (code c) n)) [
  | inl hit ↦
      let same : some ("", s) ≡ some (a, b) = rw (hit, split_once) at h in
      let q = some-injective same in
      subst (λ t. (contains_char n t.0 ≡ false) × Around n (String.◌∷◌ c s) t.0 t.1) q
        (refl, (c, (eqb_iff (code c) n).0 hit, sym (nil-append (String.◌∷◌ c s))))
  | inr other ↦ elim (Option-cases (split_once n s)) [
    | inl miss ↦ absurd (ground (arith, rw (other, miss, split_once) at h))
    | inr (halves, e) ↦
        let same : some (String.◌∷◌ c halves.0, halves.1) ≡ some (a, b) =
          rw (other, e, split_once) at h in
        let (free, around) = split_once-Around n s halves.0 halves.1 e in
        subst (λ t. (contains_char n t.0 ≡ false) × Around n (String.◌∷◌ c s) t.0 t.1)
          (some-injective same) (ground (arith, other, free), longer n c s halves.0 halves.1 around)
  ]
]

pub rsplit_once-Around :
    (n : ℕ) (s a b : String)
    → rsplit_once n s ≡ some (a, b)
    → (contains_char n b ≡ false) × Around n s a b
unfolding contains_char rsplit_once
rsplit_once-Around n String.[] a b h = absurd (cc)
rsplit_once-Around n (String.◌∷◌ c s) a b h = elim (Option-cases (rsplit_once n s)) [
  | inr (halves, e) ↦
      let same : some (String.◌∷◌ c halves.0, halves.1) ≡ some (a, b) = rw (e, rsplit_once) at h in
      let (free, around) = rsplit_once-Around n s halves.0 halves.1 e in
      subst (λ t. (contains_char n t.1 ≡ false) × Around n (String.◌∷◌ c s) t.0 t.1)
        (some-injective same) (free, longer n c s halves.0 halves.1 around)
  | inl miss ↦ elim (Bool-cases (eqb (code c) n)) [
    | inr other ↦ absurd (ground (arith, rw (miss, other, rsplit_once) at h))
    | inl hit ↦
        let same : some ("", s) ≡ some (a, b) = rw (miss, hit, rsplit_once) at h in
        subst (λ t. (contains_char n t.1 ≡ false) × Around n (String.◌∷◌ c s) t.0 t.1)
          (some-injective same)
          (
            rsplit_once-none n s miss,
            (c, (eqb_iff (code c) n).0 hit, sym (nil-append (String.◌∷◌ c s))),
          )
  ]
]

pub Around-contains_char : (n : ℕ) (s a b : String) → Around n s a b → contains_char n s ≡ true
unfolding contains_char
Around-contains_char n s a b (c, k, q) =
    let inside : contains_char n s ≡ (contains_char n a || (eqb (code c) n || contains_char n b)) =
      ap (contains_char n) q ∙ contains_char-append n a (String.◌∷◌ c b) in
    ground (arith, inside, (eqb_iff (code c) n).1 k)

-- A character that is not in the text is in neither piece.
pub Around-free :
    (m n : ℕ) (s a b : String)
    → Around n s a b
    → contains_char m s ≡ false
    → (contains_char m a ≡ false) × (contains_char m b ≡ false)
unfolding contains_char
Around-free m n s a b (c, k, q) h =
    let inside : contains_char m s ≡ (contains_char m a || (eqb (code c) m || contains_char m b)) =
      ap (contains_char m) q ∙ contains_char-append m a (String.◌∷◌ c b) in
    (ground (arith, inside, h), ground (arith, inside, h))

pub rsplit_once-free : (n : ℕ) (s : String) → contains_char n s ≡ false → rsplit_once n s ≡ none
rsplit_once-free n s h = elim (Option-cases (rsplit_once n s)) [
  | inl miss ↦ miss
  | inr (halves, e) ↦ absurd (
      ground (
        arith,
        h,
        Around-contains_char n s halves.0 halves.1 (rsplit_once-Around n s halves.0 halves.1 e).1,
      ))
]

pub unsplit_free : (n : ℕ) (s : String) → split_once n s ≡ none → contains_char n s ≡ false
unfolding contains_char split_once
unsplit_free n String.[] h = refl
unsplit_free n (String.◌∷◌ c s) h = elim (Bool-cases (eqb (code c) n)) [
  | inl hit ↦ absurd (ground (arith, rw (hit, split_once) at h))
  | inr other ↦ elim (Option-cases (split_once n s)) [
    | inl miss ↦ let rest = unsplit_free n s miss in ground (arith, other)
    | inr (halves, e) ↦ absurd (ground (arith, rw (other, e, split_once) at h))
  ]
]
