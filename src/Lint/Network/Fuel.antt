-- ===== src/Lint/Network/Fuel.antt =====
-- The fuel of references_in of network_policy.rs is enough: each round takes a character.
use catallaxy.Prelude.{
  ℕ, zero, suc, ◌≤◌, ◌<◌, ◌≡◌, refl, Bool, true, false, not, ◌||◌, Option, some, String, arith, eqb,
  is_empty, Bool-cases, Option-cases, inl, inr, ap, ◌∙◌, some-injective, eq_iff,
}
use Prim.Native.Char.{Char, code}
use catallaxy.Lint.Network.Scan.{
  char_count, is_name, is_digit, span, behind, scan_labels, scan_port, reference_of, read_reference,
  pushed, references_from, references_in,
}

span-char_count : (p : Char → Bool) (s : String) → char_count (span p s).1 ≤ char_count s
unfolding span
span-char_count p String.[] = omega arith
span-char_count p (String.◌∷◌ c s) = elim (Bool-cases (p c)) [
  | inl hit ↦ rw (hit, span) (omega (arith, span-char_count p s))
  | inr miss ↦ rw (miss, span) (omega arith)
]

behind-char_count :
    (n : ℕ) (s more : String) → behind n s ≡ some more → char_count more < char_count s
behind-char_count n String.[] more h = absurd (cc)
behind-char_count n (String.◌∷◌ c s) more h = elim (Bool-cases (eqb (code c) n)) [
  | inl hit ↦
      let same : some s ≡ some more = rw hit at h in
      let e : char_count s ≡ char_count more = ap char_count (some-injective same) in omega arith
  | inr miss ↦ absurd (ground (arith, rw miss at h))
]

cons_full : (c : Char) (s : String) → is_empty (String.◌∷◌ c s) ≡ false
cons_full c s = elim (Bool-cases (is_empty (String.◌∷◌ c s))) [
  | inr full ↦ full
  | inl blank ↦
      let e : String.◌∷◌ c s ≡ "" = (eq_iff (String.◌∷◌ c s) "").0 blank in
      let n : suc (char_count s) ≡ 0 = ap char_count e in absurd (omega arith)
]

-- With a label at its beginning, a text is left with no more than what is behind the label.
scan_labels-behind :
    (f : ℕ) (s : String)
    → ((t : String) → char_count (scan_labels f t).1 ≤ char_count t)
    → is_empty (span is_name s).0 ≡ false
    → char_count (scan_labels (suc f) s).1 ≤ char_count (span is_name s).1
unfolding scan_labels
scan_labels-behind f s shrinks full = elim (Option-cases (behind b'.' (span is_name s).1)) [
  | inl last ↦ rw (full, last, scan_labels) (omega arith)
  | inr (more, e) ↦
      rw (full, e, scan_labels)
        (omega (arith, shrinks more, behind-char_count b'.' (span is_name s).1 more e))
]

scan_labels-char_count : (f : ℕ) (s : String) → char_count (scan_labels f s).1 ≤ char_count s
unfolding scan_labels
scan_labels-char_count zero s = omega arith
scan_labels-char_count (suc f) s = elim (Bool-cases (is_empty (span is_name s).0)) [
  | inl blank ↦ rw (blank, scan_labels) (omega arith)
  | inr full ↦
      let left = scan_labels-behind f s (λ t. scan_labels-char_count f t) full in
      omega (arith, left, span-char_count is_name s)
]

scan_labels-fuel :
    (f g : ℕ) (s : String) → char_count s ≤ f → char_count s ≤ g → scan_labels f s ≡ scan_labels g s
unfolding scan_labels span
scan_labels-fuel zero zero s h k = refl
scan_labels-fuel zero (suc g) String.[] h k = refl
scan_labels-fuel zero (suc g) (String.◌∷◌ c s) h k = absurd (omega arith)
scan_labels-fuel (suc f) zero String.[] h k = refl
scan_labels-fuel (suc f) zero (String.◌∷◌ c s) h k = absurd (omega arith)
scan_labels-fuel (suc f) (suc g) s h k = elim (Bool-cases (is_empty (span is_name s).0)) [
  | inl blank ↦ rw (blank, scan_labels) refl
  | inr full ↦ elim (Option-cases (behind b'.' (span is_name s).1)) [
    | inl last ↦ rw (full, last, scan_labels) refl
    | inr (more, e) ↦
        let shorter = behind-char_count b'.' (span is_name s).1 more e in
        let front = span-char_count is_name s in
        rw (full, e, scan_labels, scan_labels-fuel f g more (omega arith) (omega arith)) refl
  ]
]

module _ (parse_u32 : String → Option ℕ) where
  scan_port-char_count : (s : String) → char_count (scan_port parse_u32 s).1 ≤ char_count s
  unfolding scan_port
  scan_port-char_count s = elim (Option-cases (behind b':' s)) [
    | inl miss ↦ rw (miss, scan_port) (omega arith)
    | inr (more, e) ↦ elim (Bool-cases (is_empty (span is_digit more).0)) [
      | inl blank ↦ rw (e, blank, scan_port) (omega arith)
      | inr full ↦
          rw (e, full, scan_port)
            (omega (arith, behind-char_count b':' s more e, span-char_count is_digit more))
    ]
  ]

  -- A reference takes its first character, so what is left is shorter.
  read_reference-char_count :
      (f : ℕ) (c : Char) (s : String)
      → is_name c ≡ true
      → char_count (read_reference parse_u32 (suc f) (String.◌∷◌ c s)).1 ≤ char_count s
  unfolding read_reference
  read_reference-char_count f c s h =
      let front : span is_name (String.◌∷◌ c s)
          ≡ (String.◌∷◌ c (span is_name s).0, (span is_name s).1) =
        rw (h, span) refl in
      let full : is_empty (span is_name (String.◌∷◌ c s)).0 ≡ false =
        ap (λ q. is_empty q.0) front ∙ cons_full c (span is_name s).0 in
      let size : char_count (span is_name (String.◌∷◌ c s)).1 ≡ char_count (span is_name s).1 =
        ap (λ q. char_count q.1) front in
      omega (
        arith,
        scan_port-char_count (scan_labels (suc f) (String.◌∷◌ c s)).1,
        scan_labels-behind f (String.◌∷◌ c s) (scan_labels-char_count f) full,
        span-char_count is_name s,
      )

  read_reference-fuel :
      (f g : ℕ) (s : String)
      → char_count s ≤ f
      → char_count s ≤ g
      → read_reference parse_u32 f s ≡ read_reference parse_u32 g s
  unfolding read_reference
  read_reference-fuel f g s h k =
      ap (λ q. (reference_of q.0 (scan_port parse_u32 q.1).0, (scan_port parse_u32 q.1).1))
        (scan_labels-fuel f g s h k)

  pub references_from-fuel :
      (f g : ℕ) (after : Bool) (s : String)
      → char_count s < f
      → char_count s < g
      → references_from parse_u32 f after s ≡ references_from parse_u32 g after s
  unfolding references_from
  references_from-fuel zero g after s h k = absurd (omega arith)
  references_from-fuel (suc f) zero after s h k = absurd (omega arith)
  references_from-fuel (suc f) (suc g) after String.[] h k = refl
  references_from-fuel (suc f) (suc g) after (String.◌∷◌ c s) h k =
      let skipped =
        references_from-fuel f g (is_name c || eqb (code c) b'.') s (omega arith) (omega arith) in
      elim (Bool-cases (not (is_name c) || after)) [
        | inl skip ↦ rw (skip, references_from) skipped
        | inr scan ↦
            let same =
              read_reference-fuel (suc f) (suc g) (String.◌∷◌ c s) (omega arith) (omega arith) in
            let found = read_reference parse_u32 (suc g) (String.◌∷◌ c s) in
            let shorter = read_reference-char_count g c s (ground (arith, scan)) in
            let rest = references_from-fuel f g true found.1 (omega arith) (omega arith) in
            rw (scan, references_from)
              (ap (λ q. pushed q.0 (references_from parse_u32 f true q.1)) same
                ∙ ap (pushed found.0) rest)
      ]

  -- More fuel than there are characters finds the references of the text.
  pub references_in-fuel :
      (n : ℕ) (text : String)
      → char_count text < n
      → references_from parse_u32 n false text ≡ references_in parse_u32 text
  unfolding references_in
  references_in-fuel n text h =
      references_from-fuel n (suc (char_count text)) false text h (omega arith)
