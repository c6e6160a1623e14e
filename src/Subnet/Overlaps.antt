-- ===== src/Subnet/Overlaps.antt =====
-- What the tests of domain/subnet.rs on networks say of their addresses.
use catallaxy.Prelude.{
  ℕ, ◌-◌, ◌^◌, ◌≤◌, ◌<◌, ◌≡◌, refl, sym, ap, ◌∙◌, subst, ◌↔◌, inl, inr, Bool, true, false, not,
  Option, none, some, List, String, arith, any, find, map, filter_map, or_else, leb, eqb,
  Bool-cases, Option-cases, some-injective, eqb_iff, Mem-keep, keep-Mem, any-Mem, Mem-any,
  Mem-filter_map, filter_map-Mem, Mem-find, find-eq-none, find-eq-some, ltb, split_once, trim,
}
use Prim.Native.Nat.{bit_and, min}
use mathlib.Core.List.{Memᴰ}
use catallaxy.Subnet.{
  Parsers, Cidr, mask, cidr_of, overlaps, parse_cidr, overlaps_text, colliding, is_free, sixteen,
  sixteens, first_free_16,
}
use catallaxy.Subnet.Masks.{clear, bit_and-mask, clear-clear, clear_le}

-- The base of a network is one of its addresses.
pub record IsCidr (c : Cidr) : Type 0 where
  pub base_lt : c.base < 2 ^ 32
  pub prefix_le : c.prefix ≤ 32
  pub masked : bit_and c.base (mask c.prefix) ≡ c.base

-- The addresses of a network are those that its mask takes to its base.
abbrev pub Contains : Cidr → ℕ → Type 0
Contains c x = (x < 2 ^ 32) × (bit_and x (mask c.prefix) ≡ c.base)

abbrev pub Share : Cidr → Cidr → Type 0
Share c d = (x : ℕ) × Contains c x × Contains d x

pub cidr_of-IsCidr : (a p : ℕ) (c : Cidr) → a < 2 ^ 32 → cidr_of a p ≡ some c → IsCidr c
unfolding cidr_of
cidr_of-IsCidr a p c h e = elim (Bool-cases (ltb 32 p)) [
  | inl big ↦ absurd (ground arith)
  | inr small ↦
      let le : p ≤ 32 = ground arith in
      let base : bit_and a (mask p) ≡ clear (32 - p) a = bit_and-mask p a le h in
      let low : bit_and a (mask p) < 2 ^ 32 = omega (arith, base, clear_le (32 - p) a) in
      let twice : bit_and (bit_and a (mask p)) (mask p) ≡ bit_and a (mask p) =
        bit_and-mask p (bit_and a (mask p)) le low
        ∙ ap (clear (32 - p)) base
        ∙ clear-clear (32 - p) (32 - p) a (omega arith)
        ∙ sym base in
      let made : some (record { base = bit_and a (mask p); prefix = p }) ≡ some c = rw small at e in
      let cidr : Cidr = record { base = bit_and a (mask p); prefix = p } in
      subst IsCidr (ap (λ o. or_else o cidr) made)
        (record { base_lt = low; prefix_le = le; masked = twice })
]

-- Two masks one after the other are the shorter one.
mask-mask :
    (p q x : ℕ)
    → p ≤ q
    → q ≤ 32
    → x < 2 ^ 32
    → bit_and (bit_and x (mask q)) (mask p) ≡ bit_and x (mask p)
mask-mask p q x h k b =
    let inner = bit_and-mask q x k b in
    let low : bit_and x (mask q) < 2 ^ 32 = omega (arith, inner, clear_le (32 - q) x) in
    bit_and-mask p (bit_and x (mask q)) (omega arith) low
    ∙ ap (clear (32 - p)) inner
    ∙ clear-clear (32 - p) (32 - q) x (omega arith)
    ∙ sym (bit_and-mask p x (omega arith) b)

wide-Share :
    (c d : Cidr)
    → IsCidr c
    → IsCidr d
    → c.prefix ≤ d.prefix
    → (bit_and c.base (mask c.prefix) ≡ bit_and d.base (mask c.prefix)) ↔ Share c d
wide-Share c d hc hd le = (
  λ e. (d.base, (hd.base_lt, sym e ∙ hc.masked), (hd.base_lt, hd.masked)),
  λ (x, (b, inc), (_, ind)).
      hc.masked
      ∙ sym inc
      ∙ sym (mask-mask c.prefix d.prefix x le hd.prefix_le b)
      ∙ ap (λ t. bit_and t (mask c.prefix)) ind,
)

flip : (c d : Cidr) → Share c d → Share d c
flip _ _ (x, c, d) = (x, d, c)

pub overlaps-Share : (c d : Cidr) → IsCidr c → IsCidr d → (overlaps c d ≡ true) ↔ Share c d
unfolding overlaps
overlaps-Share c d hc hd =
    let at : (m : ℕ)
        → (eqb (bit_and c.base (mask m)) (bit_and d.base (mask m)) ≡ true)
          ↔ (bit_and c.base (mask m) ≡ bit_and d.base (mask m)) =
      λ m. eqb_iff (bit_and c.base (mask m)) (bit_and d.base (mask m)) in
    elim (Bool-cases (leb c.prefix d.prefix)) [
      | inl le ↦
          let shorter : min c.prefix d.prefix ≡ c.prefix = ground arith in
          let both = wide-Share c d hc hd (ground arith) in
          rw shorter (λ h. both.0 ((at c.prefix).0 h), λ s. (at c.prefix).1 (both.1 s))
      | inr gt ↦
          let shorter : min c.prefix d.prefix ≡ d.prefix = ground arith in
          let both = wide-Share d c hd hc (ground arith) in
          rw shorter (
            λ h. flip d c (both.0 (sym ((at d.prefix).0 h))),
            λ s. (at d.prefix).1 (sym (both.1 (flip c d s))),
          )
    ]

module _ (p : Parsers) where
  -- Both texts are networks, and some address is in both.
  abbrev pub ShareTexts : String → String → Type 0
  ShareTexts s t =
      (c : Cidr) × (parse_cidr p s ≡ some c) × (d : Cidr) × (parse_cidr p t ≡ some d) × Share c d

  -- What a free network, or none, says of the networks taken.
  abbrev pub IsAnswer : List String → Option String → Type 0
  IsAnswer taken none =
      (s : String) (c : Cidr)
      → Memᴰ s (map sixteen sixteens)
      → parse_cidr p s ≡ some c
      → (t : String) × Memᴰ t taken × ShareTexts s t
  IsAnswer taken (some s) =
      Memᴰ s (map sixteen sixteens) × ((t : String) → Memᴰ t taken → ¬ ShareTexts s t)

  module _ (limit : (s : String) (a : ℕ) → p.parse_ipv4 s ≡ some a → a < 2 ^ 32) where
    pub parse_cidr-IsCidr : (s : String) (c : Cidr) → parse_cidr p s ≡ some c → IsCidr c
    unfolding parse_cidr
    parse_cidr-IsCidr s c e = elim (Option-cases (split_once b'/' (trim s))) [
      | inl miss ↦ absurd (ground arith)
      | inr (halves, h) ↦ elim (Option-cases (p.parse_ipv4 halves.0)) [
        | inl miss ↦ absurd (ground arith)
        | inr (a, ha) ↦ elim (Option-cases (p.parse_u8 halves.1)) [
          | inl miss ↦ absurd (ground arith)
          | inr (n, hn) ↦ cidr_of-IsCidr a n c (limit halves.0 a ha) (rw (h, ha, hn) at e)
        ]
      ]
    ]

    overlaps-ShareTexts :
        (s t : String) (c d : Cidr)
        → parse_cidr p s ≡ some c
        → parse_cidr p t ≡ some d
        → (overlaps c d ≡ true) ↔ Share c d
    overlaps-ShareTexts s t c d hs ht =
        overlaps-Share c d (parse_cidr-IsCidr s c hs) (parse_cidr-IsCidr t d ht)

    overlaps_text-ShareTexts :
        (s t : String) (c : Cidr)
        → parse_cidr p s ≡ some c
        → (overlaps_text p c t ≡ true) ↔ ShareTexts s t
    overlaps_text-ShareTexts s t c hs = elim (Option-cases (parse_cidr p t)) [
      | inl miss ↦ (λ h. absurd (ground arith), λ (_, _, d, e, _). absurd (cc))
      | inr (d, hd) ↦
          let both = overlaps-ShareTexts s t c d hs hd in
          (
            λ h. (c, hs, d, hd, both.0 (rw (hd, overlaps_text) at h)),
            λ (c2, h2, d2, e2, shared).
                let same : c2 ≡ c = some-injective (sym h2 ∙ hs) in
                let also : d2 ≡ d = some-injective (sym e2 ∙ hd) in
                rw (hd, overlaps_text)
                  (both.1 (subst (Share c) also (subst (λ k. Share k d2) same shared))),
          )
    ]

    -- With a parser of addresses that gives numbers below 2 ^ 32, the networks that are reported are exactly
    -- those taken that share an address with ours.
    pub colliding-ShareTexts :
        (subnet t : String) (taken : List String)
        → Memᴰ t (colliding p subnet taken) ↔ (Memᴰ t taken × ShareTexts subnet t)
    unfolding colliding
    colliding-ShareTexts subnet t taken = elim (Option-cases (parse_cidr p subnet)) [
      | inl miss ↦ (λ m. elim (rw (miss, colliding) at m) [ ], λ (_, (c, e, _, _, _)). absurd (cc))
      | inr (c, hc) ↦ (
        λ m.
            let (n, e) = Mem-keep (overlaps_text p c) taken t (rw (hc, colliding) at m) in
            (n, (overlaps_text-ShareTexts subnet t c hc).0 e),
        λ (n, shared).
            rw (hc, colliding)
              (keep-Mem (overlaps_text p c) taken t n
                ((overlaps_text-ShareTexts subnet t c hc).1 shared)),
      )
    ]

    is_free-ShareTexts :
        (taken : List String) (s t : String)
        → is_free p (filter_map (parse_cidr p) taken) s ≡ true
        → Memᴰ t taken
        → ¬ ShareTexts s t
    unfolding is_free
    is_free-ShareTexts taken s t h m (c, hs, d, ht, shared) =
        let inside = filter_map-Mem (parse_cidr p) taken t d m ht in
        let hit =
          Mem-any (overlaps c) (filter_map (parse_cidr p) taken) d inside
            ((overlaps-ShareTexts s t c d hs ht).1 shared) in
        let free : not (any (overlaps c) (filter_map (parse_cidr p) taken)) ≡ true =
          rw (hs, is_free) at h in
        absurd (ground arith)

    taken-ShareTexts :
        (taken : List String) (s : String) (c : Cidr)
        → is_free p (filter_map (parse_cidr p) taken) s ≡ false
        → parse_cidr p s ≡ some c
        → (t : String) × Memᴰ t taken × ShareTexts s t
    unfolding is_free
    taken-ShareTexts taken s c h hs =
        let no : not (any (overlaps c) (filter_map (parse_cidr p) taken)) ≡ false =
          rw (hs, is_free) at h in
        let (d, m, e) = any-Mem (overlaps c) (filter_map (parse_cidr p) taken) (ground arith) in
        let (t, n, ht) = Mem-filter_map (parse_cidr p) taken d m in
        (t, n, (c, hs, d, ht, (overlaps-ShareTexts s t c d hs ht).0 e))

    -- With a parser of addresses that gives numbers below 2 ^ 32, the network that is found is one of the
    -- sixteen and shares no address with a network taken; where none is found, each of the sixteen that
    -- reads as a network shares one with a network taken.
    pub first_free_16-IsAnswer : (taken : List String) → IsAnswer taken (first_free_16 p taken)
    unfolding first_free_16
    first_free_16-IsAnswer taken = answered (find free (map sixteen sixteens)) refl
      where
        free : String → Bool
        free = is_free p (filter_map (parse_cidr p) taken)

        answered : (o : Option String) → find free (map sixteen sixteens) ≡ o → IsAnswer taken o
        answered none e = λ s c m hs. elim (Bool-cases (free s)) [
          | inl hit ↦ absurd (
              ground (
                arith,
                Mem-any free (map sixteen sixteens) s m hit,
                find-eq-none free (map sixteen sixteens) e,
              ))
          | inr miss ↦ taken-ShareTexts taken s c miss hs
        ]
        answered (some s) e = (
          Mem-find free (map sixteen sixteens) s e,
          λ t m. is_free-ShareTexts taken s t (find-eq-some free (map sixteen sixteens) s e) m,
        )
