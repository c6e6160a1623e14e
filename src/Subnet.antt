-- ===== src/Subnet.antt =====
-- cli/src/domain/subnet.rs: IPv4 networks, which of them collide and which are free. An address is
-- a number below 2 ^ 32.
pub mod Masks
pub mod Overlaps
mod Tests
use catallaxy.Prelude.{
  ℕ, zero, suc, ◌+◌, ◌-◌, ◌*◌, ◌%◌, ◌^◌, Bool, true, false, not, ◌&&◌, Option, none, some, List, [],
  ◌∷◌, String, ◌<>◌, trim, and_then, any, find, keep, map, eqb, ltb, decimal, split_once,
  filter_map, if◌then◌else◌,
}
use Prim.Native.Nat.{bit_and, min}

-- `str::parse` of the standard library at `Ipv4Addr`, as its 32 bits, and at `u8`.
pub record Parsers : Type 0 where
  pub parse_ipv4 : String → Option ℕ
  pub parse_u8 : String → Option ℕ

pub record Cidr : Type 0 where
  pub base : ℕ
  pub prefix : ℕ

unfoldable pub mask : ℕ → ℕ
mask prefix = if eqb prefix 0 then 0 else (2 ^ 32 - 1) * 2 ^ (32 - prefix) % 2 ^ 32

-- The test of `parse` on the two parsed parts.
unfoldable pub cidr_of : ℕ → ℕ → Option Cidr
cidr_of addr prefix =
    if ltb 32 prefix
    then none
    else some (record { base = bit_and addr (mask prefix); prefix = prefix })

unfoldable pub overlaps : Cidr → Cidr → Bool
overlaps self other =
    let shared = mask (min self.prefix other.prefix) in
    eqb (bit_and self.base shared) (bit_and other.base shared)

abbrev pub sixteen : ℕ → String
sixteen second = "172." <> (decimal second <> ".0.0/16")

abbrev pub sixteens : List ℕ
sixteens = 16 ∷ 17 ∷ 18 ∷ 19 ∷ 20 ∷ 21 ∷ 22 ∷ 23 ∷ 24 ∷ 25 ∷ 26 ∷ 27 ∷ 28 ∷ 29 ∷ 30 ∷ 31 ∷ []

module _ (p : Parsers) where
  -- `Cidr::parse`
  unfoldable pub parse_cidr : String → Option Cidr
  parse_cidr text = and_then (split_once b'/' (trim text)) λ halves.
      and_then (p.parse_ipv4 halves.0)
        λ addr. and_then (p.parse_u8 halves.1) λ prefix. cidr_of addr prefix

  abbrev overlaps_text : Cidr → String → Bool
  overlaps_text ours t = elim (parse_cidr t) [ none ↦ false | some other ↦ overlaps ours other ]

  unfoldable pub colliding : String → List String → List String
  colliding subnet taken = elim (parse_cidr subnet) [
    | none ↦ []
    | some ours ↦ keep (overlaps_text ours) taken
  ]

  -- The test of `first_free_16` on one candidate.
  unfoldable pub is_free : List Cidr → String → Bool
  is_free parsed candidate = elim (parse_cidr candidate) [
    | none ↦ false
    | some c ↦ not (any (λ t. overlaps c t) parsed)
  ]

  unfoldable pub first_free_16 : List String → Option String
  unfolding is_free
  first_free_16 taken = find (is_free (filter_map parse_cidr taken)) (map sixteen sixteens)
