-- ===== src/Subnet/Masks.antt =====
-- The masks of domain/subnet.rs: to mask an address by a prefix is to clear its lowest bits.
use catallaxy.Prelude.{
  ℕ, zero, suc, ◌+◌, ◌-◌, ◌*◌, ◌/◌, ◌%◌, ◌^◌, ◌≤◌, ◌<◌, ◌≡◌, refl, Bool, true, ◌&&◌, arith, eqb,
  eqb_iff, sym, subst, ◌∙◌, Bool-cases, inl, inr,
}
use Prim.Native.Nat.{bit_and, min, digits, bit_and-bitwise}
use catallaxy.Subnet.{mask}

-- 2 ^ n, and n ones with k zeros behind them.
abbrev power : ℕ → ℕ
power zero = 1
power (suc n) = 2 * power n

abbrev ones : ℕ → ℕ
ones zero = 0
ones (suc n) = 1 + 2 * ones n

abbrev ones_zeros : ℕ → ℕ → ℕ
ones_zeros n zero = ones n
ones_zeros n (suc k) = 2 * ones_zeros n k

-- The number with its lowest digits zero.
unfoldable pub clear : ℕ → ℕ → ℕ
clear zero a = a
clear (suc k) a = 2 * clear k (a / 2)

clear-zero : (k : ℕ) → clear k 0 ≡ 0
unfolding clear
clear-zero zero = refl
clear-zero (suc k) = omega (arith, clear-zero k)

-- The digits of an address and of a mask are taken together from the lowest on, with fuel for as many
-- steps as there are digits.
abbrev masked : ℕ → ℕ → ℕ → ℕ
masked fuel addr ones_mask = digits (λ _. zero) min fuel addr ones_mask

masked-clear :
    (fuel m k addr : ℕ)
    → addr ≤ fuel
    → addr < power (k + m)
    → masked fuel addr (ones_zeros m k) ≡ clear k addr
unfolding clear
masked-clear zero m k addr enough fits =
    let nothing : addr ≡ 0 = omega arith in
    subst (λ a. masked 0 a (ones_zeros m k) ≡ clear k a) (sym nothing) (sym (clear-zero k))
masked-clear (suc fuel) m k zero enough fits = sym (clear-zero k)
masked-clear (suc fuel) m (suc k) (suc addr) enough fits =
    let sum : suc k + m ≡ suc (k + m) = omega arith in
    let small : suc addr < 2 * power (k + m) = rw sum at fits in
    let half : (2 * ones_zeros m k) / 2 ≡ ones_zeros m k = omega arith in
    let last : (2 * ones_zeros m k) % 2 ≡ 0 = omega arith in
    let rest = masked-clear fuel m k (suc addr / 2) (omega arith) (omega arith) in
    rw (half, last) (omega (arith, rest))
masked-clear (suc fuel) zero zero (suc addr) enough fits =
    let small : suc addr < 1 = fits in absurd (omega arith)
masked-clear (suc fuel) (suc m) zero (suc addr) enough fits =
    let sum : 0 + suc m ≡ suc m = omega arith in
    let small : suc addr < 2 * power m = rw sum at fits in
    let half : (1 + 2 * ones m) / 2 ≡ ones m = omega arith in
    let last : (1 + 2 * ones m) % 2 ≡ 1 = omega arith in
    let again : 0 + m ≡ m = omega arith in
    let fits2 : suc addr / 2 < power (0 + m) = rw again (omega arith) in
    let rest = masked-clear fuel m 0 (suc addr / 2) (omega arith) fits2 in
    rw (half, last) (omega (arith, rest))

-- A test at a number and at all below it.
abbrev up_to : (ℕ → Bool) → ℕ → Bool
up_to test zero = test 0
up_to test (suc n) = up_to test n && test (suc n)

at_most-up_to : (test : ℕ → Bool) (n p : ℕ) → up_to test n ≡ true → p ≤ n → test p ≡ true
at_most-up_to test zero p h le = let lowest : p ≡ 0 = omega arith in rw lowest h
at_most-up_to test (suc n) p h le = elim (Bool-cases (eqb p (suc n))) [
  | inl last ↦ rw ((eqb_iff p (suc n)).0 last) (ground (arith, h))
  | inr before ↦ at_most-up_to test n p (ground (arith, h)) (ground arith)
]

-- A mask is its prefix many ones before the zeros, and both together are 32 digits.
abbrev is_ones : ℕ → Bool
is_ones p = eqb (mask p) (ones_zeros p (32 - p)) && eqb (power (32 - p + p)) (2 ^ 32)

masks : up_to is_ones 32 ≡ true
unfolding mask
masks = refl

pub bit_and-mask : (p a : ℕ) → p ≤ 32 → a < 2 ^ 32 → bit_and a (mask p) ≡ clear (32 - p) a
bit_and-mask p a h b =
    let both = at_most-up_to is_ones 32 p masks h in
    let fits : a < power (32 - p + p) = ground (arith, both) in
    let same : mask p ≡ ones_zeros p (32 - p) = ground (arith, both) in
    rw same
      (bit_and-bitwise a (ones_zeros p (32 - p)) ∙ masked-clear a p (32 - p) a (omega arith) fits)

pub clear-clear : (j k a : ℕ) → k ≤ j → clear j (clear k a) ≡ clear j a
unfolding clear
clear-clear j zero a h = refl
clear-clear zero (suc k) a h = absurd (omega arith)
clear-clear (suc j) (suc k) a h =
    let half : (2 * clear k (a / 2)) / 2 ≡ clear k (a / 2) = omega arith in
    rw half (omega (arith, clear-clear j k (a / 2) (omega arith)))

pub clear_le : (k a : ℕ) → clear k a ≤ a
unfolding clear
clear_le zero a = omega arith
clear_le (suc k) a = omega (arith, clear_le k (a / 2))
