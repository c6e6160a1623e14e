-- ===== src/Ports/RoundTrip.antt =====
-- cli/src/domain/port_mapping.rs: the parser on the texts that `Display` writes.
use catallaxy.Prelude.{
  ℕ, zero, suc, ◌/◌, ◌%◌, ◌≡◌, refl, ap, ◌∙◌, Bool, true, false, Option, none, some, [], ◌∷◌,
  String, ◌<>◌, arith, eqb, decimal, digit, decimal_fuel, split_at, contains_char, if◌then◌else◌,
}
use Prim.Native.Char.{code}
use text.Mathlib.TextLemmas.{nil-append, cons-append}
use catallaxy.Images.Splits.{contains_char-append, cons_one}
use catallaxy.Ports.{Parser, PortMapping, parse_port, ports_of, show_port}

split_at-free : (n : ℕ) (s : String) → contains_char n s ≡ false → split_at n s ≡ s ∷ []
unfolding contains_char
split_at-free n String.[] h = refl
split_at-free n (String.◌∷◌ c s) h =
    let other : eqb (code c) n ≡ false = ground arith in
    rw (other, split_at-free n s (ground arith)) refl

split_at-append :
    (n : ℕ) (a s t : String)
    → contains_char n a ≡ false
    → split_at n s ≡ "" ∷ split_at n t
    → split_at n (a <> s) ≡ a ∷ split_at n t
unfolding contains_char
split_at-append n String.[] s t h e = rw (nil-append s) e
split_at-append n (String.◌∷◌ c a) s t h e =
    let other : eqb (code c) n ≡ false = ground arith in
    rw (cons-append c a s, other, split_at-append n a s t (ground arith) e) refl

either :
    (n : ℕ) (b : Bool) (s t : String)
    → contains_char n s ≡ false
    → contains_char n t ≡ false
    → contains_char n (if b then s else t) ≡ false
either n true s t h k = h
either n false s t h k = k

-- A character that is no digit, at any of the codes that separate the parts of a publish argument.
digit-free : (n d : ℕ) → contains_char n "0123456789" ≡ false → contains_char n (digit d) ≡ false
unfolding contains_char
digit-free n d h = either n (eqb d 0) "0" _ (ground arith) (
    either n (eqb d 1) "1" _ (ground arith) (
      either n (eqb d 2) "2" _ (ground arith) (
        either n (eqb d 3) "3" _ (ground arith) (
          either n (eqb d 4) "4" _ (ground arith) (
            either n (eqb d 5) "5" _ (ground arith) (
              either n (eqb d 6) "6" _ (ground arith) (
                either n (eqb d 7) "7" _ (ground arith)
                  (either n (eqb d 8) "8" _ (ground arith) (ground arith)))))))))

decimal_fuel-free :
    (n : ℕ)
    → ((d : ℕ) → contains_char n (digit d) ≡ false)
    → (f k : ℕ) → contains_char n (decimal_fuel f k) ≡ false
unfolding contains_char decimal_fuel
decimal_fuel-free n h zero k = refl
decimal_fuel-free n h (suc f) k = ground (
  arith,
  contains_char-append n (decimal_fuel f (k / 10)) (digit (k % 10)),
  decimal_fuel-free n h f (k / 10),
  h k,
  h (k % 10),
)

decimal-free :
    (n k : ℕ) → contains_char n "0123456789" ≡ false → contains_char n (decimal k) ≡ false
unfolding decimal
decimal-free n k h = decimal_fuel-free n (λ d. digit-free n d h) (suc k) k

no_colon : (k : ℕ) → contains_char b':' (decimal k) ≡ false
unfolding contains_char
no_colon k = decimal-free b':' k refl

tail-free :
    (n h c : ℕ)
    → eqb b':' n ≡ false
    → contains_char n "0123456789" ≡ false
    → contains_char n (decimal h <> (":" <> decimal c)) ≡ false
unfolding contains_char
tail-free n h c other digits = ground (
  arith,
  contains_char-append n (decimal h) (":" <> decimal c),
  contains_char-append n ":" (decimal c),
  decimal-free n h digits,
  decimal-free n c digits,
)

colon_first : (s : String) → split_at b':' (":" <> s) ≡ "" ∷ split_at b':' s
colon_first s = ap (split_at b':') (cons_one ":" s)

split_at-pair :
    (h c : ℕ) → split_at b':' (decimal h <> (":" <> decimal c)) ≡ decimal h ∷ decimal c ∷ []
split_at-pair h c =
    split_at-append b':' (decimal h) (":" <> decimal c) (decimal c) (no_colon h)
      (colon_first (decimal c))
    ∙ ap (λ l. decimal h ∷ l) (split_at-free b':' (decimal c) (no_colon c))

-- A bind address without any of the characters that separate the parts.
abbrev pub IsPlain : Option String → Type 0
IsPlain none = Unit
IsPlain (some a) =
    (contains_char b'@' a ≡ false) × (contains_char b'/' a ≡ false) × (contains_char b':' a ≡ false)

module _ (p : Parser) where
  parse_port-pieces :
      (s : String) (addr : Option String) (first second : String) (host container : ℕ)
      → contains_char b'@' s ≡ false
      → contains_char b'/' s ≡ false
      → ports_of (split_at b':' s) ≡ some (addr, first, second)
      → p.parse_u16 first ≡ some host
      → p.parse_u16 second ≡ some container
      → parse_port p s ≡ some (record { addr = addr; host = host; container = container })
  unfolding parse_port
  parse_port-pieces s addr first second host container no_node no_protocol pieces reads_host
        reads_container =
      rw
        (
          split_at-free b'@' s no_node,
          split_at-free b'/' s no_protocol,
          pieces,
          reads_host,
          reads_container,
        )
        refl

  parts_back :
      (addr : Option String) (h c : ℕ)
      → IsPlain addr
      → p.parse_u16 (decimal h) ≡ some h
      → p.parse_u16 (decimal c) ≡ some c
      → parse_port p (show_port (record { addr = addr; host = h; container = c }))
        ≡ some (record { addr = addr; host = h; container = c })
  unfolding contains_char show_port ports_of
  parts_back none h c plain reads_host reads_container =
      parse_port-pieces (decimal h <> (":" <> decimal c)) none (decimal h) (decimal c) h c
        (tail-free b'@' h c refl refl) (tail-free b'/' h c refl refl)
        (ap ports_of (split_at-pair h c)) reads_host reads_container
  parts_back (some a) h c plain reads_host reads_container =
      parse_port-pieces (a <> (":" <> tail)) (some a) (decimal h) (decimal c) h c
        (ground (
          arith,
          contains_char-append b'@' a (":" <> tail),
          contains_char-append b'@' ":" tail,
          tail-free b'@' h c refl refl,
          plain.0,
        ))
        (ground (
          arith,
          contains_char-append b'/' a (":" <> tail),
          contains_char-append b'/' ":" tail,
          tail-free b'/' h c refl refl,
          plain.1,
        ))
        (ap ports_of (
          split_at-append b':' a (":" <> tail) tail plain.2 (colon_first tail)
          ∙ ap (λ l. a ∷ l) (split_at-pair h c)))
        reads_host reads_container
    where
      tail : String
      tail = decimal h <> (":" <> decimal c)

  -- If the parser of port numbers reads the two ports of a publish argument as they are written, and
  -- its bind address, if it has one, has no colon, slash or at sign, the text that is written for the
  -- argument is parsed back to it.
  pub parse_port-show_port :
      (m : PortMapping)
      → IsPlain m.addr
      → p.parse_u16 (decimal m.host) ≡ some m.host
      → p.parse_u16 (decimal m.container) ≡ some m.container
      → parse_port p (show_port m) ≡ some m
  parse_port-show_port m = parts_back m.addr m.host m.container
