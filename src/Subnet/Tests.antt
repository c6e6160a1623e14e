-- ===== src/Subnet/Tests.antt =====
-- The networks on a machine with a few of them, with a parser that reads the addresses used here.
use catallaxy.Prelude.{
  split_once, trim, decimal, ℕ, ◌<◌, ◌^◌, ◌≡◌, refl, ◌↔◌, none, some, [], ◌∷◌, String, Map, List,
  arith, get, get-Mem, Mem-All,
}
use mathlib.Core.List.{Memᴰ}
use catallaxy.Subnet.{
  Parsers, parse_cidr, cidr_of, mask, colliding, overlaps, first_free_16, is_free,
}
use catallaxy.Subnet.Overlaps.{ShareTexts, IsAnswer, colliding-ShareTexts, first_free_16-IsAnswer}

abbrev addresses : Map ℕ
addresses =
    ("10.0.0.0", 167772160)
    ∷ ("10.1.2.0", 167838208)
    ∷ ("172.16.0.0", 2886729728)
    ∷ ("172.17.0.0", 2886795264)
    ∷ ("172.20.5.9", 2886993161)
    ∷ ("255.255.255.255", 4294967295)
    ∷ []

abbrev parsers : Parsers
parsers = record {
  parse_ipv4 = λ s. get s addresses;
  parse_u8 =
      λ s. get s (("0", 0) ∷ ("8", 8) ∷ ("12", 12) ∷ ("16", 16) ∷ ("24", 24) ∷ ("33", 33) ∷ []);
}

below : (s : String) (a : ℕ) → get s addresses ≡ some a → a < 2 ^ 32
below s a h =
    Mem-All (λ e. e.1 < 2 ^ 32) addresses (s, a)
      (omega arith, (omega arith, (omega arith, (omega arith, (omega arith, (omega arith, tt))))))
      (get-Mem s a addresses h)

host_bits : parse_cidr parsers " 172.20.5.9/16" ≡ some (record { base = 2886991872; prefix = 16 })
unfolding parse_cidr cidr_of mask split_once trim
host_bits = refl

too_long : parse_cidr parsers "172.17.0.0/33" ≡ none
unfolding parse_cidr cidr_of mask split_once trim
too_long = refl

abbrev taken : List String
taken = "172.16.0.0/16" ∷ "10.0.0.0/8" ∷ []

collides : colliding parsers "10.1.2.0/24" taken ≡ "10.0.0.0/8" ∷ []
unfolding colliding parse_cidr cidr_of mask overlaps split_once trim
collides = refl

free : first_free_16 parsers taken ≡ some "172.17.0.0/16"
unfolding first_free_16 is_free parse_cidr cidr_of mask overlaps split_once trim decimal
free = refl

full : first_free_16 parsers ("172.16.0.0/12" ∷ []) ≡ none
unfolding first_free_16 is_free parse_cidr cidr_of mask overlaps split_once trim decimal
full = refl

colliding-ShareTexts_example :
    Memᴰ "10.0.0.0/8" (colliding parsers "10.1.2.0/24" taken)
    ↔ (Memᴰ "10.0.0.0/8" taken × ShareTexts parsers "10.1.2.0/24" "10.0.0.0/8")
colliding-ShareTexts_example = colliding-ShareTexts parsers below "10.1.2.0/24" "10.0.0.0/8" taken

first_free_16-IsAnswer_example : IsAnswer parsers taken (first_free_16 parsers taken)
first_free_16-IsAnswer_example = first_free_16-IsAnswer parsers below taken
