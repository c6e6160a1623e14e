-- ===== src/Lint/Network/Scan.antt =====
-- cli/src/lint/rules/network_policy.rs, references_in: the Services that a text names.
use catallaxy.Prelude.{
  ℕ, zero, suc, ◌-◌, Bool, true, false, not, ◌&&◌, ◌||◌, Option, none, some, List, [], ◌∷◌, String,
  ◌==◌, eqb, leb, and_then, get_elem?, length, is_empty, drop, if◌then◌else◌,
}
use Prim.Native.Char.{Char, code}

-- A reference: the Service, its namespace and the port.
abbrev pub Reference : Type 0
Reference = String × String × Option ℕ

abbrev pub is_digit : Char → Bool
is_digit c = leb b'0' (code c) && leb (code c) b'9'

abbrev pub is_name : Char → Bool
is_name c = (leb b'a' (code c) && leb (code c) b'z') || is_digit c || eqb (code c) b'-'

-- How many characters a text has.
abbrev pub char_count : String → ℕ
char_count String.[] = 0
char_count (String.◌∷◌ c s) = suc (char_count s)

-- The characters in front for which the test holds, and the rest.
unfoldable pub span : (Char → Bool) → String → String × String
span p String.[] = ("", "")
span p (String.◌∷◌ c s) =
    let (front, rest) = span p s in if p c then (String.◌∷◌ c front, rest) else ("", String.◌∷◌ c s)

-- The text behind its first character, where that is the one of the code.
abbrev pub behind : ℕ → String → Option String
behind n String.[] = none
behind n (String.◌∷◌ c s) = if eqb (code c) n then some s else none

-- The loop over the labels, and what it leaves of the text.
unfoldable pub scan_labels : ℕ → String → List String × String
unfolding span
scan_labels zero s = ([], s)
scan_labels (suc f) s =
    let (label, rest) = span is_name s in
    elim (is_empty label) [
      | true ↦ ([], s)
      | false ↦ elim (behind b'.' rest) [
        | none ↦ (label ∷ [], rest)
        | some more ↦ let (labels, end) = scan_labels f more in (label ∷ labels, end)
      ]
    ]

-- `position(|l| l == "svc")`
abbrev pub position_svc : List String → Option ℕ
position_svc [] = none
position_svc (l ∷ labels) = elim (l == "svc") [
  | true ↦ some 0
  | false ↦ elim (position_svc labels) [ none ↦ none | some k ↦ some (suc k) ]
]

abbrev pub is_domain : List String → Bool
is_domain [] = true
is_domain (a ∷ b ∷ []) = (a == "cluster") && (b == "local")
is_domain _ = false

abbrev pub svc_at : List String → Option ℕ
svc_at labels =
    and_then (position_svc labels)
      λ k. if leb 2 k && is_domain (drop (suc k) labels) then some k else none

-- The two labels from the one at the number.
abbrev pub pair_at : List String → ℕ → Option ℕ → Option Reference
pair_at labels k port =
    and_then (get_elem? labels k)
      λ svc. and_then (get_elem? labels (suc k)) λ ns. some (svc, ns, port)

unfoldable pub reference_of : List String → Option ℕ → Option Reference
reference_of labels port = elim (svc_at labels) [
  | some k ↦ pair_at labels (k - 2) port
  | none ↦ if eqb (length labels) 2 then pair_at labels 0 port else none
]

-- `out.push` of what was found.
abbrev pub pushed : Option Reference → List Reference → List Reference
pushed none out = out
pushed (some r) out = r ∷ out

module _ (parse_u32 : String → Option ℕ) where
  unfoldable pub scan_port : String → Option ℕ × String
  unfolding span
  scan_port s = elim (behind b':' s) [
    | none ↦ (none, s)
    | some more ↦
        let (digits, rest) = span is_digit more in
        if is_empty digits then (none, s) else (parse_u32 digits, rest)
  ]

  -- The labels and the port at a place in the text, and what is left behind them.
  unfoldable pub read_reference : ℕ → String → Option Reference × String
  unfolding scan_labels scan_port reference_of
  read_reference f s =
      let (labels, behind_labels) = scan_labels f s in
      let (port, rest) = scan_port behind_labels in (reference_of labels port, rest)

  -- The outer loop from a place in the text. `after` says that the character before is one of a name
  -- or a dot, which it is behind every reference.
  unfoldable pub references_from : ℕ → Bool → String → List Reference
  unfolding read_reference
  references_from zero after s = []
  references_from (suc f) after String.[] = []
  references_from (suc f) after (String.◌∷◌ c s) =
      let found = read_reference (suc f) (String.◌∷◌ c s) in
      elim (not (is_name c) || after) [
        | true ↦ references_from f (is_name c || eqb (code c) b'.') s
        | false ↦ pushed found.0 (references_from f true found.1)
      ]

  -- The fuel is the number of characters, and one more.
  unfoldable pub references_in : String → List Reference
  unfolding references_from
  references_in text = references_from (suc (char_count text)) false text
