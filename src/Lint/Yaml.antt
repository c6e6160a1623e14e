-- ===== src/Lint/Yaml.antt =====
-- What the linter asks of serde_yaml and serde_json. Nothing is assumed of the two.
use catallaxy.Prelude.{ℕ, Bool, Option, none, some, List, [], ◌∷◌, String, and_then, if◌then◌else◌}

-- What a value is, where the code matches on it. A number has its value if it is a `u64`.
pub data Shape : Type 0 where
  null boolean : Shape
  number : Option ℕ → Shape
  text : String → Shape
  sequence mapping tagged : Shape

-- `documents` are the documents of a text that read as values; `get` is the lookup of a text in a
-- mapping, and finds nothing in another value; `entries` are those of a mapping; `parse_u32` is
-- `str::parse` of the standard library.
pub record Yaml (V : Type 0) : Type 0 where
  pub documents : String → List V
  pub to_string : V → Option String
  pub get_field : V → String → Option V
  pub is_mapping : V → Bool
  pub entries : V → List (V × V)
  pub as_sequence : V → Option (List V)
  pub as_str : V → Option String
  pub as_bool : V → Option Bool
  pub is_null : V → Bool
  pub is_number : V → Bool
  pub is_i64 : V → Bool
  pub is_u64 : V → Bool
  pub shape : V → Shape
  pub parse_u32 : String → Option ℕ

module _ {V : Type 0} (y : Yaml V) where
  -- `as_mapping`: a mapping is a value that is one.
  abbrev pub as_mapping : V → Option V
  as_mapping v = if y.is_mapping v then some v else none

  -- A chain of `get`.
  abbrev pub at_path : V → List String → Option V
  at_path v [] = some v
  at_path v (k ∷ ks) = and_then (y.get_field v k) λ w. at_path w ks

  -- The elements of a list that may be missing (`into_iter().flatten()`).
  abbrev pub elements : Option V → List V
  elements none = []
  elements (some v) = elim (y.as_sequence v) [ none ↦ [] | some vs ↦ vs ]
