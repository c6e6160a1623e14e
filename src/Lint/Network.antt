-- ===== src/Lint/Network.antt =====
-- cli/src/lint/rules/network_policy.rs: whether the network policies match what the manifests say.
-- This file has the flows, the ports and the Services; its children have the references in texts, the
-- flows that policies permit, and the rule. A `BTreeSet` and a `BTreeMap` are lists in order.
pub mod Scan
pub mod Policies
pub mod Rule
mod Sets
pub mod Allowed
pub mod Needs
mod Complete
mod Found
pub mod Exact
pub mod Fuel
use catallaxy.Prelude.{
  ℕ, Bool, true, false, ◌&&◌, ◌||◌, ◌%◌, ◌^◌, Option, none, some, List, [], ◌∷◌, String, ◌==◌, eqb,
  ltb, and_then, filter_map, any, if◌then◌else◌,
}
use Prim.Native.String.{compare}
use Prim.Native.Nat.{Ordering}
use catallaxy.Lint.Yaml.{Yaml, Shape, number, text, elements, at_path}
use catallaxy.Lint.Manifest.{K8sResource, is_service}

pub record Flow : Type 0 where
  pub from : String
  pub to : String
  pub port : ℕ

abbrev pub flow_eq : Flow → Flow → Bool
flow_eq f g = (f.from == g.from) && (f.to == g.to) && eqb f.port g.port

-- The derived order, by the fields from the first.
abbrev pub flow_lt : Flow → Flow → Bool
flow_lt f g = elim (compare f.from g.from) [
  | Ordering.lt ↦ true
  | Ordering.gt ↦ false
  | Ordering.eq ↦ elim (compare f.to g.to) [
    | Ordering.lt ↦ true
    | Ordering.gt ↦ false
    | Ordering.eq ↦ ltb f.port g.port
  ]
]

module _ {A : Type 0} (eq lt : A → A → Bool) where
  -- `BTreeSet::insert`
  unfoldable pub insert_set : A → List A → List A
  insert_set a [] = a ∷ []
  insert_set a (b ∷ set) =
      let rest = insert_set a set in
      if eq a b then b ∷ set else if lt a b then a ∷ b ∷ set else b ∷ rest

-- The Services by namespace and name, with the set of their ports.
abbrev pub Services : Type 0
Services = List ((String × String) × List ℕ)

abbrev pub same_key : String × String → String × String → Bool
same_key a b = (a.0 == b.0) && (a.1 == b.1)

abbrev pub service_ports : String × String → Services → Option (List ℕ)
service_ports key [] = none
service_ports key ((k, ports) ∷ rest) =
    if same_key k key then some ports else service_ports key rest

abbrev insert_ports : List ℕ → List ℕ → List ℕ
insert_ports [] set = set
insert_ports (p ∷ ports) set = insert_ports ports (insert_set eqb ltb p set)

-- `entry(key).or_default()`, and the ports put in it.
unfoldable pub add_service : String × String → List ℕ → Services → Services
unfolding insert_set
add_service key ports [] = (key, insert_ports ports []) ∷ []
add_service key ports ((k, old) ∷ rest) =
    let more = add_service key ports rest in
    if same_key k key then (k, insert_ports ports old) ∷ rest else (k, old) ∷ more

module _ {V : Type 0} (y : Yaml V) where
  -- The match of `port_number` and of `json_port`. A port is 32 bits wide.
  unfoldable pub port_of : Shape → Option ℕ
  port_of (number n) = and_then n λ n. some (n % 2 ^ 32)
  port_of (text s) = y.parse_u32 s
  port_of _ = none

  abbrev pub port_number : V → Option ℕ
  port_number v = port_of (y.shape v)

  -- The ports of a list of values with a field `port`.
  abbrev pub ports_in : List V → List ℕ
  ports_in vs = filter_map (λ p. and_then (y.get_field p "port") port_number) vs

  unfoldable pub service_inventory : List (K8sResource V) → Services → Services
  unfolding add_service port_of
  service_inventory [] out = out
  service_inventory (r ∷ resources) out = elim (is_service r) [
    | false ↦ service_inventory resources out
    | true ↦ elim r.namespace [
      | none ↦ service_inventory resources out
      | some ns ↦ service_inventory resources (
          add_service (ns, r.name) (ports_in (elements y (at_path y r.raw ("spec" ∷ "ports" ∷ []))))
            out)
    ]
  ]
