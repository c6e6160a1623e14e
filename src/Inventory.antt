-- ===== src/Inventory.antt =====
-- cli/src/domain/inventory.rs, with what it reads of cli/src/domain/provenance.rs and
-- cli/src/domain/lab_record.rs: what is running on this machine, worked out from facts. A
-- `BTreeMap` is a list of entries, which is sorted by the keys where it is read out.
pub mod Attributed
mod Pass
mod Loops
mod Strays
pub mod Provenance
pub mod Report
pub mod Cleanup
mod Permitted
pub mod Staged
mod Tests
use catallaxy.Prelude.{
  ℕ, Bool, true, false, not, Option, none, some, List, [], ◌∷◌, ◌++◌, String, ◌==◌, is_empty,
  contains, any, leb, ltb, map, sort, text_le, and_then, non_empty, strip_prefix, strip_suffix, Map,
  get, upsert, modify, if◌then◌else◌,
}
use text.Mathlib.Text.{starts_with}

abbrev service_suffixes : List String
service_suffixes = "ingress" ∷ "dns" ∷ "registry" ∷ "router" ∷ []

abbrev container_prefix : String
container_prefix = "catallaxy-"

pub record ContainerFact : Type 0 where
  pub name : String
  pub running : Bool
  pub labels : Map String
  pub published : List ℕ

-- Of a `LabRecord`, its clusters and the lab and flake that it names.
pub record ClusterRecord : Type 0 where
  pub cluster : String
  pub provisioner : String
  pub k3d_cluster : Option String
  pub kube_context : String

pub record LabRecord : Type 0 where
  pub lab : String
  pub flake : String
  pub clusters : List ClusterRecord

pub record HostFacts : Type 0 where
  pub docker_reachable : Bool
  pub containers : List ContainerFact
  pub networks : List String
  pub k3d_clusters : List String
  pub records : List LabRecord

pub data Attribution : Type 0 where
  labelled name_shaped recorded : Attribution

pub data Origin : Type 0 where
  unknown : Origin
  one : String → Origin
  conflicting : List String → Origin

pub record RunningLab : Type 0 where
  pub name : String
  pub origin : Origin
  pub containers : List String
  pub k3d_clusters : List String
  pub network : Option String
  pub has_record : Bool
  pub attributions : List Attribution

pub data Orphan : Type 0 where
  unattributed_container : String → List ℕ → Orphan
  unknown_k3d_cluster : String → Orphan
  stale_record_only : String → Orphan

pub record Inventory : Type 0 where
  pub docker_reachable : Bool
  pub labs : List RunningLab
  pub orphans : List Orphan

-- `k3d_cluster_names` of a record.
abbrev pub k3d_names : List ClusterRecord → List String
k3d_names [] = []
k3d_names (c ∷ cs) =
    let rest = k3d_names cs in elim c.k3d_cluster [ none ↦ rest | some k ↦ k ∷ rest ]

-- `provenance::lab_of` and `provenance::flake_of`
unfoldable pub lab_of : Map String → Option String
lab_of labels = and_then (get "catallaxy.io/lab" labels) non_empty

unfoldable pub flake_of : Map String → Option String
flake_of labels = and_then (get "catallaxy.io/flake" labels) non_empty

-- The search over the suffixes; `rest` is the name behind the prefix.
abbrev lab_before : String → List String → Option String
lab_before rest [] = none
lab_before rest (suffix ∷ more) =
    let later = lab_before rest more in
    elim (and_then (and_then (strip_suffix rest suffix) (λ head. strip_suffix head "-"))
      non_empty) [ some lab ↦ some lab | none ↦ later ]

unfoldable pub lab_from_container_name : String → Option String
unfolding strip_prefix strip_suffix
lab_from_container_name name =
    and_then (strip_prefix name container_prefix) (λ rest. lab_before rest service_suffixes)

unfoldable pub merge_origin : Origin → String → Origin
merge_origin unknown seen = one seen
merge_origin (one existing) seen =
    if existing == seen then one existing else conflicting (existing ∷ seen ∷ [])
merge_origin (conflicting all) seen =
    if contains all seen then conflicting all else conflicting (all ++ (seen ∷ []))

pub record Building : Type 0 where
  pub origin : Origin
  pub containers : List String
  pub k3d_clusters : List String
  pub has_record : Bool
  pub attributions : List Attribution

-- `Building::default()`
abbrev pub fresh : Building
fresh = record {
  origin = unknown;
  containers = [];
  k3d_clusters = [];
  has_record = false;
  attributions = [];
}

-- The derived order of attributions.
abbrev strength : Attribution → ℕ
strength labelled = 0
strength name_shaped = 1
strength recorded = 2

-- `insert` of a `BTreeSet`.
unfoldable pub attribute : Attribution → List Attribution → List Attribution
attribute a [] = a ∷ []
attribute a (b ∷ bs) =
    let rest = attribute a bs in
    if ltb (strength a) (strength b)
    then a ∷ b ∷ bs
    else if leb (strength a) (strength b)
    then b ∷ bs
    else b ∷ rest

-- `attributed`: the lab of a container, and how it is known.
unfoldable pub attributed : ContainerFact → Option (String × Attribution)
unfolding lab_of lab_from_container_name
attributed c = elim (lab_of c.labels) [
  | some lab ↦ some (lab, labelled)
  | none ↦ elim (lab_from_container_name c.name) [
    | some lab ↦ some (lab, name_shaped)
    | none ↦ none
  ]
]

-- The two maps of `correlate` that change: the labs and the orphans.
pub record Found : Type 0 where
  pub labs : Map Building
  pub orphans : List Orphan

-- `merge_origin` of a flake, where one is known.
abbrev pub see_flake : Option String → Origin → Origin
see_flake none o = o
see_flake (some flake) o = merge_origin o flake

abbrev pub add_container : ContainerFact → Attribution → Building → Building
add_container c how b = record b {
  containers = b.containers ++ (c.name ∷ []);
  attributions = attribute how b.attributions;
  origin = see_flake (flake_of c.labels) b.origin;
}

unfoldable pub see_container : ContainerFact → Found → Found
unfolding attributed
see_container c found = elim (attributed c) [
  | some (lab, how) ↦ record found { labs = upsert lab fresh (add_container c how) found.labs }
  | none ↦
      if starts_with c.name container_prefix
      then record found {
        orphans = found.orphans ++ (unattributed_container c.name c.published ∷ []);
      }
      else found
]

unfoldable pub see_containers : List ContainerFact → Found → Found
unfolding see_container
see_containers [] found = found
see_containers (c ∷ cs) found = see_containers cs (see_container c found)

-- `claimed_clusters.insert(k3d, lab)` for each cluster of a record.
unfoldable pub claim_names : List String → String → Map String → Map String
unfolding upsert
claim_names [] lab claimed = claimed
claim_names (k ∷ ks) lab claimed = claim_names ks lab (upsert k lab (λ _. lab) claimed)

unfoldable pub claim_clusters : List LabRecord → Map String → Map String
unfolding claim_names
claim_clusters [] claimed = claimed
claim_clusters (r ∷ rs) claimed =
    claim_clusters rs (claim_names (k3d_names r.clusters) r.lab claimed)

abbrev pub add_cluster : String → Building → Building
add_cluster cluster b = record b {
  k3d_clusters = b.k3d_clusters ++ (cluster ∷ []);
  attributions = attribute recorded b.attributions;
}

unfoldable pub see_cluster : Map String → String → Found → Found
see_cluster claimed cluster found = elim (get cluster claimed) [
  | some lab ↦ record found { labs = upsert lab fresh (add_cluster cluster) found.labs }
  | none ↦ record found { orphans = found.orphans ++ (unknown_k3d_cluster cluster ∷ []) }
]

unfoldable pub see_clusters : Map String → List String → Found → Found
unfolding see_cluster
see_clusters claimed [] found = found
see_clusters claimed (c ∷ cs) found = see_clusters claimed cs (see_cluster claimed c found)

abbrev pub add_record : LabRecord → Building → Building
add_record r b = record b {
  has_record = true;
  attributions = attribute recorded b.attributions;
  origin = if is_empty r.flake then b.origin else merge_origin b.origin r.flake;
}

unfoldable pub see_record : LabRecord → Found → Found
see_record r found = elim (get r.lab found.labs) [
  | some b ↦ record found { labs = modify r.lab (add_record r) found.labs }
  | none ↦ record found { orphans = found.orphans ++ (stale_record_only r.lab ∷ []) }
]

unfoldable pub see_records : List LabRecord → Found → Found
unfolding see_record
see_records [] found = found
see_records (r ∷ rs) found = see_records rs (see_record r found)

abbrev pub running : List String → String × Building → RunningLab
running networks (name, b) = record {
  name = name;
  origin = b.origin;
  containers = b.containers;
  k3d_clusters = b.k3d_clusters;
  network = if contains networks name then some name else none;
  has_record = b.has_record;
  attributions = b.attributions;
}

-- What the three loops find.
unfoldable pub gather : HostFacts → Found
unfolding see_containers see_clusters see_records claim_clusters
gather facts = see_records facts.records (
    see_clusters (claim_clusters facts.records []) facts.k3d_clusters
      (see_containers facts.containers (record { labs = []; orphans = [] })))

abbrev pub key_le : String × Building → String × Building → Bool
key_le (j, a) (k, b) = text_le j k

unfoldable pub correlate : HostFacts → Inventory
unfolding gather sort
correlate facts = record {
  docker_reachable = facts.docker_reachable;
  labs = map (running facts.networks) (sort key_le (gather facts).labs);
  orphans = (gather facts).orphans;
}
