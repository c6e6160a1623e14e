-- ===== src/Inventory/Attributed.antt =====
-- What an inventory (cli/src/domain/inventory.rs) should say, read off the facts without any map.
use catallaxy.Prelude.{
  Bool, true, false, not, ◌&&◌, ◌≡◌, none, some, List, [], ◌++◌, String, ◌==◌, contains, any,
  is_nil, keep, map, Map, get, if◌then◌else◌,
}
use mathlib.Core.List.{Memᴰ}
use text.Mathlib.Text.{starts_with}
use catallaxy.Inventory.{
  ContainerFact, LabRecord, HostFacts, Orphan, unattributed_container, unknown_k3d_cluster,
  stale_record_only, RunningLab, Inventory, attributed, claim_clusters,
}

-- The container is tied to the lab.
abbrev pub is_of : String → ContainerFact → Bool
is_of l c = elim (attributed c) [ none ↦ false | some (lab, how) ↦ lab == l ]

abbrev pub is_stray : ContainerFact → Bool
is_stray c = elim (attributed c) [ none ↦ starts_with c.name "catallaxy-" | some _ ↦ false ]

abbrev pub is_claimed_by : Map String → String → String → Bool
is_claimed_by claimed l k = elim (get k claimed) [ none ↦ false | some lab ↦ lab == l ]

abbrev pub is_unclaimed : Map String → String → Bool
is_unclaimed claimed k = elim (get k claimed) [ none ↦ true | some _ ↦ false ]

abbrev pub strays : List ContainerFact → List Orphan
strays cs = map (λ c. unattributed_container c.name c.published) (keep is_stray cs)

abbrev pub unknowns : Map String → List String → List Orphan
unknowns claimed ks = map unknown_k3d_cluster (keep (is_unclaimed claimed) ks)

abbrev pub stale : (String → Bool) → List LabRecord → List Orphan
stale is_live rs = map (λ r. stale_record_only r.lab) (keep (λ r. not (is_live r.lab)) rs)

module _ (facts : HostFacts) where
  abbrev pub claims : Map String
  claims = claim_clusters facts.records []

  abbrev pub containers_of : String → List String
  containers_of l = map (λ c. c.name) (keep (is_of l) facts.containers)

  abbrev pub clusters_of : String → List String
  clusters_of l = keep (is_claimed_by claims l) facts.k3d_clusters

  -- Something of the lab is live.
  abbrev pub is_live : String → Bool
  is_live l = not (is_nil (containers_of l) && is_nil (clusters_of l))

  pub record Describes (lab : RunningLab) : Type 0 where
    pub containers : lab.containers ≡ containers_of lab.name
    pub k3d_clusters : lab.k3d_clusters ≡ clusters_of lab.name
    pub has_record : lab.has_record ≡ any (λ r. r.lab == lab.name) facts.records
    pub network : lab.network ≡ (if contains facts.networks lab.name then some lab.name else none)
    pub live : is_live lab.name ≡ true

  -- The inventory that the facts call for.
  pub record Reports (inventory : Inventory) : Type 0 where
    pub docker_reachable : inventory.docker_reachable ≡ facts.docker_reachable
    pub sound : (lab : RunningLab) → Memᴰ lab inventory.labs → Describes lab
    pub complete :
        (l : String)
        → is_live l ≡ true
        → (lab : RunningLab) × Memᴰ lab inventory.labs × (lab.name ≡ l)
    pub once :
        (lab lab' : RunningLab)
        → Memᴰ lab inventory.labs
        → Memᴰ lab' inventory.labs
        → lab.name ≡ lab'.name
        → lab ≡ lab'
    pub orphans :
        inventory.orphans
        ≡ strays facts.containers
          ++ (unknowns claims facts.k3d_clusters ++ stale is_live facts.records)
