-- ===== src/Inventory/Report.antt =====
-- `correlate` of cli/src/domain/inventory.rs reports what the facts call for.
use catallaxy.Prelude.{
  ◌≡◌, refl, sym, ap, ◌∙◌, fun_ext, true, some, [], ◌++◌, String, ◌==◌, any, Mem-map, map-Mem,
  Mem-All, All-Mem, All-sort, Mem-sort, sort, arith, inl, inr, Option-cases, get, get-Mem, Mem-get,
  or_else, IsMap, subst,
}
use mathlib.Core.List.{Memᴰ, append_assoc, append-nil}
use catallaxy.Inventory.{
  HostFacts, Building, Found, RunningLab, fresh, see_containers, see_clusters, see_records, gather,
  running, key_le, correlate,
}
use catallaxy.Inventory.Attributed.{
  strays, unknowns, stale, claims, containers_of, clusters_of, is_live, Describes, Reports,
}
use catallaxy.Inventory.Pass.{at, is_in}
use catallaxy.Inventory.Loops.{see_containers-Adds, see_clusters-Adds, see_records-Marks}
use catallaxy.Inventory.Strays.{
  see_containers-IsMap, see_clusters-IsMap, see_records-IsMap, see_containers-orphans,
  see_clusters-orphans, see_records-orphans,
}

module _ (facts : HostFacts) where
  abbrev start : Found
  start = record { labs = []; orphans = [] }

  abbrev with_containers : Found
  with_containers = see_containers facts.containers start

  abbrev with_clusters : Found
  with_clusters = see_clusters (claims facts) facts.k3d_clusters with_containers

  gather-eq : gather facts ≡ see_records facts.records with_clusters
  unfolding gather
  gather-eq = refl

  gather-IsMap : IsMap (gather facts).labs
  gather-IsMap =
      subst (λ g. IsMap g.labs) (sym gather-eq)
        (see_records-IsMap facts.records with_clusters (
          see_clusters-IsMap (claims facts) facts.k3d_clusters with_containers
            (see_containers-IsMap facts.containers start tt)))

  -- What is known of a lab when the loops are over.
  record Knows (l : String) : Type 0 where
    containers : (at l (gather facts).labs).containers ≡ containers_of facts l
    k3d_clusters : (at l (gather facts).labs).k3d_clusters ≡ clusters_of facts l
    present : is_in l (gather facts).labs ≡ is_live facts l
    has_record :
        is_live facts l ≡ true
        → (at l (gather facts).labs).has_record ≡ any (λ r. r.lab == l) facts.records

  live_eq : (l : String) → is_in l with_clusters.labs ≡ is_live facts l
  live_eq l = ground (
    arith,
    (see_containers-Adds l facts.containers start).present,
    (see_clusters-Adds l (claims facts) facts.k3d_clusters with_containers).present,
  )

  gather-Knows : (l : String) → Knows l
  unfolding gather
  gather-Knows l =
      let cs = see_containers-Adds l facts.containers start in
      let ks = see_clusters-Adds l (claims facts) facts.k3d_clusters with_containers in
      let rs = see_records-Marks l facts.records with_clusters in
      record {
        containers =
            rs.containers
            ∙ ks.containers
            ∙ ap (λ t. t ++ []) cs.containers
            ∙ append-nil (containers_of facts l);
        k3d_clusters =
            rs.k3d_clusters ∙ ks.k3d_clusters ∙ ap (λ t. t ++ clusters_of facts l) cs.k3d_clusters;
        present = rs.present ∙ live_eq l;
        has_record =
            λ live. ground (arith, rs.has_record (live_eq l ∙ live), ks.has_record, cs.has_record);
      }

  entry-Describes :
      (l : String) (b : Building)
      → Memᴰ (l, b) (gather facts).labs
      → Describes facts (running facts.networks (l, b))
  entry-Describes l b m =
      let there = Mem-get l b (gather facts).labs gather-IsMap m in
      let knows = gather-Knows l in
      let live : is_live facts l ≡ true = ground (arith, knows.present, there) in
      record {
        containers = sym (ap (λ o. (or_else o fresh).containers) there) ∙ knows.containers;
        k3d_clusters = sym (ap (λ o. (or_else o fresh).k3d_clusters) there) ∙ knows.k3d_clusters;
        has_record = sym (ap (λ o. (or_else o fresh).has_record) there) ∙ knows.has_record live;
        network = refl;
        live = live;
      }

  -- A lab of the inventory comes from an entry of the map.
  entry_of :
      (lab : RunningLab)
      → Memᴰ lab (correlate facts).labs
      → (l : String) × (b : Building) × Memᴰ (l, b) (gather facts).labs
        × (running facts.networks (l, b) ≡ lab)
  unfolding correlate
  entry_of lab m =
      let ((l, b), n, e) =
        Mem-map (running facts.networks) (sort key_le (gather facts).labs) lab m in
      (
        l,
        b,
        Mem-All (λ e. Memᴰ e (gather facts).labs) (sort key_le (gather facts).labs) (l, b)
            (All-sort (λ e. Memᴰ e (gather facts).labs) key_le (gather facts).labs
              (All-Mem (λ e. Memᴰ e (gather facts).labs) (gather facts).labs (λ x h. h)))
            n,
        e,
      )

  listed :
      (l : String) (b : Building)
      → get l (gather facts).labs ≡ some b
      → Memᴰ (running facts.networks (l, b)) (correlate facts).labs
  unfolding correlate
  listed l b h =
      map-Mem (running facts.networks) (sort key_le (gather facts).labs) (l, b)
        (Mem-sort key_le (l, b) (gather facts).labs (get-Mem l b (gather facts).labs h))

  correlate_complete :
      (l : String)
      → is_live facts l ≡ true
      → (lab : RunningLab) × Memᴰ lab (correlate facts).labs × (lab.name ≡ l)
  correlate_complete l live = elim (Option-cases (get l (gather facts).labs)) [
    | inl missing ↦ absurd (ground (arith, (gather-Knows l).present))
    | inr (b, there) ↦ (running facts.networks (l, b), listed l b there, refl)
  ]

  correlate-once :
      (lab lab' : RunningLab)
      → Memᴰ lab (correlate facts).labs
      → Memᴰ lab' (correlate facts).labs
      → lab.name ≡ lab'.name
      → lab ≡ lab'
  correlate-once lab lab' m m' same =
      let (l, b, n, e) = entry_of lab m in
      let (l', b', n', e') = entry_of lab' m' in
      let names : l ≡ l' = ap (λ x. x.name) e ∙ same ∙ sym (ap (λ x. x.name) e') in
      let there = Mem-get l b (gather facts).labs gather-IsMap n in
      let there' = Mem-get l' b' (gather facts).labs gather-IsMap n' in
      let found : some b ≡ some b' =
        sym there ∙ ap (λ x. get x (gather facts).labs) names ∙ there' in
      let buildings : b ≡ b' = cc in
      sym e ∙ (λ i. running facts.networks (names i, buildings i)) ∙ e'

  correlate-orphans :
      (correlate facts).orphans
      ≡ strays facts.containers
        ++ (unknowns (claims facts) facts.k3d_clusters ++ stale (is_live facts) facts.records)
  unfolding correlate gather
  correlate-orphans =
      see_records-orphans facts.records with_clusters
      ∙ ap (λ t. t ++ stale (λ l. is_in l with_clusters.labs) facts.records)
          (see_clusters-orphans (claims facts) facts.k3d_clusters with_containers)
      ∙ ap
          (λ t.
            (t ++ unknowns (claims facts) facts.k3d_clusters)
            ++ stale (λ l. is_in l with_clusters.labs) facts.records)
          (see_containers-orphans facts.containers start)
      ∙ append_assoc (strays facts.containers) (unknowns (claims facts) facts.k3d_clusters)
          (stale (λ l. is_in l with_clusters.labs) facts.records)
      ∙ ap
          (λ f.
            strays facts.containers
            ++ (unknowns (claims facts) facts.k3d_clusters ++ stale f facts.records))
          (fun_ext live_eq)

  -- The inventory is what the facts call for. It lists each lab once, exactly those of which a
  -- container or a cluster is there. A lab's containers are those attributed to it, and its clusters
  -- those that a record claims for it, in the order of the facts; its record and network are those
  -- of its name. The orphans are the containers with the prefix that no lab can be told for, the
  -- clusters that no record claims, and the records of labs of which nothing is there.
  pub correlate-Reports : Reports facts (correlate facts)
  unfolding correlate
  correlate-Reports = record {
    docker_reachable = refl;
    sound = λ lab m.
        let (l, b, n, e) = entry_of lab m in subst (Describes facts) e (entry-Describes l b n);
    complete = correlate_complete;
    once = correlate-once;
    orphans = correlate-orphans;
  }
