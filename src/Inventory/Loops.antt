-- ===== src/Inventory/Loops.antt =====
-- The three loops of `correlate` (cli/src/domain/inventory.rs), for one lab and for the orphans.
use catallaxy.Prelude.{
  ◌≡◌, refl, sym, ap, ◌∙◌, Bool, true, ◌||◌, some, List, [], ◌∷◌, ◌++◌, String, ◌==◌, eq_iff, any,
  keep, keep-cons, map, arith, inl, inr, Bool-cases, Option-cases, Map, get, modify, or_else,
  get-modify, subst,
}
use mathlib.Core.List.{map-append}
use catallaxy.Inventory.{
  ContainerFact, LabRecord, Building, Found, fresh, see_container, see_containers, see_cluster,
  see_clusters, add_record, see_record, see_records,
}
use catallaxy.Inventory.Attributed.{is_of, is_claimed_by}
use catallaxy.Inventory.Pass.{
  at, is_in, names, Adds, Adds-nothing, Adds-trans, see_container-Adds, see_cluster-Adds,
}

module _ (l : String) where
  names-cons :
      (c : ContainerFact) (cs : List ContainerFact)
      → names l (c ∷ cs) ≡ names l (c ∷ []) ++ names l cs
  names-cons c cs =
      ap (map (λ c. c.name)) (keep-cons (is_of l) c cs)
      ∙ map-append (λ c. c.name) (keep (is_of l) (c ∷ [])) (keep (is_of l) cs)

  pub see_containers-Adds :
      (cs : List ContainerFact) (found : Found)
      → Adds l (names l cs) [] found.labs (see_containers cs found).labs
  unfolding see_containers
  see_containers-Adds [] found = Adds-nothing l found.labs
  see_containers-Adds (c ∷ cs) found =
      subst (λ xs. Adds l xs [] found.labs (see_containers (c ∷ cs) found).labs)
        (sym (names-cons c cs))
        (Adds-trans l (names l (c ∷ [])) [] (names l cs) [] found.labs (see_container c found).labs
          _ (see_container-Adds l c found) (see_containers-Adds cs (see_container c found)))

  pub see_clusters-Adds :
      (claimed : Map String) (ks : List String) (found : Found)
      → Adds l []
          (keep (is_claimed_by claimed l) ks)
          found.labs
          (see_clusters claimed ks found).labs
  unfolding see_clusters
  see_clusters-Adds claimed [] found = Adds-nothing l found.labs
  see_clusters-Adds claimed (k ∷ ks) found =
      subst (λ js. Adds l [] js found.labs (see_clusters claimed (k ∷ ks) found).labs)
        (sym (keep-cons (is_claimed_by claimed l) k ks))
        (Adds-trans l [] (keep (is_claimed_by claimed l) (k ∷ [])) []
          (keep (is_claimed_by claimed l) ks) found.labs (see_cluster claimed k found).labs _
          (see_cluster-Adds l claimed k found)
          (see_clusters-Adds claimed ks (see_cluster claimed k found)))

  -- What the loop over the records leaves of a lab.
  pub record Marks (hit : Bool) (m m' : Map Building) : Type 0 where
    pub containers : (at l m').containers ≡ (at l m).containers
    pub k3d_clusters : (at l m').k3d_clusters ≡ (at l m).k3d_clusters
    pub present : is_in l m' ≡ is_in l m
    pub has_record : is_in l m ≡ true → (at l m').has_record ≡ ((at l m).has_record || hit)

  pub see_record-Marks :
      (r : LabRecord) (found : Found) → Marks (r.lab == l) found.labs (see_record r found).labs
  unfolding see_record
  see_record-Marks r found = elim (Option-cases (get r.lab found.labs)) [
    | inl e ↦
        rw (e, see_record)
          (record {
            containers = refl;
            k3d_clusters = refl;
            present = refl;
            has_record = λ h. ground (arith, eq_iff r.lab l);
          })
    | inr (b, e) ↦
        let changed = get-modify r.lab l (add_record r) found.labs in
        rw (e, see_record)
          (elim (Bool-cases (r.lab == l)) [
            | inr other ↦
                let same : get l (modify r.lab (add_record r) found.labs) ≡ get l found.labs =
                  ground (arith, changed) in
                record {
                  containers = ap (λ o. (or_else o fresh).containers) same;
                  k3d_clusters = ap (λ o. (or_else o fresh).k3d_clusters) same;
                  present = ground (arith, same);
                  has_record = λ h. ap (λ o. (or_else o fresh).has_record) same ∙ ground (arith);
                }
            | inl hit ↦
                let there : get l found.labs ≡ some b =
                  ap (λ k. get k found.labs) (sym ((eq_iff r.lab l).0 hit)) ∙ e in
                let new : get l (modify r.lab (add_record r) found.labs) ≡ some (add_record r b) =
                  ground (arith, changed) in
                record {
                  containers =
                      ap (λ o. (or_else o fresh).containers) (new)
                      ∙ sym (ap (λ o. (or_else o fresh).containers) there);
                  k3d_clusters =
                      ap (λ o. (or_else o fresh).k3d_clusters) new
                      ∙ sym (ap (λ o. (or_else o fresh).k3d_clusters) there);
                  present = ground (arith, new, there);
                  has_record = λ h. ap (λ o. (or_else o fresh).has_record) new ∙ ground (arith);
                }
          ])
  ]

  pub see_records-Marks :
      (rs : List LabRecord) (found : Found)
      → Marks (any (λ r. r.lab == l) rs) found.labs (see_records rs found).labs
  unfolding see_records
  see_records-Marks [] found = record {
    containers = refl;
    k3d_clusters = refl;
    present = refl;
    has_record = λ h. ground arith;
  }
  see_records-Marks (r ∷ rs) found =
      let first = see_record-Marks r found in
      let rest = see_records-Marks rs (see_record r found) in
      record {
        containers = rest.containers ∙ first.containers;
        k3d_clusters = rest.k3d_clusters ∙ first.k3d_clusters;
        present = rest.present ∙ first.present;
        has_record = λ h. ground (arith, rest.has_record (first.present ∙ h), first.has_record h);
      }
