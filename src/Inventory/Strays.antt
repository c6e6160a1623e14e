-- ===== src/Inventory/Strays.antt =====
-- What the loops of `correlate` (cli/src/domain/inventory.rs) find that no lab claims, and that they
-- keep the labs a map.
use catallaxy.Prelude.{
  ◌≡◌, sym, ap, ◌∙◌, fun_ext, Bool, not, List, [], ◌∷◌, ◌++◌, String, keep, keep-cons, map, inl,
  inr, Bool-cases, Option-cases, Map, get, IsMap, upsert-IsMap, modify-IsMap,
}
use mathlib.Core.List.{append_assoc, append-nil, map-append}
use text.Mathlib.Text.{starts_with}
use catallaxy.Inventory.{
  ContainerFact, LabRecord, Found, unattributed_container, unknown_k3d_cluster, stale_record_only,
  fresh, attributed, see_container, see_containers, see_cluster, see_clusters, add_record,
  add_container, add_cluster, see_record, see_records,
}
use catallaxy.Inventory.Attributed.{is_stray, is_unclaimed, strays, unknowns, stale}
use catallaxy.Inventory.Pass.{is_in}
use catallaxy.Inventory.Loops.{see_record-Marks}

see_container-IsMap :
    (c : ContainerFact) (found : Found) → IsMap found.labs → IsMap (see_container c found).labs
unfolding see_container
see_container-IsMap c found h = elim (Option-cases (attributed c)) [
  | inl e ↦ elim (Bool-cases (starts_with c.name "catallaxy-")) [
    | inl p ↦ rw (e, p, see_container) h
    | inr p ↦ rw (e, p, see_container) h
  ]
  | inr ((lab, how), e) ↦
      rw (e, see_container) (upsert-IsMap lab fresh (add_container c how) found.labs h)
]

pub see_containers-IsMap :
    (cs : List ContainerFact) (found : Found)
    → IsMap found.labs
    → IsMap (see_containers cs found).labs
unfolding see_containers
see_containers-IsMap [] found h = h
see_containers-IsMap (c ∷ cs) found h =
    see_containers-IsMap cs (see_container c found) (see_container-IsMap c found h)

pub see_clusters-IsMap :
    (claimed : Map String) (ks : List String) (found : Found)
    → IsMap found.labs
    → IsMap (see_clusters claimed ks found).labs
unfolding see_clusters see_cluster
see_clusters-IsMap claimed [] found h = h
see_clusters-IsMap claimed (k ∷ ks) found h =
    see_clusters-IsMap claimed ks (see_cluster claimed k found)
      (elim (Option-cases (get k claimed)) [
        | inl e ↦ rw (e, see_cluster) h
        | inr (lab, e) ↦ rw (e, see_cluster) (upsert-IsMap lab fresh (add_cluster k) found.labs h)
      ])

pub see_records-IsMap :
    (rs : List LabRecord) (found : Found) → IsMap found.labs → IsMap (see_records rs found).labs
unfolding see_records see_record
see_records-IsMap [] found h = h
see_records-IsMap (r ∷ rs) found h =
    see_records-IsMap rs (see_record r found) (elim (Option-cases (get r.lab found.labs)) [
      | inl e ↦ rw (e, see_record) h
      | inr (b, e) ↦ rw (e, see_record) (modify-IsMap r.lab (add_record r) found.labs h)
    ])

see_container-orphans :
    (c : ContainerFact) (found : Found)
    → (see_container c found).orphans ≡ found.orphans ++ strays (c ∷ [])
unfolding see_container
see_container-orphans c found = elim (Option-cases (attributed c)) [
  | inl e ↦ elim (Bool-cases (starts_with c.name "catallaxy-")) [
    | inl p ↦ rw (e, p, see_container, is_stray)
    | inr p ↦ rw (e, p, see_container, is_stray) (sym (append-nil found.orphans))
  ]
  | inr ((lab, how), e) ↦ rw (e, see_container, is_stray) (sym (append-nil found.orphans))
]

strays-cons :
    (c : ContainerFact) (cs : List ContainerFact) → strays (c ∷ cs) ≡ strays (c ∷ []) ++ strays cs
strays-cons c cs =
    ap (map (λ c. unattributed_container c.name c.published)) (keep-cons is_stray c cs)
    ∙ map-append (λ c. unattributed_container c.name c.published) (keep is_stray (c ∷ []))
        (keep is_stray cs)

pub see_containers-orphans :
    (cs : List ContainerFact) (found : Found)
    → (see_containers cs found).orphans ≡ found.orphans ++ strays cs
unfolding see_containers
see_containers-orphans [] found = sym (append-nil found.orphans)
see_containers-orphans (c ∷ cs) found =
    see_containers-orphans cs (see_container c found)
    ∙ ap (λ t. t ++ strays cs) (see_container-orphans c found)
    ∙ append_assoc found.orphans (strays (c ∷ [])) (strays cs)
    ∙ ap (λ t. found.orphans ++ t) (sym (strays-cons c cs))

see_cluster-orphans :
    (claimed : Map String) (k : String) (found : Found)
    → (see_cluster claimed k found).orphans ≡ found.orphans ++ unknowns claimed (k ∷ [])
unfolding see_cluster
see_cluster-orphans claimed k found = elim (Option-cases (get k claimed)) [
  | inl e ↦ rw (e, see_cluster, is_unclaimed)
  | inr (lab, e) ↦ rw (e, see_cluster, is_unclaimed) (sym (append-nil found.orphans))
]

unknowns-cons :
    (claimed : Map String) (k : String) (ks : List String)
    → unknowns claimed (k ∷ ks) ≡ unknowns claimed (k ∷ []) ++ unknowns claimed ks
unknowns-cons claimed k ks =
    ap (map unknown_k3d_cluster) (keep-cons (is_unclaimed claimed) k ks)
    ∙ map-append unknown_k3d_cluster (keep (is_unclaimed claimed) (k ∷ []))
        (keep (is_unclaimed claimed) ks)

pub see_clusters-orphans :
    (claimed : Map String) (ks : List String) (found : Found)
    → (see_clusters claimed ks found).orphans ≡ found.orphans ++ unknowns claimed ks
unfolding see_clusters
see_clusters-orphans claimed [] found = sym (append-nil found.orphans)
see_clusters-orphans claimed (k ∷ ks) found =
    see_clusters-orphans claimed ks (see_cluster claimed k found)
    ∙ ap (λ t. t ++ unknowns claimed ks) (see_cluster-orphans claimed k found)
    ∙ append_assoc found.orphans (unknowns claimed (k ∷ [])) (unknowns claimed ks)
    ∙ ap (λ t. found.orphans ++ t) (sym (unknowns-cons claimed k ks))

see_record-orphans :
    (r : LabRecord) (found : Found)
    → (see_record r found).orphans ≡ found.orphans ++ stale (λ l. is_in l found.labs) (r ∷ [])
unfolding see_record
see_record-orphans r found = elim (Option-cases (get r.lab found.labs)) [
  | inl e ↦ rw (e, see_record, is_in)
  | inr (b, e) ↦ rw (e, see_record, is_in) (sym (append-nil found.orphans))
]

stale-cons :
    (f : String → Bool) (r : LabRecord) (rs : List LabRecord)
    → stale f (r ∷ rs) ≡ stale f (r ∷ []) ++ stale f rs
stale-cons f r rs =
    ap (map (λ r. stale_record_only r.lab)) (keep-cons (λ r. not (f r.lab)) r rs)
    ∙ map-append (λ r. stale_record_only r.lab) (keep (λ r. not (f r.lab)) (r ∷ []))
        (keep (λ r. not (f r.lab)) rs)

pub see_records-orphans :
    (rs : List LabRecord) (found : Found)
    → (see_records rs found).orphans ≡ found.orphans ++ stale (λ l. is_in l found.labs) rs
unfolding see_records
see_records-orphans [] found = sym (append-nil found.orphans)
see_records-orphans (r ∷ rs) found =
    let kept : (λ l. is_in l (see_record r found).labs) ≡ (λ l. is_in l found.labs) =
      fun_ext (λ l. (see_record-Marks l r found).present) in
    see_records-orphans rs (see_record r found)
    ∙ ap (λ f. (see_record r found).orphans ++ stale f rs) kept
    ∙ ap (λ t. t ++ stale (λ l. is_in l found.labs) rs) (see_record-orphans r found)
    ∙ append_assoc found.orphans (stale (λ l. is_in l found.labs) (r ∷ []))
        (stale (λ l. is_in l found.labs) rs)
    ∙ ap (λ t. found.orphans ++ t) (sym (stale-cons (λ l. is_in l found.labs) r rs))
