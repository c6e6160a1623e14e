-- ===== src/Inventory/Pass.antt =====
-- What each of the three loops of `correlate` (cli/src/domain/inventory.rs) does to one lab.
use catallaxy.Prelude.{
  ◌≡◌, refl, sym, ap, ◌∙◌, Bool, true, false, not, ◌&&◌, ◌||◌, none, some, List, [], ◌∷◌, ◌++◌,
  String, ◌==◌, eq_iff, is_nil, is_nil-append, keep, map, arith, inl, inr, Bool-cases, Option-cases,
  Map, get, upsert, or_else, get-upsert, if◌then◌else◌,
}
use mathlib.Core.List.{append_assoc, append-nil}
use text.Mathlib.Text.{starts_with}
use catallaxy.Inventory.{
  ContainerFact, Building, Found, Attribution, fresh, attributed, add_container, see_container,
  add_cluster, see_cluster,
}
use catallaxy.Inventory.Attributed.{is_of, is_claimed_by}

abbrev pub at : String → Map Building → Building
at l m = or_else (get l m) fresh

abbrev pub is_in : String → Map Building → Bool
is_in l m = elim (get l m) [ none ↦ false | some _ ↦ true ]

-- The containers of a lab among some.
abbrev pub names : String → List ContainerFact → List String
names l cs = map (λ c. c.name) (keep (is_of l) cs)

-- How a loop over containers or clusters changes what is known of a lab.
pub record Adds (l : String) (xs ks : List String) (m m' : Map Building) : Type 0 where
  pub containers : (at l m').containers ≡ (at l m).containers ++ xs
  pub k3d_clusters : (at l m').k3d_clusters ≡ (at l m).k3d_clusters ++ ks
  pub has_record : (at l m').has_record ≡ (at l m).has_record
  pub present : is_in l m' ≡ (is_in l m || not (is_nil xs && is_nil ks))

module _ (l : String) where
  pub Adds-nothing : (m : Map Building) → Adds l [] [] m m
  Adds-nothing m = record {
    containers = sym (append-nil (at l m).containers);
    k3d_clusters = sym (append-nil (at l m).k3d_clusters);
    has_record = refl;
    present = ground arith;
  }

  pub Adds-trans :
      (xs ks ys js : List String) (m m' m'' : Map Building)
      → Adds l xs ks m m'
      → Adds l ys js m' m''
      → Adds l (xs ++ ys) (ks ++ js) m m''
  Adds-trans xs ks ys js m m' m'' p q = record {
    containers =
        q.containers ∙ ap (λ t. t ++ ys) p.containers ∙ append_assoc (at l m).containers xs ys;
    k3d_clusters =
        q.k3d_clusters
        ∙ ap (λ t. t ++ js) p.k3d_clusters
        ∙ append_assoc (at l m).k3d_clusters ks js;
    has_record = q.has_record ∙ p.has_record;
    present = ground (arith, p.present, q.present, is_nil-append xs ys, is_nil-append ks js);
  }

  upsert_container :
      (lab : String) (c : ContainerFact) (how : Attribution) (m : Map Building)
      → Adds l
          (if lab == l then c.name ∷ [] else [])
          []
          m
          (upsert lab fresh (add_container c how) m)
  upsert_container lab c how m =
      let there = get-upsert lab l fresh (add_container c how) m in
      elim (Bool-cases (lab == l)) [
        | inr other ↦
            let same : get l (upsert lab fresh (add_container c how) m) ≡ get l m =
              ground (arith, there) in
            rw other (record {
              containers =
                  ap (λ o. (or_else o fresh).containers) same
                  ∙ sym (append-nil (at l m).containers);
              k3d_clusters =
                  ap (λ o. (or_else o fresh).k3d_clusters) same
                  ∙ sym (append-nil (at l m).k3d_clusters);
              has_record = ap (λ o. (or_else o fresh).has_record) same;
              present = ground (arith, same);
            })
        | inl hit ↦
            let e = (eq_iff lab l).0 hit in
            let new : get l (upsert lab fresh (add_container c how) m)
                ≡ some (add_container c how (at l m)) =
              ground (arith, there, e) in
            rw hit (record {
              containers = ap (λ o. (or_else o fresh).containers) new;
              k3d_clusters =
                  ap (λ o. (or_else o fresh).k3d_clusters) new
                  ∙ sym (append-nil (at l m).k3d_clusters);
              has_record = ap (λ o. (or_else o fresh).has_record) new;
              present = ground (arith, new);
            })
      ]

  upsert_cluster :
      (lab k : String) (m : Map Building)
      → Adds l [] (if lab == l then k ∷ [] else []) m (upsert lab fresh (add_cluster k) m)
  upsert_cluster lab k m =
      let there = get-upsert lab l fresh (add_cluster k) m in
      elim (Bool-cases (lab == l)) [
        | inr other ↦
            let same : get l (upsert lab fresh (add_cluster k) m) ≡ get l m =
              ground (arith, there) in
            rw other (record {
              containers =
                  ap (λ o. (or_else o fresh).containers) same
                  ∙ sym (append-nil (at l m).containers);
              k3d_clusters =
                  ap (λ o. (or_else o fresh).k3d_clusters) same
                  ∙ sym (append-nil (at l m).k3d_clusters);
              has_record = ap (λ o. (or_else o fresh).has_record) same;
              present = ground (arith, same);
            })
        | inl hit ↦
            let e = (eq_iff lab l).0 hit in
            let new : get l (upsert lab fresh (add_cluster k) m) ≡ some (add_cluster k (at l m)) =
              ground (arith, there, e) in
            rw hit (record {
              containers =
                  ap (λ o. (or_else o fresh).containers) new ∙ sym (append-nil (at l m).containers);
              k3d_clusters = ap (λ o. (or_else o fresh).k3d_clusters) new;
              has_record = ap (λ o. (or_else o fresh).has_record) new;
              present = ground (arith, new);
            })
      ]

  pub see_container-Adds :
      (c : ContainerFact) (found : Found)
      → Adds l (names l (c ∷ [])) [] found.labs (see_container c found).labs
  unfolding see_container
  see_container-Adds c found = elim (Option-cases (attributed c)) [
    | inl e ↦ elim (Bool-cases (starts_with c.name "catallaxy-")) [
      | inl p ↦ rw (e, p, see_container, is_of) (Adds-nothing found.labs)
      | inr p ↦ rw (e, p, see_container, is_of) (Adds-nothing found.labs)
    ]
    | inr ((lab, how), e) ↦
        let added = upsert_container lab c how found.labs in
        elim (Bool-cases (lab == l)) [
          | inl hit ↦ rw (e, hit, see_container, is_of) (rw hit at added)
          | inr other ↦ rw (e, other, see_container, is_of) (rw other at added)
        ]
  ]

  pub see_cluster-Adds :
      (claimed : Map String) (k : String) (found : Found)
      → Adds l []
          (keep (is_claimed_by claimed l) (k ∷ []))
          found.labs
          (see_cluster claimed k found).labs
  unfolding see_cluster
  see_cluster-Adds claimed k found = elim (Option-cases (get k claimed)) [
    | inl e ↦ rw (e, see_cluster, is_claimed_by) (Adds-nothing found.labs)
    | inr (lab, e) ↦
        let added = upsert_cluster lab k found.labs in
        elim (Bool-cases (lab == l)) [
          | inl hit ↦ rw (e, hit, see_cluster, is_claimed_by) (rw hit at added)
          | inr other ↦ rw (e, other, see_cluster, is_claimed_by) (rw other at added)
        ]
  ]
