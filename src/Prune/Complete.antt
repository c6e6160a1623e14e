-- ===== src/Prune/Complete.antt =====
-- What `plan_prune` of cli/src/domain/prune.rs does not overlook.
use catallaxy.Prelude.{
  ◌≡◌, refl, Bool, true, false, ◌&&◌, ◌⊎◌, inl, inr, Option, none, some, List, [], ◌∷◌, String,
  ◌==◌, eq_iff, contains, any, Mem-sort, Mem-old, Mem-last, arith, Bool-cases, Option-cases, sym,
  subst, ap,
}
use mathlib.Core.List.{Memᴰ}
use catallaxy.Prune.{
  ResourceKey, LiveResource, PrunePlan, PruneInputs, option_eq, key_eq, key_le, is_storage,
  was_applied, is_prunable, prune_one, prune_from, plan_prune,
}
use catallaxy.Prune.Plan.{Names}

-- An `any` that finds something finds an element.
any-true :
    (p : ResourceKey → Bool) (xs : List ResourceKey)
    → any p xs ≡ true
    → (x : ResourceKey) × Memᴰ x xs × (p x ≡ true)
any-true p [] h = absurd (cc)
any-true p (x ∷ xs) h = elim (Bool-cases (p x)) [
  | inl found ↦ (x, Memᴰ.head refl, found)
  | inr other ↦ let (y, m, found) = any-true p xs (ground arith) in (y, Memᴰ.tail m, found)
]

option_eq_sound : (o p : Option String) → option_eq o p ≡ true → o ≡ p
option_eq_sound none none h = refl
option_eq_sound none (some t) h = absurd (cc)
option_eq_sound (some s) none h = absurd (cc)
option_eq_sound (some s) (some t) h = ap some ((eq_iff s t).0 h)

Names-was_applied :
    (applied : List ResourceKey) (live : ResourceKey)
    → was_applied applied live ≡ true
    → (a : ResourceKey) × Memᴰ a applied × Names a live
unfolding was_applied
Names-was_applied applied live h = elim (Option-cases live.namespace) [
  | inl e ↦
      let (a, m, hit) =
        any-true (λ a. a.kind == live.kind && a.name == live.name) applied
          (rw (e, was_applied) at h) in
      (
        a,
        m,
        (ground (arith, eq_iff a.kind live.kind), ground (arith, eq_iff a.name live.name), inl e),
      )
  | inr (ns, e) ↦
      let (a, m, hit) = any-true (λ a. key_eq a live) applied (rw (e, was_applied) at h) in
      (
        a,
        m,
        (
          ground (arith, eq_iff a.kind live.kind),
          ground (arith, eq_iff a.name live.name),
          inr (option_eq_sound a.namespace live.namespace (ground arith)),
        ),
      )
]

module _ (inputs : PruneInputs) where
  -- Why a resource of the bundle is to be removed.
  abbrev pub Why : String → ResourceKey → Type 0
  Why bundle key =
      (contains inputs.declared_bundles bundle ≡ false)
      ⊎ ((contains inputs.applied_bundles bundle ≡ true)
          × ((a : ResourceKey) → Memᴰ a inputs.applied → ¬ Names a key))

  Why-is_prunable :
      (bundle : String) (key : ResourceKey) → Why bundle key → is_prunable inputs bundle key ≡ true
  unfolding is_prunable
  Why-is_prunable bundle key (inl gone) = ground arith
  Why-is_prunable bundle key (inr (ran, unnamed)) =
      elim (Bool-cases (was_applied inputs.applied key)) [
        | inr never ↦ ground arith
        | inl applied ↦
            let (a, m, names) = Names-was_applied inputs.applied key applied in
            absurd (unnamed a m names)
      ]

  -- The plan has the key of the resource where it belongs.
  pub record Accounts (r : LiveResource) (plan : PrunePlan) : Type 0 where
    pub unlabelled : r.bundle ≡ none → Memᴰ r.key plan.unattributed
    pub deleted :
        (bundle : String)
        → r.bundle ≡ some bundle
        → Why bundle r.key
        → is_storage r.key ≡ false
        → Memᴰ r.key plan.delete
    pub orphaned :
        (bundle : String)
        → r.bundle ≡ some bundle
        → Why bundle r.key
        → is_storage r.key ≡ true
        → Memᴰ r.key plan.orphaned_storage

  -- The lists of the one plan are in the other.
  record Extends (p q : PrunePlan) : Type 0 where
    unattributed : (k : ResourceKey) → Memᴰ k p.unattributed → Memᴰ k q.unattributed
    delete : (k : ResourceKey) → Memᴰ k p.delete → Memᴰ k q.delete
    orphans : (k : ResourceKey) → Memᴰ k p.orphaned_storage → Memᴰ k q.orphaned_storage

  Accounts-Extends :
      (r : LiveResource) (p q : PrunePlan) → Extends p q → Accounts r p → Accounts r q
  Accounts-Extends r p q x a = record {
    unlabelled = λ e. x.unattributed r.key (a.unlabelled e);
    deleted = λ b e w s. x.delete r.key (a.deleted b e w s);
    orphaned = λ b e w s. x.orphans r.key (a.orphaned b e w s);
  }

  Extends-refl : (p : PrunePlan) → Extends p p
  Extends-refl p = record { unattributed = λ k m. m; delete = λ k m. m; orphans = λ k m. m }

  prune_one-Extends : (r : LiveResource) (p : PrunePlan) → Extends p (prune_one inputs r p)
  unfolding prune_one
  prune_one-Extends r p = elim (Option-cases r.bundle) [
    | inl e ↦
        rw (e, prune_one)
          (record {
            unattributed = λ k m. Mem-old p.unattributed r.key k m;
            delete = λ k m. m;
            orphans = λ k m. m;
          })
    | inr (bundle, e) ↦ elim (Bool-cases (is_prunable inputs bundle r.key)) [
      | inr stays ↦ rw (e, stays, prune_one) (Extends-refl p)
      | inl goes ↦ elim (Bool-cases (is_storage r.key)) [
        | inl storage ↦
            rw (e, goes, storage, prune_one)
              (record {
                unattributed = λ k m. m;
                delete = λ k m. m;
                orphans = λ k m. Mem-old p.orphaned_storage r.key k m;
              })
        | inr other ↦
            rw (e, goes, other, prune_one)
              (record {
                unattributed = λ k m. m;
                delete = λ k m. Mem-old p.delete r.key k m;
                orphans = λ k m. m;
              })
      ]
    ]
  ]

  prune_one-Accounts : (r : LiveResource) (p : PrunePlan) → Accounts r (prune_one inputs r p)
  unfolding prune_one
  prune_one-Accounts r p = record {
    unlabelled = λ e. rw (e, prune_one) (Mem-last p.unattributed r.key);
    deleted = λ b e w s. rw (e, Why-is_prunable b r.key w, s, prune_one) (Mem-last p.delete r.key);
    orphaned = λ b e w s.
        rw (e, Why-is_prunable b r.key w, s, prune_one) (Mem-last p.orphaned_storage r.key);
  }

  prune_from-Extends :
      (live : List LiveResource) (p : PrunePlan) → Extends p (prune_from inputs live p)
  unfolding prune_from
  prune_from-Extends [] p = Extends-refl p
  prune_from-Extends (r ∷ live) p =
      let first = prune_one-Extends r p in
      let rest = prune_from-Extends live (prune_one inputs r p) in
      record {
        unattributed = λ k m. rest.unattributed k (first.unattributed k m);
        delete = λ k m. rest.delete k (first.delete k m);
        orphans = λ k m. rest.orphans k (first.orphans k m);
      }

  prune_from-Accounts :
      (live : List LiveResource) (p : PrunePlan) (r : LiveResource)
      → Memᴰ r live
      → Accounts r (prune_from inputs live p)
  unfolding prune_from
  prune_from-Accounts [] p r m = elim m [ ]
  prune_from-Accounts (x ∷ live) p r (Memᴰ.head e) =
      Accounts-Extends r (prune_one inputs x p) (prune_from inputs live (prune_one inputs x p))
        (prune_from-Extends live (prune_one inputs x p))
        (subst (λ y. Accounts y (prune_one inputs x p)) (sym e) (prune_one-Accounts x p))
  prune_from-Accounts (x ∷ live) p r (Memᴰ.tail m) =
      prune_from-Accounts live (prune_one inputs x p) r m

  -- The plan accounts for every live resource. One without a bundle is reported as unattributed.
  -- One whose bundle is not declared any more, or was applied by this run without anything that
  -- names the resource, is deleted, or reported as orphaned storage if it is storage.
  pub plan_prune-Accounts : (r : LiveResource) → Memᴰ r inputs.live → Accounts r (plan_prune inputs)
  unfolding plan_prune
  plan_prune-Accounts r m =
      let a =
        prune_from-Accounts inputs.live
          (record { delete = []; orphaned_storage = []; unattributed = [] }) r m in
      record {
        unlabelled = λ e. Mem-sort key_le r.key _ (a.unlabelled e);
        deleted = λ b e w s. Mem-sort key_le r.key _ (a.deleted b e w s);
        orphaned = λ b e w s. Mem-sort key_le r.key _ (a.orphaned b e w s);
      }
