-- ===== src/Prune/Plan.antt =====
-- What `plan_prune` of cli/src/domain/prune.rs deletes, reports and leaves alone.
use catallaxy.Prelude.{
  ◌≡◌, refl, Bool, true, false, ◌&&◌, ◌⊎◌, inl, inr, Option, none, some, List, [], ◌∷◌, ◌++◌,
  String, ◌==◌, eq_iff, contains, any, All, All-sort, arith, Bool-cases, Option-cases, sym, subst,
}
use mathlib.Core.List.{Memᴰ}
use catallaxy.Prune.{
  ResourceKey, LiveResource, PrunePlan, PruneInputs, option_eq, key_eq, key_le, is_storage,
  was_applied, is_prunable, prune_one, prune_from, plan_prune,
}

-- The applied resource is the live one: where the cluster reports a namespace, kind, namespace and
-- name agree; where it reports none, kind and name do.
abbrev pub Names : ResourceKey → ResourceKey → Type 0
Names a live =
    (a.kind ≡ live.kind)
    × (a.name ≡ live.name)
    × ((live.namespace ≡ none) ⊎ (a.namespace ≡ live.namespace))

any-false :
    {A : Type 0} (p : A → Bool) (xs : List A) (x : A) → Memᴰ x xs → any p xs ≡ false → p x ≡ false
any-false p [] x m h = elim m [ ]
any-false p (y ∷ ys) x (Memᴰ.head e) h = rw e (ground arith)
any-false p (y ∷ ys) x (Memᴰ.tail m) h = any-false p ys x m (ground arith)

option_eq_refl : (o : Option String) → option_eq o o ≡ true
option_eq_refl none = refl
option_eq_refl (some s) = (eq_iff s s).1 refl

was_applied-Names :
    (applied : List ResourceKey) (a live : ResourceKey)
    → was_applied applied live ≡ false
    → Memᴰ a applied
    → ¬ Names a live
unfolding was_applied
was_applied-Names applied a live h m (kind, name, scope) = elim (Option-cases live.namespace) [
  | inl e ↦ ground (
    arith,
    any-false (λ a. a.kind == live.kind && a.name == live.name) applied a m
        (rw (e, was_applied) at h),
    eq_iff a.kind live.kind,
    eq_iff a.name live.name,
  )
  | inr (ns, e) ↦
      let missed = any-false (λ a. key_eq a live) applied a m (rw (e, was_applied) at h) in
      let same : a.namespace ≡ live.namespace = elim scope [
        | inl none_here ↦ absurd (cc)
        | inr same ↦ same
      ] in
      ground (
        arith,
        missed,
        eq_iff a.kind live.kind,
        eq_iff a.name live.name,
        subst (λ o. option_eq o live.namespace ≡ true) (sym same) (option_eq_refl live.namespace),
      )
]

All-snoc :
    (P : ResourceKey → Type 0) (xs : List ResourceKey) (x : ResourceKey)
    → All P xs
    → P x
    → All P (xs ++ (x ∷ []))
All-snoc P [] x h p = (p, tt)
All-snoc P (y ∷ ys) x h p = (h.0, All-snoc P ys x h.1 p)

module _ (inputs : PruneInputs) where
  -- Why the key of a live resource may be removed: the resource has a bundle that is no longer
  -- declared, or one that the run applied without applying the resource.
  pub record IsDropped (key : ResourceKey) : Type 0 where
    pub resource : LiveResource
    pub live : Memᴰ resource inputs.live
    pub named : resource.key ≡ key
    pub bundle : String
    pub labelled : resource.bundle ≡ some bundle
    pub why :
        (contains inputs.declared_bundles bundle ≡ false)
        ⊎ ((contains inputs.applied_bundles bundle ≡ true)
            × ((a : ResourceKey) → Memᴰ a inputs.applied → ¬ Names a key))

  is_prunable-IsDropped :
      (r : LiveResource) (bundle : String)
      → Memᴰ r inputs.live
      → r.bundle ≡ some bundle
      → is_prunable inputs bundle r.key ≡ true
      → IsDropped r.key
  unfolding is_prunable
  is_prunable-IsDropped r bundle live labelled h = record {
    resource = r;
    live = live;
    named = refl;
    bundle = bundle;
    labelled = labelled;
    why = elim (Bool-cases (contains inputs.declared_bundles bundle)) [
      | inr gone ↦ inl gone
      | inl declared ↦
          inr (ground arith, λ a m. was_applied-Names inputs.applied a r.key (ground arith) m)
    ];
  }

  -- A list of keys to delete, and one of storage to keep, as they should be.
  abbrev pub Deletes : ResourceKey → Type 0
  Deletes k = IsDropped k × (is_storage k ≡ false)

  abbrev pub Orphans : ResourceKey → Type 0
  Orphans k = IsDropped k × (is_storage k ≡ true)

  pub record IsSound (plan : PrunePlan) : Type 0 where
    pub deletes : All Deletes plan.delete
    pub orphans : All Orphans plan.orphaned_storage

  prune_one-IsSound :
      (r : LiveResource) (plan : PrunePlan)
      → Memᴰ r inputs.live
      → IsSound plan
      → IsSound (prune_one inputs r plan)
  unfolding prune_one
  prune_one-IsSound r plan live s = elim (Option-cases r.bundle) [
    | inl e ↦ rw (e, prune_one) (record { deletes = s.deletes; orphans = s.orphans })
    | inr (bundle, e) ↦ elim (Bool-cases (is_prunable inputs bundle r.key)) [
      | inr stays ↦ rw (e, stays, prune_one) s
      | inl goes ↦
          let dropped = is_prunable-IsDropped r bundle live e goes in
          elim (Bool-cases (is_storage r.key)) [
            | inl storage ↦
                rw (e, goes, storage, prune_one)
                  (record {
                    deletes = s.deletes;
                    orphans =
                        All-snoc Orphans plan.orphaned_storage r.key s.orphans (dropped, storage);
                  })
            | inr other ↦
                rw (e, goes, other, prune_one)
                  (record {
                    deletes = All-snoc Deletes plan.delete r.key s.deletes (dropped, other);
                    orphans = s.orphans;
                  })
          ]
    ]
  ]

  prune_from-IsSound :
      (live : List LiveResource) (plan : PrunePlan)
      → ((r : LiveResource) → Memᴰ r live → Memᴰ r inputs.live)
      → IsSound plan
      → IsSound (prune_from inputs live plan)
  unfolding prune_from
  prune_from-IsSound [] plan within s = s
  prune_from-IsSound (r ∷ live) plan within s =
      prune_from-IsSound live (prune_one inputs r plan) (λ x m. within x (Memᴰ.tail m))
        (prune_one-IsSound r plan (within r (Memᴰ.head refl)) s)

  -- What is deleted is live and dropped and no storage; what is reported as orphaned storage is
  -- live and dropped and storage. Dropped means that the bundle on its label is not declared any
  -- more, or that this run applied that bundle and nothing it applied names the resource.
  pub plan_prune-IsSound : IsSound (plan_prune inputs)
  unfolding plan_prune
  plan_prune-IsSound =
      let s =
        prune_from-IsSound inputs.live
          (record { delete = []; orphaned_storage = []; unattributed = [] }) (λ r m. m)
          (record { deletes = tt; orphans = tt }) in
      record {
        deletes = All-sort Deletes key_le _ s.deletes;
        orphans = All-sort Orphans key_le _ s.orphans;
      }
