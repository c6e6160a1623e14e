-- ===== src/Prune.antt =====
-- cli/src/domain/prune.rs: which live resources to delete when the declaration stops naming them.
-- A `BTreeSet` is the list of its elements. `sort` is by the derived order of the keys.
pub mod Plan
pub mod Complete
mod Tests
use catallaxy.Prelude.{
  Bool, true, false, not, ◌&&◌, ◌||◌, Option, none, some, List, [], ◌∷◌, ◌++◌, String, ◌==◌,
  contains, any, sort, text_cmp, is_nil, if◌then◌else◌,
}
use Prim.Native.Nat.{Ordering}

abbrev storage_kinds : List String
storage_kinds = "PersistentVolumeClaim" ∷ "PersistentVolume" ∷ []

pub record ResourceKey : Type 0 where
  pub kind : String
  pub namespace : Option String
  pub name : String

abbrev pub option_eq : Option String → Option String → Bool
option_eq none none = true
option_eq none (some t) = false
option_eq (some s) none = false
option_eq (some s) (some t) = s == t

abbrev pub key_eq : ResourceKey → ResourceKey → Bool
key_eq a b = a.kind == b.kind && (option_eq a.namespace b.namespace && a.name == b.name)

-- The derived `Ord`: the fields in turn, and `None` before `Some`.
abbrev then_cmp : Ordering → Ordering → Ordering
then_cmp Ordering.lt o = Ordering.lt
then_cmp Ordering.eq o = o
then_cmp Ordering.gt o = Ordering.gt

abbrev option_cmp : Option String → Option String → Ordering
option_cmp none none = Ordering.eq
option_cmp none (some t) = Ordering.lt
option_cmp (some s) none = Ordering.gt
option_cmp (some s) (some t) = text_cmp s t

unfoldable pub key_le : ResourceKey → ResourceKey → Bool
key_le a b =
    elim (then_cmp (text_cmp a.kind b.kind)
      (then_cmp (option_cmp a.namespace b.namespace) (text_cmp a.name b.name))) [
        | Ordering.gt ↦ false
        | _ ↦ true
      ]

unfoldable pub is_storage : ResourceKey → Bool
is_storage k = contains storage_kinds k.kind

pub record LiveResource : Type 0 where
  pub key : ResourceKey
  pub bundle : Option String

pub record PrunePlan : Type 0 where
  pub delete : List ResourceKey
  pub orphaned_storage : List ResourceKey
  pub unattributed : List ResourceKey

unfoldable pub is_empty_plan : PrunePlan → Bool
is_empty_plan p = is_nil p.delete && (is_nil p.orphaned_storage && is_nil p.unattributed)

pub record PruneInputs : Type 0 where
  pub live : List LiveResource
  pub declared_bundles : List String
  pub applied_bundles : List String
  pub applied : List ResourceKey

unfoldable pub was_applied : List ResourceKey → ResourceKey → Bool
was_applied applied live = elim live.namespace [
  | some ns ↦ any (λ a. key_eq a live) applied
  | none ↦ any (λ a. a.kind == live.kind && a.name == live.name) applied
]

module _ (inputs : PruneInputs) where
  -- The test before a resource of the bundle is put down for removal.
  unfoldable pub is_prunable : String → ResourceKey → Bool
  is_prunable bundle key =
      not (contains inputs.declared_bundles bundle)
      || (contains inputs.applied_bundles bundle && not (was_applied inputs.applied key))

  -- The body of the loop.
  unfoldable pub prune_one : LiveResource → PrunePlan → PrunePlan
  prune_one r plan = elim r.bundle [
    | none ↦ record plan { unattributed = plan.unattributed ++ (r.key ∷ []) }
    | some bundle ↦
        if is_prunable bundle r.key
        then (if is_storage r.key
            then record plan { orphaned_storage = plan.orphaned_storage ++ (r.key ∷ []) }
            else record plan { delete = plan.delete ++ (r.key ∷ []) })
        else plan
  ]

  unfoldable pub prune_from : List LiveResource → PrunePlan → PrunePlan
  unfolding prune_one
  prune_from [] plan = plan
  prune_from (r ∷ live) plan = prune_from live (prune_one r plan)

  unfoldable pub plan_prune : PrunePlan
  unfolding prune_from sort key_le
  plan_prune =
      let plan =
        prune_from inputs.live (record { delete = []; orphaned_storage = []; unattributed = [] }) in
      record {
        delete = sort key_le plan.delete;
        orphaned_storage = sort key_le plan.orphaned_storage;
        unattributed = sort key_le plan.unattributed;
      }
