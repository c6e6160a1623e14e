-- ===== src/Prune/Tests.antt =====
-- A cluster with a dropped bundle, a volume of it, and a resource of unknown origin.
use catallaxy.Prelude.{◌≡◌, refl, some, none, [], ◌∷◌, String, sort}
use mathlib.Core.List.{Memᴰ}
use catallaxy.Prune.{
  ResourceKey, LiveResource, PruneInputs, plan_prune, prune_from, prune_one, is_prunable,
  is_storage, was_applied, key_le,
}
use catallaxy.Prune.Plan.{IsSound, plan_prune-IsSound}
use catallaxy.Prune.Complete.{Accounts, plan_prune-Accounts}

abbrev key : String → String → ResourceKey
key kind name = record { kind = kind; namespace = some "app"; name = name }

abbrev claim : ResourceKey
claim = key "PersistentVolumeClaim" "data"

abbrev class_live : ResourceKey
class_live = record { kind = "GatewayClass"; namespace = none; name = "traefik" }

abbrev class_applied : ResourceKey
class_applied = record class_live { namespace = some "kube-system" }

abbrev volume : LiveResource
volume = record { key = claim; bundle = some "harbor" }

abbrev inputs : PruneInputs
inputs = record {
  live =
      record { key = key "Service" "harbor"; bundle = some "harbor" }
      ∷ volume
      ∷ record { key = key "Secret" "stray"; bundle = none }
      ∷ record { key = class_live; bundle = some "gateway" }
      ∷ record { key = key "Deployment" "harbor"; bundle = some "harbor" }
      ∷ [];
  declared_bundles = "gateway" ∷ [];
  applied_bundles = "gateway" ∷ [];
  applied = class_applied ∷ [];
}

planned : plan_prune inputs ≡ record {
  delete = key "Deployment" "harbor" ∷ key "Service" "harbor" ∷ [];
  orphaned_storage = claim ∷ [];
  unattributed = key "Secret" "stray" ∷ [];
}
unfolding plan_prune prune_from prune_one is_prunable is_storage was_applied key_le sort
planned = refl

plan_prune-IsSound_example : IsSound inputs (plan_prune inputs)
plan_prune-IsSound_example = plan_prune-IsSound inputs

plan_prune-Accounts_example : Accounts inputs volume (plan_prune inputs)
plan_prune-Accounts_example = plan_prune-Accounts inputs volume (Memᴰ.tail (Memᴰ.head refl))
