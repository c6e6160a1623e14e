-- ===== src/ClusterShape/Report.antt =====
-- The drift report of cli/src/domain/cluster_shape.rs: the answer for each field, and the fixes.
use catallaxy.Prelude.{
  ℕ, Bool, true, false, not, ◌&&◌, Option, none, some, List, [], ◌∷◌, ◌++◌, String, ◌<>◌, leb, eqb,
  is_nil, any, all, keep, map, sort, if◌then◌else◌,
}

pub data FieldVerdict : Type 0 where
  matches : FieldVerdict
  drifted : String → String → FieldVerdict

pub data Fix : Type 0 where
  add_workers : ℕ → Fix
  add_servers : ℕ → Fix
  replace_node replace_load_balancer rebuild_only new_cluster : Fix

abbrev pub cost : Fix → String
cost (add_workers n) = "adds nodes, interrupts nothing"
cost (add_servers n) = "adds nodes, interrupts nothing"
cost replace_node = "replaces the node, keeping its data; the API pauses briefly"
cost replace_load_balancer = "replaces the loadbalancer, which holds no state"
cost rebuild_only = "changes which schemas the manifests are typed against, not the cluster"
cost new_cluster = "needs a new cluster, so everything on this one is lost"

abbrev pub is_in_place : Fix → Bool
is_in_place new_cluster = false
is_in_place _ = true

-- The derived equality of fixes.
abbrev pub fix_eq : Fix → Fix → Bool
fix_eq (add_workers m) (add_workers n) = eqb m n
fix_eq (add_servers m) (add_servers n) = eqb m n
fix_eq replace_node replace_node = true
fix_eq replace_load_balancer replace_load_balancer = true
fix_eq rebuild_only rebuild_only = true
fix_eq new_cluster new_cluster = true
fix_eq _ _ = false

pub record Field : Type 0 where
  pub option : String
  pub verdict : FieldVerdict
  pub fix : Option Fix

-- `matches!(verdict, FieldVerdict::Drifted { .. })`
abbrev pub is_drifted : FieldVerdict → Bool
is_drifted matches = false
is_drifted (drifted declared actual) = true

unfoldable pub drifted_fields : List Field → List (String × String × String)
drifted_fields [] = []
drifted_fields (f ∷ fields) =
    let rest = drifted_fields fields in
    elim f.verdict [
      | matches ↦ rest
      | drifted declared actual ↦ (f.option, declared, actual) ∷ rest
    ]

unfoldable pub is_clean : List Field → Bool
unfolding drifted_fields
is_clean fields = is_nil (drifted_fields fields)

-- `fix.unwrap_or(Fix::NewCluster)`
abbrev pub fix_or_new : Option Fix → Fix
fix_or_new (some fix) = fix
fix_or_new none = new_cluster

-- The loop of `fixes`; `out` is the vector so far.
unfoldable pub collect_fixes : List Field → List Fix → List Fix
collect_fixes [] out = out
collect_fixes (f ∷ fields) out = collect_fixes fields (
    if not (is_drifted f.verdict)
    then out
    else if any (λ g. fix_eq g (fix_or_new f.fix)) out
    then out
    else out ++ (fix_or_new f.fix ∷ []))

-- The sort key.
abbrev pub rank : Fix → ℕ
rank (add_workers n) = 0
rank (add_servers n) = 0
rank rebuild_only = 0
rank replace_load_balancer = 1
rank replace_node = 2
rank new_cluster = 3

abbrev pub rank_le : Fix → Fix → Bool
rank_le f g = leb (rank f) (rank g)

unfoldable pub fixes : List Field → List Fix
unfolding sort collect_fixes
fixes fields = sort rank_le (collect_fixes fields [])

unfoldable pub workers_to_add : List Field → Option ℕ
unfolding fixes
workers_to_add fields = elim (fixes fields) [ add_workers n ∷ [] ↦ some n | _ ↦ none ]

unfoldable pub is_convergeable_in_place : List Field → Bool
unfolding is_clean fixes
is_convergeable_in_place fields = not (is_clean fields) && all is_in_place (fixes fields)

-- `matches!(fix, Some(Fix::NewCluster) | None)`
abbrev pub is_recreate : Option Fix → Bool
is_recreate (some new_cluster) = true
is_recreate none = true
is_recreate (some _) = false

unfoldable pub needing_recreate : List Field → List String
needing_recreate fields =
    map (λ f. f.option) (keep (λ f. is_drifted f.verdict && is_recreate f.fix) fields)

-- The lines of `describe` that depend on the report.
unfoldable pub drift_lines : List (String × String × String) → String
drift_lines [] = ""
drift_lines ((option, declared, actual) ∷ rest) =
    "  - "
    <> (option <> (": declared " <> (declared <> (", built with " <> (actual <> "\n")))))
    <> drift_lines rest

unfoldable pub cost_lines : List Fix → String
cost_lines [] = ""
cost_lines (fix ∷ rest) = "  - " <> (cost fix <> "\n") <> cost_lines rest

unfoldable pub describe : String → List Field → String
unfolding drift_lines cost_lines drifted_fields fixes
describe cluster fields =
    "cluster '"
    <> cluster
    <> "' exists but no longer matches what the lab declares:\n"
    <> drift_lines (drifted_fields fields)
    <> "\nWhat each of those would take:\n"
    <> cost_lines (fixes fields)
    <> "\nThe pod and service CIDRs are written into the datastore when the\n"
    <> "cluster is first initialised, and the distribution is a different thing\n"
    <> "entirely, so neither can be changed on a cluster that exists. Everything\n"
    <> "else `lab up` converges in place.\n\n"
    <> "Build a new one, losing what is on this one:\n  "
    <> "cata lab up --recreate <cluster>\n"
    <> "If the cluster is right and the declaration is wrong, change the options\n"
    <> "above instead."
