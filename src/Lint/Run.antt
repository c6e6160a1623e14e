-- ===== src/Lint/Run.antt =====
-- cli/src/lint/mod.rs, run_lint, with the registry of cli/src/lint/rules/mod.rs and `read_wave_meta` of
-- cli/src/io/ssa/mod.rs. Printing is left out. A script is a function of its environment, and the
-- files do not change during a run.
pub mod Passed
use catallaxy.Prelude.{
  ℕ, Bool, true, false, not, ◌&&◌, Option, none, some, List, [], ◌∷◌, ◌++◌, String, ◌<>◌, ◌==◌, Map,
  get, map, flat_map, keep, any, contains, and_then, or_else, if◌then◌else◌,
}
use catallaxy.Ssa.{Wave}
use catallaxy.Lint.{Diagnostic, is_error}
use catallaxy.Lint.PlanRule.{check_plan}
use catallaxy.Lint.Yaml.{Yaml, Shape, at_path}
use catallaxy.Lint.Manifest.{K8sResource, WalkEntry, load_manifests}
use catallaxy.Lint.Context.{CheckContext, ClusterMetadata, LabMetadata}
use catallaxy.Lint.Basics.{check_schema, check_identity, check_prefix, check_cluster, check_lab}
use catallaxy.Lint.Selector.{check_selector}
use catallaxy.Lint.References.{check_references}
use catallaxy.Lint.ImagePin.{check_image_pin}
use catallaxy.Lint.Crds.{check_crd_schema, check_missing_crd}
use catallaxy.Lint.ReadyProbe.{check_ready_probe}
use catallaxy.Lint.Network.Rule.{check_network}
use catallaxy.Lint.Custom.{Scripts, run_custom_checks}

-- The readers of files and formats. `fuel` bounds the nesting of the schemas.
pub record Inputs (V J : Type 0) : Type 0 where
  pub yaml : Yaml V
  pub json_shape : J → Shape
  pub scripts : Scripts
  pub read_metadata : String → Option (LabMetadata J)
  pub parse_waves : String → Option (List (Wave J))
  pub read_to_string : String → Option String
  pub path_exists : String → Bool
  pub walk : String → List (Option WalkEntry)
  pub fuel : ℕ

pub record CheckRule (V J : Type 0) : Type 0 where
  pub rule_name : String
  pub check : CheckContext V J → List Diagnostic

abbrev join_path : String → String → String
join_path dir name = dir <> ("/" <> name)

module _ {V J : Type 0} (i : Inputs V J) where
  abbrev pub materialised : CheckContext V J → List String
  materialised ctx = elim ctx.cluster_meta [ none ↦ [] | some m ↦ m.runtime_materialised ]

  abbrev pub check_probes : CheckContext V J → List Diagnostic
  check_probes ctx = elim ctx.wave_meta [
    | none ↦ []
    | some waves ↦ check_ready_probe ctx.resources waves ctx.cluster ctx.projection_names
  ]

  abbrev pub check_assertions : CheckContext V J → List Diagnostic
  check_assertions ctx = elim ctx.cluster_meta [ none ↦ [] | some m ↦ check_cluster ctx.cluster m ]

  abbrev rule : String → (CheckContext V J → List Diagnostic) → CheckRule V J
  rule name check = record { rule_name = name; check = check }

  unfoldable pub cluster_rules : List (CheckRule V J)
  cluster_rules =
      rule "schema" (λ ctx. check_schema ctx.resources ctx.cluster)
      ∷ rule "identity" (λ ctx. check_identity ctx.resources ctx.cluster)
      ∷ rule "prefix" (λ ctx. check_prefix ctx.resources ctx.cluster ctx.prefix ctx.lab_namespaces)
      ∷ rule "selector" (λ ctx. check_selector ctx.resources ctx.cluster)
      ∷ rule "reference" (λ ctx.
        check_references i.yaml ctx.resources ctx.cluster ctx.projection_names (materialised ctx))
      ∷ rule "image-pin" (λ ctx. check_image_pin i.yaml ctx.resources ctx.cluster ctx.images)
      ∷ rule "crd-schema" (λ ctx. check_crd_schema i.yaml i.fuel ctx.resources ctx.cluster)
      ∷ rule "missing-crd" (λ ctx. check_missing_crd i.yaml i.fuel ctx.resources ctx.cluster)
      ∷ rule "ready-probe" check_probes
      ∷ rule "network-policy" (check_network i.yaml i.json_shape)
      ∷ rule "assertions" check_assertions
      ∷ []

  -- A `HashSet` of names is a list of them.
  unfoldable pub external_secret_targets : List (K8sResource V) → List String
  external_secret_targets resources =
      map
        (λ r.
          or_else (and_then (at_path i.yaml r.raw ("spec" ∷ "target" ∷ "name" ∷ [])) i.yaml.as_str)
            r.name)
        (keep (λ r. r.kind == "ExternalSecret") resources)

  unfoldable pub read_wave_meta : String → Option (List (Wave J))
  read_wave_meta manifest_dir =
      and_then (i.read_to_string (join_path manifest_dir ".wave-meta")) i.parse_waves

  abbrev pub projections_of : Option (ClusterMetadata J) → List String
  projections_of none = []
  projections_of (some m) = map (λ p. p.0) m.projections

  -- The context of a cluster.
  unfoldable pub context_of :
      LabMetadata J → String → String → List (K8sResource V) → CheckContext V J
  unfolding external_secret_targets read_wave_meta
  context_of metadata manifest_dir cluster_name resources = record {
    resources = resources;
    cluster = cluster_name;
    wave_meta = read_wave_meta manifest_dir;
    prefix = metadata.prefix;
    lab_namespaces = or_else (get cluster_name metadata.lab_namespaces) [];
    projection_names =
        projections_of (get cluster_name metadata.clusters) ++ external_secret_targets resources;
    cluster_meta = get cluster_name metadata.clusters;
    images = metadata.images;
  }

  module _ (package_path : String) (skip : List String) where
    abbrev pub manifest_dir_of : String → String
    manifest_dir_of cluster_name = join_path (join_path package_path "manifests") cluster_name

    abbrev custom_diags : CheckContext V J → List Diagnostic
    custom_diags ctx =
        let lint_dir = join_path (join_path package_path "lint") ctx.cluster in
        if i.path_exists lint_dir && not (contains skip "custom")
        then run_custom_checks i.scripts lint_dir (manifest_dir_of ctx.cluster) ctx.cluster
            (elim ctx.cluster_meta [ none ↦ [] | some m ↦ m.checks ])
        else []

    -- The rules that are not skipped, and then the custom checks.
    unfoldable pub run_rules : CheckContext V J → List Diagnostic
    unfolding cluster_rules
    run_rules ctx =
        flat_map (λ r. r.check ctx) (keep (λ r. not (contains skip r.rule_name)) cluster_rules)
        ++ custom_diags ctx

    -- The body of the loop over the clusters. An error is none.
    unfoldable pub lint_cluster : LabMetadata J → String → Option (List Diagnostic)
    unfolding run_rules context_of
    lint_cluster metadata cluster_name =
        let dir = manifest_dir_of cluster_name in
        if not (i.path_exists dir)
        then some []
        else and_then (load_manifests i.yaml (i.walk dir))
            λ resources. some (run_rules (context_of metadata dir cluster_name resources))

    unfoldable pub lint_clusters : LabMetadata J → List String → Option (List Diagnostic)
    unfolding lint_cluster
    lint_clusters metadata [] = some []
    lint_clusters metadata (c ∷ cs) =
        and_then (lint_cluster metadata c)
          λ here. and_then (lint_clusters metadata cs) λ more. some (here ++ more)

    abbrev pub lab_diags : LabMetadata J → List Diagnostic
    lab_diags metadata =
        if contains skip "plan"
        then []
        else check_plan metadata.cluster_names metadata.deployment_plan

    unfoldable pub lint_lab : LabMetadata J → Option (List Diagnostic)
    unfolding lint_clusters
    lint_lab metadata = and_then (lint_clusters metadata metadata.cluster_names) λ of_clusters.
        some (
          (if contains skip "assertions" then [] else check_lab metadata)
          ++ of_clusters
          ++ lab_diags metadata)

    unfoldable pub run_lint : Option Bool
    unfolding lint_lab
    run_lint = and_then (i.read_to_string (join_path package_path "metadata.json")) λ content.
        and_then (i.read_metadata content) λ metadata.
          and_then (lint_lab metadata) λ all_diagnostics. some (not (any is_error all_diagnostics))
