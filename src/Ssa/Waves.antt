-- ===== src/Ssa/Waves.antt =====
-- cli/src/io/ssa/mod.rs: the waves of a manifest tree in order, and the pruning after the last one.
use catallaxy.Prelude.{
  ℕ, Bool, not, Option, none, some, List, [], ◌∷◌, ◌++◌, String, ◌<>◌, map, decimal, get, and_then,
  strip_prefix, full_lines, if◌then◌else◌,
}
use text.Mathlib.Text.{starts_with}
use catallaxy.Prune.{ResourceKey, LiveResource, PruneInputs, plan_prune, is_empty_plan}
use catallaxy.Ssa.{
  Outside, Wave, WaveBundle, ApplyManifests, ProjectionConfig, Run, no_manifest_root, no_wave_meta,
  reading, parsing, secret_not_applied, pure, bail, ensure, ◌>>=◌, ◌>>◌, for_each, require_named,
  status, Values, yaml_files,
}
use catallaxy.Ssa.Owned.{owned_by_lab, delete, text_at}
use catallaxy.Ssa.Workloads.{wait_workloads_ready}
use catallaxy.Ssa.Probe.{run_ready_probe}
use catallaxy.Ssa.Projections.{inject_projections}
use catallaxy.Ssa.Bundle.{apply_args, apply_bundle_with_retry, wait_bundle_crds}

abbrev pub is_projection : String → Bool
is_projection key = starts_with key "projection/"

module _ {V : Type 0} (values : Values V) where
  -- The resource that a document declares.
  abbrev declared_in : V → Option ResourceKey
  declared_in doc = and_then (text_at values doc "kind") (λ kind.
      and_then (values.field doc "metadata") (λ metadata.
        and_then (text_at values metadata "name") (λ name.
          some (record {
            kind = kind;
            namespace = text_at values metadata "namespace";
            name = name;
          }))))

  abbrev pub declared_by : List V → List ResourceKey
  declared_by [] = []
  declared_by (doc ∷ docs) =
      let rest = declared_by docs in elim (declared_in doc) [ none ↦ rest | some key ↦ key ∷ rest ]

module _ {J Y E W : Type 0} (o : Outside J Y E W) where
  abbrev resources_in : List String → List ResourceKey
  resources_in [] = []
  resources_in (path ∷ paths) =
      elim (o.read_to_string path) [
        | none ↦ []
        | some content ↦ declared_by o.yaml (o.yaml.parse content)
      ]
      ++ resources_in paths

  unfoldable pub applied_resources : String → List ResourceKey
  unfolding yaml_files
  applied_resources root = resources_in (yaml_files o (o.entries root))

  unfoldable pub declared_bundles : String → Option (List String)
  unfolding full_lines
  declared_bundles root = elim (o.read_to_string (o.join root ".declared-bundles")) [
    | none ↦ none
    | some raw ↦ some (full_lines raw)
  ]

  abbrev pub bundle_keys : List (Wave J) → List String
  bundle_keys [] = []
  bundle_keys (wave ∷ waves) = map (λ b. b.key) wave.bundles ++ bundle_keys waves

module _ {J Y E W : Type 0} (o : Outside J Y E W) (fuel : ℕ) (opts : ApplyManifests) where
  abbrev pub timeout : String
  timeout = decimal opts.wait_timeout_seconds <> "s"

  abbrev pub dir_of : WaveBundle J → String
  dir_of b = o.join opts.manifest_root b.dir

  -- The apply closure of `inject_projections_ssa`.
  abbrev pub apply_secret : String → String → Run E W (Unit {0})
  apply_secret dir name =
      if opts.dry_run
      then pure tt
      else (status o (apply_args o opts.kube_context opts.field_manager dir) >>= λ success.
          ensure success (secret_not_applied name))

  abbrev pub projections_for : List (WaveBundle J) → List (String × ProjectionConfig)
  projections_for [] = []
  projections_for (b ∷ bs) =
      let rest = projections_for bs in
      elim (strip_prefix b.key "projection/") [
        | none ↦ rest
        | some name ↦ elim (get name opts.projections) [ none ↦ rest | some p ↦ (name, p) ∷ rest ]
      ]

  abbrev pub apply_wave_bundle : WaveBundle J → Run E W (Unit {0})
  apply_wave_bundle b =
      if is_projection b.key
      then pure tt
      else if not (o.exists (dir_of b))
      then pure tt
      else apply_bundle_with_retry o fuel opts.kube_context opts.field_manager b.key (dir_of b)
          opts.dry_run
        >> wait_bundle_crds o opts.kube_context (dir_of b) timeout opts.dry_run

  unfoldable pub apply_wave_bundles : Wave J → Run E W (Unit {0})
  unfolding apply_bundle_with_retry wait_bundle_crds
  apply_wave_bundles wave = for_each apply_wave_bundle wave.bundles

  abbrev pub probe_bundle : WaveBundle J → Run E W (Unit {0})
  probe_bundle b = elim b.ready_probe [
    | none ↦ pure tt
    | some probe ↦ run_ready_probe o opts.kube_context b.key timeout opts.dry_run probe
  ]

  abbrev pub await_bundle : WaveBundle J → Run E W (Unit {0})
  await_bundle b =
      if b.has_content
      then (if opts.dry_run
          then pure tt
          else wait_workloads_ready o opts.kube_context (dir_of b) timeout)
        >> probe_bundle b
      else pure tt

  unfoldable pub await_wave_bundles : Wave J → Run E W (Unit {0})
  unfolding wait_workloads_ready run_ready_probe
  await_wave_bundles wave = for_each await_bundle wave.bundles

  -- The body of the loop over the waves.
  unfoldable pub apply_wave : Wave J → Run E W (Unit {0})
  unfolding apply_wave_bundles await_wave_bundles inject_projections
  apply_wave wave =
      inject_projections o opts apply_secret (projections_for wave.bundles)
      >> apply_wave_bundles wave
      >> await_wave_bundles wave

  abbrev pub delete_one : ResourceKey → Run E W (Unit {0})
  delete_one key = if opts.dry_run then pure tt else delete o opts.kube_context key

  abbrev pub prune_inputs : List (Wave J) → List String → List LiveResource → PruneInputs
  prune_inputs waves declared live = record {
    live = live;
    declared_bundles = declared;
    applied_bundles = bundle_keys o waves;
    applied = applied_resources o opts.manifest_root;
  }

  unfoldable pub prune_undeclared : List (Wave J) → Run E W (Unit {0})
  unfolding declared_bundles owned_by_lab plan_prune is_empty_plan
  prune_undeclared waves = elim (declared_bundles o opts.manifest_root) [
    | none ↦ pure tt
    | some declared ↦ owned_by_lab o opts.kube_context opts.lab_name >>= λ live.
        let plan = plan_prune (prune_inputs waves declared live) in
        if is_empty_plan plan then pure tt else for_each delete_one plan.delete
  ]

  abbrev pub apply_waves : List (Wave J) → Run E W (Unit {0})
  apply_waves waves = for_each apply_wave waves >> prune_undeclared waves

  unfoldable pub apply_wave_ordered : String → Run E W (Unit {0})
  apply_wave_ordered wave_meta_path = elim (o.read_to_string wave_meta_path) [
    | none ↦ bail (reading wave_meta_path)
    | some raw ↦ elim (o.parse_waves raw) [
      | none ↦ bail (parsing wave_meta_path)
      | some waves ↦ apply_waves waves
    ]
  ]

  abbrev pub guarded : Run E W (Unit {0})
  guarded =
      let wave_meta_path = o.join opts.manifest_root ".wave-meta" in
      if not (o.exists opts.manifest_root)
      then bail (no_manifest_root opts.manifest_root)
      else if not (o.exists wave_meta_path)
      then bail (no_wave_meta opts.manifest_root)
      else apply_wave_ordered wave_meta_path

  unfoldable pub apply_manifest_root : Run E W (Unit {0})
  unfolding apply_wave_ordered
  apply_manifest_root = require_named opts.kube_context >>= λ _. guarded
