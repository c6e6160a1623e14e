-- ===== src/Lint/ReadyProbe.antt =====
-- cli/src/lint/rules/ready_probe.rs, with `ReadyProbe::target` of cli/src/io/ssa/probe.rs: the ready
-- probes that wait on what nothing renders and nothing makes.
use catallaxy.Prelude.{
  Bool, not, ◌&&◌, ◌||◌, Option, none, some, List, [], ◌∷◌, String, ◌<>◌, ◌==◌, any, map, flat_map,
  filter_map, keep, contains, is_nil, join, sort, text_le, split_once, split_at, to_ascii_lowercase,
  has_text, if◌then◌else◌,
}
use catallaxy.Ssa.{Wave, WaveBundle, ReadyProbe, condition, jsonpath, exists}
use catallaxy.Lint.{Diagnostic, error}
use catallaxy.Lint.Manifest.{K8sResource}
use catallaxy.Lint.References.{runs_jobs}

-- A `HashSet` of texts: each once.
unfoldable pub distinct_texts : List String → List String
distinct_texts [] = []
distinct_texts (s ∷ rest) =
    let more = distinct_texts rest in if contains more s then more else s ∷ more

unfoldable pub normalise_kind : String → String
normalise_kind kind =
    let k = to_ascii_lowercase kind in
    if contains ("deploy" ∷ "deployments" ∷ []) k
    then "deployment"
    else if contains ("sts" ∷ "statefulsets" ∷ []) k
    then "statefulset"
    else if contains ("ds" ∷ "daemonsets" ∷ []) k
    then "daemonset"
    else if contains ("cm" ∷ "configmaps" ∷ []) k
    then "configmap"
    else if k == "secrets"
    then "secret"
    else if contains ("svc" ∷ "services" ∷ []) k
    then "service"
    else if k == "jobs"
    then "job"
    else if contains ("po" ∷ "pods" ∷ []) k
    then "pod"
    else k

abbrev pub static_groups : List String
static_groups =
    "v1" ∷ "apps" ∷ "batch" ∷ "networking.k8s.io" ∷ "rbac.authorization.k8s.io" ∷ "policy" ∷ []

-- The part in front of the first slash.
abbrev pub group_of : String → String
group_of api_version = elim (split_at b'/' api_version) [ [] ↦ "" | group ∷ _ ↦ group ]

abbrev pub ready_probe_diag : String → String → String → Diagnostic
ready_probe_diag cluster bundle message = record {
  severity = error;
  check = "ready-probe";
  cluster = cluster;
  file = "";
  resource = "bundle/" <> bundle;
  message = message;
}

module _ {V : Type 0} where
  unfoldable pub mints_at_runtime : K8sResource V → Bool
  mints_at_runtime r = runs_jobs r || not (contains static_groups (group_of r.api_version))

module _ {J : Type 0} where
  unfoldable pub probe_target : ReadyProbe J → Option String
  probe_target (condition resource _ _ _) = some resource
  probe_target (jsonpath resource _ _ _ _) = some resource
  probe_target (exists resource _ _) = some resource
  probe_target _ = none

  unfoldable pub required_bundles : WaveBundle J → List (Wave J) → List (WaveBundle J)
  required_bundles bundle waves =
      keep (λ b. any (λ t. contains bundle.requires t) b.provides) (flat_map (λ w. w.bundles) waves)

module _ {V J : Type 0} (resources : List (K8sResource V)) (waves : List (Wave J)) where
  unfoldable pub kinds_with_name : String → List String
  unfolding distinct_texts normalise_kind
  kinds_with_name name =
      distinct_texts
        (filter_map (λ r. if r.name == name then some (normalise_kind r.kind) else none) resources)

  unfoldable pub something_mints : WaveBundle J → Bool
  unfolding mints_at_runtime required_bundles
  something_mints bundle =
      let minting_dirs = bundle.dir ∷ map (λ b. b.dir) (required_bundles bundle waves) in
      any mints_at_runtime (keep (λ r. any (λ d. has_text r.source_file d) minting_dirs) resources)

  unfoldable pub check_target :
      String → List String → WaveBundle J → String → String × String → List Diagnostic
  unfolding kinds_with_name something_mints normalise_kind
  check_target cluster projection_names bundle target (kind_raw, name) =
      let want_kind = normalise_kind kind_raw in
      if contains (kinds_with_name name) want_kind
      then []
      else if (want_kind == "secret") && contains projection_names name
      then []
      else if not (is_nil (kinds_with_name name))
      then ready_probe_diag cluster bundle.key (
          "readyProbe waits on '"
          <> (target
              <> ("', but '"
                  <> (name
                      <> ("' is rendered as "
                          <> (join ", " (sort text_le (kinds_with_name name))
                              <> ": the probe blocks until its timeout and then fails the deploy"))))))
        ∷ []
      else if something_mints bundle
      then []
      else ready_probe_diag cluster bundle.key (
          "readyProbe waits on '"
          <> (target
              <> "', which nothing renders and nothing this bundle requires can mint after apply — the probe blocks until its timeout and then fails the deploy"))
        ∷ []

  unfoldable pub check_bundle : String → List String → WaveBundle J → List Diagnostic
  unfolding check_target probe_target
  check_bundle cluster projection_names bundle =
      if not bundle.has_content then [] else elim bundle.ready_probe [
        | none ↦ []
        | some probe ↦ elim (probe_target probe) [
          | none ↦ []
          | some t ↦ elim (split_once b'/' t) [
            | none ↦ []
            | some parts ↦ check_target cluster projection_names bundle t parts
          ]
        ]
      ]

  unfoldable pub check_ready_probe : String → List String → List Diagnostic
  unfolding check_bundle
  check_ready_probe cluster projection_names =
      flat_map (λ w. flat_map (check_bundle cluster projection_names) w.bundles) waves
