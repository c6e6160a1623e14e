-- ===== src/Lint/References.antt =====
-- cli/src/lint/rules/references.rs: the ConfigMaps and Secrets that a pod needs and nothing makes.
pub mod Available
use catallaxy.Prelude.{
  Bool, true, false, not, ◌&&◌, ◌||◌, Option, none, some, List, [], ◌∷◌, ◌++◌, String, ◌<>◌, ◌==◌,
  any, map, flat_map, filter_map, contains, and_then, if◌then◌else◌,
}
use text.Mathlib.Text.{starts_with}
use catallaxy.Lint.{Diagnostic, error}
use catallaxy.Lint.Yaml.{Yaml, at_path}
use catallaxy.Lint.Manifest.{K8sResource, is_configmap, is_secret, has_lint_skip}
use catallaxy.Lint.Context.{CheckContext, resource_diag}
use catallaxy.Lint.Basics.{same_namespace}

-- A namespace, or none, with a name.
abbrev pub Named : Type 0
Named = Option String × String

abbrev pub has_name : List Named → Option String → String → Bool
has_name names ns name = any (λ n. same_namespace n.0 ns && (n.1 == name)) names

module _ {V : Type 0} where
  abbrev pub names_where : (K8sResource V → Bool) → List (K8sResource V) → List Named
  names_where p resources =
      filter_map (λ r. if p r then some (r.namespace, r.name) else none) resources

  abbrev pub runs_jobs : K8sResource V → Bool
  runs_jobs r = (r.kind == "Job") || (r.kind == "CronJob")

  unfoldable pub namespaces_with_jobs : List (K8sResource V) → List (Option String)
  namespaces_with_jobs resources =
      filter_map (λ r. if runs_jobs r then some r.namespace else none) resources

module _ {V : Type 0} (y : Yaml V) where
  abbrev pub certificate_of : K8sResource V → List Named
  certificate_of r =
      if (r.kind == "Certificate") && starts_with r.api_version "cert-manager.io/"
      then elim (and_then (at_path y r.raw ("spec" ∷ "secretName" ∷ [])) y.as_str) [
        | none ↦ []
        | some name ↦ (r.namespace, name) ∷ []
      ]
      else []

  abbrev pub promised_of : K8sResource V → List Named
  promised_of r =
      certificate_of r
      ++ (if (r.kind == "Cluster") && starts_with r.api_version "postgresql.cnpg.io/"
          then (r.namespace, r.name <> "-app") ∷ []
          else [])
      ++ (if (r.kind == "SetupKey") && starts_with r.api_version "netbird.io/"
          then (r.namespace, "setup-key-" <> r.name) ∷ []
          else [])

  unfoldable pub promised_by_custom_resources : List (K8sResource V) → List Named
  promised_by_custom_resources resources = flat_map promised_of resources

  -- What both loops ask last of a reference.
  abbrev pub made_later : List (K8sResource V) → Option String → String → Bool
  made_later resources ns name =
      has_name (promised_by_custom_resources resources) ns name
      || any (λ job_ns. same_namespace job_ns ns) (namespaces_with_jobs resources)

  unfoldable pub configmap_exists :
      List (K8sResource V) → List String → Option String → String → Bool
  unfolding promised_by_custom_resources namespaces_with_jobs
  configmap_exists resources runtime_materialised ns name =
      has_name (names_where is_configmap resources) ns name
      || contains runtime_materialised name
      || made_later resources ns name

  unfoldable pub secret_exists :
      List (K8sResource V) → List String → List String → Option String → String → Bool
  unfolding promised_by_custom_resources namespaces_with_jobs
  secret_exists resources projection_names runtime_materialised ns name =
      has_name (names_where is_secret resources) ns name
      || contains projection_names name
      || contains runtime_materialised name
      || made_later resources ns name

  abbrev pub dangling : String → K8sResource V → String → String → Diagnostic
  dangling cluster r kind name =
      resource_diag error "reference" cluster r
        ("references " <> (kind <> (" '" <> (name <> "' which does not exist"))))

  -- The loop over the references of one kind.
  abbrev pub dangling_in :
      (String → Bool) → String → K8sResource V → String → List String → List Diagnostic
  dangling_in found cluster r kind names =
      flat_map (λ name. if found name then [] else dangling cluster r kind name ∷ []) names

  unfoldable pub references_of :
      List (K8sResource V) → String → List String → List String → K8sResource V → List Diagnostic
  unfolding configmap_exists secret_exists
  references_of resources cluster projection_names runtime_materialised r =
      if has_lint_skip r "reference"
      then []
      else dangling_in (configmap_exists resources runtime_materialised r.namespace) cluster r
          "ConfigMap" r.configmap_refs
        ++ dangling_in (secret_exists resources projection_names runtime_materialised r.namespace)
            cluster r "Secret" r.secret_refs

  unfoldable pub check_references :
      List (K8sResource V) → String → List String → List String → List Diagnostic
  unfolding references_of
  check_references resources cluster projection_names runtime_materialised =
      flat_map (references_of resources cluster projection_names runtime_materialised) resources
