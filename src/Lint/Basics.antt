-- ===== src/Lint/Basics.antt =====
-- cli/src/lint/rules: schema.rs, identity.rs, prefix.rs and assertions.rs.
pub mod Identities
use catallaxy.Prelude.{
  Bool, true, false, not, ◌&&◌, Option, none, some, List, [], ◌∷◌, ◌++◌, String, ◌<>◌, ◌==◌, map,
  flat_map, find, contains, is_empty, if◌then◌else◌,
}
use text.Mathlib.Text.{starts_with}
use catallaxy.Lint.{Diagnostic, Severity, error, warning}
use catallaxy.Lint.Manifest.{K8sResource, is_crd}
use catallaxy.Lint.Context.{AssertionMetadata, ClusterMetadata, LabMetadata, resource_diag}

-- Whether two namespaces, or none, are the same.
abbrev pub same_namespace : Option String → Option String → Bool
same_namespace none none = true
same_namespace (some a) (some b) = a == b
same_namespace _ _ = false

module _ {V : Type 0} where
  abbrev missing_field : String → K8sResource V → Bool → String → List Diagnostic
  missing_field cluster r absent what =
      if absent then resource_diag error "schema" cluster r ("missing " <> what) ∷ [] else []

  abbrev schema_of : String → K8sResource V → List Diagnostic
  schema_of cluster r =
      missing_field cluster r (is_empty r.api_version) "apiVersion"
      ++ missing_field cluster r (is_empty r.kind) "kind"
      ++ missing_field cluster r (is_empty r.name) "metadata.name"

  unfoldable pub check_schema : List (K8sResource V) → String → List Diagnostic
  check_schema resources cluster = flat_map (schema_of cluster) resources

  -- Whether two resources have the same key in `seen`.
  unfoldable pub same_identity : K8sResource V → K8sResource V → Bool
  same_identity r s =
      (r.api_version == s.api_version)
      && (r.kind == s.kind)
      && same_namespace r.namespace s.namespace
      && (r.name == s.name)

  unfoldable pub duplicate : String → K8sResource V → K8sResource V → Diagnostic
  duplicate cluster first r = resource_diag error "identity" cluster r (
      "duplicate resource identity "
      <> (r.api_version <> ("/" <> (r.kind <> (" (first seen in " <> (first.source_file <> ")"))))))

  -- The loop, with the resources that `seen` holds.
  unfoldable pub check_identity_from :
      String → List (K8sResource V) → List (K8sResource V) → List Diagnostic
  unfolding same_identity duplicate
  check_identity_from cluster seen [] = []
  check_identity_from cluster seen (r ∷ rest) = elim (find (same_identity r) seen) [
    | none ↦ check_identity_from cluster (r ∷ seen) rest
    | some first ↦ duplicate cluster first r ∷ check_identity_from cluster seen rest
  ]

  unfoldable pub check_identity : List (K8sResource V) → String → List Diagnostic
  unfolding check_identity_from
  check_identity resources cluster = check_identity_from cluster [] resources

  abbrev name_of : String → String → K8sResource V → List Diagnostic
  name_of cluster expected_prefix r =
      if starts_with r.name expected_prefix
      then []
      else resource_diag error "prefix" cluster r
          ("resource name '" <> (r.name <> ("' missing prefix '" <> (expected_prefix <> "'"))))
        ∷ []

  abbrev namespace_of : String → String → List String → K8sResource V → List Diagnostic
  namespace_of cluster expected_prefix lab_namespaces r = elim r.namespace [
    | none ↦ []
    | some ns ↦
        if contains lab_namespaces ns
        then resource_diag error "prefix" cluster r (
            "namespace '"
            <> (ns <> ("' not prefixed (expected '" <> (expected_prefix <> (ns <> "')")))))
          ∷ []
        else []
  ]

  abbrev prefix_of : String → String → List String → K8sResource V → List Diagnostic
  prefix_of cluster expected_prefix lab_namespaces r =
      if is_crd r
      then []
      else name_of cluster expected_prefix r
        ++ namespace_of cluster expected_prefix lab_namespaces r

  unfoldable pub check_prefix :
      List (K8sResource V) → String → String → List String → List Diagnostic
  check_prefix resources cluster prefix lab_namespaces =
      if is_empty prefix
      then []
      else flat_map (prefix_of cluster (prefix <> "-") lab_namespaces) resources

abbrev unmet_at : String → String → Severity → String → Diagnostic
unmet_at cluster resource severity message = record {
  severity = severity;
  check = "assertions";
  cluster = cluster;
  file = "";
  resource = resource;
  message = message;
}

abbrev unmet : String → String → List AssertionMetadata → List String → List Diagnostic
unmet cluster owner assertions warnings =
    flat_map
      (λ a.
        if a.assertion then [] else unmet_at cluster (owner <> ".assertions") error a.message ∷ [])
      assertions
    ++ map (λ w. unmet_at cluster (owner <> ".warnings") warning w) warnings

module _ {J : Type 0} where
  unfoldable pub check_cluster : String → ClusterMetadata J → List Diagnostic
  check_cluster cluster meta = unmet cluster "cluster" meta.assertions meta.warnings

  unfoldable pub check_lab : LabMetadata J → List Diagnostic
  check_lab meta = unmet "<lab>" "lab" meta.assertions meta.warnings
