-- ===== src/Lint/Crds.antt =====
-- cli/src/lint/rules/crd_schema.rs and missing_crd.rs: the schemas that the definitions of custom
-- resources carry, the resources checked against them, and the resources without one. The nesting of
-- a schema is bounded by fuel.
use catallaxy.Prelude.{
  ℕ, Option, none, some, List, [], ◌∷◌, String, ◌<>◌, Map, get, upsert, or_else, and_then, flat_map,
  filter_map, contains, is_nil, rsplit_once, if◌then◌else◌,
}
use catallaxy.Lint.{Diagnostic, warning}
use catallaxy.Lint.Yaml.{Yaml, as_mapping}
use catallaxy.Lint.Manifest.{K8sResource, is_crd, get_str, submap, subseq}
use catallaxy.Lint.Context.{resource_diag}
use catallaxy.Lint.CrdSchema.{SchemaNode, crd_key, parse_schema_node, validate_object}

abbrev pub builtin_api_groups : List String
builtin_api_groups =
    "" ∷ "apps" ∷ "batch" ∷ "autoscaling" ∷ "policy" ∷ "networking.k8s.io"
    ∷ "rbac.authorization.k8s.io" ∷ "storage.k8s.io" ∷ "admissionregistration.k8s.io"
    ∷ "apiextensions.k8s.io" ∷ "apiregistration.k8s.io" ∷ "certificates.k8s.io"
    ∷ "coordination.k8s.io" ∷ "discovery.k8s.io" ∷ "events.k8s.io" ∷ "flowcontrol.apiserver.k8s.io"
    ∷ "node.k8s.io" ∷ "scheduling.k8s.io" ∷ []

unfoldable pub api_group : String → String
api_group api_version = elim (rsplit_once b'/' api_version) [ none ↦ "" | some parts ↦ parts.0 ]

module _ {V : Type 0} (y : Yaml V) (fuel : ℕ) where
  -- One version of a definition, where it has a name and a schema.
  unfoldable pub version_schema : String → String → V → Option (String × SchemaNode)
  version_schema group kind version_entry = and_then (as_mapping y version_entry) λ version_map.
      and_then (get_str y version_map "name") λ version_name.
        and_then (submap y version_map "schema") λ schema.
          and_then (y.get_field schema "openAPIV3Schema") λ openapi_schema. some (
            group <> ("/" <> (version_name <> ("/" <> kind))),
            parse_schema_node y fuel openapi_schema,
          )

  unfoldable pub versions_of : K8sResource V → List (String × SchemaNode)
  unfolding version_schema
  versions_of r =
      if is_crd r
      then or_else
          (and_then (as_mapping y r.raw) λ mapping. and_then (submap y mapping "spec") λ spec.
            and_then (get_str y spec "group") λ group. and_then (submap y spec "names") λ names.
              and_then (get_str y names "kind") λ kind.
                and_then (subseq y spec "versions")
                  λ versions. some (filter_map (version_schema group kind) versions))
          []
      else []

  abbrev insert_schemas : List (String × SchemaNode) → Map SchemaNode → Map SchemaNode
  insert_schemas [] schemas = schemas
  insert_schemas ((key, schema) ∷ rest) schemas =
      insert_schemas rest (upsert key schema (λ _. schema) schemas)

  unfoldable pub extract_crd_schemas : List (K8sResource V) → Map SchemaNode
  unfolding versions_of
  extract_crd_schemas resources = insert_schemas (flat_map versions_of resources) []

  abbrev pub validate_one : Map SchemaNode → String → K8sResource V → List Diagnostic
  validate_one schemas cluster r =
      if is_crd r then [] else elim (get (crd_key r.api_version r.kind) schemas) [
        | none ↦ []
        | some schema ↦ validate_object y cluster r schema r.raw ""
      ]

  unfoldable pub check_crd_schema : List (K8sResource V) → String → List Diagnostic
  check_crd_schema resources cluster =
      let schemas = extract_crd_schemas resources in
      if is_nil schemas then [] else flat_map (validate_one schemas cluster) resources

  abbrev pub missing_crd_of : Map SchemaNode → String → K8sResource V → List Diagnostic
  missing_crd_of schemas cluster r =
      if is_crd r
      then []
      else if contains builtin_api_groups (api_group r.api_version)
      then []
      else elim (get (crd_key r.api_version r.kind) schemas) [
        | some _ ↦ []
        | none ↦
            resource_diag warning "missing-crd" cluster r (
              "no CRD found for "
              <> (r.api_version
                  <> ("/" <> (r.kind <> ", will fail if CRD is not installed at apply time"))))
            ∷ []
      ]

  unfoldable pub check_missing_crd : List (K8sResource V) → String → List Diagnostic
  unfolding api_group
  check_missing_crd resources cluster =
      flat_map (missing_crd_of (extract_crd_schemas resources) cluster) resources
