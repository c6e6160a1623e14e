-- ===== src/Lint/Manifest.antt =====
-- cli/src/lint/manifest.rs: the resources of rendered manifests. A `BTreeMap` of labels is the list of
-- its entries, and a mapping of serde_yaml a value that is one.
mod Refs
use catallaxy.Prelude.{
  Bool, true, false, not, ◌&&◌, ◌||◌, Option, none, some, List, [], ◌∷◌, ◌++◌, String, ◌<>◌, ◌==◌,
  Map, upsert, or_else, and_then, any, contains, map, split_at, trim, is_nil, filter_map,
  if◌then◌else◌,
}
use text.Mathlib.Text.{starts_with}
use catallaxy.Prelude.{strip_suffix}
use catallaxy.Lint.Yaml.{Yaml, as_mapping, elements}
unfoldable pub use Refs.*

pub record K8sResource (V : Type 0) : Type 0 where
  pub api_version : String
  pub kind : String
  pub name : String
  pub namespace : Option String
  pub selector : Option (Map String)
  pub pod_labels : Option (Map String)
  pub configmap_refs : List String
  pub secret_refs : List String
  pub source_file : String
  pub raw : V
  pub lint_skip : List String

module _ {V : Type 0} where
  unfoldable pub display_id : K8sResource V → String
  display_id r = elim r.namespace [
    | none ↦ r.kind <> ("/" <> r.name)
    | some ns ↦ ns <> ("/" <> (r.kind <> ("/" <> r.name)))
  ]

  abbrev pub is_crd : K8sResource V → Bool
  is_crd r = r.kind == "CustomResourceDefinition"

  abbrev pub is_service : K8sResource V → Bool
  is_service r = r.kind == "Service"

  abbrev pub is_workload : K8sResource V → Bool
  is_workload r = contains ("Deployment" ∷ "DaemonSet" ∷ "StatefulSet" ∷ []) r.kind

  abbrev pub is_configmap : K8sResource V → Bool
  is_configmap r = r.kind == "ConfigMap"

  abbrev pub is_secret : K8sResource V → Bool
  is_secret r = r.kind == "Secret"

  abbrev pub has_lint_skip : K8sResource V → String → Bool
  has_lint_skip r check = contains r.lint_skip check

-- One entry of the walk over a directory; its content, where it can be read.
pub record WalkEntry : Type 0 where
  pub is_file : Bool
  pub path : String
  pub file_name : String
  pub content : Option String

module _ {V : Type 0} (y : Yaml V) where
  unfoldable pub extract_lint_skip : V → List String
  extract_lint_skip metadata =
      let text = and_then (y.get_field metadata "annotations") λ v.
        and_then (as_mapping y v) λ m. and_then (y.get_field m "catallaxy.io/lint-skip") y.as_str in
      elim text [ none ↦ [] | some s ↦ map trim (split_at b',' s) ]

  -- The entries of a mapping whose key and value are texts.
  unfoldable pub text_entries : List (V × V) → Map String → Map String
  text_entries [] out = out
  text_entries ((k, v) ∷ rest) out = elim (y.as_str k) [
    | none ↦ text_entries rest out
    | some key ↦ elim (y.as_str v) [
      | none ↦ text_entries rest out
      | some value ↦ text_entries rest (upsert key value (λ _. value) out)
    ]
  ]

  abbrev pub labels_of : V → Option (Map String)
  labels_of m = let out = text_entries (y.entries m) [] in if is_nil out then none else some out

  unfoldable pub extract_service_selector : V → String → Option (Map String)
  unfolding text_entries
  extract_service_selector mapping kind =
      if not (kind == "Service")
      then none
      else and_then (submap y mapping "spec") λ spec. and_then (submap y spec "selector") labels_of

  unfoldable pub extract_pod_labels : V → String → Option (Map String)
  unfolding text_entries
  extract_pod_labels mapping kind =
      if not (contains ("Deployment" ∷ "DaemonSet" ∷ "StatefulSet" ∷ []) kind)
      then none
      else and_then (submap y mapping "spec") λ spec.
        and_then (submap y spec "template") λ template.
          and_then (submap y template "metadata")
            λ metadata. and_then (submap y metadata "labels") labels_of

  unfoldable pub parse_resource : V → String → Option (K8sResource V)
  parse_resource value source_file = and_then (as_mapping y value) λ mapping.
      and_then (get_str y mapping "apiVersion") λ api_version.
        and_then (get_str y mapping "kind") λ kind.
          and_then (y.get_field mapping "metadata") λ meta. and_then (as_mapping y meta) λ metadata.
            and_then (get_str y metadata "name") λ name. some (record {
              api_version = api_version;
              kind = kind;
              name = name;
              namespace = get_str y metadata "namespace";
              selector = extract_service_selector mapping kind;
              pod_labels = extract_pod_labels mapping kind;
              configmap_refs = (extract_refs y mapping).0;
              secret_refs = (extract_refs y mapping).1;
              source_file = source_file;
              raw = value;
              lint_skip = extract_lint_skip metadata;
            })

  unfoldable pub parse_yaml_documents : String → String → List (K8sResource V)
  parse_yaml_documents content source_file =
      filter_map (λ v. if y.is_null v then none else parse_resource v source_file)
        (y.documents content)

  abbrev pub is_manifest : WalkEntry → Bool
  is_manifest e =
      e.is_file
      && (ends_with e.file_name ".yaml")
      && not (starts_with e.file_name "." || (e.file_name == "fleet.yaml"))

  -- `load_manifests`; an entry that the walk cannot read is none, and an error is none.
  unfoldable pub load_manifests : List (Option WalkEntry) → Option (List (K8sResource V))
  unfolding parse_yaml_documents
  load_manifests [] = some []
  load_manifests (none ∷ entries) = none
  load_manifests (some e ∷ entries) =
      let rest = load_manifests entries in
      if not (is_manifest e)
      then rest
      else and_then e.content
          λ content. and_then rest λ more. some (parse_yaml_documents content e.path ++ more)
