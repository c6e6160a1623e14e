-- ===== src/Lint/LabTests.antt =====
-- The linter on a lab of one cluster: a Deployment that needs a ConfigMap and names a Service of another
-- namespace, and a policy that lets it through. A value of YAML is its path in the documents.
use catallaxy.Prelude.{
  ℕ, ◌≡◌, refl, Bool, true, false, ◌||◌, none, some, List, [], ◌∷◌, String, ◌<>◌, Map, get, inl,
  inr, contains, if◌then◌else◌, arith, subst, sym, eq_iff,
}
use mathlib.Core.List.{Memᴰ}
use catallaxy.Lint.Yaml.{Yaml, number, mapping}
use catallaxy.Lint.Manifest.{K8sResource, load_manifests}
use catallaxy.Lint.{is_error}
use catallaxy.Lint.Network.Exact.{Unallowed, flows_match_references-Unallowed}
use catallaxy.Prelude.{any, ◌↔◌}
use catallaxy.Lint.Context.{CheckContext, ClusterMetadata, LabMetadata}
use catallaxy.Lint.Network.{Services, Flow, service_inventory}
use catallaxy.Lint.Network.Allowed.{PolicyAllows}
use catallaxy.Lint.Network.Needs.{TextNeeds}
use catallaxy.Lint.Basics.Identities.{Identities}
use catallaxy.Lint.Run.{Inputs, run_lint}
use catallaxy.Lint.Run.Passed.{
  Linted, context, Accounted, run_lint-Satisfied, run_lint-PolicyAllows, run_lint-Identities,
}
use catallaxy.Prelude.{strip_suffix, rsplit_once}
use catallaxy.Lint.Manifest.{
  display_id, extract_lint_skip, text_entries, extract_service_selector, extract_pod_labels,
  parse_resource, parse_yaml_documents, get_str, submap, subseq, is_optional, required_ref,
  pod_spec_of, volume_refs, refs_under, env_from_refs, env_refs, container_refs, extract_refs,
}
use catallaxy.Lint.Basics.{
  check_cluster, check_schema, same_identity, check_identity_from, check_identity, check_prefix,
  check_lab,
}
use catallaxy.Lint.Selector.{
  is_kube_system_service, is_operator_managed_workload_service, workloads_in, selector_of,
  check_selector,
}
use catallaxy.Lint.References.{
  namespaces_with_jobs, promised_by_custom_resources, configmap_exists, secret_exists,
  references_of, check_references,
}
use catallaxy.Lint.ImagePin.{extract_images, images_of, check_image_pin}
use catallaxy.Lint.Crds.{
  api_group, version_schema, versions_of, extract_crd_schemas, check_crd_schema, check_missing_crd,
}
use catallaxy.Lint.CrdSchema.{crd_key}
use catallaxy.Lint.ReadyProbe.{check_ready_probe}
use catallaxy.Lint.Network.{insert_set, add_service, port_of}
use catallaxy.Lint.Network.Scan.{
  Reference, span, scan_labels, reference_of, scan_port, references_from, read_reference,
  references_in,
}
use catallaxy.Lint.Network.Policies.{
  insert_flows, add_flows, rule_ports, cilium_ports, plain_peer, cilium_peer, collect_plain,
  collect_cilium, flows_of_policy, permitted_flows,
}
use catallaxy.Lint.Network.Rule.{
  require, require_each, route_references, wanted_by, text_targets, text_references, text_anonymous,
  required_flows, flows_match_references, served_diags, served_ports_exist, check_network,
}
use catallaxy.Lint.Run.{
  cluster_rules, external_secret_targets, read_wave_meta, context_of, run_rules, lint_cluster,
  lint_clusters, lint_lab,
}
use catallaxy.Lint.PlanRule.{
  diag, check_refs, check_cluster_refs_from, check_cluster_refs, created, check_duplicates_from,
  check_duplicate_create, check_plan,
}

abbrev texts : Map String
texts =
    ("web/apiVersion", "apps/v1")
    ∷ ("web/kind", "Deployment")
    ∷ ("web/metadata/name", "web")
    ∷ ("web/metadata/namespace", "app")
    ∷ ("web/spec/template/spec/volumes/0/configMap/name", "settings")
    ∷ ("cm/apiVersion", "v1")
    ∷ ("cm/kind", "ConfigMap")
    ∷ ("cm/metadata/name", "settings")
    ∷ ("cm/metadata/namespace", "app")
    ∷ ("db/apiVersion", "v1")
    ∷ ("db/kind", "Service")
    ∷ ("db/metadata/name", "db")
    ∷ ("db/metadata/namespace", "data")
    ∷ ("np/apiVersion", "networking.k8s.io/v1")
    ∷ ("np/kind", "NetworkPolicy")
    ∷ ("np/metadata/name", "allow-db")
    ∷ ("np/metadata/namespace", "app")
    ∷ ("np/spec/egress/0/to/0/namespaceSelector/matchLabels/kubernetes.io/metadata.name", "data")
    ∷ []

abbrev ports : Map ℕ
ports = ("db/spec/ports/0/port", 5432) ∷ ("np/spec/egress/0/ports/0/port", 5432) ∷ []

abbrev sequences : Map (List String)
sequences =
    ("web/spec/template/spec/volumes", "web/spec/template/spec/volumes/0" ∷ [])
    ∷ ("db/spec/ports", "db/spec/ports/0" ∷ [])
    ∷ ("np/spec/egress", "np/spec/egress/0" ∷ [])
    ∷ ("np/spec/egress/0/to", "np/spec/egress/0/to/0" ∷ [])
    ∷ ("np/spec/egress/0/ports", "np/spec/egress/0/ports/0" ∷ [])
    ∷ []

abbrev mappings : List String
mappings =
    "web" ∷ "web/metadata" ∷ "web/spec" ∷ "web/spec/template" ∷ "web/spec/template/spec"
    ∷ "web/spec/template/spec/volumes/0" ∷ "web/spec/template/spec/volumes/0/configMap" ∷ "cm"
    ∷ "cm/metadata" ∷ "db" ∷ "db/metadata" ∷ "db/spec" ∷ "np" ∷ "np/metadata" ∷ "np/spec"
    ∷ "np/spec/egress/0/to/0/namespaceSelector"
    ∷ "np/spec/egress/0/to/0/namespaceSelector/matchLabels" ∷ []

abbrev has_key : {A : Type 0} → Map A → String → Bool
has_key m k = elim (get k m) [ none ↦ false | some _ ↦ true ]

abbrev yaml : Yaml String
yaml = record {
  documents = λ _. "web" ∷ "cm" ∷ "db" ∷ "np" ∷ [];
  to_string = λ v. get v (("web", "url: db.data:5432") ∷ []);
  get_field = λ v k.
      let p = v <> ("/" <> k) in
      if contains mappings p || has_key texts p || has_key sequences p || has_key ports p
      then some p
      else none;
  is_mapping = contains mappings;
  entries = λ _. [];
  as_sequence = λ v. get v sequences;
  as_str = λ v. get v texts;
  as_bool = λ _. none;
  is_null = λ _. false;
  is_number = has_key ports;
  is_i64 = has_key ports;
  is_u64 = has_key ports;
  shape = λ v. elim (get v ports) [ some p ↦ number (some p) | none ↦ mapping ];
  parse_u32 = λ s. get s (("5432", 5432) ∷ []);
}

abbrev hub : ClusterMetadata ℕ
hub = record {
  projections = [];
  checks = [];
  assertions = [];
  warnings = [];
  runtime_materialised = [];
  network_policies = record { enabled = true; floes = [] };
}

abbrev lab : LabMetadata ℕ
lab = record {
  name = "lab";
  prefix = "";
  cluster_names = "hub" ∷ "edge" ∷ [];
  lab_namespaces = ("hub", "app" ∷ "data" ∷ []) ∷ [];
  clusters = ("hub", hub) ∷ [];
  images = record { require_digest = true; allowed_registries = [] };
  assertions = [];
  warnings = [];
  deployment_plan = [];
}

abbrev inputs : Inputs String ℕ
inputs = record {
  yaml = yaml;
  json_shape = λ n. number (some n);
  scripts = record {
    read_dir = λ _. none;
    walk_files = λ _. [];
    run = λ _ _. inl "not found";
    parse_list = λ _. inl "not JSON";
  };
  read_metadata = λ _. some lab;
  parse_waves = λ _. none;
  read_to_string = λ f. get f (("pkg/metadata.json", "{}") ∷ []);
  path_exists = contains ("pkg/manifests/hub" ∷ []);
  walk = λ _.
      some
        (record { is_file = false; path = "pkg/manifests/hub"; file_name = "hub"; content = none })
      ∷ some
          (record { is_file = true; path = "app.yaml"; file_name = "app.yaml"; content = some "" })
      ∷ [];
  fuel = 8;
}

abbrev plain : String → String → String → String → String → K8sResource String
plain doc api_version kind name namespace = record {
  api_version = api_version;
  kind = kind;
  name = name;
  namespace = some namespace;
  selector = none;
  pod_labels = none;
  configmap_refs = [];
  secret_refs = [];
  source_file = "app.yaml";
  raw = doc;
  lint_skip = [];
}

abbrev web : K8sResource String
web = record {
  api_version = "apps/v1";
  kind = "Deployment";
  name = "web";
  namespace = some "app";
  selector = none;
  pod_labels = none;
  configmap_refs = "settings" ∷ [];
  secret_refs = [];
  source_file = "app.yaml";
  raw = "web";
  lint_skip = [];
}

abbrev loaded : List (K8sResource String)
loaded =
    web
    ∷ plain "cm" "v1" "ConfigMap" "settings" "app"
    ∷ plain "db" "v1" "Service" "db" "data"
    ∷ plain "np" "networking.k8s.io/v1" "NetworkPolicy" "allow-db" "app"
    ∷ []

loads : load_manifests yaml (inputs.walk "pkg/manifests/hub") ≡ some loaded
unfolding display_id extract_lint_skip text_entries extract_service_selector extract_pod_labels
    parse_resource parse_yaml_documents load_manifests get_str submap subseq is_optional
    required_ref pod_spec_of volume_refs refs_under env_from_refs env_refs container_refs
    extract_refs strip_suffix
loads = refl

passes : run_lint inputs "pkg" [] ≡ some true
unfolding display_id extract_lint_skip text_entries extract_service_selector extract_pod_labels
    parse_resource parse_yaml_documents load_manifests get_str submap subseq is_optional
    required_ref pod_spec_of volume_refs refs_under env_from_refs env_refs container_refs
    extract_refs check_schema same_identity check_identity_from check_identity check_prefix
    check_lab is_kube_system_service is_operator_managed_workload_service workloads_in selector_of
    check_selector namespaces_with_jobs promised_by_custom_resources configmap_exists secret_exists
    references_of check_references extract_images images_of check_image_pin api_group version_schema
    versions_of extract_crd_schemas check_crd_schema check_missing_crd crd_key check_ready_probe
    insert_set add_service port_of service_inventory span scan_labels reference_of scan_port
    references_from read_reference references_in insert_flows add_flows rule_ports cilium_ports
    plain_peer cilium_peer collect_plain collect_cilium flows_of_policy permitted_flows require
    require_each route_references wanted_by text_targets text_references text_anonymous
    required_flows flows_match_references served_diags served_ports_exist check_network
    cluster_rules external_secret_targets read_wave_meta context_of run_rules lint_cluster
    lint_clusters lint_lab run_lint diag check_refs check_cluster_refs_from check_cluster_refs
    created check_duplicates_from check_duplicate_create check_plan strip_suffix rsplit_once
    check_cluster
passes = refl

linted : Linted inputs "pkg" [] lab "hub" loaded
linted = record {
  content = "{}";
  of_file = refl;
  of_metadata = refl;
  in_lab = Memᴰ.head refl;
  rendered = refl;
  loaded = loads;
  passed = passes;
}

abbrev to_db : Flow
to_db = record { from = "app"; to = "data"; port = 5432 }

abbrev db_services : Services
db_services = (("data", "db"), 5432 ∷ []) ∷ []

services_there : service_inventory yaml loaded [] ≡ db_services
unfolding service_inventory add_service insert_set port_of
services_there = refl

abbrev db_reference : Reference
db_reference = ("db", "data", some 5432)

mentions : references_in yaml.parse_u32 "url: db.data:5432" ≡ db_reference ∷ []
unfolding references_in references_from read_reference scan_labels scan_port span reference_of
mentions = refl

needs_db : TextNeeds yaml db_services ("app" ∷ "data" ∷ []) web to_db
needs_db = record {
  of_ns = refl;
  text = "url: db.data:5432";
  of_text = refl;
  service = "db";
  named = some 5432;
  in_text = subst (Memᴰ db_reference) (sym mentions) (Memᴰ.head refl);
  in_lab = refl;
  apart = λ e. absurd (ground (arith, (eq_iff "app" "data").1 e));
  ports = 5432 ∷ [];
  has_ports = refl;
  on_port = Memᴰ.head refl;
  names_port = inr refl;
}

named_in_text : TextNeeds yaml (service_inventory yaml loaded []) ("app" ∷ "data" ∷ []) web to_db
named_in_text =
    subst (λ s. TextNeeds yaml s ("app" ∷ "data" ∷ []) web to_db) (sym services_there) needs_db

run_lint-Satisfied_example : Accounted inputs "pkg" [] lab "hub" loaded web
run_lint-Satisfied_example =
    run_lint-Satisfied inputs "pkg" [] lab "hub" loaded linted refl web (Memᴰ.head refl) refl

run_lint-Identities_example : Identities loaded
run_lint-Identities_example = run_lint-Identities inputs "pkg" [] lab "hub" loaded linted refl

run_lint-PolicyAllows_example : (r : K8sResource String) × Memᴰ r loaded × PolicyAllows yaml r to_db
run_lint-PolicyAllows_example =
    run_lint-PolicyAllows inputs "pkg" [] lab "hub" loaded linted refl hub refl refl to_db
      (web, Memᴰ.head refl, inr named_in_text)

abbrev hub_context : CheckContext String ℕ
hub_context = context inputs "pkg" [] lab "hub" loaded

flows_match_references-Unallowed_example :
    (any is_error (flows_match_references yaml hub_context db_services) ≡ true)
    ↔ ((f : Flow) × Unallowed yaml hub_context db_services f)
flows_match_references-Unallowed_example =
    flows_match_references-Unallowed yaml hub_context db_services
