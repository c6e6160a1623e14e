-- ===== src/Lint/Context.antt =====
-- cli/src/lint/mod.rs, its metadata, and the context that cli/src/lint/rules/mod.rs hands to a rule.
-- Values of serde_json are of type `J`, those of serde_yaml of type `V`. A `HashMap` is the list of
-- its entries, and a `HashSet` that of its elements.
use catallaxy.Prelude.{Bool, Option, List, String, Map}
use catallaxy.Plan.{PlannedStep}
use catallaxy.Ssa.{Wave}
use catallaxy.Lint.{Diagnostic, Severity}
use catallaxy.Lint.Manifest.{K8sResource, display_id}

pub record CustomCheck : Type 0 where
  pub description : String
  pub severity : String
  pub scope : String
  pub format : String

pub record ImagePolicy : Type 0 where
  pub require_digest : Bool
  pub allowed_registries : List String

pub record ServedPort (J : Type 0) : Type 0 where
  pub port : J
  pub protocol : String

pub record FloeNetworkMetadata (J : Type 0) : Type 0 where
  pub namespaces : List String
  pub serves : Map (ServedPort J)

pub record NetworkPolicyMetadata (J : Type 0) : Type 0 where
  pub enabled : Bool
  pub floes : Map (FloeNetworkMetadata J)

pub record ProjectionMetadata : Type 0 where
  pub namespace : String
  pub source : String

pub record AssertionMetadata : Type 0 where
  pub assertion : Bool
  pub message : String

pub record ClusterMetadata (J : Type 0) : Type 0 where
  pub projections : Map ProjectionMetadata
  pub checks : Map CustomCheck
  pub assertions : List AssertionMetadata
  pub warnings : List String
  pub runtime_materialised : List String
  pub network_policies : NetworkPolicyMetadata J

pub record LabMetadata (J : Type 0) : Type 0 where
  pub name : String
  pub prefix : String
  pub cluster_names : List String
  pub lab_namespaces : Map (List String)
  pub clusters : Map (ClusterMetadata J)
  pub images : ImagePolicy
  pub assertions : List AssertionMetadata
  pub warnings : List String
  pub deployment_plan : List (PlannedStep J)

pub record CheckContext (V J : Type 0) : Type 0 where
  pub resources : List (K8sResource V)
  pub cluster : String
  pub wave_meta : Option (List (Wave J))
  pub prefix : String
  pub lab_namespaces : List String
  pub projection_names : List String
  pub cluster_meta : Option (ClusterMetadata J)
  pub images : ImagePolicy

-- A diagnostic about a resource, as each rule writes it.
abbrev pub resource_diag :
    {V : Type 0} → Severity → String → String → K8sResource V → String → Diagnostic
resource_diag severity check cluster r message = record {
  severity = severity;
  check = check;
  cluster = cluster;
  file = r.source_file;
  resource = display_id r;
  message = message;
}
