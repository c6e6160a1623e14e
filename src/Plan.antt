-- ===== src/Plan.antt =====
-- cli/src/domain/plan.rs: a planned step, what its policy says, and which clusters it names.
pub mod Params
pub mod Policy
pub mod Samples
use catallaxy.Prelude.{
  ℕ, ◌+◌, Bool, true, false, Option, none, some, List, [], ◌∷◌, String, ◌==◌, is_empty,
  if◌then◌else◌,
}
use catallaxy.StepKind
use catallaxy.StepKind.{
  StepKind, Direction, deploy, teardown, Idempotency, idempotent, one_shot, destructive, tag,
}
use Params.{
  StepParams, setup_services, docker_network_create, cert_generate, trust_bundle,
  host_trust_install, dns_setup, dns_teardown, colima_network_route, registry_setup, warm_cache,
  create_cluster, ensure_secrets, deploy_manifests, wait_for_resources, sync_kubeconfig, pivot,
  publish_images, publish_manifests, apply_root_application, bootstrap_forgejo_repos,
  bootstrap_argocd_kubectl_ssa, bootstrap_argocd_helm, verify_argocd_reachable, run_script,
  infra_plan, infra_apply, infra_destroy, destroy_cluster, reconcile_managed_resource,
  delete_managed_resource, wait_for_cluster_gone, release_cluster_cloud_resources, remove_network,
  remove_services,
}

unfoldable pub of_teardown_flag : Bool → Direction
of_teardown_flag true = teardown
of_teardown_flag false = deploy

unfoldable pub direction_label : Direction → String
direction_label deploy = "deployment"
direction_label teardown = "teardown"

-- `Idempotency::attempts`
unfoldable pub attempts_of : Idempotency → ℕ
attempts_of idempotent = 3
attempts_of one_shot = 1
attempts_of destructive = 1

pub data OnFailure : Type 0 where
  fatal continue : OnFailure

pub record StepPolicy : Type 0 where
  pub retry : Idempotency
  pub on_failure : OnFailure
  pub interactive : Bool
  pub skip_if_cluster_reachable : Option String

pub record PlannedStep (V : Type 0) : Type 0 where
  pub name : String
  pub origin : String
  pub description : String
  pub cluster : Option String
  pub policy : StepPolicy
  pub params : StepParams V

-- The error of `refuse_wrong_direction`: the direction, the step's number from 1 and its tag.
pub record WrongDirection : Type 0 where
  pub direction : Direction
  pub number : ℕ
  pub kind_tag : String

module _ {V : Type 0} where
  unfoldable pub kind : StepParams V → StepKind
  kind setup_services = StepKind.setup_services
  kind (docker_network_create p) = StepKind.docker_network_create
  kind (cert_generate p) = StepKind.cert_generate
  kind trust_bundle = StepKind.trust_bundle
  kind host_trust_install = StepKind.host_trust_install
  kind (dns_setup p) = StepKind.dns_setup
  kind (dns_teardown p) = StepKind.dns_teardown
  kind (colima_network_route p) = StepKind.colima_network_route
  kind (registry_setup p) = StepKind.registry_setup
  kind warm_cache = StepKind.warm_cache
  kind (create_cluster p) = StepKind.create_cluster
  kind (ensure_secrets p) = StepKind.ensure_secrets
  kind (deploy_manifests p) = StepKind.deploy_manifests
  kind (wait_for_resources p) = StepKind.wait_for_resources
  kind (sync_kubeconfig p) = StepKind.sync_kubeconfig
  kind (pivot p) = StepKind.pivot
  kind (publish_images p) = StepKind.publish_images
  kind publish_manifests = StepKind.publish_manifests
  kind (apply_root_application p) = StepKind.apply_root_application
  kind (bootstrap_forgejo_repos p) = StepKind.bootstrap_forgejo_repos
  kind (bootstrap_argocd_kubectl_ssa p) = StepKind.bootstrap_argocd_kubectl_ssa
  kind (bootstrap_argocd_helm p) = StepKind.bootstrap_argocd_helm
  kind (verify_argocd_reachable p) = StepKind.verify_argocd_reachable
  kind (run_script p) = StepKind.run_script
  kind (infra_plan p) = StepKind.infra_plan
  kind (infra_apply p) = StepKind.infra_apply
  kind (infra_destroy p) = StepKind.infra_destroy
  kind (destroy_cluster p) = StepKind.destroy_cluster
  kind (reconcile_managed_resource p) = StepKind.reconcile_managed_resource
  kind (delete_managed_resource p) = StepKind.delete_managed_resource
  kind (wait_for_cluster_gone p) = StepKind.wait_for_cluster_gone
  kind (release_cluster_cloud_resources p) = StepKind.release_cluster_cloud_resources
  kind remove_network = StepKind.remove_network
  kind remove_services = StepKind.remove_services

  -- The fields that name a cluster, each with the name that it gives.
  unfoldable pub cluster_refs : StepParams V → List (String × String)
  cluster_refs setup_services = []
  cluster_refs (docker_network_create p) = []
  cluster_refs (cert_generate p) = []
  cluster_refs trust_bundle = []
  cluster_refs host_trust_install = []
  cluster_refs (dns_setup p) = []
  cluster_refs (dns_teardown p) = []
  cluster_refs (colima_network_route p) = []
  cluster_refs (registry_setup p) = []
  cluster_refs warm_cache = []
  cluster_refs (create_cluster p) = ("name", p.name) ∷ []
  cluster_refs (ensure_secrets p) = []
  cluster_refs (deploy_manifests p) = ("target", p.target) ∷ []
  cluster_refs (wait_for_resources p) = ("target", p.target) ∷ []
  cluster_refs (sync_kubeconfig p) = ("target", p.target) ∷ []
  cluster_refs (pivot p) = ("cluster", p.cluster) ∷ []
  cluster_refs (publish_images p) = ("sourceCluster", p.source_cluster) ∷ []
  cluster_refs publish_manifests = []
  cluster_refs (apply_root_application p) = ("target", p.target) ∷ []
  cluster_refs (bootstrap_forgejo_repos p) = ("target", p.target) ∷ []
  cluster_refs (bootstrap_argocd_kubectl_ssa p) = ("target", p.target) ∷ []
  cluster_refs (bootstrap_argocd_helm p) = ("target", p.target) ∷ []
  cluster_refs (verify_argocd_reachable p) = ("target", p.target) ∷ []
  cluster_refs (run_script p) = []
  cluster_refs (infra_plan p) = ("stack", p.stack) ∷ []
  cluster_refs (infra_apply p) = ("stack", p.stack) ∷ []
  cluster_refs (infra_destroy p) = ("stack", p.stack) ∷ []
  cluster_refs (destroy_cluster p) = ("name", p.name) ∷ []
  cluster_refs (reconcile_managed_resource p) = ("target", p.target) ∷ []
  cluster_refs (delete_managed_resource p) = ("target", p.target) ∷ []
  cluster_refs (wait_for_cluster_gone p) = elim p.target [ none ↦ [] | some t ↦ ("target", t) ∷ [] ]
  cluster_refs (release_cluster_cloud_resources p) = ("target", p.target) ∷ []
  cluster_refs remove_network = []
  cluster_refs remove_services = []

module _ {V : Type 0} (step : PlannedStep V) where
  abbrev pub step_kind : StepKind
  step_kind = kind step.params

  abbrev pub type_tag : String
  type_tag = tag step_kind

  abbrev pub runs_in : Direction → Bool
  runs_in d = StepKind.runs_in step_kind d

  -- `none` is success.
  unfoldable pub refuse_wrong_direction : Direction → ℕ → Option WrongDirection
  refuse_wrong_direction d index =
      if runs_in d
      then none
      else some (record { direction = d; number = index + 1; kind_tag = type_tag })

  abbrev pub dry_run_safe : Bool
  dry_run_safe = StepKind.dry_run_safe step_kind

  unfoldable pub attempts : ℕ
  unfolding attempts_of
  attempts = if step.policy.interactive then 1 else attempts_of step.policy.retry

  unfoldable pub continues_on_failure : Bool
  continues_on_failure = elim step.policy.on_failure [ continue ↦ true | fatal ↦ false ]

  unfoldable pub label : String
  label = if is_empty step.description then step.name else step.description
