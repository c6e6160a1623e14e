-- ===== src/StepKind.antt =====
-- cli/src/domain/step_kind.rs: the kinds of plan step, and the tables of their properties.
-- `Direction` and `Idempotency` stand in cli/src/domain/plan.rs.
pub mod Tags
pub mod Policy
mod Tests
use catallaxy.Prelude.{Bool, true, false, List, [], ◌∷◌, Option, String, ◌==◌, find}

pub data Direction : Type 0 where
  deploy teardown : Direction

pub data Idempotency : Type 0 where
  idempotent one_shot destructive : Idempotency

pub data StepKind : Type 0 where
  setup_services : StepKind
  docker_network_create : StepKind
  cert_generate : StepKind
  trust_bundle : StepKind
  host_trust_install : StepKind
  dns_setup : StepKind
  dns_teardown : StepKind
  colima_network_route : StepKind
  registry_setup : StepKind
  warm_cache : StepKind
  create_cluster : StepKind
  ensure_secrets : StepKind
  deploy_manifests : StepKind
  wait_for_resources : StepKind
  sync_kubeconfig : StepKind
  pivot : StepKind
  publish_images : StepKind
  publish_manifests : StepKind
  apply_root_application : StepKind
  bootstrap_forgejo_repos : StepKind
  bootstrap_argocd_kubectl_ssa : StepKind
  bootstrap_argocd_helm : StepKind
  verify_argocd_reachable : StepKind
  run_script : StepKind
  infra_plan : StepKind
  infra_apply : StepKind
  infra_destroy : StepKind
  destroy_cluster : StepKind
  reconcile_managed_resource : StepKind
  delete_managed_resource : StepKind
  wait_for_cluster_gone : StepKind
  release_cluster_cloud_resources : StepKind
  remove_network : StepKind
  remove_services : StepKind

-- `StepKind::ALL`, in the order of declaration.
abbrev pub all_kinds : List StepKind
all_kinds =
    setup_services ∷ docker_network_create ∷ cert_generate ∷ trust_bundle ∷ host_trust_install
    ∷ dns_setup ∷ dns_teardown ∷ colima_network_route ∷ registry_setup ∷ warm_cache ∷ create_cluster
    ∷ ensure_secrets ∷ deploy_manifests ∷ wait_for_resources ∷ sync_kubeconfig ∷ pivot
    ∷ publish_images ∷ publish_manifests ∷ apply_root_application ∷ bootstrap_forgejo_repos
    ∷ bootstrap_argocd_kubectl_ssa ∷ bootstrap_argocd_helm ∷ verify_argocd_reachable ∷ run_script
    ∷ infra_plan ∷ infra_apply ∷ infra_destroy ∷ destroy_cluster ∷ reconcile_managed_resource
    ∷ delete_managed_resource ∷ wait_for_cluster_gone ∷ release_cluster_cloud_resources
    ∷ remove_network ∷ remove_services ∷ []

unfoldable pub tag : StepKind → String
tag setup_services = "setup-services"
tag docker_network_create = "docker-network-create"
tag cert_generate = "cert-generate"
tag trust_bundle = "trust-bundle"
tag host_trust_install = "host-trust-install"
tag dns_setup = "dns-setup"
tag dns_teardown = "dns-teardown"
tag colima_network_route = "colima-network-route"
tag registry_setup = "registry-setup"
tag warm_cache = "warm-cache"
tag create_cluster = "create-cluster"
tag ensure_secrets = "ensure-secrets"
tag deploy_manifests = "deploy-manifests"
tag wait_for_resources = "wait-for-resources"
tag sync_kubeconfig = "sync-kubeconfig"
tag pivot = "pivot"
tag publish_images = "publish-images"
tag publish_manifests = "publish-manifests"
tag apply_root_application = "apply-root-application"
tag bootstrap_forgejo_repos = "bootstrap-forgejo-repos"
tag bootstrap_argocd_kubectl_ssa = "bootstrap-argocd-kubectl-ssa"
tag bootstrap_argocd_helm = "bootstrap-argocd-helm"
tag verify_argocd_reachable = "verify-argocd-reachable"
tag run_script = "run-script"
tag infra_plan = "infra-plan"
tag infra_apply = "infra-apply"
tag infra_destroy = "infra-destroy"
tag destroy_cluster = "destroy-cluster"
tag reconcile_managed_resource = "reconcile-managed-resource"
tag delete_managed_resource = "delete-managed-resource"
tag wait_for_cluster_gone = "wait-for-cluster-gone"
tag release_cluster_cloud_resources = "release-cluster-cloud-resources"
tag remove_network = "remove-network"
tag remove_services = "remove-services"

-- The first kind with the tag.
unfoldable pub from_tag : String → Option StepKind
unfolding tag
from_tag t = find (λ k. tag k == t) all_kinds

unfoldable pub retry : StepKind → Idempotency
retry setup_services = idempotent
retry docker_network_create = idempotent
retry cert_generate = idempotent
retry trust_bundle = idempotent
retry host_trust_install = idempotent
retry dns_setup = idempotent
retry dns_teardown = idempotent
retry colima_network_route = idempotent
retry registry_setup = idempotent
retry warm_cache = idempotent
retry create_cluster = one_shot
retry ensure_secrets = idempotent
retry deploy_manifests = idempotent
retry wait_for_resources = idempotent
retry sync_kubeconfig = idempotent
retry pivot = one_shot
retry publish_images = idempotent
retry publish_manifests = idempotent
retry apply_root_application = idempotent
retry bootstrap_forgejo_repos = idempotent
retry bootstrap_argocd_kubectl_ssa = idempotent
retry bootstrap_argocd_helm = idempotent
retry verify_argocd_reachable = idempotent
retry run_script = idempotent
retry infra_plan = idempotent
retry infra_apply = idempotent
retry infra_destroy = destructive
retry destroy_cluster = destructive
retry reconcile_managed_resource = idempotent
retry delete_managed_resource = destructive
retry wait_for_cluster_gone = idempotent
retry release_cluster_cloud_resources = idempotent
retry remove_network = destructive
retry remove_services = destructive

-- Whether the kind runs in a deployment, and whether in a teardown.
unfoldable pub directions : StepKind → Bool × Bool
directions setup_services = (true, false)
directions docker_network_create = (true, false)
directions cert_generate = (true, false)
directions trust_bundle = (true, false)
directions host_trust_install = (true, false)
directions dns_setup = (true, false)
directions dns_teardown = (false, true)
directions colima_network_route = (true, false)
directions registry_setup = (true, false)
directions warm_cache = (true, false)
directions create_cluster = (true, false)
directions ensure_secrets = (true, false)
directions deploy_manifests = (true, false)
directions wait_for_resources = (true, false)
directions sync_kubeconfig = (true, false)
directions pivot = (true, false)
directions publish_images = (true, false)
directions publish_manifests = (true, false)
directions apply_root_application = (true, false)
directions bootstrap_forgejo_repos = (true, false)
directions bootstrap_argocd_kubectl_ssa = (true, false)
directions bootstrap_argocd_helm = (true, false)
directions verify_argocd_reachable = (true, false)
directions run_script = (true, true)
directions infra_plan = (true, false)
directions infra_apply = (true, false)
directions infra_destroy = (false, true)
directions destroy_cluster = (true, true)
directions reconcile_managed_resource = (false, true)
directions delete_managed_resource = (false, true)
directions wait_for_cluster_gone = (false, true)
directions release_cluster_cloud_resources = (false, true)
directions remove_network = (false, true)
directions remove_services = (false, true)

unfoldable pub runs_in : StepKind → Direction → Bool
unfolding directions
runs_in k deploy = (directions k).0
runs_in k teardown = (directions k).1

unfoldable pub dry_run_safe : StepKind → Bool
dry_run_safe setup_services = false
dry_run_safe docker_network_create = false
dry_run_safe cert_generate = false
dry_run_safe trust_bundle = false
dry_run_safe host_trust_install = false
dry_run_safe dns_setup = false
dry_run_safe dns_teardown = false
dry_run_safe colima_network_route = false
dry_run_safe registry_setup = false
dry_run_safe warm_cache = false
dry_run_safe create_cluster = false
dry_run_safe ensure_secrets = false
dry_run_safe deploy_manifests = false
dry_run_safe wait_for_resources = true
dry_run_safe sync_kubeconfig = false
dry_run_safe pivot = false
dry_run_safe publish_images = false
dry_run_safe publish_manifests = false
dry_run_safe apply_root_application = false
dry_run_safe bootstrap_forgejo_repos = false
dry_run_safe bootstrap_argocd_kubectl_ssa = false
dry_run_safe bootstrap_argocd_helm = false
dry_run_safe verify_argocd_reachable = true
dry_run_safe run_script = false
dry_run_safe infra_plan = true
dry_run_safe infra_apply = false
dry_run_safe infra_destroy = false
dry_run_safe destroy_cluster = false
dry_run_safe reconcile_managed_resource = false
dry_run_safe delete_managed_resource = false
dry_run_safe wait_for_cluster_gone = true
dry_run_safe release_cluster_cloud_resources = false
dry_run_safe remove_network = false
dry_run_safe remove_services = false
