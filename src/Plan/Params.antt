-- ===== src/Plan/Params.antt =====
-- cli/src/domain/plan.rs: the parameters of each kind of step. The JSON values that a few steps
-- carry are those of a library, and their type is the parameter `V`.
use catallaxy.Prelude.{ℕ, Bool, Option, List, String}

pub record ScriptEnv : Type 0 where
  pub name : String
  pub secret : String
  pub key : String

pub record DockerNetworkCreateParams : Type 0 where
  pub name : String
  pub subnet : String
  pub gateway : String

pub record CertGenerateParams : Type 0 where
  pub zone : String

pub record DnsSetupParams : Type 0 where
  pub host : String
  pub port : ℕ
  pub zone : String

pub record DnsTeardownParams : Type 0 where
  pub zone : String

pub record ColimaNetworkRouteParams : Type 0 where
  pub subnet : String
  pub profile : String

pub record RegistrySetupParams : Type 0 where
  pub port : ℕ
  pub upstreams : List String
  pub zone : String

pub record CreateClusterParams : Type 0 where
  pub name : String
  pub provisioner : String

pub record EnsureSecretsParams : Type 0 where
  pub stores : List String

pub record DeployManifestsParams : Type 0 where
  pub target : String
  pub bootstrap : Bool
  pub kube_context : Option String

pub record WaitForResourcesParams (V : Type 0) : Type 0 where
  pub target : String
  pub resources : List V
  pub wait_timeout_seconds : Option ℕ
  pub kube_context : Option String

pub record SyncKubeconfigParams : Type 0 where
  pub target : String
  pub clusters : List String
  pub kube_context : Option String

pub record PivotParams : Type 0 where
  pub cluster : String
  pub bootstrap_context : String
  pub target_context : String
  pub provisioner : String

pub record PublishImagesParams (V : Type 0) : Type 0 where
  pub source_cluster : String
  pub images : List V

pub record ApplyRootApplicationParams : Type 0 where
  pub target : String
  pub namespace : Option String
  pub manifest_path : Option String
  pub kube_context : Option String

pub record BootstrapForgejoReposParams : Type 0 where
  pub target : String
  pub namespace : Option String
  pub job_label_selector : Option String
  pub kube_context : Option String

pub record BootstrapArgocdKubectlSsaParams : Type 0 where
  pub target : String
  pub manifest_root : String
  pub kube_context : Option String
  pub field_manager : Option String
  pub namespace : Option String
  pub wait_timeout_seconds : Option ℕ

pub record BootstrapArgocdHelmParams : Type 0 where
  pub target : String
  pub values_path : String
  pub chart_ref : String
  pub release_name : String
  pub kube_context : Option String
  pub namespace : Option String
  pub wait_timeout_seconds : Option ℕ

pub record VerifyArgocdReachableParams : Type 0 where
  pub target : String
  pub kube_context : Option String
  pub namespace : Option String

pub record RunScriptParams : Type 0 where
  pub bin : String
  pub env : List ScriptEnv
  pub kube_context : Option String

pub record InfraParams : Type 0 where
  pub stack : String
  pub working_dir : Option String

pub record DestroyClusterParams : Type 0 where
  pub name : String
  pub provisioner : String
  pub skip_if_missing : Option Bool

pub record ReconcileManagedResourceParams : Type 0 where
  pub target : String
  pub resource_kind : String
  pub resource_name : String
  pub kube_context : Option String
  pub external_name_discovery_bin : Option String

pub record DeleteManagedResourceParams : Type 0 where
  pub target : String
  pub resource_kind : String
  pub resource_name : String
  pub wait : Option Bool
  pub wait_timeout_seconds : Option ℕ
  pub kube_context : Option String
  pub external_name_discovery_bin : Option String

pub record WaitForClusterGoneParams : Type 0 where
  pub target : Option String
  pub kube_context : Option String
  pub resource_kind : Option String
  pub resource_name : Option String
  pub wait_timeout_seconds : Option ℕ

pub record ReleaseClusterCloudResourcesParams : Type 0 where
  pub target : String
  pub kube_context : Option String
  pub wait_timeout_seconds : Option ℕ

-- A variant whose parameters have no field takes no argument.
pub data StepParams (V : Type 0) : Type 0 where
  setup_services : StepParams V
  docker_network_create : DockerNetworkCreateParams → StepParams V
  cert_generate : CertGenerateParams → StepParams V
  trust_bundle : StepParams V
  host_trust_install : StepParams V
  dns_setup : DnsSetupParams → StepParams V
  dns_teardown : DnsTeardownParams → StepParams V
  colima_network_route : ColimaNetworkRouteParams → StepParams V
  registry_setup : RegistrySetupParams → StepParams V
  warm_cache : StepParams V
  create_cluster : CreateClusterParams → StepParams V
  ensure_secrets : EnsureSecretsParams → StepParams V
  deploy_manifests : DeployManifestsParams → StepParams V
  wait_for_resources : WaitForResourcesParams V → StepParams V
  sync_kubeconfig : SyncKubeconfigParams → StepParams V
  pivot : PivotParams → StepParams V
  publish_images : PublishImagesParams V → StepParams V
  publish_manifests : StepParams V
  apply_root_application : ApplyRootApplicationParams → StepParams V
  bootstrap_forgejo_repos : BootstrapForgejoReposParams → StepParams V
  bootstrap_argocd_kubectl_ssa : BootstrapArgocdKubectlSsaParams → StepParams V
  bootstrap_argocd_helm : BootstrapArgocdHelmParams → StepParams V
  verify_argocd_reachable : VerifyArgocdReachableParams → StepParams V
  run_script : RunScriptParams → StepParams V
  infra_plan : InfraParams → StepParams V
  infra_apply : InfraParams → StepParams V
  infra_destroy : InfraParams → StepParams V
  destroy_cluster : DestroyClusterParams → StepParams V
  reconcile_managed_resource : ReconcileManagedResourceParams → StepParams V
  delete_managed_resource : DeleteManagedResourceParams → StepParams V
  wait_for_cluster_gone : WaitForClusterGoneParams → StepParams V
  release_cluster_cloud_resources : ReleaseClusterCloudResourcesParams → StepParams V
  remove_network : StepParams V
  remove_services : StepParams V
