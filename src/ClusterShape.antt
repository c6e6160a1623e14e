-- ===== src/ClusterShape.antt =====
-- cli/src/domain/cluster_shape.rs: what a cluster was built to be, and what would bring it back.
-- The shape is in the file, and the comparison and the report are in Compare and Report.
pub mod Report
pub mod Compare
pub mod FixLists
pub mod Fixes
pub mod Clean
pub mod Workers
mod Tests
use catallaxy.Prelude.{
  ℕ, ◌-◌, Bool, true, false, Option, none, some, List, [], ◌∷◌, String, ◌<>◌, map,
}

abbrev pub schema_version : ℕ
schema_version = 2

pub record ClusterShape : Type 0 where
  pub schema_version : ℕ
  pub provisioner : String
  pub control_planes : ℕ
  pub workers : ℕ
  pub distribution : String
  pub version : String
  pub pod_subnet : String
  pub service_subnet : String
  pub image : Option String
  pub network : Option String
  pub no_traefik : Bool
  pub no_service_lb : Bool
  pub no_flannel : Bool
  pub no_local_storage : Bool
  pub ports : List String
  pub extra_api_server_args : List String
  pub extra_volumes : List String
  pub auto_deploy_manifests : List String

-- What of a cluster's specification (domain/cluster.rs) its shape is made of.
pub data ProvisionerKind : Type 0 where
  k3d talos crossplane external : ProvisionerKind

pub record ExtraVolume : Type 0 where
  pub host_path : String
  pub container_path : String

pub record AutoDeployManifest : Type 0 where
  pub name : String
  pub path : String

pub record K3dConfig : Type 0 where
  pub cluster_name : String
  pub image : Option String
  pub network : Option String
  pub no_traefik : Bool
  pub no_service_lb : Bool
  pub no_flannel : Bool
  pub no_local_storage : Bool
  pub ports : List String
  pub extra_api_server_args : List String
  pub extra_volumes : List ExtraVolume
  pub auto_deploy_manifests : List AutoDeployManifest

pub record KubernetesSpec : Type 0 where
  pub distribution : String
  pub version : String
  pub control_planes : ℕ
  pub workers : ℕ

pub record ClusterNetwork : Type 0 where
  pub pod_subnet : String
  pub service_subnet : String

-- The fields that `ClusterShape::of` reads; `k3d` is `provisioner_config.k3d`.
pub record ClusterSpec : Type 0 where
  pub provisioner : ProvisionerKind
  pub kubernetes : KubernetesSpec
  pub network : ClusterNetwork
  pub k3d : K3dConfig

-- `format!("{:?}", provisioner).to_lowercase()`
abbrev pub provisioner_name : ProvisionerKind → String
provisioner_name k3d = "k3d"
provisioner_name talos = "talos"
provisioner_name crossplane = "crossplane"
provisioner_name external = "external"

unfoldable pub with_k3d : ClusterShape → K3dConfig → ClusterShape
with_k3d shape k = record shape {
  image = k.image;
  network = k.network;
  no_traefik = k.no_traefik;
  no_service_lb = k.no_service_lb;
  no_flannel = k.no_flannel;
  no_local_storage = k.no_local_storage;
  ports = k.ports;
  extra_api_server_args = k.extra_api_server_args;
  extra_volumes = map (λ v. v.host_path <> (":" <> v.container_path)) k.extra_volumes;
  auto_deploy_manifests = map (λ m. m.name) k.auto_deploy_manifests;
}

unfoldable pub shape_of : ClusterSpec → ClusterShape
unfolding with_k3d
shape_of spec =
    let shape : ClusterShape = record {
      schema_version = schema_version;
      provisioner = provisioner_name spec.provisioner;
      control_planes = spec.kubernetes.control_planes;
      workers = spec.kubernetes.workers;
      distribution = spec.kubernetes.distribution;
      version = spec.kubernetes.version;
      pod_subnet = spec.network.pod_subnet;
      service_subnet = spec.network.service_subnet;
      image = none;
      network = none;
      no_traefik = false;
      no_service_lb = false;
      no_flannel = false;
      no_local_storage = false;
      ports = [];
      extra_api_server_args = [];
      extra_volumes = [];
      auto_deploy_manifests = [];
    } in
    elim spec.provisioner [ k3d ↦ with_k3d shape spec.k3d | _ ↦ shape ]
