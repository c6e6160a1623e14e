-- ===== src/ClusterShape/Tests.antt =====
-- A k3d cluster whose declaration grew, and the theorems about the drift reported for it.
use catallaxy.Prelude.{
  ◌+◌, ◌<◌, ◌≡◌, ◌↔◌, refl, true, false, not, ◌&&◌, some, none, [], ◌∷◌, is_nil, sort, join,
}
use catallaxy.ClusterShape.{ClusterShape, ClusterSpec, K3dConfig, talos, shape_of}
use catallaxy.ClusterShape.Report.{
  is_clean, fixes, workers_to_add, is_convergeable_in_place, needing_recreate, collect_fixes,
  add_workers, replace_load_balancer, new_cluster,
}
use catallaxy.ClusterShape.Compare.{compare_shapes, common_fields, k3d_fields, show_list}
use catallaxy.ClusterShape.Fixes.{Answers, fixes-Answers, is_convergeable_in_place-eq}
use catallaxy.ClusterShape.Clean.{
  SameCommon, SameK3d, compare_shapes-is_clean, shape_of-is_clean, compare_shapes-joined,
}
use catallaxy.ClusterShape.Workers.{grown, workers_to_add-Converges}

abbrev built : ClusterShape
built = record {
  schema_version = 2;
  provisioner = "k3d";
  control_planes = 1;
  workers = 2;
  distribution = "k3s";
  version = "v1.31.0";
  pod_subnet = "10.42.0.0/16";
  service_subnet = "10.43.0.0/16";
  image = some "rancher/k3s:v1.31.0-k3s1";
  network = some "platform";
  no_traefik = true;
  no_service_lb = false;
  no_flannel = false;
  no_local_storage = false;
  ports = "8080:80@loadbalancer" ∷ [];
  extra_api_server_args = "--oidc-issuer-url=https://id.test" ∷ [];
  extra_volumes = "/host:/container" ∷ [];
  auto_deploy_manifests = "coredns-lab-dns" ∷ [];
}

abbrev larger : ClusterShape
larger = record built { workers = 5 }

abbrev moved : ClusterShape
moved = record built { workers = 5; ports = []; pod_subnet = "10.44.0.0/16" }

larger-fixes : fixes (compare_shapes larger built) ≡ add_workers 3 ∷ []
unfolding fixes collect_fixes sort compare_shapes common_fields k3d_fields show_list join
larger-fixes = refl

moved-fixes :
    fixes (compare_shapes moved built) ≡ add_workers 3 ∷ replace_load_balancer ∷ new_cluster ∷ []
unfolding fixes collect_fixes sort compare_shapes common_fields k3d_fields show_list join
moved-fixes = refl

fixes-Answers_example : Answers (compare_shapes moved built) (fixes (compare_shapes moved built))
fixes-Answers_example = fixes-Answers (compare_shapes moved built)

in_place_agrees : is_convergeable_in_place (compare_shapes moved built) ≡ (
    not (is_clean (compare_shapes moved built))
    && is_nil (needing_recreate (compare_shapes moved built)))
in_place_agrees = is_convergeable_in_place-eq (compare_shapes moved built)

compare_shapes-is_clean_example :
    (is_clean (compare_shapes larger built) ≡ true)
    ↔ (SameCommon larger built × (larger.provisioner ≡ "k3d" → SameK3d larger built))
compare_shapes-is_clean_example = compare_shapes-is_clean larger built

workers_to_add-Converges_example :
    (0 < 3) × (5 ≡ 2 + 3) × (is_clean (compare_shapes larger (grown larger built 3)) ≡ true)
unfolding workers_to_add fixes collect_fixes sort compare_shapes common_fields k3d_fields show_list
    join
workers_to_add-Converges_example = workers_to_add-Converges larger built 3 refl

abbrev no_block : K3dConfig
no_block = record {
  cluster_name = "lab-core";
  image = none;
  network = none;
  no_traefik = false;
  no_service_lb = false;
  no_flannel = false;
  no_local_storage = false;
  ports = [];
  extra_api_server_args = [];
  extra_volumes = [];
  auto_deploy_manifests = [];
}

abbrev talos_spec : ClusterSpec
talos_spec = record {
  provisioner = talos;
  kubernetes = record {
    distribution = "talos";
    version = "v1.31.0";
    control_planes = 1;
    workers = 2;
  };
  network = record { pod_subnet = "10.42.0.0/16"; service_subnet = "10.43.0.0/16" };
  k3d = no_block;
}

abbrev other_block : K3dConfig
other_block = record no_block { no_traefik = true; ports = "80:80" ∷ [] }

other_block_clean :
    is_clean
      (compare_shapes (shape_of (record talos_spec { k3d = other_block })) (shape_of talos_spec))
    ≡ true
other_block_clean = shape_of-is_clean talos_spec other_block (cc)

compare_shapes-joined_example :
    is_clean (
      compare_shapes
        (record built { extra_api_server_args = "--v=2" ∷ "--audit" ∷ [] })
        (record built { extra_api_server_args = "--v=2, --audit" ∷ [] }))
    ≡ true
compare_shapes-joined_example = compare_shapes-joined built "--v=2" "--audit"
