-- ===== src/ClusterShape/Compare.antt =====
-- The comparison of cli/src/domain/cluster_shape.rs: the shape that a lab declares, field by field,
-- with the one that the cluster was built from.
use catallaxy.Prelude.{
  ℕ, ◌-◌, Bool, true, false, not, Option, none, some, List, [], ◌∷◌, ◌++◌, String, ◌<>◌, ◌==◌, ltb,
  eqb, is_nil, join, decimal, if◌then◌else◌,
}
use catallaxy.ClusterShape.{ClusterShape}
use catallaxy.ClusterShape.Report.{
  FieldVerdict, matches, drifted, Fix, add_workers, add_servers, replace_node,
  replace_load_balancer, rebuild_only, new_cluster, Field,
}

-- `PartialEq + Display`
pub record Comparable (T : Type 0) : Type 0 where
  pub same : T → T → Bool
  pub shown : T → String

abbrev bool_eq : Bool → Bool → Bool
bool_eq true b = b
bool_eq false b = not b

abbrev pub texts : Comparable String
texts = record { same = λ s t. s == t; shown = λ s. s }

abbrev pub numbers : Comparable ℕ
numbers = record { same = λ m n. eqb m n; shown = λ n. decimal n }

abbrev pub flags : Comparable Bool
flags = record { same = λ a b. bool_eq a b; shown = λ a. if a then "true" else "false" }

module _ {T : Type 0} (c : Comparable T) where
  abbrev pub verdict_of : T → T → FieldVerdict
  verdict_of declared recorded =
      if c.same declared recorded then matches else drifted (c.shown declared) (c.shown recorded)

  abbrev pub compare_with : String → T → T → Fix → Field
  compare_with option declared recorded fix = record {
    option = option;
    verdict = verdict_of declared recorded;
    fix = some fix;
  }

  abbrev pub compare : String → T → T → Field
  compare option declared recorded = compare_with option declared recorded new_cluster

  abbrev pub compare_node : String → T → T → Field
  compare_node option declared recorded = compare_with option declared recorded replace_node

abbrev pub compare_counts : String → ℕ → ℕ → (ℕ → Fix) → Field
compare_counts option declared recorded grow = record {
  option = option;
  verdict = verdict_of numbers declared recorded;
  fix = some (if ltb recorded declared then grow (declared - recorded) else new_cluster);
}

abbrev pub show_opt : Option String → String
show_opt (some s) = s
show_opt none = "(unset)"

unfoldable pub show_list : List String → String
unfolding join
show_list v = if is_nil v then "(none)" else "[" <> (join ", " v <> "]")

module _ (declared recorded : ClusterShape) where
  unfoldable pub common_fields : List Field
  common_fields =
      compare texts "cluster.provisioner" declared.provisioner recorded.provisioner
      ∷ compare_counts "cluster.kubernetes.controlPlanes" declared.control_planes
          recorded.control_planes add_servers
      ∷ compare_counts "cluster.kubernetes.workers" declared.workers recorded.workers add_workers
      ∷ compare texts "cluster.kubernetes.distribution" declared.distribution recorded.distribution
      ∷ compare_with texts "cluster.kubernetes.version" declared.version recorded.version
          rebuild_only
      ∷ compare texts "cluster.network.podSubnet" declared.pod_subnet recorded.pod_subnet
      ∷ compare texts "cluster.network.serviceSubnet" declared.service_subnet
          recorded.service_subnet
      ∷ []

  unfoldable pub k3d_fields : List Field
  k3d_fields =
      compare_node texts "provisioner.k3d.image" (show_opt declared.image) (show_opt recorded.image)
      ∷ compare texts "provisioner.k3d.network" (show_opt declared.network)
          (show_opt recorded.network)
      ∷ compare_node flags "provisioner.k3d.noTraefik" declared.no_traefik recorded.no_traefik
      ∷ compare_node flags "provisioner.k3d.noServiceLB" declared.no_service_lb
          recorded.no_service_lb
      ∷ compare_node flags "provisioner.k3d.noFlannel" declared.no_flannel recorded.no_flannel
      ∷ compare_node flags "provisioner.k3d.noLocalStorage" declared.no_local_storage
          recorded.no_local_storage
      ∷ compare_with texts "provisioner.k3d.ports" (show_list declared.ports)
          (show_list recorded.ports) replace_load_balancer
      ∷ compare_node texts "provisioner.k3d.extraApiServerArgs"
          (show_list declared.extra_api_server_args) (show_list recorded.extra_api_server_args)
      ∷ compare_node texts "provisioner.k3d.extraVolumes" (show_list declared.extra_volumes)
          (show_list recorded.extra_volumes)
      ∷ compare_node texts "provisioner.k3d.autoDeployManifests"
          (show_list declared.auto_deploy_manifests) (show_list recorded.auto_deploy_manifests)
      ∷ []

  unfoldable pub compare_shapes : List Field
  unfolding common_fields k3d_fields
  compare_shapes =
      if declared.provisioner == "k3d" then common_fields ++ k3d_fields else common_fields
