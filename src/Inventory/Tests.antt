-- ===== src/Inventory/Tests.antt =====
-- A host with two labs, one of them without labels, a shared router, an unclaimed cluster and a
-- record of a lab that is gone.
use catallaxy.Prelude.{◌≡◌, refl, sym, subst, true, false, some, [], ◌∷◌, String, List, Map, modify}
use catallaxy.Inventory.{
  ContainerFact, ClusterRecord, LabRecord, HostFacts, RunningLab, labelled, name_shaped, recorded,
  one, conflicting, unattributed_container, unknown_k3d_cluster, stale_record_only, correlate,
  gather, see_containers, see_container, see_clusters, see_cluster, see_records, see_record,
  claim_clusters, claim_names, attributed, attribute, lab_of, flake_of, lab_from_container_name,
  merge_origin,
}
use catallaxy.Inventory.Attributed.{Reports}
use mathlib.Core.List.{Memᴰ}
use catallaxy.Inventory.Cleanup.{plan_cleanup}
use catallaxy.Inventory.Staged.{Cleans, plan_cleanup-Cleans}
use catallaxy.Inventory.Report.{correlate-Reports}

abbrev container : String → Map String → ContainerFact
container name labels = record { name = name; running = true; labels = labels; published = [] }

abbrev node_record : String → String → List ClusterRecord → LabRecord
node_record lab flake clusters = record { lab = lab; flake = flake; clusters = clusters }

abbrev facts : HostFacts
facts = record {
  docker_reachable = true;
  containers =
      container "catallaxy-work-dns"
        (("catallaxy.io/lab", "work") ∷ ("catallaxy.io/flake", "/b") ∷ [])
      ∷ container "catallaxy-home-lab-ingress" []
      ∷ container "catallaxy-router" []
      ∷ container "postgres" []
      ∷ [];
  networks = "work" ∷ "home-lab" ∷ [];
  k3d_clusters = "home-a" ∷ "stray" ∷ [];
  records =
      node_record "work" "/a" []
      ∷ node_record "home-lab" "/c" (
          record {
            cluster = "a";
            provisioner = "k3d";
            k3d_cluster = some "home-a";
            kube_context = "k3d-home-a";
          }
          ∷ [])
      ∷ node_record "gone" "" []
      ∷ [];
}

-- The shared router is one that no lab can be told for, and the two flakes of `work` are told.
correlated : correlate facts ≡ record {
  docker_reachable = true;
  labs =
      record {
        name = "home-lab";
        origin = one "/c";
        containers = "catallaxy-home-lab-ingress" ∷ [];
        k3d_clusters = "home-a" ∷ [];
        network = some "home-lab";
        has_record = true;
        attributions = name_shaped ∷ recorded ∷ [];
      }
      ∷ record {
        name = "work";
        origin = conflicting ("/b" ∷ "/a" ∷ []);
        containers = "catallaxy-work-dns" ∷ [];
        k3d_clusters = [];
        network = some "work";
        has_record = true;
        attributions = labelled ∷ recorded ∷ [];
      }
      ∷ [];
  orphans =
      unattributed_container "catallaxy-router" []
      ∷ unknown_k3d_cluster "stray"
      ∷ stale_record_only "gone"
      ∷ [];
}
unfolding correlate gather see_containers see_container see_clusters see_cluster see_records
    see_record claim_clusters claim_names attributed attribute lab_of flake_of
    lab_from_container_name merge_origin modify
correlated = refl

correlate-Reports_example : Reports facts (correlate facts)
correlate-Reports_example = correlate-Reports facts

abbrev home_lab : RunningLab
home_lab = record {
  name = "home-lab";
  origin = one "/c";
  containers = "catallaxy-home-lab-ingress" ∷ [];
  k3d_clusters = "home-a" ∷ [];
  network = some "home-lab";
  has_record = true;
  attributions = name_shaped ∷ recorded ∷ [];
}

listed : Memᴰ home_lab (correlate facts).labs
listed = subst (λ i. Memᴰ home_lab i.labs) (sym correlated) (Memᴰ.head refl)

abbrev home_record : LabRecord
home_record = node_record "home-lab" "/c" (
    record {
      cluster = "a";
      provisioner = "k3d";
      k3d_cluster = some "home-a";
      kube_context = "k3d-home-a";
    }
    ∷ [])

plan_cleanup-Cleans_example :
    Cleans facts home_lab
      (some home_record)
      false
      (plan_cleanup home_lab (some home_record) false).actions
plan_cleanup-Cleans_example = plan_cleanup-Cleans facts home_lab (some home_record) false listed
