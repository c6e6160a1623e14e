-- ===== src/Inventory/Cleanup.antt =====
-- `plan_cleanup` of cli/src/domain/inventory.rs: what removing a lab means, and in which order.
use catallaxy.Prelude.{
  ◌≡◌, Bool, true, false, not, Option, none, some, String, ◌<>◌, List, [], ◌∷◌, ◌++◌, map, join,
  is_nil, All, ℕ, ◌≤◌, contains, if◌then◌else◌,
}
use mathlib.Core.List.{Memᴰ}
use catallaxy.Inventory.{ContainerFact, HostFacts, LabRecord, ClusterRecord, RunningLab}
use catallaxy.Inventory.Attributed.{is_of, is_claimed_by, claims}

pub data CleanupAction : Type 0 where
  destroy_k3d_cluster : String → CleanupAction
  remove_container : String → CleanupAction
  remove_network : String → CleanupAction
  clean_kubeconfig : String → CleanupAction
  report_only : (what remedy : String) → CleanupAction
  forget_state : String → CleanupAction

pub record CleanupPlan : Type 0 where
  pub lab : Option String
  pub actions : List CleanupAction

abbrev pub network_actions : Option String → List CleanupAction
network_actions none = []
network_actions (some network) = remove_network network ∷ []

-- The `match` on the record of the lab.
abbrev pub kubeconfig_actions : List String → Option LabRecord → List CleanupAction
kubeconfig_actions clusters (some r) = map (λ c. clean_kubeconfig c.cluster) r.clusters
kubeconfig_actions clusters none =
    if not (is_nil clusters)
    then report_only ("kubeconfig entries for " <> join ", " clusters) (
        "there is no record of this lab's cluster names, so the entries are left alone rather than "
        <> "matched by a guess. Remove them with `kubectl config delete-context <name>`")
      ∷ []
    else []

abbrev pub ca_report : String → CleanupAction
ca_report name =
    report_only ("the host CA at /usr/local/share/ca-certificates/catallaxy-" <> (name <> ".crt")) (
      "it is root-owned, so remove it yourself if this lab is finished with: "
      <> ("sudo rm -f /usr/local/share/ca-certificates/catallaxy-"
          <> (name <> ".crt && sudo update-ca-certificates")))

abbrev pub state_actions : Bool → String → List CleanupAction
state_actions keep_state name = if not keep_state then forget_state name ∷ [] else []

unfoldable pub plan_cleanup : RunningLab → Option LabRecord → Bool → CleanupPlan
unfolding join
plan_cleanup lab record_of keep_state = record {
  lab = some lab.name;
  actions =
      map destroy_k3d_cluster lab.k3d_clusters
      ++ (map remove_container lab.containers
          ++ (network_actions lab.network
              ++ (kubeconfig_actions lab.k3d_clusters record_of
                  ++ (ca_report lab.name ∷ state_actions keep_state lab.name))));
}

-- The stages of a removal: clusters, containers, the network, the kubeconfig and what is reported,
-- and the state.
abbrev pub stage : CleanupAction → ℕ
stage (destroy_k3d_cluster k) = 0
stage (remove_container c) = 1
stage (remove_network n) = 2
stage (clean_kubeconfig c) = 3
stage (report_only what remedy) = 3
stage (forget_state l) = 4

-- No stage comes after a later one.
abbrev pub Staged : List CleanupAction → Type 0
Staged [] = Unit
Staged (a ∷ rest) = All (λ b. stage a ≤ stage b) rest × Staged rest

module _ (facts : HostFacts) (name : String) (record_of : Option LabRecord)
    (keep_state : Bool) where
  -- The facts speak for an action on the lab of the name.
  pub data Permits : CleanupAction → Type 0 where
    claimed :
        (k : String)
        → is_claimed_by (claims facts) name k ≡ true
        → Memᴰ k facts.k3d_clusters
        → Permits (destroy_k3d_cluster k)
    attributed_to :
        (c : ContainerFact)
        → is_of name c ≡ true
        → Memᴰ c facts.containers
        → Permits (remove_container c.name)
    its_network : contains facts.networks name ≡ true → Permits (remove_network name)
    recorded_as :
        (r : LabRecord) (c : ClusterRecord)
        → record_of ≡ some r
        → Memᴰ c r.clusters
        → Permits (clean_kubeconfig c.cluster)
    told : (what remedy : String) → Permits (report_only what remedy)
    its_state : keep_state ≡ false → Permits (forget_state name)
