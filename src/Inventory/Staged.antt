-- ===== src/Inventory/Staged.antt =====
-- The order and the effect of `plan_cleanup` of cli/src/domain/inventory.rs.
use catallaxy.Prelude.{
  ◌≡◌, refl, Bool, true, false, Option, none, some, String, List, [], ◌∷◌, ◌++◌, map, All, All-Mem,
  arith, ℕ, ◌≤◌, contains,
}
use mathlib.Core.List.{Memᴰ}
use catallaxy.Inventory.{ContainerFact, HostFacts, LabRecord, ClusterRecord, RunningLab, correlate}
use catallaxy.Inventory.Attributed.{is_of, is_claimed_by, claims}
use catallaxy.Inventory.Report.{correlate-Reports}
use catallaxy.Inventory.Cleanup.{
  CleanupAction, destroy_k3d_cluster, remove_container, clean_kubeconfig, remove_network,
  forget_state, network_actions, kubeconfig_actions, ca_report, state_actions, plan_cleanup, stage,
  Staged, Permits,
}
use catallaxy.Inventory.Permitted.{permitted, destroyed, removed, disconnected, cleaned, forgotten}

-- A list of actions of one stage.
abbrev Is : ℕ → List CleanupAction → Type 0
Is n xs = All (λ a. stage a ≡ n) xs

-- A list of actions from a stage on.
abbrev From : ℕ → List CleanupAction → Type 0
From n xs = All (λ a. n ≤ stage a) xs

raised : (m n : ℕ) (xs : List CleanupAction) → m ≤ n → From n xs → From m xs
raised m n [] h f = tt
raised m n (x ∷ xs) h (f, fs) = (omega arith, raised m n xs h fs)

joined : (m n : ℕ) (xs ys : List CleanupAction) → m ≤ n → Is m xs → From n ys → From m (xs ++ ys)
joined m n [] ys h i f = raised m n ys h f
joined m n (x ∷ xs) ys h (i, is) f = (omega arith, joined m n xs ys h is f)

Staged-append :
    (n k : ℕ) (xs ys : List CleanupAction)
    → n ≤ k
    → Is n xs
    → From k ys
    → Staged ys
    → Staged (xs ++ ys)
Staged-append n k [] ys h i f s = s
Staged-append n k (x ∷ xs) ys h (i, is) f s = (
  raised (stage x) n (xs ++ ys) (omega arith) (joined n k xs ys h is f),
  Staged-append n k xs ys h is f s,
)

clusters_at : (ks : List String) → Is 0 (map destroy_k3d_cluster ks)
clusters_at [] = tt
clusters_at (k ∷ ks) = (refl, clusters_at ks)

containers_at : (cs : List String) → Is 1 (map remove_container cs)
containers_at [] = tt
containers_at (c ∷ cs) = (refl, containers_at cs)

network_at : (o : Option String) → Is 2 (network_actions o)
network_at none = tt
network_at (some n) = (refl, tt)

kubeconfigs_at : (cs : List ClusterRecord) → Is 3 (map (λ c. clean_kubeconfig c.cluster) cs)
kubeconfigs_at [] = tt
kubeconfigs_at (c ∷ cs) = (refl, kubeconfigs_at cs)

kubeconfig_at : (ks : List String) (o : Option LabRecord) → Is 3 (kubeconfig_actions ks o)
kubeconfig_at [] none = tt
kubeconfig_at (k ∷ ks) none = (refl, tt)
kubeconfig_at ks (some r) = kubeconfigs_at r.clusters

last_at : (k : Bool) (name : String) → From 3 (ca_report name ∷ state_actions k name)
last_at true name = (omega arith, tt)
last_at false name = (omega arith, (omega arith, tt))

last-Staged : (k : Bool) (name : String) → Staged (ca_report name ∷ state_actions k name)
last-Staged true name = (tt, tt)
last-Staged false name = ((omega arith, tt), (tt, tt))

module _ (lab : RunningLab) (record_of : Option LabRecord) (keep_state : Bool) where
  staged : Staged (plan_cleanup lab record_of keep_state).actions
  unfolding plan_cleanup
  staged =
      let ks = lab.k3d_clusters in
      let last = last_at keep_state lab.name in
      let config = kubeconfig_at ks record_of in
      let from_config = joined 3 3 _ _ (omega arith) config last in
      let from_network = joined 2 3 _ _ (omega arith) (network_at lab.network) from_config in
      let from_containers =
        joined 1 2 _ _ (omega arith) (containers_at lab.containers) from_network in
      Staged-append 0 1 _ _ (omega arith) (clusters_at ks) from_containers (
        Staged-append 1 2 _ _ (omega arith) (containers_at lab.containers) from_network (
          Staged-append 2 3 _ _ (omega arith) (network_at lab.network) from_config
            (Staged-append 3 3 _ _ (omega arith) config last (last-Staged keep_state lab.name))))

-- The actions do what the facts call for to remove a lab, in the order of the stages.
pub record Cleans (facts : HostFacts) (lab : RunningLab) (record_of : Option LabRecord)
    (keep_state : Bool) (actions : List CleanupAction) : Type 0 where
  pub permits : All (Permits facts lab.name record_of keep_state) actions
  pub stages : Staged actions
  pub clusters :
      (k : String)
      → is_claimed_by (claims facts) lab.name k ≡ true
      → Memᴰ k facts.k3d_clusters
      → Memᴰ (destroy_k3d_cluster k) actions
  pub containers :
      (c : ContainerFact)
      → is_of lab.name c ≡ true
      → Memᴰ c facts.containers
      → Memᴰ (remove_container c.name) actions
  pub network : contains facts.networks lab.name ≡ true → Memᴰ (remove_network lab.name) actions
  pub kubeconfig :
      (r : LabRecord) (c : ClusterRecord)
      → record_of ≡ some r
      → Memᴰ c r.clusters
      → Memᴰ (clean_kubeconfig c.cluster) actions
  pub state : keep_state ≡ false → Memᴰ (forget_state lab.name) actions

-- For a lab of the inventory, the plan destroys exactly the clusters that a record claims for it,
-- removes exactly the containers that are attributed to it and, if the machine has it, the network of
-- its name, cleans the kubeconfig of exactly the clusters in the given record, and forgets the state
-- of the lab exactly if it is not kept. It acts on nothing else. The network is removed after every
-- cluster and container, and the state is forgotten last.
pub plan_cleanup-Cleans :
    (facts : HostFacts) (lab : RunningLab) (record_of : Option LabRecord) (keep_state : Bool)
    → Memᴰ lab (correlate facts).labs
    → Cleans facts lab record_of keep_state (plan_cleanup lab record_of keep_state).actions
plan_cleanup-Cleans facts lab record_of keep_state listed =
    let describes = (correlate-Reports facts).sound lab listed in
    record {
      permits =
          All-Mem (Permits facts lab.name record_of keep_state)
            (plan_cleanup lab record_of keep_state).actions
            (permitted facts record_of keep_state lab describes);
      stages = staged lab record_of keep_state;
      clusters = destroyed facts record_of keep_state lab describes;
      containers = removed facts record_of keep_state lab describes;
      network = disconnected facts record_of keep_state lab describes;
      kubeconfig = cleaned facts record_of keep_state lab describes;
      state = forgotten facts record_of keep_state lab describes;
    }
