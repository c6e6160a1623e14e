-- ===== src/Inventory/Permitted.antt =====
-- What `plan_cleanup` of cli/src/domain/inventory.rs does to a lab that the inventory lists, the facts
-- speak for.
use catallaxy.Prelude.{
  ◌≡◌, refl, sym, ap, ◌∙◌, subst, Bool, true, false, Option, none, some, String, List, [], ◌∷◌, map,
  inl, inr, Mem-append, Mem-map, Mem-keep, keep, contains, if◌then◌else◌,
}
use mathlib.Core.List.{Memᴰ}
use catallaxy.Prelude.{some-injective, map-Mem, Mem-front, Mem-back, keep-Mem}
use catallaxy.Inventory.{ContainerFact, HostFacts, LabRecord, ClusterRecord, RunningLab}
use catallaxy.Inventory.Attributed.{is_of, is_claimed_by, claims, Describes}
use catallaxy.Inventory.Cleanup.{
  CleanupAction, destroy_k3d_cluster, remove_container, remove_network, clean_kubeconfig,
  forget_state, network_actions, kubeconfig_actions, state_actions, plan_cleanup, Permits, claimed,
  attributed_to, its_network, recorded_as, told, its_state,
}

network_named :
    (b : Bool) (l n : String)
    → ◌≡◌ {A = Option String} (some n) (if b then some l else none)
    → (b ≡ true) × (l ≡ n)
network_named true l n h = (refl, cc)
network_named false l n h = absurd cc

module _ (facts : HostFacts) (record_of : Option LabRecord) (keep_state : Bool) (lab : RunningLab)
    (describes : Describes facts lab) where
  abbrev Permitted : CleanupAction → Type 0
  Permitted a = Permits facts lab.name record_of keep_state a

  clusters-Permitted :
      (a : CleanupAction) → Memᴰ a (map destroy_k3d_cluster lab.k3d_clusters) → Permitted a
  clusters-Permitted a m =
      let (k, n, e) = Mem-map destroy_k3d_cluster lab.k3d_clusters a m in
      let n' = subst (Memᴰ k) (describes.k3d_clusters) n in
      let (there, h) = Mem-keep (is_claimed_by (claims facts) lab.name) facts.k3d_clusters k n' in
      subst Permitted e (claimed k h there)

  containers-Permitted :
      (a : CleanupAction) → Memᴰ a (map remove_container lab.containers) → Permitted a
  containers-Permitted a m =
      let (c, n, e) = Mem-map remove_container lab.containers a m in
      let n' = subst (Memᴰ c) (describes.containers) n in
      let (fact, k, e') = Mem-map (λ c. c.name) (keep (is_of lab.name) facts.containers) c n' in
      let (there, h) = Mem-keep (is_of lab.name) facts.containers fact k in
      subst Permitted (ap remove_container e' ∙ e) (attributed_to fact h there)

  network-Permitted :
      (o : Option String) (a : CleanupAction)
      → lab.network ≡ o
      → Memᴰ a (network_actions o)
      → Permitted a
  network-Permitted none a e m = elim m [ ]
  network-Permitted (some n) a e (Memᴰ.head h) = subst Permitted (sym h) (
      let (there, named) =
        network_named (contains facts.networks lab.name) lab.name n (sym e ∙ describes.network) in
      subst (λ t. Permitted (remove_network t)) named (its_network there))
  network-Permitted (some n) a e (Memᴰ.tail m) = elim m [ ]

  kubeconfig-Permitted :
      (clusters : List String) (o : Option LabRecord) (a : CleanupAction)
      → record_of ≡ o
      → Memᴰ a (kubeconfig_actions clusters o)
      → Permitted a
  kubeconfig-Permitted clusters (some r) a e m =
      let (c, n, h) = Mem-map (λ c. clean_kubeconfig c.cluster) r.clusters a m in
      subst Permitted h (recorded_as r c e n)
  kubeconfig-Permitted [] none a e m = elim m [ ]
  kubeconfig-Permitted (k ∷ ks) none a e (Memᴰ.head h) = subst Permitted (sym h) (told _ _)
  kubeconfig-Permitted (k ∷ ks) none a e (Memᴰ.tail m) = elim m [ ]

  state-Permitted :
      (k : Bool) (a : CleanupAction)
      → keep_state ≡ k
      → Memᴰ a (state_actions k lab.name)
      → Permitted a
  state-Permitted true a e m = elim m [ ]
  state-Permitted false a e (Memᴰ.head h) = subst Permitted (sym h) (its_state e)
  state-Permitted false a e (Memᴰ.tail m) = elim m [ ]

  pub permitted :
      (a : CleanupAction) → Memᴰ a (plan_cleanup lab record_of keep_state).actions → Permitted a
  unfolding plan_cleanup
  permitted a m = elim (Mem-append (map destroy_k3d_cluster lab.k3d_clusters) _ a m) [
    | inl m ↦ clusters-Permitted a m
    | inr m ↦ elim (Mem-append (map remove_container lab.containers) _ a m) [
      | inl m ↦ containers-Permitted a m
      | inr m ↦ elim (Mem-append (network_actions lab.network) _ a m) [
        | inl m ↦ network-Permitted lab.network a refl m
        | inr m ↦ elim (Mem-append (kubeconfig_actions lab.k3d_clusters record_of) _ a m) [
          | inl m ↦ kubeconfig-Permitted lab.k3d_clusters record_of a refl m
          | inr (Memᴰ.head e) ↦ subst Permitted (sym e) (told _ _)
          | inr (Memᴰ.tail m) ↦ state-Permitted keep_state a refl m
        ]
      ]
    ]
  ]

  pub destroyed :
      (k : String)
      → is_claimed_by (claims facts) lab.name k ≡ true
      → Memᴰ k facts.k3d_clusters
      → Memᴰ (destroy_k3d_cluster k) (plan_cleanup lab record_of keep_state).actions
  unfolding plan_cleanup
  destroyed k h m = Mem-front (map destroy_k3d_cluster lab.k3d_clusters) _ (destroy_k3d_cluster k) (
      map-Mem destroy_k3d_cluster lab.k3d_clusters k (
        subst (Memᴰ k) (sym describes.k3d_clusters)
          (keep-Mem (is_claimed_by (claims facts) lab.name) facts.k3d_clusters k m h)))

  pub removed :
      (c : ContainerFact)
      → is_of lab.name c ≡ true
      → Memᴰ c facts.containers
      → Memᴰ (remove_container c.name) (plan_cleanup lab record_of keep_state).actions
  unfolding plan_cleanup
  removed c h m = Mem-back (map destroy_k3d_cluster lab.k3d_clusters) _ (remove_container c.name) (
      Mem-front (map remove_container lab.containers) _ (remove_container c.name) (
        map-Mem remove_container lab.containers c.name (
          subst (Memᴰ c.name) (sym describes.containers) (
            map-Mem (λ c. c.name) (keep (is_of lab.name) facts.containers) c
              (keep-Mem (is_of lab.name) facts.containers c m h)))))

  network_in :
      (o : Option String) (n : String) → o ≡ some n → Memᴰ (remove_network n) (network_actions o)
  network_in none n e = absurd cc
  network_in (some m) n e = Memᴰ.head (ap remove_network (sym (some-injective e)))

  pub disconnected :
      contains facts.networks lab.name ≡ true
      → Memᴰ (remove_network lab.name) (plan_cleanup lab record_of keep_state).actions
  unfolding plan_cleanup
  disconnected h =
      let named : lab.network ≡ some lab.name =
        describes.network ∙ ap (λ b. if b then some lab.name else none) h in
      Mem-back (map destroy_k3d_cluster lab.k3d_clusters) _ _ (
        Mem-back (map remove_container lab.containers) _ _
          (Mem-front (network_actions lab.network) _ _ (network_in lab.network lab.name named)))

  kubeconfig_in :
      (clusters : List String) (o : Option LabRecord) (r : LabRecord) (c : ClusterRecord)
      → o ≡ some r
      → Memᴰ c r.clusters
      → Memᴰ (clean_kubeconfig c.cluster) (kubeconfig_actions clusters o)
  kubeconfig_in clusters none r c e m = absurd cc
  kubeconfig_in clusters (some r') r c e m =
      map-Mem (λ c. clean_kubeconfig c.cluster) r'.clusters c
        (subst (λ q. Memᴰ c q.clusters) (sym (some-injective e)) m)

  pub cleaned :
      (r : LabRecord) (c : ClusterRecord)
      → record_of ≡ some r
      → Memᴰ c r.clusters
      → Memᴰ (clean_kubeconfig c.cluster) (plan_cleanup lab record_of keep_state).actions
  unfolding plan_cleanup
  cleaned r c e m = Mem-back (map destroy_k3d_cluster lab.k3d_clusters) _ _ (
      Mem-back (map remove_container lab.containers) _ _ (
        Mem-back (network_actions lab.network) _ _ (
          Mem-front (kubeconfig_actions lab.k3d_clusters record_of) _ _
            (kubeconfig_in lab.k3d_clusters record_of r c e m))))

  state_in : (k : Bool) → k ≡ false → Memᴰ (forget_state lab.name) (state_actions k lab.name)
  state_in true e = absurd cc
  state_in false e = Memᴰ.head refl

  pub forgotten :
      keep_state ≡ false
      → Memᴰ (forget_state lab.name) (plan_cleanup lab record_of keep_state).actions
  unfolding plan_cleanup
  forgotten e = Mem-back (map destroy_k3d_cluster lab.k3d_clusters) _ _ (
      Mem-back (map remove_container lab.containers) _ _ (
        Mem-back (network_actions lab.network) _ _ (
          Mem-back (kubeconfig_actions lab.k3d_clusters record_of) _ _
            (Memᴰ.tail (state_in keep_state e)))))
