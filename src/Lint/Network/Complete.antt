-- ===== src/Lint/Network/Complete.antt =====
-- Every flow that a policy allows is among those that network_policy.rs reads off the policies.
use catallaxy.Prelude.{
  ℕ, ◌≡◌, refl, sym, subst, inl, inr, false, Option, List, [], ◌∷◌, ◌++◌, String, map, is_nil,
  flat_map, flat_map-Mem, Mem-front, Mem-back, map-Mem,
}
use mathlib.Core.List.{Memᴰ}
use catallaxy.Lint.Yaml.{Yaml, elements}
use catallaxy.Lint.Manifest.{K8sResource}
use catallaxy.Lint.Network.{Flow}
use catallaxy.Lint.Network.Policies.{
  Side, direct, section, peer_key, endpoints_key, add_flows, rule_ports, cilium_ports, plain_peer,
  cilium_peer, flows_of_peer, flows_of_rule, flows_of_section, collect_plain, collect_cilium,
  flows_of_spec, flows_of_policy, permitted_flows, egress, ingress,
}
use catallaxy.Lint.Network.Sets.{Mem-insert_flows}
use catallaxy.Lint.Network.Allowed.{RuleAllows, SpecAllows, PolicyAllows}

both_sides :
    {f : Flow} (flows : Side → List Flow) (side : Side)
    → Memᴰ f (flows side)
    → Memᴰ f (flows egress ++ flows ingress)
both_sides {f} flows egress m = Mem-front (flows egress) (flows ingress) f m
both_sides {f} flows ingress m = Mem-back (flows egress) (flows ingress) f m

module _ {V : Type 0} (y : Yaml V) where
  module _ (ports_of : V → List ℕ) (peer_of : V → Option String) (peers_key : String) where
    RuleAllows-flows_of_section :
        (spec : V) (ns : String) (side : Side) (f : Flow)
        → RuleAllows y ports_of peer_of peers_key side spec ns f
        → Memᴰ f (flows_of_section y ports_of peer_of peers_key spec ns side)
    unfolding add_flows
    RuleAllows-flows_of_section spec ns side f
          (rule, in_section, peer, in_peers, other, e, port, n, same) =
        let at_peer : Memᴰ f
            (flows_of_peer y ports_of peer_of peers_key ns side (ports_of rule) peer) =
          rw (e, flows_of_peer)
            (subst (λ g. Memᴰ g (map (direct side ns other) (ports_of rule))) (sym same)
              (map-Mem (direct side ns other) (ports_of rule) port n)) in
        let some_there : is_nil (ports_of rule) ≡ false = not_nil (ports_of rule) port n in
        let at_rule : Memᴰ f (flows_of_rule y ports_of peer_of peers_key ns side rule) =
          rw (some_there, flows_of_rule)
            (flat_map-Mem (flows_of_peer y ports_of peer_of peers_key ns side (ports_of rule))
              (elements y (y.get_field rule peers_key)) peer f in_peers at_peer) in
        flat_map-Mem (flows_of_rule y ports_of peer_of peers_key ns side)
          (elements y (y.get_field spec (section side))) rule f in_section at_rule
      where
        not_nil : (xs : List ℕ) (x : ℕ) → Memᴰ x xs → is_nil xs ≡ false
        not_nil [] x m = elim m [ ]
        not_nil (a ∷ xs) x m = refl

  SpecAllows-flows_of_spec :
      (kind : String) (spec : V) (ns : String) (f : Flow)
      → SpecAllows y kind spec ns f
      → Memᴰ f (flows_of_spec y kind spec ns)
  unfolding collect_plain collect_cilium
  SpecAllows-flows_of_spec kind spec ns f (side, inl (k, allows)) =
      let here =
        RuleAllows-flows_of_section (rule_ports y) (plain_peer y) (peer_key side) spec ns side f
          allows in
      rw k (both_sides (collect_plain y spec ns) side here)
  SpecAllows-flows_of_spec kind spec ns f (side, inr (k, allows)) =
      let here =
        RuleAllows-flows_of_section (cilium_ports y) (cilium_peer y) (endpoints_key side) spec ns
          side f allows in
      rw k (both_sides (collect_cilium y spec ns) side here)

  pub PolicyAllows-permitted_flows :
      (resources : List (K8sResource V)) (r : K8sResource V) (f : Flow)
      → Memᴰ r resources
      → PolicyAllows y r f
      → Memᴰ f (permitted_flows y resources)
  unfolding permitted_flows flows_of_policy
  PolicyAllows-permitted_flows resources r f m (ns, hns, spec, hs, allows) =
      let here : Memᴰ f (flows_of_policy y r) =
        rw (hns, hs, flows_of_policy) (SpecAllows-flows_of_spec r.kind spec ns f allows) in
      Mem-insert_flows (flat_map (flows_of_policy y) resources) [] f
        (flat_map-Mem (flows_of_policy y) resources r f m here)
