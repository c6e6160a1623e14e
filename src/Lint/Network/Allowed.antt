-- ===== src/Lint/Network/Allowed.antt =====
-- What the rule of network_policy.rs says: every flow that the manifests need is one that a policy
-- permits.
use catallaxy.Prelude.{
  ℕ, ◌≡◌, sym, ◌⊎◌, inl, inr, Option, some, List, [], String, ◌==◌, eq_iff, flat_map, Mem-flat_map,
  Mem-append, Mem-map, Bool-cases, Option-cases, is_nil,
}
use mathlib.Core.List.{Memᴰ}
use catallaxy.Lint.Yaml.{Yaml, elements}
use catallaxy.Lint.Manifest.{K8sResource}
use catallaxy.Lint.Network.{Flow}
use catallaxy.Lint.Network.Policies.{
  Side, direct, section, peer_key, endpoints_key, add_flows, rule_ports, cilium_ports, plain_peer,
  cilium_peer, flows_of_peer, flows_of_rule, flows_of_section, collect_plain, collect_cilium,
  flows_of_spec, flows_of_policy, permitted_flows, egress, ingress,
}
use catallaxy.Lint.Network.Sets.{insert_flows-Mem}

module _ {V : Type 0} (y : Yaml V) where
  module _ (ports_of : V → List ℕ) (peer_of : V → Option String) (peers_key : String) where
    -- A rule of the section has the port, and a peer that is the other namespace.
    abbrev pub RuleAllows : Side → V → String → Flow → Type 0
    RuleAllows direction spec ns f =
        (rule : V) × Memᴰ rule (elements y (y.get_field spec (section direction)))
        × (peer : V) × Memᴰ peer (elements y (y.get_field rule peers_key))
        × (other : String) × (peer_of peer ≡ some other)
        × (port : ℕ) × Memᴰ port (ports_of rule)
        × (f ≡ direct direction ns other port)

    flows_of_section-RuleAllows :
        (spec : V) (ns : String) (direction : Side) (f : Flow)
        → Memᴰ f (flows_of_section y ports_of peer_of peers_key spec ns direction)
        → RuleAllows direction spec ns f
    unfolding add_flows
    flows_of_section-RuleAllows spec ns direction f m =
        let (rule, in_section, inside) =
          Mem-flat_map (flows_of_rule y ports_of peer_of peers_key ns direction)
            (elements y (y.get_field spec (section direction))) f m in
        elim (Bool-cases (is_nil (ports_of rule))) [
          | inl none_there ↦ elim (rw none_there at inside) [ ]
          | inr some_there ↦
              let (peer, in_peers, of_peer) =
                Mem-flat_map
                  (flows_of_peer y ports_of peer_of peers_key ns direction (ports_of rule))
                  (elements y (y.get_field rule peers_key)) f (rw some_there at inside) in
              elim (Option-cases (peer_of peer)) [
                | inl nobody ↦ elim (rw (nobody, flows_of_peer) at of_peer) [ ]
                | inr (other, e) ↦
                    let (port, n, same) =
                      Mem-map (direct direction ns other) (ports_of rule) f
                        (rw (e, flows_of_peer) at of_peer) in
                    (rule, in_section, peer, in_peers, other, e, port, n, sym same)
              ]
        ]

  -- A rule of the policy, of one of the two dialects.
  abbrev pub SpecAllows : String → V → String → Flow → Type 0
  SpecAllows kind spec ns f =
      (direction : Side) × (((kind ≡ "NetworkPolicy")
          × RuleAllows (rule_ports y) (plain_peer y) (peer_key direction) direction spec ns f)
        ⊎ ((kind ≡ "CiliumNetworkPolicy")
            × RuleAllows (cilium_ports y) (cilium_peer y) (endpoints_key direction) direction spec
                ns f))

  -- The resource is a policy of a namespace that lets the flow through.
  abbrev pub PolicyAllows : K8sResource V → Flow → Type 0
  PolicyAllows r f =
      (ns : String) × (r.namespace ≡ some ns)
      × (spec : V) × (y.get_field r.raw "spec" ≡ some spec)
      × SpecAllows r.kind spec ns f

  flows_of_spec-SpecAllows :
      (kind : String) (spec : V) (ns : String) (f : Flow)
      → Memᴰ f (flows_of_spec y kind spec ns)
      → SpecAllows kind spec ns f
  unfolding collect_plain collect_cilium
  flows_of_spec-SpecAllows kind spec ns f m = elim (Bool-cases (kind == "NetworkPolicy")) [
    | inl plain ↦
        let k = (eq_iff kind "NetworkPolicy").0 plain in
        let allows = λ (d : Side).
          flows_of_section-RuleAllows (rule_ports y) (plain_peer y) (peer_key d) spec ns d f in
        elim (Mem-append (collect_plain y spec ns egress) (collect_plain y spec ns ingress) f
          (rw plain at m)) [
            | inl out ↦ (egress, inl (k, allows egress out))
            | inr into ↦ (ingress, inl (k, allows ingress into))
          ]
    | inr not_plain ↦ elim (Bool-cases (kind == "CiliumNetworkPolicy")) [
      | inl cilium ↦
          let k = (eq_iff kind "CiliumNetworkPolicy").0 cilium in
          let allows = λ (d : Side).
            flows_of_section-RuleAllows (cilium_ports y) (cilium_peer y) (endpoints_key d) spec ns d
              f in
          elim (Mem-append (collect_cilium y spec ns egress) (collect_cilium y spec ns ingress) f
            (rw (not_plain, cilium) at m)) [
              | inl out ↦ (egress, inr (k, allows egress out))
              | inr into ↦ (ingress, inr (k, allows ingress into))
            ]
      | inr neither ↦ elim (rw (not_plain, neither) at m) [ ]
    ]
  ]

  pub permitted_flows-PolicyAllows :
      (resources : List (K8sResource V)) (f : Flow)
      → Memᴰ f (permitted_flows y resources)
      → (r : K8sResource V) × Memᴰ r resources × PolicyAllows r f
  unfolding permitted_flows flows_of_policy
  permitted_flows-PolicyAllows resources f m =
      elim (insert_flows-Mem (flat_map (flows_of_policy y) resources) [] f m) [
        | inr nowhere ↦ elim nowhere [ ]
        | inl there ↦
            let (r, n, inside) = Mem-flat_map (flows_of_policy y) resources f there in
            elim (Option-cases r.namespace) [
              | inl miss ↦ elim (rw (miss, flows_of_policy) at inside) [ ]
              | inr (ns, hns) ↦ elim (Option-cases (y.get_field r.raw "spec")) [
                | inl miss ↦ elim (rw (hns, miss, flows_of_policy) at inside) [ ]
                | inr (spec, hs) ↦
                    let here : Memᴰ f (flows_of_spec y r.kind spec ns) =
                      rw (hns, hs, flows_of_policy) at inside in
                    (r, n, (ns, hns, spec, hs, flows_of_spec-SpecAllows r.kind spec ns f here))
              ]
            ]
      ]
