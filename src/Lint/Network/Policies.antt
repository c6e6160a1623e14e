-- ===== src/Lint/Network/Policies.antt =====
-- cli/src/lint/rules/network_policy.rs: the flows that the rendered policies allow.
use catallaxy.Prelude.{
  ℕ, Option, none, some, List, [], ◌∷◌, ◌++◌, String, ◌==◌, and_then, flat_map, map, is_nil,
  if◌then◌else◌,
}
use catallaxy.Lint.Yaml.{Yaml, elements, at_path}
use catallaxy.Lint.Manifest.{K8sResource}
use catallaxy.Lint.Network.{Flow, flow_eq, flow_lt, insert_set, ports_in}

-- The two sides of a rule: traffic that leaves a namespace, and traffic that enters it.
pub data Side : Type 0 where
  egress ingress : Side

abbrev pub direct : Side → String → String → ℕ → Flow
direct egress own other port = record { from = own; to = other; port = port }
direct ingress own other port = record { from = other; to = own; port = port }

abbrev pub section : Side → String
section egress = "egress"
section ingress = "ingress"

abbrev pub peer_key : Side → String
peer_key egress = "to"
peer_key ingress = "from"

abbrev pub endpoints_key : Side → String
endpoints_key egress = "toEndpoints"
endpoints_key ingress = "fromEndpoints"

-- `out.insert` for each flow.
unfoldable pub insert_flows : List Flow → List Flow → List Flow
unfolding insert_set
insert_flows [] out = out
insert_flows (f ∷ flows) out = insert_flows flows (insert_set flow_eq flow_lt f out)

unfoldable pub add_flows : String → String → List ℕ → Side → List Flow
add_flows own other ports direction = map (direct direction own other) ports

module _ {V : Type 0} (y : Yaml V) where
  unfoldable pub rule_ports : V → List ℕ
  rule_ports rule = ports_in y (elements y (y.get_field rule "ports"))

  -- The ports of a rule of Cilium stand in groups.
  unfoldable pub cilium_ports : V → List ℕ
  cilium_ports rule =
      ports_in y (
        flat_map (λ g. elements y (y.get_field g "ports"))
          (elements y (y.get_field rule "toPorts")))

  unfoldable pub plain_peer : V → Option String
  plain_peer peer =
      and_then
        (at_path y peer ("namespaceSelector" ∷ "matchLabels" ∷ "kubernetes.io/metadata.name" ∷ []))
        y.as_str

  unfoldable pub cilium_peer : V → Option String
  cilium_peer peer =
      and_then (at_path y peer ("matchLabels" ∷ "k8s:io.kubernetes.pod.namespace" ∷ [])) y.as_str

  -- The loops of `collect_plain` and of `collect_cilium` over the rules and their peers.
  module _ (ports_of : V → List ℕ) (peer_of : V → Option String) (peers_key : String) where
    abbrev pub flows_of_peer : String → Side → List ℕ → V → List Flow
    flows_of_peer ns direction ports peer = elim (peer_of peer) [
      | none ↦ []
      | some other ↦ add_flows ns other ports direction
    ]

    abbrev pub flows_of_rule : String → Side → V → List Flow
    flows_of_rule ns direction rule =
        if is_nil (ports_of rule)
        then []
        else flat_map (flows_of_peer ns direction (ports_of rule))
            (elements y (y.get_field rule peers_key))

    abbrev pub flows_of_section : V → String → Side → List Flow
    flows_of_section spec ns direction =
        flat_map (flows_of_rule ns direction) (elements y (y.get_field spec (section direction)))

  unfoldable pub collect_plain : V → String → Side → List Flow
  unfolding rule_ports plain_peer add_flows
  collect_plain spec ns direction =
      flows_of_section rule_ports plain_peer (peer_key direction) spec ns direction

  unfoldable pub collect_cilium : V → String → Side → List Flow
  unfolding cilium_ports cilium_peer add_flows
  collect_cilium spec ns direction =
      flows_of_section cilium_ports cilium_peer (endpoints_key direction) spec ns direction

  abbrev pub flows_of_spec : String → V → String → List Flow
  flows_of_spec kind spec ns =
      if kind == "NetworkPolicy"
      then collect_plain spec ns egress ++ collect_plain spec ns ingress
      else if kind == "CiliumNetworkPolicy"
      then collect_cilium spec ns egress ++ collect_cilium spec ns ingress
      else []

  unfoldable pub flows_of_policy : K8sResource V → List Flow
  unfolding collect_plain collect_cilium
  flows_of_policy r = elim r.namespace [
    | none ↦ []
    | some ns ↦ elim (y.get_field r.raw "spec") [
      | none ↦ []
      | some spec ↦ flows_of_spec r.kind spec ns
    ]
  ]

  unfoldable pub permitted_flows : List (K8sResource V) → List Flow
  unfolding insert_flows flows_of_policy
  permitted_flows resources = insert_flows (flat_map flows_of_policy resources) []
