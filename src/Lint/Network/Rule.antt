-- ===== src/Lint/Network/Rule.antt =====
-- cli/src/lint/rules/network_policy.rs: the rule itself.
use catallaxy.Prelude.{
  ℕ, Bool, not, ◌&&◌, ◌||◌, Option, none, some, List, [], ◌∷◌, ◌++◌, String, ◌<>◌, ◌==◌, and_then,
  or_else, any, map, keep, filter_map, flat_map, contains, decimal, eqb, ltb, is_nil, join,
  if◌then◌else◌,
}
use catallaxy.Lint.{Diagnostic, Severity, error, warning}
use catallaxy.Lint.Yaml.{Yaml, Shape, elements, at_path}
use catallaxy.Lint.Manifest.{K8sResource, display_id}
use catallaxy.Lint.Context.{CheckContext, NetworkPolicyMetadata, FloeNetworkMetadata, ServedPort}
use catallaxy.Lint.Basics.{same_namespace}
use catallaxy.Lint.Network.{
  Flow, flow_eq, flow_lt, insert_set, Services, service_ports, service_inventory, port_of,
  port_number,
}
use catallaxy.Lint.Network.Scan.{Reference, references_in}
use catallaxy.Lint.Network.Policies.{permitted_flows}

abbrev pub network_diag : Severity → String → String → String → Diagnostic
network_diag severity cluster resource message = record {
  severity = severity;
  check = "network-policy";
  cluster = cluster;
  file = "";
  resource = resource;
  message = message;
}

-- The flows that are needed, each with the first resource that needs it.
abbrev pub Required : Type 0
Required = List (Flow × String)

-- `entry(flow).or_insert_with(by)`
unfoldable pub require : Flow → String → Required → Required
require f by [] = (f, by) ∷ []
require f by ((g, first) ∷ rest) =
    let more = require f by rest in
    if flow_eq f g
    then (g, first) ∷ rest
    else if flow_lt f g
    then (f, by) ∷ (g, first) ∷ rest
    else (g, first) ∷ more

unfoldable pub require_each : Required → Required → Required
unfolding require
require_each [] out = out
require_each ((f, by) ∷ flows) out = require_each flows (require f by out)

abbrev pub is_anonymous : List (String × ℕ) → Flow → Bool
is_anonymous anonymous f = any (λ a. (a.0 == f.to) && eqb a.1 f.port) anonymous

abbrev pub unpermitted : String → Flow × String → Diagnostic
unpermitted cluster (f, by) = network_diag error cluster by (
    f.from
    <> (" is configured to reach "
        <> (f.to <> (":" <> (decimal f.port <> ", but no policy permits it")))))

abbrev pub unreferenced : String → Flow → Diagnostic
unreferenced cluster f = network_diag warning cluster (f.from <> ("/" <> f.to)) (
    f.from
    <> (" may reach " <> (f.to <> (":" <> (decimal f.port <> ", but nothing references it")))))

module _ {V : Type 0} (y : Yaml V) where
  -- The flows that a route needs: from the namespace of each gateway to each backend.
  abbrev pub to_backend : String → List String → String → V → Required
  to_backend route_ns gw_ns by backend =
      elim (and_then (y.get_field backend "port") (port_number y)) [
        | none ↦ []
        | some port ↦
            let to = or_else (and_then (y.get_field backend "namespace") y.as_str) route_ns in
            filter_map
              (λ from.
                if from == to
                then none
                else some (record { from = from; to = to; port = port }, by))
              gw_ns
      ]

  abbrev pub gateways : K8sResource V → List String
  gateways r =
      filter_map (λ p. and_then (y.get_field p "namespace") y.as_str)
        (elements y (at_path y r.raw ("spec" ∷ "parentRefs" ∷ [])))

  abbrev pub backends : K8sResource V → List V
  backends r =
      flat_map (λ rule. elements y (y.get_field rule "backendRefs"))
        (elements y (at_path y r.raw ("spec" ∷ "rules" ∷ [])))

  abbrev pub to_backends : K8sResource V → Option String → Required
  to_backends r none = []
  to_backends r (some route_ns) =
      flat_map (to_backend route_ns (gateways r) (display_id r)) (backends r)

  unfoldable pub route_references : List (K8sResource V) → Required
  unfolding port_of
  route_references resources =
      flat_map (λ r. if r.kind == "HTTPRoute" then to_backends r r.namespace else []) resources

  -- The namespace and the ports that a reference in a text means.
  abbrev pub wanted : List ℕ → Option ℕ → List ℕ
  wanted ports none = ports
  wanted ports (some p) = if any (eqb p) ports then p ∷ [] else []

  unfoldable pub wanted_by : Services → List String → Option String → Reference → List (String × ℕ)
  wanted_by services lab_ns src (svc, ns, port) =
      if not (contains lab_ns ns) || same_namespace src (some ns)
      then []
      else elim (service_ports (ns, svc) services) [
        | none ↦ []
        | some ports ↦ map (λ p. (ns, p)) (wanted ports port)
      ]

  unfoldable pub text_targets : Services → List String → K8sResource V → List (String × ℕ)
  unfolding references_in wanted_by
  text_targets services lab_ns r = elim (y.to_string r.raw) [
    | none ↦ []
    | some text ↦ flat_map (wanted_by services lab_ns r.namespace) (references_in y.parse_u32 text)
  ]

  -- What `text_references` puts in `required`, and what in `anonymous`.
  abbrev pub from_namespace : K8sResource V → Option String → List (String × ℕ) → Required
  from_namespace r none targets = []
  from_namespace r (some src) targets =
      map (λ t. (record { from = src; to = t.0; port = t.1 }, display_id r)) targets

  abbrev pub without_namespace : Option String → List (String × ℕ) → List (String × ℕ)
  without_namespace none targets = targets
  without_namespace (some src) targets = []

  unfoldable pub text_references : Services → List String → List (K8sResource V) → Required
  unfolding text_targets
  text_references services lab_ns resources =
      flat_map (λ r. from_namespace r r.namespace (text_targets services lab_ns r)) resources

  unfoldable pub text_anonymous : Services → List String → List (K8sResource V) → List (String × ℕ)
  unfolding text_targets
  text_anonymous services lab_ns resources =
      flat_map (λ r. without_namespace r.namespace (text_targets services lab_ns r)) resources

  unfoldable pub required_flows : Services → List String → List (K8sResource V) → Required
  unfolding route_references text_references require_each
  required_flows services lab_ns resources =
      require_each (route_references resources ++ text_references services lab_ns resources) []

module _ {V J : Type 0} (y : Yaml V) where
  unfoldable pub flows_match_references : CheckContext V J → Services → List Diagnostic
  unfolding permitted_flows required_flows text_anonymous
  flows_match_references ctx services =
      let allowed = permitted_flows y ctx.resources in
      let required = required_flows y services ctx.lab_namespaces ctx.resources in
      let anonymous = text_anonymous y services ctx.lab_namespaces ctx.resources in
      map (unpermitted ctx.cluster) (keep (λ r. not (any (flow_eq r.0) allowed)) required)
      ++ map (unreferenced ctx.cluster) (
          keep (λ f. not (any (λ r. flow_eq f r.0) required) && not (is_anonymous anonymous f))
            allowed)

module _ {V J : Type 0} (y : Yaml V) (json_shape : J → Shape) where
  -- The ports that the Services of a floe's namespaces expose.
  abbrev exposed_by : Services → FloeNetworkMetadata J → List ℕ
  exposed_by services decl =
      flat_map (λ ns. flat_map (λ s. if s.0.0 == ns then s.1 else []) services) decl.namespaces

  abbrev set_of : List ℕ → List ℕ → List ℕ
  set_of [] set = set
  set_of (p ∷ ports) set = set_of ports (insert_set eqb ltb p set)

  unfoldable pub served_diags :
      String → String → FloeNetworkMetadata J → List ℕ → String × ServedPort J → List Diagnostic
  unfolding port_of
  served_diags cluster floe decl exposed (label, served) =
      elim (port_of y (json_shape served.port)) [
        | none ↦ []
        | some port ↦
            if any (eqb port) exposed
            then []
            else network_diag error cluster (floe <> ("/" <> label)) (
                "serves port "
                <> (decimal port
                    <> (", but no Service in "
                        <> (join ", " decl.namespaces
                            <> (" exposes it (it exposes "
                                <> (join ", " (map decimal exposed) <> ")"))))))
              ∷ []
      ]

  abbrev pub served_by : String → Services → String × FloeNetworkMetadata J → List Diagnostic
  served_by cluster services (floe, decl) =
      let exposed = set_of (exposed_by services decl) [] in
      if is_nil exposed then [] else flat_map (served_diags cluster floe decl exposed) decl.serves

  unfoldable pub served_ports_exist : String → NetworkPolicyMetadata J → Services → List Diagnostic
  unfolding served_diags insert_set
  served_ports_exist cluster meta services = flat_map (served_by cluster services) meta.floes

  unfoldable pub check_network : CheckContext V J → List Diagnostic
  unfolding served_ports_exist flows_match_references service_inventory
  check_network ctx = elim ctx.cluster_meta [
    | none ↦ []
    | some meta ↦
        let services = service_inventory y ctx.resources [] in
        served_ports_exist ctx.cluster meta.network_policies services
        ++ (if meta.network_policies.enabled then flows_match_references y ctx services else [])
  ]
