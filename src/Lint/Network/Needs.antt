-- ===== src/Lint/Network/Needs.antt =====
-- The flows that the manifests of a cluster need, read off the manifests, and the rule of
-- network_policy.rs about them.
use catallaxy.Prelude.{
  ℕ, ◌≡◌, refl, sym, subst, ◌≢◌, ◌⊎◌, inl, inr, true, false, not, Option, none, some, List, [],
  ◌++◌, String, ◌==◌, eq_iff, eqb, eqb_iff, arith, any, keep, contains, or_else, and_then, any-Mem,
  Mem-any, flat_map-Mem, filter_map-Mem, Mem-front, Mem-back, map-Mem, keep-Mem, Bool-cases,
  if◌then◌else◌,
}
use mathlib.Core.List.{Memᴰ}
use catallaxy.Lint.Yaml.{Yaml, Shape}
use catallaxy.Lint.Manifest.{K8sResource, display_id}
use catallaxy.Lint.Context.{CheckContext, ClusterMetadata}
use catallaxy.Lint.Network.{Flow, flow_eq, Services, service_ports, service_inventory, port_number}
use catallaxy.Lint.Network.Scan.{references_in}
use catallaxy.Lint.Network.Policies.{permitted_flows}
use catallaxy.Lint.Network.Rule.{
  required_flows, route_references, text_references, unpermitted, flows_match_references,
  text_targets, to_backend, to_backends, from_namespace, wanted, wanted_by, gateways, backends,
  served_ports_exist, check_network,
}
use catallaxy.Lint.Network.Sets.{flow_eq-eq, HasFlow, require_each-HasFlow}
use catallaxy.Lint.Network.Allowed.{PolicyAllows, permitted_flows-PolicyAllows}
use catallaxy.Lint.Quiet.{NoErrors, back-NoErrors}

module _ {V : Type 0} (y : Yaml V) where
  -- A route of the namespace of a gateway reaches a backend on a port.
  pub record RouteNeeds (r : K8sResource V) (f : Flow) : Type 0 where
    pub is_route : r.kind ≡ "HTTPRoute"
    pub route_ns : String
    pub of_ns : r.namespace ≡ some route_ns
    pub gateway : Memᴰ f.from (gateways y r)
    pub backend : V
    pub in_rules : Memᴰ backend (backends y r)
    pub on_port : and_then (y.get_field backend "port") (port_number y) ≡ some f.port
    pub to_ns : or_else (and_then (y.get_field backend "namespace") y.as_str) route_ns ≡ f.to
    pub apart : f.from ≢ f.to

  -- The text of the resource names a Service of another namespace of the lab; without a port it means
  -- each port of the Service.
  pub record TextNeeds (services : Services) (lab_ns : List String) (r : K8sResource V) (f : Flow)
      : Type 0 where
    pub of_ns : r.namespace ≡ some f.from
    pub text : String
    pub of_text : y.to_string r.raw ≡ some text
    pub service : String
    pub named : Option ℕ
    pub in_text : Memᴰ (service, f.to, named) (references_in y.parse_u32 text)
    pub in_lab : contains lab_ns f.to ≡ true
    pub apart : f.from ≢ f.to
    pub ports : List ℕ
    pub has_ports : service_ports (f.to, service) services ≡ some ports
    pub on_port : Memᴰ f.port ports
    pub names_port : (named ≡ none) ⊎ (named ≡ some f.port)

  abbrev pub Needed : Services → List String → List (K8sResource V) → Flow → Type 0
  Needed services lab_ns resources f =
      (r : K8sResource V) × Memᴰ r resources × (RouteNeeds r f ⊎ TextNeeds services lab_ns r f)

  differ : (a b : String) → a ≢ b → (a == b) ≡ false
  differ a b h = elim (Bool-cases (a == b)) [
    | inl same ↦ absurd (h ((eq_iff a b).0 same))
    | inr other ↦ other
  ]

  wanted-Mem :
      (ports : List ℕ) (named : Option ℕ) (p : ℕ)
      → Memᴰ p ports
      → (named ≡ none) ⊎ (named ≡ some p)
      → Memᴰ p (wanted y ports named)
  wanted-Mem ports named p m (inl e) = subst (λ n. Memᴰ p (wanted y ports n)) (sym e) m
  wanted-Mem ports named p m (inr e) =
      let there = Mem-any (eqb p) ports p m ((eqb_iff p p).1 refl) in
      subst (λ n. Memᴰ p (wanted y ports n)) (sym e) (rw there (Memᴰ.head refl))

  route_references-Mem :
      (resources : List (K8sResource V)) (r : K8sResource V) (f : Flow)
      → Memᴰ r resources
      → RouteNeeds r f
      → Memᴰ (f, display_id r) (route_references y resources)
  unfolding route_references
  route_references-Mem resources r f m n =
      let each = to_backend y n.route_ns (gateways y r) (display_id r) in
      let apart = differ f.from f.to n.apart in
      let at_backend : Memᴰ (f, display_id r) (each n.backend) =
        rw (n.on_port, n.to_ns, to_backend)
          (filter_map-Mem
            (λ from.
              if from == f.to
              then none
              else some (record { from = from; to = f.to; port = f.port }, display_id r))
            (gateways y r) f.from (f, display_id r) n.gateway (rw apart refl)) in
      let here : Memᴰ (f, display_id r) (to_backends y r r.namespace) =
        subst (λ ns. Memᴰ (f, display_id r) (to_backends y r ns)) (sym n.of_ns)
          (flat_map-Mem each (backends y r) n.backend (f, display_id r) n.in_rules at_backend) in
      let of_kind : (r.kind == "HTTPRoute") ≡ true = (eq_iff r.kind "HTTPRoute").1 n.is_route in
      flat_map-Mem (λ x. if x.kind == "HTTPRoute" then to_backends y x x.namespace else [])
        resources r (f, display_id r) m (rw of_kind here)

  text_references-Mem :
      (services : Services) (lab_ns : List String) (resources : List (K8sResource V))
      (r : K8sResource V) (f : Flow)
      → Memᴰ r resources
      → TextNeeds services lab_ns r f
      → Memᴰ (f, display_id r) (text_references y services lab_ns resources)
  unfolding text_references text_targets wanted_by
  text_references-Mem services lab_ns resources r f m n =
      let apart = differ f.from f.to n.apart in
      let by_reference : Memᴰ (f.to, f.port)
          (wanted_by y services lab_ns (some f.from) (n.service, f.to, n.named)) =
        rw (n.in_lab, apart, n.has_ports, wanted_by)
          (map-Mem (λ p. (f.to, p)) (wanted y n.ports n.named) f.port
            (wanted-Mem n.ports n.named f.port n.on_port n.names_port)) in
      let targets : Memᴰ (f.to, f.port) (text_targets y services lab_ns r) =
        rw (n.of_text, text_targets)
          (flat_map-Mem (wanted_by y services lab_ns r.namespace) (references_in y.parse_u32 n.text)
            (n.service, f.to, n.named) (f.to, f.port) n.in_text
            (subst
              (λ ns.
                Memᴰ (f.to, f.port) (wanted_by y services lab_ns ns (n.service, f.to, n.named)))
              (sym n.of_ns) by_reference)) in
      let here : Memᴰ (f, display_id r)
          (from_namespace y r r.namespace (text_targets y services lab_ns r)) =
        subst
          (λ ns. Memᴰ (f, display_id r) (from_namespace y r ns (text_targets y services lab_ns r)))
          (sym n.of_ns)
          (map-Mem (λ t. (record { from = f.from; to = t.0; port = t.1 }, display_id r))
            (text_targets y services lab_ns r) (f.to, f.port) targets) in
      flat_map-Mem (λ x. from_namespace y x x.namespace (text_targets y services lab_ns x))
        resources r (f, display_id r) m here

  required_flows-HasFlow :
      (services : Services) (lab_ns : List String) (resources : List (K8sResource V)) (f : Flow)
      → Needed services lab_ns resources f
      → HasFlow f (required_flows y services lab_ns resources)
  unfolding required_flows HasFlow
  required_flows-HasFlow services lab_ns resources f (r, m, need) =
      let routes = route_references y resources in
      let texts = text_references y services lab_ns resources in
      require_each-HasFlow (routes ++ texts) [] f (
        display_id r,
        elim need [
          | inl route ↦
              Mem-front routes texts (f, display_id r) (route_references-Mem resources r f m route)
          | inr text ↦
              Mem-back routes texts (f, display_id r)
                (text_references-Mem services lab_ns resources r f m text)
        ],
      )

module _ {V J : Type 0} (y : Yaml V) where
  pub flows_match_references-PolicyAllows :
      (ctx : CheckContext V J) (services : Services)
      → NoErrors (flows_match_references y ctx services)
      → (f : Flow) → Needed y services ctx.lab_namespaces ctx.resources f
      → (r : K8sResource V) × Memᴰ r ctx.resources × PolicyAllows y r f
  unfolding flows_match_references HasFlow
  flows_match_references-PolicyAllows ctx services h f need =
      let allowed = permitted_flows y ctx.resources in
      let required = required_flows y services ctx.lab_namespaces ctx.resources in
      let (by, m) = required_flows-HasFlow y services ctx.lab_namespaces ctx.resources f need in
      elim (Bool-cases (any (flow_eq f) allowed)) [
        | inl hit ↦
            let (g, n, e) = any-Mem (flow_eq f) allowed hit in
            let (r, k, allows) = permitted_flows-PolicyAllows y ctx.resources g n in
            (r, k, subst (PolicyAllows y r) (sym (flow_eq-eq f g e)) allows)
        | inr miss ↦
            let kept =
              keep-Mem (λ q. not (any (flow_eq q.0) allowed)) required (f, by) m
                (ground (arith, miss)) in
            let there =
              map-Mem (unpermitted ctx.cluster)
                (keep (λ q. not (any (flow_eq q.0) allowed)) required) (f, by) kept in
            absurd (ground (arith, h (unpermitted ctx.cluster (f, by)) (Mem-front _ _ _ there)))
      ]

module _ {V J : Type 0} (y : Yaml V) (json_shape : J → Shape) where
  -- With policies enabled, a rule without an error says that policies permit all that is needed.
  pub check_network-PolicyAllows :
      (ctx : CheckContext V J) (meta : ClusterMetadata J)
      → ctx.cluster_meta ≡ some meta
      → meta.network_policies.enabled ≡ true
      → NoErrors (check_network y json_shape ctx)
      → (f : Flow)
      → Needed y (service_inventory y ctx.resources []) ctx.lab_namespaces ctx.resources f
      → (r : K8sResource V) × Memᴰ r ctx.resources × PolicyAllows y r f
  unfolding check_network
  check_network-PolicyAllows ctx meta hm he h f need =
      let services = service_inventory y ctx.resources [] in
      let served = served_ports_exist y json_shape ctx.cluster meta.network_policies services in
      let matched = flows_match_references y ctx services in
      let both : NoErrors (served ++ matched) = rw (hm, he, check_network) at h in
      flows_match_references-PolicyAllows y ctx services (back-NoErrors served matched both) f need
