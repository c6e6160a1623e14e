-- ===== src/Lint/Network/Found.antt =====
-- Every flow that network_policy.rs requires is one that the manifests need.
use catallaxy.Prelude.{
  ℕ, ◌≡◌, refl, sym, ap, subst, ◌⊎◌, inl, inr, true, false, not, ◌||◌, Option, none, some, List, [],
  ◌++◌, String, ◌==◌, eq_iff, eqb, eqb_iff, arith, any, contains, or_else, and_then, any-Mem,
  Mem-flat_map, Mem-filter_map, Mem-append, Mem-map, Bool-cases, Option-cases, some-injective,
  if◌then◌else◌,
}
use mathlib.Core.List.{Memᴰ}
use catallaxy.Lint.Yaml.{Yaml}
use catallaxy.Lint.Manifest.{K8sResource, display_id}
use catallaxy.Lint.Network.{Flow, Services, service_ports, port_number}
use catallaxy.Lint.Network.Scan.{references_in}
use catallaxy.Lint.Network.Rule.{
  required_flows, route_references, text_references, text_targets, to_backend, to_backends,
  from_namespace, wanted, wanted_by, gateways, backends,
}
use catallaxy.Lint.Network.Sets.{require_each-Mem}
use catallaxy.Lint.Network.Needs.{RouteNeeds, TextNeeds, Needed}

module _ {V : Type 0} (y : Yaml V) where
  wanted-Sound :
      (ports : List ℕ) (named : Option ℕ) (p : ℕ)
      → Memᴰ p (wanted y ports named)
      → Memᴰ p ports × ((named ≡ none) ⊎ (named ≡ some p))
  wanted-Sound ports none p m = (m, inl refl)
  wanted-Sound ports (some q) p m = elim (Bool-cases (any (eqb q) ports)) [
    | inl hit ↦ elim (rw hit at m) [
      | Memᴰ.head e ↦
          let (x, n, same) = any-Mem (eqb q) ports hit in
          let at_q : Memᴰ q ports = subst (λ z. Memᴰ z ports) (sym ((eqb_iff q x).0 same)) n in
          (subst (λ z. Memᴰ z ports) (sym e) at_q, inr (ap some (sym e)))
      | Memᴰ.tail n ↦ elim n [ ]
    ]
    | inr miss ↦ elim (rw miss at m) [ ]
  ]

  to_backend-RouteNeeds :
      (r : K8sResource V) (route_ns by : String) (backend : V) (f : Flow)
      → r.kind ≡ "HTTPRoute"
      → r.namespace ≡ some route_ns
      → Memᴰ backend (backends y r)
      → Memᴰ (f, by) (to_backend y route_ns (gateways y r) (display_id r) backend)
      → RouteNeeds y r f
  to_backend-RouteNeeds r route_ns by backend f is_route of_ns in_rules m =
      elim (Option-cases (and_then (y.get_field backend "port") (port_number y))) [
        | inl miss ↦ elim (rw (miss, to_backend) at m) [ ]
        | inr (port, hp) ↦
            let to = or_else (and_then (y.get_field backend "namespace") y.as_str) route_ns in
            let made = λ (from : String).
              (if from == to
                then none
                else some (record { from = from; to = to; port = port }, display_id r)) in
            let (from, n, e) =
              Mem-filter_map made (gateways y r) (f, by) (rw (hp, to_backend) at m) in
            elim (Bool-cases (from == to)) [
              | inl same ↦ absurd (ground (arith, rw same at e))
              | inr apart ↦
                  let whole : some (record { from = from; to = to; port = port }, display_id r)
                      ≡ some (f, by) =
                    rw apart at e in
                  let flow : record { from = from; to = to; port = port } ≡ f =
                    ap (λ q. q.0) (some-injective whole) in
                  subst (RouteNeeds y r) flow (record {
                    is_route = is_route;
                    route_ns = route_ns;
                    of_ns = of_ns;
                    gateway = n;
                    backend = backend;
                    in_rules = in_rules;
                    on_port = hp;
                    to_ns = refl;
                    apart = λ e. absurd (ground (arith, (eq_iff from to).1 e));
                  })
            ]
      ]

  route_references-RouteNeeds :
      (resources : List (K8sResource V)) (f : Flow) (by : String)
      → Memᴰ (f, by) (route_references y resources)
      → (r : K8sResource V) × Memᴰ r resources × RouteNeeds y r f
  unfolding route_references
  route_references-RouteNeeds resources f by m =
      let (r, n, inside) =
        Mem-flat_map (λ x. if x.kind == "HTTPRoute" then to_backends y x x.namespace else [])
          resources (f, by) m in
      elim (Bool-cases (r.kind == "HTTPRoute")) [
        | inr other ↦ elim (rw other at inside) [ ]
        | inl route ↦ elim (Option-cases r.namespace) [
          | inl nowhere ↦ elim (rw (route, nowhere, to_backends) at inside) [ ]
          | inr (route_ns, hns) ↦
              let (backend, k, at_backend) =
                Mem-flat_map (to_backend y route_ns (gateways y r) (display_id r)) (backends y r)
                  (f, by) (rw (route, hns, to_backends) at inside) in
              (
                r,
                n,
                to_backend-RouteNeeds r route_ns by backend f ((eq_iff r.kind "HTTPRoute").0 route)
                    hns k at_backend,
              )
        ]
      ]

  wanted_by-Sound :
      (services : Services) (lab_ns : List String) (src svc ns : String) (named : Option ℕ)
      (t : String × ℕ)
      → Memᴰ t (wanted_by y services lab_ns (some src) (svc, ns, named))
      → (contains lab_ns ns ≡ true)
        × ((src == ns) ≡ false)
        × (ports : List ℕ) × (service_ports (ns, svc) services ≡ some ports)
        × (p : ℕ) × Memᴰ p (wanted y ports named)
        × ((ns, p) ≡ t)
  unfolding wanted_by
  wanted_by-Sound services lab_ns src svc ns named t m =
      elim (Bool-cases (not (contains lab_ns ns) || (src == ns))) [
        | inl skipped ↦ elim (rw (skipped, wanted_by) at m) [ ]
        | inr kept ↦ elim (Option-cases (service_ports (ns, svc) services)) [
          | inl miss ↦ elim (rw (kept, miss, wanted_by) at m) [ ]
          | inr (ports, hp) ↦
              let (p, n, e) =
                Mem-map (λ p. (ns, p)) (wanted y ports named) t (rw (kept, hp, wanted_by) at m) in
              (ground (arith, kept), ground (arith, kept), ports, hp, p, n, e)
        ]
      ]

  text_targets-TextNeeds :
      (services : Services) (lab_ns : List String) (r : K8sResource V) (src : String)
      (t : String × ℕ)
      → r.namespace ≡ some src
      → Memᴰ t (text_targets y services lab_ns r)
      → TextNeeds y services lab_ns r (record { from = src; to = t.0; port = t.1 })
  unfolding text_targets
  text_targets-TextNeeds services lab_ns r src t hns m = elim (Option-cases (y.to_string r.raw)) [
    | inl miss ↦ elim (rw (miss, text_targets) at m) [ ]
    | inr (text, ht) ↦
        let (ref, k, w) =
          Mem-flat_map (wanted_by y services lab_ns r.namespace) (references_in y.parse_u32 text) t
            (rw (ht, text_targets) at m) in
        let from_src : Memᴰ t (wanted_by y services lab_ns (some src) (ref.0, ref.1, ref.2)) =
          subst (λ ns. Memᴰ t (wanted_by y services lab_ns ns ref)) hns w in
        let (in_lab, apart, ports, hp, p, n, e) =
          wanted_by-Sound services lab_ns src ref.0 ref.1 ref.2 t from_src in
        let (on_port, names_port) = wanted-Sound ports ref.2 p n in
        subst (λ q. TextNeeds y services lab_ns r (record { from = src; to = q.0; port = q.1 })) e
          (record {
            of_ns = hns;
            text = text;
            of_text = ht;
            service = ref.0;
            named = ref.2;
            in_text = k;
            in_lab = in_lab;
            apart = λ same. absurd (ground (arith, (eq_iff src ref.1).1 same));
            ports = ports;
            has_ports = hp;
            on_port = on_port;
            names_port = names_port;
          })
  ]

  text_references-TextNeeds :
      (services : Services) (lab_ns : List String) (resources : List (K8sResource V)) (f : Flow)
      (by : String)
      → Memᴰ (f, by) (text_references y services lab_ns resources)
      → (r : K8sResource V) × Memᴰ r resources × TextNeeds y services lab_ns r f
  unfolding text_references
  text_references-TextNeeds services lab_ns resources f by m =
      let (r, n, inside) =
        Mem-flat_map (λ x. from_namespace y x x.namespace (text_targets y services lab_ns x))
          resources (f, by) m in
      elim (Option-cases r.namespace) [
        | inl nowhere ↦
            let empty =
              subst (λ ns. Memᴰ (f, by) (from_namespace y r ns (text_targets y services lab_ns r)))
                nowhere inside in
            elim empty [ ]
        | inr (src, hns) ↦
            let there =
              subst (λ ns. Memᴰ (f, by) (from_namespace y r ns (text_targets y services lab_ns r)))
                hns inside in
            let (t, k, e) =
              Mem-map (λ t. (record { from = src; to = t.0; port = t.1 }, display_id r))
                (text_targets y services lab_ns r) (f, by) there in
            (
              r,
              n,
              subst (TextNeeds y services lab_ns r) (ap (λ q. q.0) e)
                  (text_targets-TextNeeds services lab_ns r src t hns k),
            )
      ]

  pub required_flows-Needed :
      (services : Services) (lab_ns : List String) (resources : List (K8sResource V)) (f : Flow)
      (by : String)
      → Memᴰ (f, by) (required_flows y services lab_ns resources)
      → Needed y services lab_ns resources f
  unfolding required_flows
  required_flows-Needed services lab_ns resources f by m =
      let routes = route_references y resources in
      let texts = text_references y services lab_ns resources in
      elim (require_each-Mem (routes ++ texts) [] (f, by) m) [
        | inr nowhere ↦ elim nowhere [ ]
        | inl there ↦ elim (Mem-append routes texts (f, by) there) [
          | inl route ↦
              let (r, n, need) = route_references-RouteNeeds resources f by route in
              (r, n, inl need)
          | inr text ↦
              let (r, n, need) = text_references-TextNeeds services lab_ns resources f by text in
              (r, n, inr need)
        ]
      ]
