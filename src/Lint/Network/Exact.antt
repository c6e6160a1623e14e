-- ===== src/Lint/Network/Exact.antt =====
-- The rule of network_policy.rs raises no false alarm: an error about a flow is about one that the
-- manifests need and that no policy allows.
use catallaxy.Prelude.{
  ◌≡◌, refl, ap, ◌↔◌, inl, inr, true, not, ◌&&◌, eq_refl, eqb_iff, arith, any, keep, map, any-Mem,
  Mem-any, Mem-append, Mem-map, Mem-keep, Bool-cases,
}
use mathlib.Core.List.{Memᴰ}
use catallaxy.Lint.{is_error}
use catallaxy.Lint.Yaml.{Yaml}
use catallaxy.Lint.Manifest.{K8sResource}
use catallaxy.Lint.Context.{CheckContext}
use catallaxy.Lint.Quiet.{any-NoErrors}
use catallaxy.Lint.Network.{Flow, flow_eq, Services}
use catallaxy.Lint.Network.Policies.{permitted_flows}
use catallaxy.Lint.Network.Rule.{
  required_flows, unpermitted, unreferenced, flows_match_references, is_anonymous, text_anonymous,
}
use catallaxy.Lint.Network.Allowed.{PolicyAllows}
use catallaxy.Lint.Network.Needs.{Needed, flows_match_references-PolicyAllows}
use catallaxy.Lint.Network.Complete.{PolicyAllows-permitted_flows}
use catallaxy.Lint.Network.Found.{required_flows-Needed}

flow_eq_refl : (f : Flow) → flow_eq f f ≡ true
flow_eq_refl f = ground (arith, eq_refl f.from, eq_refl f.to, (eqb_iff f.port f.port).1 refl)

module _ {V J : Type 0} (y : Yaml V) (ctx : CheckContext V J) (services : Services) where
  -- A flow that the manifests need and no policy of the cluster allows.
  abbrev pub Unallowed : Flow → Type 0
  Unallowed f =
      Needed y services ctx.lab_namespaces ctx.resources f
      × ¬ ((r : K8sResource V) × Memᴰ r ctx.resources × PolicyAllows y r f)

  error-Unallowed :
      any is_error (flows_match_references y ctx services) ≡ true → (f : Flow) × Unallowed f
  unfolding flows_match_references
  error-Unallowed h =
      let allowed = permitted_flows y ctx.resources in
      let required = required_flows y services ctx.lab_namespaces ctx.resources in
      let anonymous = text_anonymous y services ctx.lab_namespaces ctx.resources in
      let wrong = keep (λ q. not (any (flow_eq q.0) allowed)) required in
      let unused =
        keep (λ f. not (any (λ r. flow_eq f r.0) required) && not (is_anonymous anonymous f))
          allowed in
      let (d, m, e) = any-Mem is_error (flows_match_references y ctx services) h in
      elim (Mem-append (map (unpermitted ctx.cluster) wrong) (map (unreferenced ctx.cluster) unused)
        d m) [
          | inl alarm ↦
              let (q, n, _) = Mem-map (unpermitted ctx.cluster) wrong d alarm in
              let (k, miss) = Mem-keep (λ q. not (any (flow_eq q.0) allowed)) required q n in
              (
                q.0,
                (
                  required_flows-Needed y services ctx.lab_namespaces ctx.resources q.0 q.1 k,
                  λ (r, l, allows).
                      let there =
                        Mem-any (flow_eq q.0) allowed q.0
                          (PolicyAllows-permitted_flows y ctx.resources r q.0 l allows)
                          (flow_eq_refl q.0) in
                      absurd (ground (arith, miss, there)),
                ),
              )
          | inr warned ↦
              let (f, n, same) = Mem-map (unreferenced ctx.cluster) unused d warned in
              absurd (ground (arith, e, ap is_error same))
        ]

  -- The comparison of the policies with the manifests reports an error exactly if some flow between
  -- namespaces that a route or the text of a resource needs is allowed by no rule of a policy among the
  -- resources of the cluster.
  pub flows_match_references-Unallowed :
      (any is_error (flows_match_references y ctx services) ≡ true) ↔ ((f : Flow) × Unallowed f)
  flows_match_references-Unallowed = (
    error-Unallowed,
    λ (f, (need, none_allows)).
        elim (Bool-cases (any is_error (flows_match_references y ctx services))) [
          | inl alarm ↦ alarm
          | inr quiet ↦ absurd (
              none_allows (
                flows_match_references-PolicyAllows y ctx services
                  (any-NoErrors (flows_match_references y ctx services) quiet) f need))
        ],
  )
