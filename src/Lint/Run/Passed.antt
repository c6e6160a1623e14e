-- ===== src/Lint/Run/Passed.antt =====
-- What it means for a lab that run_lint of cli/src/lint/mod.rs passes.
use catallaxy.Prelude.{
  ◌≡◌, refl, sym, ◌∙◌, subst, inl, inr, true, false, not, some, List, [], ◌∷◌, ◌++◌, String, ◌<>◌,
  arith, any, keep, flat_map, contains, get, or_else, keep-Mem, Option-cases, some-injective,
  if◌then◌else◌, ◌⊎◌, ◌==◌, eq_iff, and_then, Mem-append, Mem-map, Mem-keep, Mem-front, Mem-back,
}
use mathlib.Core.List.{Memᴰ}
use catallaxy.Lint.Yaml.{at_path}
use catallaxy.Lint.{Diagnostic, is_error}
use catallaxy.Lint.Manifest.{K8sResource, has_lint_skip, load_manifests}
use catallaxy.Lint.Context.{CheckContext, ClusterMetadata, LabMetadata}
use catallaxy.Lint.Basics.{check_lab, check_identity}
use catallaxy.Lint.References.{check_references}
use catallaxy.Lint.Network.Rule.{check_network}
use catallaxy.Lint.Basics.Identities.{Identities, check_identity-Identities}
use catallaxy.Lint.References.Available.{Satisfied, Available, check_references-Satisfied}
use catallaxy.Lint.Network.{Flow, service_inventory}
use catallaxy.Lint.Network.Allowed.{PolicyAllows}
use catallaxy.Lint.Network.Needs.{Needed, check_network-PolicyAllows}
use catallaxy.Lint.Run.{
  Inputs, CheckRule, cluster_rules, materialised, context_of, manifest_dir_of, run_rules,
  lint_cluster, lint_clusters, lint_lab, run_lint, lab_diags, projections_of,
  external_secret_targets,
}
use catallaxy.Lint.Quiet.{NoErrors, any-NoErrors, front-NoErrors, back-NoErrors, flat_map-NoErrors}

module _ {V J : Type 0} (i : Inputs V J) (path : String) (skip : List String) where
  -- The diagnostics of each cluster are among those of all.
  lint_clusters-NoErrors :
      (metadata : LabMetadata J) (cs : List String) (ds : List Diagnostic)
      → lint_clusters i path skip metadata cs ≡ some ds
      → NoErrors ds
      → (c : String) → Memᴰ c cs
      → (es : List Diagnostic) → lint_cluster i path skip metadata c ≡ some es
      → NoErrors es
  unfolding lint_clusters
  lint_clusters-NoErrors metadata [] ds h q c m es e = elim m [ ]
  lint_clusters-NoErrors metadata (b ∷ cs) ds h q c m es e =
      elim (Option-cases (lint_cluster i path skip metadata b)) [
        | inl failed ↦ absurd (ground arith)
        | inr (here, hh) ↦ elim (Option-cases (lint_clusters i path skip metadata cs)) [
          | inl failed ↦ absurd (ground arith)
          | inr (more, hm) ↦
              let all : some (here ++ more) ≡ some ds = rw (hh, hm, lint_clusters) at h in
              let quiet : NoErrors (here ++ more) = subst NoErrors (sym (some-injective all)) q in
              elim m [
                | Memᴰ.head same ↦
                    let e2 : lint_cluster i path skip metadata b ≡ some es =
                      subst (λ x. lint_cluster i path skip metadata x ≡ some es) same e in
                    subst NoErrors (some-injective (sym hh ∙ e2)) (front-NoErrors here more quiet)
                | Memᴰ.tail n ↦
                    lint_clusters-NoErrors metadata cs more hm (back-NoErrors here more quiet) c n
                      es e
              ]
        ]
      ]

  -- The linter read the metadata of the lab and the manifests of one of its clusters, and passed.
  pub record Linted (metadata : LabMetadata J) (c : String) (resources : List (K8sResource V))
      : Type 0 where
    pub content : String
    pub of_file : i.read_to_string (path <> "/metadata.json") ≡ some content
    pub of_metadata : i.read_metadata content ≡ some metadata
    pub in_lab : Memᴰ c metadata.cluster_names
    pub rendered : i.path_exists (manifest_dir_of i path skip c) ≡ true
    pub loaded : load_manifests i.yaml (i.walk (manifest_dir_of i path skip c)) ≡ some resources
    pub passed : run_lint i path skip ≡ some true

  module _ (metadata : LabMetadata J) (c : String) (resources : List (K8sResource V)) where
    abbrev pub context : CheckContext V J
    context = context_of i metadata (manifest_dir_of i path skip c) c resources

    lint_cluster-eq :
        Linted metadata c resources
        → lint_cluster i path skip metadata c ≡ some (run_rules i path skip context)
    unfolding lint_cluster
    lint_cluster-eq l = rw (l.rendered, l.loaded, lint_cluster) refl

    lint_lab-some :
        (h : Linted metadata c resources)
        → (ds : List Diagnostic) × (lint_lab i path skip metadata ≡ some ds)
          × (any is_error ds ≡ false)
    unfolding run_lint
    lint_lab-some l = elim (Option-cases (lint_lab i path skip metadata)) [
      | inl failed ↦
          absurd (ground (arith, rw (l.of_file, l.of_metadata, failed, run_lint) at l.passed))
      | inr (ds, e) ↦
          let end : some (not (any is_error ds)) ≡ some true =
            rw (l.of_file, l.of_metadata, e, run_lint) at l.passed in
          (ds, e, ground (arith, some-injective end))
    ]

    run_rules-NoErrors : Linted metadata c resources → NoErrors (run_rules i path skip context)
    unfolding lint_lab
    run_rules-NoErrors l =
        let (ds, e, quiet) = lint_lab-some l in
        elim (Option-cases (lint_clusters i path skip metadata metadata.cluster_names)) [
          | inl failed ↦ absurd (ground (arith, rw (failed, lint_lab) at e))
          | inr (of_clusters, h) ↦
              let first = if contains skip "assertions" then [] else check_lab metadata in
              let all : some (first ++ of_clusters ++ lab_diags i path skip metadata) ≡ some ds =
                rw (h, lint_lab) at e in
              let none_wrong = subst NoErrors (sym (some-injective all)) (any-NoErrors ds quiet) in
              lint_clusters-NoErrors metadata metadata.cluster_names of_clusters h
                (back-NoErrors first of_clusters (
                  front-NoErrors (first ++ of_clusters) (lab_diags i path skip metadata)
                    none_wrong))
                c l.in_lab (run_rules i path skip context) (lint_cluster-eq l)
        ]

    rule-NoErrors :
        Linted metadata c resources
        → (r : CheckRule V J) → Memᴰ r (cluster_rules i)
        → contains skip r.rule_name ≡ false
        → NoErrors (r.check context)
    unfolding run_rules
    rule-NoErrors l r m kept =
        let run = keep (λ q. not (contains skip q.rule_name)) (cluster_rules i) in
        flat_map-NoErrors (λ q. q.check context) run r
          (front-NoErrors (flat_map (λ q. q.check context) run) _ (run_rules-NoErrors l))
          (keep-Mem (λ q. not (contains skip q.rule_name)) (cluster_rules i) r m
            (ground (arith, kept)))

    -- The resource is an ExternalSecret whose Secret has the name.
    abbrev pub IsTarget : String → K8sResource V → Type 0
    IsTarget name r =
        (r.kind ≡ "ExternalSecret")
        × (or_else (and_then (at_path i.yaml r.raw ("spec" ∷ "target" ∷ "name" ∷ [])) i.yaml.as_str)
              r.name
            ≡ name)

    -- What accounts for the references of a resource: a resource of the cluster, or a name that the
    -- metadata of the cluster gives as materialised at run time; for a Secret also the name of a
    -- projection there, or the target of an ExternalSecret.
    pub record Accounted (r : K8sResource V) : Type 0 where
      pub configmaps :
          (name : String)
          → Memᴰ name r.configmap_refs
          → Available i.yaml resources "ConfigMap" (materialised i context) r.namespace name
      pub secrets :
          (name : String)
          → Memᴰ name r.secret_refs
          → Available i.yaml resources "Secret"
              (projections_of i (get c metadata.clusters) ++ materialised i context)
              r.namespace
              name
            ⊎ ((s : K8sResource V) × Memᴰ s resources × IsTarget name s)

    external-IsTarget :
        (name : String)
        → Memᴰ name (external_secret_targets i resources)
        → (s : K8sResource V) × Memᴰ s resources × IsTarget name s
    unfolding external_secret_targets
    external-IsTarget name m =
        let (s, n, e) =
          Mem-map
            (λ r.
              or_else
                (and_then (at_path i.yaml r.raw ("spec" ∷ "target" ∷ "name" ∷ [])) i.yaml.as_str)
                r.name)
            (keep (λ r. r.kind == "ExternalSecret") resources) name m in
        let (there, k) = Mem-keep (λ r. r.kind == "ExternalSecret") resources s n in
        (s, there, ((eq_iff s.kind "ExternalSecret").0 k, e))

    Satisfied-Accounted :
        (r : K8sResource V)
        → Satisfied i.yaml resources c context.projection_names (materialised i context) r
        → Accounted r
    unfolding context_of
    Satisfied-Accounted r h =
        let projected = projections_of i (get c metadata.clusters) in
        let made = materialised i context in
        record {
          configmaps = h.configmaps;
          secrets = λ name m. elim (h.secrets name m) [
            | inl by_resource ↦ inl (inl by_resource)
            | inr told ↦
                elim (Mem-append (projected ++ external_secret_targets i resources) made name
                  told) [
                    | inr late ↦ inl (inr (Mem-back projected made name late))
                    | inl early ↦
                        elim (Mem-append projected (external_secret_targets i resources) name
                          early) [
                            | inl here ↦ inl (inr (Mem-front projected made name here))
                            | inr target ↦ inr (external-IsTarget name target)
                          ]
                  ]
          ];
        }

    -- In a lab whose metadata can be read and that passes the linter with the reference rule, for a cluster
    -- of the lab whose manifests are there and can be loaded: every ConfigMap and Secret that a resource
    -- references is accounted for. A resource of the cluster has that kind, namespace and name; or the
    -- metadata of the cluster gives the name as materialised at run time or, for a Secret, as a
    -- projection; or, for a Secret, an ExternalSecret of the cluster has it as its target; or the
    -- rule exempts it, because the namespace has a Job or a CronJob, or a Certificate, a database
    -- Cluster or a SetupKey there stands for a Secret of the name, even where a ConfigMap is
    -- referenced. A resource that opts out of the rule is excepted.
    pub run_lint-Satisfied :
        Linted metadata c resources
        → contains skip "reference" ≡ false
        → (r : K8sResource V) → Memᴰ r resources
        → has_lint_skip r "reference" ≡ false
        → Accounted r
    unfolding cluster_rules context_of
    run_lint-Satisfied l kept r m asked =
        let rule : CheckRule V J = record {
          rule_name = "reference";
          check = λ ctx.
              check_references i.yaml ctx.resources ctx.cluster ctx.projection_names
                (materialised i ctx);
        } in
        let there : Memᴰ rule (cluster_rules i) =
          Memᴰ.tail (Memᴰ.tail (Memᴰ.tail (Memᴰ.tail (Memᴰ.head refl)))) in
        Satisfied-Accounted r (
          check_references-Satisfied i.yaml resources c context.projection_names
            (materialised i context) (rule-NoErrors l rule there kept) r m asked)

    -- In a lab that passes the linter with the identity rule, no two resources of a rendered cluster
    -- have the same API version, kind, namespace and name.
    pub run_lint-Identities :
        Linted metadata c resources → contains skip "identity" ≡ false → Identities resources
    unfolding cluster_rules context_of
    run_lint-Identities l kept =
        let rule : CheckRule V J = record {
          rule_name = "identity";
          check = λ ctx. check_identity ctx.resources ctx.cluster;
        } in
        let there : Memᴰ rule (cluster_rules i) = Memᴰ.tail (Memᴰ.head refl) in
        check_identity-Identities resources c (rule-NoErrors l rule there kept)

    -- In a lab whose metadata can be read and that passes the linter with the network-policy rule, for a
    -- cluster of the lab whose manifests are there and can be loaded, and whose metadata enables network
    -- policies: every flow between namespaces that a route or the text of a resource needs is allowed by
    -- a rule of a policy among the resources of the cluster.
    pub run_lint-PolicyAllows :
        Linted metadata c resources
        → contains skip "network-policy" ≡ false
        → (meta : ClusterMetadata J) → get c metadata.clusters ≡ some meta
        → meta.network_policies.enabled ≡ true
        → (f : Flow)
        → Needed i.yaml
            (service_inventory i.yaml resources [])
            (or_else (get c metadata.lab_namespaces) [])
            resources
            f
        → (r : K8sResource V) × Memᴰ r resources × PolicyAllows i.yaml r f
    unfolding cluster_rules context_of
    run_lint-PolicyAllows l kept meta of_cluster enabled f need =
        let rule : CheckRule V J = record {
          rule_name = "network-policy";
          check = check_network i.yaml i.json_shape;
        } in
        let there : Memᴰ rule (cluster_rules i) = Memᴰ.tail (
          Memᴰ.tail (
            Memᴰ.tail (
              Memᴰ.tail
                (Memᴰ.tail (Memᴰ.tail (Memᴰ.tail (Memᴰ.tail (Memᴰ.tail (Memᴰ.head refl))))))))) in
        check_network-PolicyAllows i.yaml i.json_shape context meta of_cluster enabled
          (rule-NoErrors l rule there kept) f need
