-- ===== src/Lint/References/Available.antt =====
-- What the rule of references.rs means by a reference that exists.
use catallaxy.Prelude.{
  ◌≡◌, refl, ap, sym, ◌∙◌, subst, ◌⊎◌, inl, inr, Bool, true, false, ◌||◌, ◌&&◌, Option, none, some,
  List, [], ◌∷◌, ◌++◌, String, ◌<>◌, ◌==◌, and_then, Mem-append, eq_iff, arith, any, contains,
  any-Mem, any-append, Mem-filter_map, Mem-flat_map, flat_map-Mem, Bool-cases, some-injective,
  if◌then◌else◌,
}
use mathlib.Core.List.{Memᴰ}
use text.Mathlib.Text.{starts_with}
use catallaxy.Lint.Yaml.{Yaml, at_path}
use catallaxy.Lint.Manifest.{K8sResource, has_lint_skip}
use catallaxy.Lint.Basics.{same_namespace}
use catallaxy.Lint.References.{
  Named, has_name, names_where, runs_jobs, namespaces_with_jobs, promised_of, certificate_of,
  promised_by_custom_resources, made_later, configmap_exists, secret_exists, dangling, dangling_in,
  references_of, check_references,
}
use catallaxy.Lint.Quiet.{NoErrors, flat_map-NoErrors, front-NoErrors, back-NoErrors}

pub same_namespace-eq : (a b : Option String) → same_namespace a b ≡ true → a ≡ b
same_namespace-eq none none h = refl
same_namespace-eq none (some b) h = absurd (cc)
same_namespace-eq (some a) none h = absurd (cc)
same_namespace-eq (some a) (some b) h = ap some ((eq_iff a b).0 h)

module _ {V : Type 0} (y : Yaml V) where
  -- The resource is the one that is referenced.
  pub record Declares (kind : String) (ns : Option String) (name : String) (r : K8sResource V)
      : Type 0 where
    pub of_kind : r.kind ≡ kind
    pub placed_in : r.namespace ≡ ns
    pub named : r.name ≡ name

  -- The resource keeps the rule from a report on a name in a namespace, whatever the kind that is
  -- referenced: it is a Job or a CronJob there, which may make anything, or a custom resource for
  -- which a controller makes a Secret of the name.
  pub data Exempts (ns : Option String) (name : String) (r : K8sResource V) : Type 0 where
    by_job : (r.kind ≡ "Job") ⊎ (r.kind ≡ "CronJob") → r.namespace ≡ ns → Exempts ns name r
    by_certificate :
        r.kind ≡ "Certificate"
        → starts_with r.api_version "cert-manager.io/" ≡ true
        → r.namespace ≡ ns
        → and_then (at_path y r.raw ("spec" ∷ "secretName" ∷ [])) y.as_str ≡ some name
        → Exempts ns name r
    by_database :
        r.kind ≡ "Cluster"
        → starts_with r.api_version "postgresql.cnpg.io/" ≡ true
        → r.namespace ≡ ns
        → r.name <> "-app" ≡ name
        → Exempts ns name r
    by_setup_key :
        r.kind ≡ "SetupKey"
        → starts_with r.api_version "netbird.io/" ≡ true
        → r.namespace ≡ ns
        → "setup-key-" <> r.name ≡ name
        → Exempts ns name r

  abbrev pub Accounts : String → Option String → String → K8sResource V → Type 0
  Accounts kind ns name r = Declares kind ns name r ⊎ Exempts ns name r

  -- Some resource of the cluster accounts for it, or it is one of the names made elsewhere.
  abbrev pub Available :
      List (K8sResource V) → String → List String → Option String → String → Type 0
  Available resources kind elsewhere ns name =
      ((r : K8sResource V) × Memᴰ r resources × Accounts kind ns name r) ⊎ Memᴰ name elsewhere

  contains-Mem :
      (names : List String) (name : String) → contains names name ≡ true → Memᴰ name names
  contains-Mem names name h =
      let (s, m, e) = any-Mem (λ s. s == name) names h in
      subst (λ t. Memᴰ t names) ((eq_iff s name).0 e) m

  certificate-Exempts :
      (r : K8sResource V) (o : Option String) (ns : Option String) (name : String)
      → r.kind ≡ "Certificate"
      → starts_with r.api_version "cert-manager.io/" ≡ true
      → and_then (at_path y r.raw ("spec" ∷ "secretName" ∷ [])) y.as_str ≡ o
      → Memᴰ {A = Named} (ns, name) (elim o [ none ↦ [] | some n ↦ (r.namespace, n) ∷ [] ])
      → Exempts ns name r
  certificate-Exempts r none ns name k v e m = elim m [ ]
  certificate-Exempts r (some n) ns name k v e (Memᴰ.head same) =
      by_certificate k v (sym (ap (λ q. q.0) same)) (e ∙ ap some (sym (ap (λ q. q.1) same)))
  certificate-Exempts r (some n) ns name k v e (Memᴰ.tail m) = elim m [ ]

  one-Mem :
      {A : Type 0} (b : Bool) (x a : A) → Memᴰ a (if b then x ∷ [] else []) → (b ≡ true) × (a ≡ x)
  one-Mem true x a (Memᴰ.head e) = (refl, e)
  one-Mem true x a (Memᴰ.tail m) = elim m [ ]
  one-Mem false x a m = elim m [ ]

  typed : (a b : String) (c : Bool) → ((a == b) && c) ≡ true → (a ≡ b) × (c ≡ true)
  typed a b c h = ((eq_iff a b).0 (ground arith), ground arith)

  promised_of-Exempts :
      (r : K8sResource V) (ns : Option String) (name : String)
      → Memᴰ (ns, name) (promised_of y r)
      → Exempts ns name r
  promised_of-Exempts r ns name m =
      let certificates = certificate_of y r in
      let is_certificate =
        (r.kind == "Certificate") && starts_with r.api_version "cert-manager.io/" in
      let is_database = (r.kind == "Cluster") && starts_with r.api_version "postgresql.cnpg.io/" in
      let is_setup_key = (r.kind == "SetupKey") && starts_with r.api_version "netbird.io/" in
      let database_of : List Named =
        if is_database then (r.namespace, r.name <> "-app") ∷ [] else [] in
      let setup_key_of : List Named =
        if is_setup_key then (r.namespace, "setup-key-" <> r.name) ∷ [] else [] in
      elim (Mem-append (certificates ++ database_of) setup_key_of _ m) [
        | inr n ↦
            let (hit, same) =
              one-Mem is_setup_key (r.namespace, "setup-key-" <> r.name) (ns, name) n in
            let (k, v) = typed r.kind "SetupKey" (starts_with r.api_version "netbird.io/") hit in
            by_setup_key k v (sym (ap (λ q. q.0) same)) (sym (ap (λ q. q.1) same))
        | inl n ↦ elim (Mem-append certificates database_of _ n) [
          | inl n ↦ elim (Bool-cases is_certificate) [
            | inl hit ↦
                let (k, v) =
                  typed r.kind "Certificate" (starts_with r.api_version "cert-manager.io/") hit in
                certificate-Exempts r _ ns name k v refl (rw hit at n)
            | inr miss ↦ elim (rw miss at n) [ ]
          ]
          | inr n ↦
              let (hit, same) = one-Mem is_database (r.namespace, r.name <> "-app") (ns, name) n in
              let (k, v) =
                typed r.kind "Cluster" (starts_with r.api_version "postgresql.cnpg.io/") hit in
              by_database k v (sym (ap (λ q. q.0) same)) (sym (ap (λ q. q.1) same))
        ]
      ]

  runs_jobs-kind :
      (r : K8sResource V) → runs_jobs r ≡ true → (r.kind ≡ "Job") ⊎ (r.kind ≡ "CronJob")
  runs_jobs-kind r h = elim (Bool-cases (r.kind == "Job")) [
    | inl job ↦ inl ((eq_iff r.kind "Job").0 job)
    | inr other ↦ inr ((eq_iff r.kind "CronJob").0 (ground arith))
  ]

  has_name-Mem :
      (names : List Named) (ns : Option String) (name : String)
      → has_name names ns name ≡ true
      → Memᴰ (ns, name) names
  has_name-Mem names ns name h =
      let (n, m, e) = any-Mem (λ n. same_namespace n.0 ns && (n.1 == name)) names h in
      let first : n.0 ≡ ns = same_namespace-eq n.0 ns (ground arith) in
      let second : n.1 ≡ name = (eq_iff n.1 name).0 (ground arith) in
      subst (λ q. Memᴰ q names) (ap (λ a. (a, n.1)) first ∙ ap (λ b. (ns, b)) second) m

  names_where-Mem :
      (p : K8sResource V → Bool) (resources : List (K8sResource V)) (ns : Option String)
      (name : String)
      → Memᴰ (ns, name) (names_where p resources)
      → (r : K8sResource V) × Memᴰ r resources × (p r ≡ true) × (r.namespace ≡ ns) × (r.name ≡ name)
  names_where-Mem p resources ns name m =
      let (r, n, e) =
        Mem-filter_map (λ r. if p r then some (r.namespace, r.name) else none) resources (ns, name)
          m in
      elim (Bool-cases (p r)) [
        | inl hit ↦
            let same : (r.namespace, r.name) ≡ (ns, name) = some-injective (rw hit at e) in
            (r, n, hit, ap (λ q. q.0) same, ap (λ q. q.1) same)
        | inr miss ↦ absurd (ground arith)
      ]

  made_later-Exempts :
      (resources : List (K8sResource V)) (ns : Option String) (name : String)
      → made_later y resources ns name ≡ true
      → (r : K8sResource V) × Memᴰ r resources × Exempts ns name r
  unfolding promised_by_custom_resources namespaces_with_jobs
  made_later-Exempts resources ns name h =
      elim (Bool-cases (has_name (promised_by_custom_resources y resources) ns name)) [
        | inl promised ↦
            let (r, m, e) =
              Mem-flat_map (promised_of y) resources (ns, name)
                (has_name-Mem (promised_by_custom_resources y resources) ns name promised) in
            (r, m, promised_of-Exempts r ns name e)
        | inr not_promised ↦
            let jobs : any (λ job_ns. same_namespace job_ns ns) (namespaces_with_jobs resources)
                ≡ true =
              ground arith in
            let (job_ns, m, e) =
              any-Mem (λ job_ns. same_namespace job_ns ns) (namespaces_with_jobs resources) jobs in
            let (r, n, k) =
              Mem-filter_map (λ r. if runs_jobs r then some r.namespace else none) resources job_ns
                m in
            elim (Bool-cases (runs_jobs r)) [
              | inl hit ↦
                  let same : some r.namespace ≡ some job_ns = rw hit at k in
                  (
                    r,
                    n,
                    by_job (runs_jobs-kind r hit)
                        (some-injective same ∙ same_namespace-eq job_ns ns e),
                  )
              | inr miss ↦ absurd (ground arith)
            ]
      ]

  found-Available :
      (resources : List (K8sResource V)) (kind : String) (elsewhere : List String)
      (ns : Option String) (name : String)
      → (has_name (names_where (λ r. r.kind == kind) resources) ns name
          || contains elsewhere name
          || made_later y resources ns name)
        ≡ true
      → Available resources kind elsewhere ns name
  found-Available resources kind elsewhere ns name h =
      let of_kind = λ (r : K8sResource V). r.kind == kind in
      elim (Bool-cases (has_name (names_where of_kind resources) ns name)) [
        | inl named ↦
            let (r, m, k, n, e) =
              names_where-Mem of_kind resources ns name
                (has_name-Mem (names_where of_kind resources) ns name named) in
            inl
              (r, m, inl (record { of_kind = (eq_iff r.kind kind).0 k; placed_in = n; named = e }))
        | inr unnamed ↦ elim (Bool-cases (contains elsewhere name)) [
          | inl made ↦ inr (contains-Mem elsewhere name made)
          | inr unmade ↦
              let (r, m, e) = made_later-Exempts resources ns name (ground arith) in
              inl (r, m, inr e)
        ]
      ]

  dangling_in-NoErrors :
      (found : String → Bool) (cluster : String) (r : K8sResource V) (kind : String)
      (names : List String)
      → NoErrors (dangling_in y found cluster r kind names)
      → (name : String) → Memᴰ name names
      → found name ≡ true
  dangling_in-NoErrors found cluster r kind names h name m =
      let report = λ (n : String). (if found n then [] else dangling y cluster r kind n ∷ []) in
      elim (Bool-cases (found name)) [
        | inl hit ↦ hit
        | inr miss ↦
            let there : Memᴰ (dangling y cluster r kind name) (report name) =
              rw miss (Memᴰ.head refl) in
            absurd (
              ground (
                arith,
                h (dangling y cluster r kind name)
                    (flat_map-Mem report names name (dangling y cluster r kind name) m there),
              ))
      ]

  module _ (resources : List (K8sResource V)) (cluster : String)
      (projected made : List String) where
    -- Every reference of the resource is available; a Secret may also be a projection.
    pub record Satisfied (r : K8sResource V) : Type 0 where
      pub configmaps :
          (name : String)
          → Memᴰ name r.configmap_refs
          → Available resources "ConfigMap" made r.namespace name
      pub secrets :
          (name : String)
          → Memᴰ name r.secret_refs
          → Available resources "Secret" (projected ++ made) r.namespace name

    pub check_references-Satisfied :
        NoErrors (check_references y resources cluster projected made)
        → (r : K8sResource V) → Memᴰ r resources
        → has_lint_skip r "reference" ≡ false
        → Satisfied r
    unfolding check_references references_of configmap_exists secret_exists
    check_references-Satisfied h r m skipped =
        let here =
          flat_map-NoErrors (references_of y resources cluster projected made) resources r h m in
        let cms =
          dangling_in y (configmap_exists y resources made r.namespace) cluster r "ConfigMap"
            r.configmap_refs in
        let secs =
          dangling_in y (secret_exists y resources projected made r.namespace) cluster r "Secret"
            r.secret_refs in
        let both : NoErrors (cms ++ secs) = rw (skipped, references_of) at here in
        record {
          configmaps = λ name n.
              let found =
                dangling_in-NoErrors (configmap_exists y resources made r.namespace) cluster r
                  "ConfigMap" r.configmap_refs (front-NoErrors cms secs both) name n in
              found-Available resources "ConfigMap" made r.namespace name found;
          secrets = λ name n.
              let found =
                dangling_in-NoErrors (secret_exists y resources projected made r.namespace) cluster
                  r "Secret" r.secret_refs (back-NoErrors cms secs both) name n in
              found-Available resources "Secret" (projected ++ made) r.namespace name
                (ground (arith, any-append (λ s. s == name) projected made, found));
        }
