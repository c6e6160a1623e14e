-- ===== src/Lint/Selector.antt =====
-- cli/src/lint/rules/selector.rs: the Services whose selector takes no pods of a workload.
use catallaxy.Prelude.{
  Bool, false, not, ◌&&◌, ◌||◌, Option, none, some, List, [], ◌∷◌, String, ◌==◌, Map, get, any, all,
  flat_map, filter_map, contains, if◌then◌else◌,
}
use catallaxy.Lint.{Diagnostic, warning}
use catallaxy.Lint.Manifest.{K8sResource, is_service, is_workload, has_lint_skip, ends_with}
use catallaxy.Lint.Context.{resource_diag}
use catallaxy.Lint.Basics.{same_namespace}

abbrev pub kube_system_services : List String
kube_system_services =
    "kube-controller-manager" ∷ "kube-scheduler" ∷ "kube-proxy" ∷ "kube-etcd" ∷ "coredns" ∷ []

-- `labels.get(k) == Some(v)`
abbrev pub has_label : Map String → String × String → Bool
has_label labels (k, v) = elim (get k labels) [ none ↦ false | some w ↦ w == v ]

module _ {V : Type 0} where
  unfoldable pub is_kube_system_service : K8sResource V → Bool
  is_kube_system_service r =
      same_namespace r.namespace (some "kube-system")
      && any (λ svc. ends_with r.name svc) kube_system_services

  unfoldable pub is_operator_managed_workload_service : K8sResource V → Bool
  is_operator_managed_workload_service r = elim r.selector [
    | none ↦ false
    | some selector ↦ elim (get "app.kubernetes.io/name" selector) [
      | none ↦ false
      | some app_name ↦ contains ("prometheus" ∷ "alertmanager" ∷ []) app_name
    ]
  ]

  -- The labels of the pods of the workloads in a namespace.
  unfoldable pub workloads_in : List (K8sResource V) → Option String → List (Map String)
  workloads_in resources ns =
      filter_map
        (λ r. if is_workload r && same_namespace r.namespace ns then r.pod_labels else none)
        resources

  abbrev pub has_match : List (K8sResource V) → K8sResource V → Map String → Bool
  has_match resources r selector =
      any (λ labels. all (has_label labels) selector) (workloads_in resources r.namespace)

  abbrev pub is_exempt : K8sResource V → Bool
  is_exempt r =
      not (is_service r)
      || has_lint_skip r "selector"
      || is_kube_system_service r
      || is_operator_managed_workload_service r

  unfoldable pub selector_of : List (K8sResource V) → String → K8sResource V → List Diagnostic
  unfolding workloads_in is_kube_system_service is_operator_managed_workload_service
  selector_of resources cluster r = if is_exempt r then [] else elim r.selector [
    | none ↦ []
    | some selector ↦
        if has_match resources r selector
        then []
        else resource_diag warning "selector" cluster r
            "no matching workload found for service selector"
          ∷ []
  ]

  unfoldable pub check_selector : List (K8sResource V) → String → List Diagnostic
  unfolding selector_of
  check_selector resources cluster = flat_map (selector_of resources cluster) resources
