-- ===== src/Managed/Delete.antt =====
-- cli/src/plan/steps/delete_managed_resource.rs: the step that deletes a resource which Crossplane
-- manages, and waits until it is gone. What is printed is left out.
use catallaxy.Prelude.{
  ℕ, Bool, true, false, not, Option, none, some, List, [], ◌∷◌, String, ◌<>◌, is_empty, is_nil,
  decimal, length, if◌then◌else◌,
}
use catallaxy.Teardown.{failure, on_resource}
use catallaxy.Plan.Params.{DeleteManagedResourceParams}
use catallaxy.Executor.{Machine}
use catallaxy.Managed.{
  answered, gave_up, out_of_fuel, poll_while_time_remains, Output, exited, not_run, Kubectl, Json,
  unwrap_or, fail, is_blank, managed_state_of, is_deletable,
}

abbrev pub step_name : String
step_name = "delete-managed-resource"

abbrev pub get_args : String → String → List String
get_args kind name = "get" ∷ (kind <> ("/" <> name)) ∷ "--no-headers" ∷ "--ignore-not-found" ∷ []

-- What the closure makes of one answer of kubectl.
abbrev pub judge : Option Output → Option (Unit {0})
judge (some o) = if is_blank o.stdout then some tt else none
judge none = none

module _ {W V : Type 0} (k : Kubectl W V) (kube_ctx kind name : String) where
  unfoldable pub probe : W → Option (Unit {0}) × W
  unfolding is_blank
  probe w = let (out, w') = k.output kube_ctx (get_args kind name) w in (judge out, w')

  unfoldable pub poll_until_gone : ℕ → ℕ → W → Option (Bool × W)
  unfolding poll_while_time_remains probe
  poll_until_gone fuel timeout_secs w =
      elim (poll_while_time_remains k.now k.sleep probe fuel timeout_secs 20 w) [
        | answered _ w' ↦ some (true, w')
        | gave_up w' ↦ some (false, w')
        | out_of_fuel ↦ none
      ]

  abbrev pub delete_args : Bool → List String
  delete_args true = "delete" ∷ (kind <> ("/" <> name)) ∷ "--ignore-not-found" ∷ []
  delete_args false =
      "delete" ∷ (kind <> ("/" <> name)) ∷ "--ignore-not-found" ∷ "--wait=false" ∷ []

  unfoldable pub issue_delete : Bool → Machine W → Bool × Machine W
  issue_delete wait m =
      let (exit, w) = k.status kube_ctx (delete_args wait) m.world in
      let m' : Machine W = record m { world = w } in
      elim exit [
        | exited true code ↦ (true, m')
        | exited false code ↦ (
          false,
          fail m' (
              on_resource step_name kind name
                ("kubectl delete on '" <> (kube_ctx <> ("' exited " <> code)))),
        )
        | not_run e ↦ (
          false,
          fail m' (
              on_resource step_name kind name
                ("kubectl could not be run against '" <> (kube_ctx <> ("': " <> e)))),
        )
      ]

  unfoldable pub report_missing_cr : Machine W → Machine W
  report_missing_cr m =
      let (existing, w) = k.list_all_of_kind kube_ctx kind m.world in
      let m' : Machine W = record m { world = w } in
      if is_nil existing
      then m'
      else fail m' (
          on_resource step_name kind name
            ("not found; " <> (decimal (length existing) <> " orphaned CR(s) present")))

  -- The step after the delete was accepted.
  unfoldable pub await_gone : ℕ → Bool → ℕ → Machine W → Option (Machine W)
  unfolding poll_until_gone
  await_gone fuel false timeout_secs m = some m
  await_gone fuel true timeout_secs m = elim (poll_until_gone fuel timeout_secs m.world) [
    | none ↦ none
    | some (true, w) ↦ some (record m { world = w })
    | some (false, w) ↦ some (
        fail (record m { world = w })
          (on_resource step_name kind name
            ("still present on '" <> (kube_ctx <> ("' after " <> (decimal timeout_secs <> "s"))))))
  ]

  -- The step from the custom resource on.
  unfoldable pub delete_found : Json V → ℕ → Bool → ℕ → V → Machine W → Option (Machine W)
  unfolding managed_state_of is_deletable issue_delete await_gone
  delete_found json fuel wait timeout_secs cr m =
      if not (is_deletable (managed_state_of json cr))
      then some (fail m (on_resource step_name kind name "preflight refused the delete"))
      else let (accepted, m') = issue_delete wait m in
        (if accepted then await_gone fuel wait timeout_secs m' else some m')

module _ {W V : Type 0} (k : Kubectl W V) (json : Json V) where
  -- The step on a cluster that answers.
  unfoldable pub run_reachable :
      String → String → String → ℕ → Bool → ℕ → Machine W → Option (Machine W)
  unfolding report_missing_cr delete_found
  run_reachable kube_ctx kind name fuel wait timeout_secs m =
      let (cr, w) = k.resource_json kube_ctx (kind <> ("/" <> name)) m.world in
      let m' : Machine W = record m { world = w } in
      elim cr [
        | none ↦ some (report_missing_cr k kube_ctx kind name m')
        | some cr ↦ delete_found k kube_ctx kind name json fuel wait timeout_secs cr m'
      ]

  -- The step, `none` where the fuel runs out.
  unfoldable pub run : ℕ → DeleteManagedResourceParams → Machine W → Option (Machine W)
  unfolding run_reachable
  run fuel p m =
      let wait = unwrap_or p.wait true in
      let timeout_secs = unwrap_or p.wait_timeout_seconds 1200 in
      let kube_ctx = unwrap_or p.kube_context p.target in
      let kind = p.resource_kind in
      let name = p.resource_name in
      if is_empty kind
      then some (fail m (failure step_name "missing kind"))
      else let (reachable, w) = k.api_reachable kube_ctx m.world in
        let m' : Machine W = record m { world = w } in
        (if not reachable
          then some (
              fail m' (
                on_resource step_name kind name
                  ("'" <> (kube_ctx <> "' not reachable, so the CR was never deleted"))))
          else run_reachable kube_ctx kind name fuel wait timeout_secs m')
