-- ===== src/Managed/Wait.antt =====
-- cli/src/plan/steps/wait_for_cluster_gone.rs: the step that waits until a cluster's resource is gone.
use catallaxy.Prelude.{
  ℕ, Bool, true, false, Option, none, some, List, [], ◌∷◌, String, ◌<>◌, ◌==◌, ◌&&◌, is_empty,
  decimal, any, if◌then◌else◌,
}
use catallaxy.Teardown.{ResourceRef, StepFailure, failure, on_resource, concerns}
use catallaxy.Plan.Params.{WaitForClusterGoneParams}
use catallaxy.Executor.{Machine}
use catallaxy.Managed.{
  answered, gave_up, out_of_fuel, poll_while_time_remains, Output, Kubectl, unwrap_or, fail,
}

pub data Outcome : Type 0 where
  gone still_present cannot_tell : Outcome

unfoldable pub classify : Bool → String → Outcome
classify true stdout = if is_empty stdout then gone else still_present
classify false stdout = cannot_tell

abbrev pub step_name : String
step_name = "wait-for-cluster-gone"

unfoldable pub prior_delete_failed : List StepFailure → ResourceRef → Bool
prior_delete_failed failures resource =
    any (λ f. f.step == "delete-managed-resource" && concerns f resource) failures

abbrev pub get_args : String → String → List String
get_args kind name = "get" ∷ kind ∷ name ∷ "--ignore-not-found" ∷ "-o" ∷ "name" ∷ []

-- What the closure makes of one answer of kubectl.
abbrev pub judge : Option Output → Outcome
judge (some o) = classify o.success o.stdout
judge none = cannot_tell

-- `return Some(Outcome::Gone)`, and `None` at the end of the closure.
abbrev pub answer_of : Outcome → Option Outcome
answer_of gone = some gone
answer_of still_present = none
answer_of cannot_tell = none

module _ {W V : Type 0} (k : Kubectl W V) (kube_ctx kind name : String) where
  -- The closure: the world, and `last`.
  unfoldable pub probe : W × Outcome → Option Outcome × (W × Outcome)
  unfolding classify
  probe (w, last) =
      let (out, w') = k.output kube_ctx (get_args kind name) w in
      (answer_of (judge out), (w', judge out))

  unfoldable pub poll_until_gone : ℕ → ℕ → W → Option (Outcome × W)
  unfolding poll_while_time_remains probe
  poll_until_gone fuel timeout_secs w =
      elim (poll_while_time_remains (λ s. k.now s.0) (λ n s. (k.sleep n s.0, s.1)) probe fuel
        timeout_secs 20 (w, cannot_tell)) [
          | answered outcome s ↦ some (outcome, s.0)
          | gave_up s ↦ some (s.1, s.0)
          | out_of_fuel ↦ none
        ]

module _ {W V : Type 0} (k : Kubectl W V) where
  -- What is done with the outcome of the poll.
  unfoldable pub settle : String → String → String → String → ℕ → Outcome → Machine W → Machine W
  settle target kube_ctx kind name timeout_secs gone m = record m {
    world = k.cleanup_kubeconfig target m.world;
  }
  settle target kube_ctx kind name timeout_secs still_present m = fail m (
      on_resource step_name kind name
        ("still present on '" <> (kube_ctx <> ("' after " <> (decimal timeout_secs <> "s")))))
  settle target kube_ctx kind name timeout_secs cannot_tell m = fail m (
      on_resource step_name kind name (
        "'"
        <> (kube_ctx
            <> ("' was unreachable for "
                <> (decimal timeout_secs <> "s, so deletion was never confirmed")))))

  -- The step, `none` where the fuel runs out. The errors of the clean-up are only printed.
  unfoldable pub run : ℕ → WaitForClusterGoneParams → Machine W → Option (Machine W)
  unfolding prior_delete_failed poll_until_gone settle
  run fuel p m =
      let timeout_secs = unwrap_or p.wait_timeout_seconds 600 in
      let target = unwrap_or p.target "unknown" in
      let kube_ctx = unwrap_or p.kube_context target in
      let kind = unwrap_or p.resource_kind "" in
      let name = unwrap_or p.resource_name target in
      if is_empty kind
      then some (
          fail m (
            failure step_name
              ("'" <> (target <> "' has no resource kind, so nothing could be confirmed"))))
      else if prior_delete_failed m.failures (record { kind = kind; name = name })
      then some (
          fail m (
            on_resource step_name kind name
              "the delete step failed earlier, so nothing was going to remove the CR"))
      else elim (poll_until_gone k kube_ctx kind name fuel timeout_secs m.world) [
        | none ↦ none
        | some (outcome, w) ↦
            some (settle target kube_ctx kind name timeout_secs outcome (record m { world = w }))
      ]
