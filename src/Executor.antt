-- ===== src/Executor.antt =====
-- cli/src/plan/executor.rs: loading a plan, running its steps with retries, and the verdict of a run.
-- What it prints is left out. The outside world, the step modules included, is the parameter `Env`.
mod Defs
pub mod Retry
pub mod Steps
pub mod DryRun
pub mod Stop
pub mod Verdict
pub mod Unbuilt
mod Tests
unfoldable pub use Defs.*
use catallaxy.Prelude.{
  ℕ, zero, suc, ◌+◌, ◌-◌, ◌^◌, Bool, true, false, not, ◌&&◌, Option, none, some, List, [], ◌∷◌,
  String, ◌<>◌, ◌==◌, ltb, eqb, is_nil, length, map, sort_texts, if◌then◌else◌,
}
use catallaxy.StepKind
use catallaxy.StepKind.{Direction, deploy, teardown, all_kinds, from_tag, tag}
use catallaxy.Plan
use catallaxy.Plan.{PlannedStep, refuse_wrong_direction}
use catallaxy.Teardown.{StepFailure, failure}

abbrev max_backoff_secs : ℕ
max_backoff_secs = 60

-- `2u64.checked_pow(exponent)`: none where the power does not fit.
unfoldable pub checked_pow2 : ℕ → Option ℕ
checked_pow2 exponent = if ltb exponent 64 then some (2 ^ exponent) else none

-- The seconds before attempt number `attempt`, which is at least 2.
unfoldable pub backoff_secs : ℕ → ℕ
unfolding checked_pow2
backoff_secs attempt = elim (checked_pow2 (attempt - 2)) [ some n ↦ n | none ↦ max_backoff_secs ]

abbrev pub plan_of : {V L : Type 0} → LabSpec V L → Direction → List (PlannedStep V)
plan_of lab deploy = lab.deployment_plan
plan_of lab teardown = lab.teardown_plan

-- `rposition` of a step with the tag: the last one.
unfoldable pub rposition : {V : Type 0} → String → List (PlannedStep V) → Option ℕ
rposition t [] = none
rposition t (step ∷ steps) = elim (rposition t steps) [
  | some i ↦ some (suc i)
  | none ↦ if Plan.type_tag step == t then some 0 else none
]

module _ {S E A : Type 0} where
  -- A pure result inside a run.
  abbrev pub lift : Result E A → Run S E A
  lift r s = (r, s)

  -- `with_context`
  abbrev pub with_context : (E → E) → Run S E A → Run S E A
  with_context f m s = elim (m s).0 [
    | ok a ↦ (ok a, (m s).1)
    | err e ↦ (err (f e), (m s).1)
    | panic ↦ (panic, (m s).1)
  ]

module _ {V : Type 0} (E : Type 0) where
  -- The loop of `load_steps`: the first step that cannot run in the direction.
  unfoldable pub refuse_steps :
      Direction → ℕ → List (PlannedStep V) → Result (ExecError E) (Unit {0})
  refuse_steps d i [] = ok tt
  refuse_steps d i (step ∷ steps) = elim (refuse_wrong_direction step d i) [
    | none ↦ refuse_steps d (suc i) steps
    | some e ↦ err (wrong_direction e)
  ]

  unfoldable pub resolve_stop_after :
      List (PlannedStep V) → Option String → Direction → Result (ExecError E) (Option ℕ)
  resolve_stop_after steps none d = ok none
  resolve_stop_after steps (some t) d = elim (rposition t steps) [
    | some i ↦ ok (some i)
    | none ↦ elim (from_tag t) [
      | some known ↦ err (no_such_step t d)
      | none ↦ err (not_a_kind t (sort_texts (map tag all_kinds)))
    ]
  ]

-- A reference with no fragment names the lab.
abbrev pub with_fragment : Context → String → Context
with_fragment ctx lab_name = elim ctx.fragment [
  | some f ↦ ctx
  | none ↦ record ctx { fragment = some lab_name }
]

-- Whether the run stops after the step of index `i`.
abbrev pub stops_at : Option ℕ → ℕ → Bool
stops_at none i = false
stops_at (some idx) i = eqb i idx

module _ {V L C E W : Type 0} (env : Env V L C E W) where
  abbrev pub Exec : Type 0 → Type 0
  Exec A = Run (Machine W) (ExecError E) A

  unfoldable pub should_skip_if_reachable : PlannedStep V → Exec Bool
  should_skip_if_reachable step m = elim step.policy.skip_if_cluster_reachable [
    | none ↦ (ok false, m)
    | some skip_ctx ↦
        let (reachable, world) = env.api_reachable skip_ctx m.world in
        (ok reachable, record m { world = world })
  ]

  -- What happens before attempt number `attempt`.
  unfoldable pub pause : ℕ → Machine W → Machine W
  unfolding backoff_secs
  pause attempt m =
      if ltb 1 attempt then record m { world = env.sleep (backoff_secs attempt) m.world } else m

  module _ (sctx : StepContext V L C) where
    -- The `for` loop of `run_one` from attempt number `attempt`, with `left` attempts to go.
    unfoldable pub attempt_from : PlannedStep V → ℕ → ℕ → Option E → Exec (Unit {0})
    attempt_from step zero attempt (some e) m = (err (other e), m)
    attempt_from step zero attempt none m = (panic, m)
    attempt_from step (suc left) attempt last m =
        let (failed, m') = env.dispatch sctx step (pause attempt m) in
        elim failed [
          | none ↦ (ok tt, m')
          | some e ↦ attempt_from step left (suc attempt) (some e) m'
        ]

    -- `run_one` behind the test for a reachable cluster.
    unfoldable pub run_unskipped : PlannedStep V → Exec (Unit {0})
    unfolding attempt_from
    run_unskipped step =
        if sctx.dry_run && not (Plan.dry_run_safe step)
        then pure tt
        else attempt_from step (if sctx.dry_run then 1 else Plan.attempts step) 1 none

    unfoldable pub run_one : PlannedStep V → Exec (Unit {0})
    unfolding should_skip_if_reachable run_unskipped
    run_one step = do
      skip ← (if sctx.dry_run then pure false else should_skip_if_reachable step)
      (if skip then pure tt else run_unskipped step)

    -- The loop of `run_steps`, from the step of index `i`.
    unfoldable pub run_steps : ℕ → ℕ → List (PlannedStep V) → Option ℕ → Exec (Unit {0})
    run_steps total i [] stop_after = pure tt
    run_steps total i (step ∷ steps) stop_after =
        let rest = run_steps total (suc i) steps stop_after in
        with_context (step_failed (i + 1) total (Plan.label step)) (run_one step)
        >> (if stops_at stop_after i then pure tt else rest)

  -- A call of the outside that changes the world only.
  abbrev call : {A : Type 0} → (W → Result E A × W) → Run W (ExecError E) A
  call f w = elim (f w).0 [
    | ok a ↦ (ok a, (f w).1)
    | err e ↦ (err (other e), (f w).1)
    | panic ↦ (panic, (f w).1)
  ]

  unfoldable pub load_steps : LabSpec V L → Direction → Result (ExecError E) (List (PlannedStep V))
  load_steps lab d = elim (refuse_steps E d 0 (plan_of lab d)) [
    | ok _ ↦ ok (plan_of lab d)
    | err e ↦ err e
    | panic ↦ panic
  ]

  abbrev build_failed : E → StepFailure
  build_failed e = failure "build-lab-package" (
      "the lab package did not build, so every teardown hook and external-name discovery was skipped: "
      <> env.describe_error e)

  -- A teardown goes on without the package, and records that.
  unfoldable pub build_lab_package_for :
      Context → String → Direction → Run W (ExecError E) (String × List StepFailure)
  build_lab_package_for ctx lab_name deploy w =
      (call (env.build_lab_package ctx lab_name) >>= λ pkg. pure (pkg, [])) w
  build_lab_package_for ctx lab_name teardown w =
      let (built, w') = env.build_lab_package ctx lab_name w in
      elim built [
        | ok pkg ↦ (ok (pkg, []), w')
        | err e ↦ (ok ("", build_failed e ∷ []), w')
        | panic ↦ (panic, w')
      ]

  -- The end of `execute`, from the outcome of `run_steps`.
  unfoldable pub verdict :
      Direction
      → String
      → Result (ExecError E) (Unit {0})
      → Run (Machine W) (ExecError E) (Unit {0})
  verdict d lab_name (err e) m = (err e, m)
  verdict d lab_name panic m = (panic, m)
  verdict deploy lab_name (ok _) m = (ok tt, m)
  verdict teardown lab_name (ok _) m =
      if is_nil m.failures
      then (ok tt, record m { world = env.forget_lab_record lab_name m.world })
      else (err (failures_left (length m.failures)), m)

  -- The rest of `execute` from the step index to stop after.
  unfoldable pub start_steps :
      Context
      → String
      → Bool
      → Direction
      → Bool
      → LabSpec V L
      → List (PlannedStep V)
      → C
      → String × List StepFailure
      → Option ℕ
      → Run W (ExecError E) (Unit {0})
  start_steps ctx lab_name dry_run d allow_infra lab steps cache built stop_after w =
      let sctx : StepContext V L C = record {
        ctx = ctx;
        lab_name = lab_name;
        lab = lab;
        lab_package = built.0;
        secrets_cache = cache;
        dry_run = dry_run;
        allow_infra = allow_infra;
      } in
      let start : Machine W = record { world = w; failures = built.1 } in
      let ran = run_steps sctx (length steps) 0 steps stop_after start in
      let done = verdict d lab_name ran.0 ran.1 in (done.0, done.1.world)

  -- `execute` from the loaded steps on.
  unfoldable pub execute_steps :
      Context
      → String
      → Bool
      → Direction
      → Option String
      → Bool
      → LabSpec V L
      → List (PlannedStep V)
      → Run W (ExecError E) (Unit {0})
  execute_steps ctx lab_name dry_run d up_to allow_infra lab [] = pure tt
  execute_steps ctx lab_name dry_run d up_to allow_infra lab (step ∷ more) = do
    cache ← call (env.load_secrets_cache ctx lab_name lab)
    built ← build_lab_package_for ctx lab_name d
    stop_after ← lift (resolve_stop_after E (step ∷ more) up_to d)
    start_steps ctx lab_name dry_run d allow_infra lab (step ∷ more) cache built stop_after

  unfoldable pub execute :
      Context → String → Bool → Direction → Option String → Bool → Run W (ExecError E) (Unit {0})
  execute ctx₀ lab_name dry_run d up_to allow_infra = do
    let ctx = with_fragment ctx₀ lab_name
    lab ← call (env.get_lab_spec ctx lab_name)
    steps ← lift (load_steps lab d)
    execute_steps ctx lab_name dry_run d up_to allow_infra lab steps
