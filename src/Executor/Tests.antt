-- ===== src/Executor/Tests.antt =====
-- A world in which every step that changes something fails, and the theorems about runs in it.
use catallaxy.Prelude.{
  ℕ, ◌+◌, ◌≡◌, ◌≢◌, refl, Bool, true, false, Option, some, none, [], ◌∷◌, String, arith, inl,
  if◌then◌else◌, keep, length,
}
use catallaxy.StepKind
use catallaxy.StepKind.{Direction, deploy, teardown}
use catallaxy.Plan.{
  PlannedStep, WrongDirection, attempts, dry_run_safe, label, kind, refuse_wrong_direction,
}
use catallaxy.Plan.Samples.{publish, create, await_removal}
use catallaxy.Executor.DryRun.{Agree, dispatched, run_steps-dry_run}
use catallaxy.Executor.Unbuilt.{closing, steps_run, execute-unbuilt}
use catallaxy.Executor.{
  ok, err, other, step_failed, wrong_direction, Env, StepContext, Context, LabSpec, Machine, pause,
  run_one, run_steps, execute, resolve_stop_after, refuse_steps, should_skip_if_reachable,
}
use catallaxy.Executor.Retry.{Attempted, run_one-Attempted}
use catallaxy.Executor.Steps.{FailedAt, run_steps-take, run_steps-eq-err}
use catallaxy.Executor.Stop.{Resolved, resolve_stop_after-Resolved}
use catallaxy.Executor.Verdict.{KeepsFailures, execute-FirstWrong}

-- The world is the number of seconds slept and, in hundreds, of calls made.
try_step :
    StepContext ℕ (Unit {0}) (Unit {0}) → PlannedStep ℕ → Machine ℕ → Option String × Machine ℕ
try_step sctx step m =
    if dry_run_safe step
    then (none, record m { world = m.world + 1 })
    else (some "refused", record m { world = m.world + 100 })

abbrev lab : LabSpec ℕ (Unit {0})
lab = record {
  deployment_plan = create "hub" ∷ publish ∷ [];
  teardown_plan = publish ∷ [];
  rescue_hints = [];
  rest = tt;
}

abbrev stubborn : Env ℕ (Unit {0}) (Unit {0}) String ℕ
stubborn = record {
  get_lab_spec = λ ctx name w. (ok lab, w);
  load_secrets_cache = λ ctx name l w. (ok tt, w);
  build_lab_package = λ ctx name w. (err "no builder", w);
  api_reachable = λ ctx w. (false, w);
  sleep = λ secs w. w + secs;
  forget_lab_record = λ name w. w;
  dispatch = try_step;
  describe_error = λ e. e;
}

abbrev here : Context
here = record { flake = "."; fragment = none }

abbrev run_context : Bool → StepContext ℕ (Unit {0}) (Unit {0})
run_context dry = record {
  ctx = here;
  lab_name = "lab";
  lab = lab;
  lab_package = "/nix/store/lab";
  secrets_cache = tt;
  dry_run = dry;
  allow_infra = false;
}

abbrev idle : Machine ℕ
idle = record { world = 0; failures = [] }

-- Three attempts, and waits of one and of two seconds.
publish_fails :
    run_one stubborn (run_context false) publish idle
    ≡ (err (other "refused"), record { world = 303; failures = [] })
unfolding run_one pause try_step StepKind.dry_run_safe kind attempts
publish_fails = refl

run_one-Attempted_example :
    let r = run_one stubborn (run_context false) publish idle in
    Attempted stubborn (run_context false) publish idle (attempts publish) r.0 r.1
unfolding should_skip_if_reachable
run_one-Attempted_example =
    run_one-Attempted stubborn (run_context false) publish idle idle refl refl

run_steps-dry_run_example :
    Agree stubborn
      (run_context true)
      (run_steps stubborn
        (run_context true)
        3
        0
        (create "hub" ∷ await_removal ∷ publish ∷ [])
        none
        idle)
      (dispatched stubborn
        (run_context true)
        (keep dry_run_safe (create "hub" ∷ await_removal ∷ publish ∷ []))
        idle)
run_steps-dry_run_example =
    run_steps-dry_run stubborn (run_context true) 3 0 (create "hub" ∷ await_removal ∷ publish ∷ [])
      idle refl

run_steps-take_example :
    run_steps stubborn (run_context false) 2 0 (create "hub" ∷ publish ∷ []) (some (0 + 0)) idle
    ≡ run_steps stubborn (run_context false) 2 0 (create "hub" ∷ []) none idle
run_steps-take_example =
    run_steps-take stubborn (run_context false) 2 0 0 (create "hub" ∷ publish ∷ []) idle

create_fails :
    run_steps stubborn (run_context false) 2 0 (create "hub" ∷ publish ∷ []) none idle
    ≡ (err (step_failed 1 2 "hub" (other "refused")), record { world = 100; failures = [] })
unfolding run_steps run_one pause try_step StepKind.dry_run_safe kind attempts label
create_fails = refl

run_steps-eq-err_example :
    FailedAt stubborn
      (run_context false)
      2
      0
      (create "hub" ∷ publish ∷ [])
      idle
      (step_failed 1 2 "hub" (other "refused"))
      (record { world = 100; failures = [] })
run_steps-eq-err_example =
    run_steps-eq-err stubborn (run_context false) 2 0 (create "hub" ∷ publish ∷ []) none idle
      (step_failed 1 2 "hub" (other "refused")) (record { world = 100; failures = [] }) create_fails

resolve_stop_after-Resolved_example :
    Resolved String
      (create "hub" ∷ publish ∷ [])
      "pivot"
      deploy
      (resolve_stop_after String (create "hub" ∷ publish ∷ []) (some "pivot") deploy)
resolve_stop_after-Resolved_example =
    resolve_stop_after-Resolved String (create "hub" ∷ publish ∷ []) "pivot" deploy

abbrev publish_wrong : WrongDirection
publish_wrong = record { direction = teardown; number = 1; kind_tag = "publish-manifests" }

execute-FirstWrong_example :
    execute stubborn here "lab" false teardown none false 0
    ≡ (err (wrong_direction publish_wrong), 0)
unfolding StepKind.runs_in StepKind.tag kind
execute-FirstWrong_example =
    execute-FirstWrong stubborn here "lab" false teardown none false lab 0 0 publish_wrong refl
      (inl (refl, refl))

abbrev gone_plan : LabSpec ℕ (Unit {0})
gone_plan = record lab { teardown_plan = await_removal ∷ [] }

-- The lab has a plan that a teardown runs.
abbrev unbuilding : Env ℕ (Unit {0}) (Unit {0}) String ℕ
unbuilding = record stubborn { get_lab_spec = λ ctx name w. (ok gone_plan, w) }

keeps_failures : KeepsFailures unbuilding
unfolding try_step
keeps_failures sctx step m h = ground arith

execute-unbuilt_example :
    let ran = steps_run unbuilding here "lab" false false gone_plan tt "no builder" none 0 in
    (execute unbuilding here "lab" false teardown none false 0
      ≡ (closing ran.0 (length ran.1.failures), ran.1.world))
    × (closing ran.0 (length ran.1.failures) ≢ ok tt)
unfolding StepKind.runs_in kind refuse_steps refuse_wrong_direction resolve_stop_after
execute-unbuilt_example =
    execute-unbuilt unbuilding here "lab" false false gone_plan tt "no builder" keeps_failures none
      none 0 0 0 0 refl refl refl refl refl refl
