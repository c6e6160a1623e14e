-- ===== src/Executor/Unbuilt.antt =====
-- `execute` of cli/src/plan/executor.rs: a teardown of a lab whose package does not build.
use catallaxy.Prelude.{
  ℕ, ◌≡◌, refl, ap, ◌∙◌, Bool, false, Option, List, [], ◌∷◌, String, length, is_nil, ◌≢◌,
}
use catallaxy.StepKind.{teardown}
use catallaxy.Plan.{PlannedStep}
use catallaxy.Executor.{
  Result, ok, err, panic, ExecError, failures_left, Env, StepContext, Machine, LabSpec, Context,
  and_then, call, build_failed, refuse_steps, resolve_stop_after, load_steps, execute,
  execute_steps, start_steps, verdict, run_steps, build_lab_package_for, with_fragment,
}
use catallaxy.Executor.Verdict.{
  KeepsFailures, bind-ok, call-ok, build_lab_package_for-err, run_steps-failures,
}

-- The result of a teardown with failures on record: the error of its steps or, if they all succeed,
-- that failures are left.
abbrev pub closing :
    {E : Type 0} → Result (ExecError E) (Unit {0}) → ℕ → Result (ExecError E) (Unit {0})
closing (ok _) n = err (failures_left n)
closing (err e) n = err e
closing panic n = panic

closing-fails : {E : Type 0} (r : Result (ExecError E) (Unit {0})) (n : ℕ) → closing r n ≢ ok tt
closing-fails (ok _) n = λ q. cc
closing-fails (err e) n = λ q. cc
closing-fails panic n = λ q. cc

module _ {V L C E W : Type 0} (env : Env V L C E W) where
  verdict-closing :
      (lab_name : String) (r : Result (ExecError E) (Unit {0})) (m : Machine W)
      → is_nil m.failures ≡ false
      → verdict env teardown lab_name r m ≡ (closing r (length m.failures), m)
  unfolding verdict
  verdict-closing lab_name (ok _) m h = rw (h, verdict) refl
  verdict-closing lab_name (err e) m h = refl
  verdict-closing lab_name panic m h = refl

  module _ (ctx₀ : Context) (lab_name : String) (dry_run allow_infra : Bool) (lab : LabSpec V L)
      (cache : C) (e : E) where
    abbrev ctx : Context
    ctx = with_fragment ctx₀ lab_name

    -- What the steps of such a teardown are given: no lab package.
    abbrev pub without_package : StepContext V L C
    without_package = record {
      ctx = ctx;
      lab_name = lab_name;
      lab = lab;
      lab_package = "";
      secrets_cache = cache;
      dry_run = dry_run;
      allow_infra = allow_infra;
    }

    -- The run of the steps of the teardown plan, with the failed build as the first failure.
    abbrev pub steps_run : Option ℕ → W → Result (ExecError E) (Unit {0}) × Machine W
    steps_run stop w =
        run_steps env without_package (length lab.teardown_plan) 0 lab.teardown_plan stop
          (record { world = w; failures = build_failed env e ∷ [] })

    start_steps-closing :
        KeepsFailures env
        → (stop : Option ℕ) (w : W)
        → start_steps env ctx lab_name dry_run teardown allow_infra lab lab.teardown_plan cache
            ("", build_failed env e ∷ [])
            stop
            w
          ≡ (
            closing (steps_run stop w).0 (length (steps_run stop w).1.failures),
            (steps_run stop w).1.world,
          )
    unfolding start_steps
    start_steps-closing keeps stop w =
        ap (λ d. (d.0, d.1.world))
          (verdict-closing lab_name (steps_run stop w).0 (steps_run stop w).1 (
            run_steps-failures env keeps without_package (length lab.teardown_plan) 0
              lab.teardown_plan stop _ refl))

    execute_steps-started :
        (up_to : Option String) (w₁ w₂ w₃ : W) (steps : List (PlannedStep V)) (stop : Option ℕ)
        → is_nil steps ≡ false
        → env.load_secrets_cache ctx lab_name lab w₁ ≡ (ok cache, w₂)
        → env.build_lab_package ctx lab_name w₂ ≡ (err e, w₃)
        → resolve_stop_after E steps up_to teardown ≡ ok stop
        → execute_steps env ctx lab_name dry_run teardown up_to allow_infra lab steps w₁
          ≡ start_steps env ctx lab_name dry_run teardown allow_infra lab steps cache
              ("", build_failed env e ∷ [])
              stop
              w₃
    unfolding execute_steps
    execute_steps-started up_to w₁ w₂ w₃ [] stop some_step loaded unbuilt resolved = absurd cc
    execute_steps-started up_to w₁ w₂ w₃ (step ∷ more) stop some_step loaded unbuilt resolved =
        bind-ok (call env (env.load_secrets_cache ctx lab_name lab)) _ w₁ cache w₂
          (call-ok env (env.load_secrets_cache ctx lab_name lab) w₁ w₂ cache loaded)
        ∙ bind-ok (build_lab_package_for env ctx lab_name teardown) _ w₂ _ w₃
            (build_lab_package_for-err env ctx lab_name e w₂ w₃ unbuilt)
        ∙ ap
            (λ r.
              and_then r
                (start_steps env ctx lab_name dry_run teardown allow_infra lab (step ∷ more) cache
                  ("", build_failed env e ∷ []))
                w₃)
            resolved

    execute-loaded :
        (up_to : Option String) (w w₁ : W)
        → env.get_lab_spec ctx lab_name w ≡ (ok lab, w₁)
        → refuse_steps E teardown 0 lab.teardown_plan ≡ ok tt
        → execute env ctx₀ lab_name dry_run teardown up_to allow_infra w
          ≡ execute_steps env ctx lab_name dry_run teardown up_to allow_infra lab lab.teardown_plan
              w₁
    unfolding execute load_steps
    execute-loaded up_to w w₁ read allowed =
        bind-ok (call env (env.get_lab_spec ctx lab_name)) _ w lab w₁
          (call-ok env (env.get_lab_spec ctx lab_name) w w₁ lab read)
        ∙ rw (load_steps, allowed) refl

    -- A teardown of a lab whose package does not build goes on: if the plan has a step, none of its
    -- steps is one that a teardown refuses and --up-to is resolved, the steps are run on the world
    -- that the build left, without a package and with the failed build on record. The world is then
    -- as the steps left it, so that the record of the lab is not forgotten, and the result is never
    -- success: it is the error of the steps or, if they all succeed, the number of failures on
    -- record. No step module may remove a failure from the record.
    pub execute-unbuilt :
        KeepsFailures env
        → (up_to : Option String) (stop : Option ℕ) (w w₁ w₂ w₃ : W)
        → env.get_lab_spec ctx lab_name w ≡ (ok lab, w₁)
        → refuse_steps E teardown 0 lab.teardown_plan ≡ ok tt
        → is_nil lab.teardown_plan ≡ false
        → env.load_secrets_cache ctx lab_name lab w₁ ≡ (ok cache, w₂)
        → env.build_lab_package ctx lab_name w₂ ≡ (err e, w₃)
        → resolve_stop_after E lab.teardown_plan up_to teardown ≡ ok stop
        → (execute env ctx₀ lab_name dry_run teardown up_to allow_infra w ≡ (
          closing (steps_run stop w₃).0 (length (steps_run stop w₃).1.failures),
          (steps_run stop w₃).1.world,
        ))
          × (closing (steps_run stop w₃).0 (length (steps_run stop w₃).1.failures) ≢ ok tt)
    execute-unbuilt keeps up_to stop w w₁ w₂ w₃ read allowed some_step loaded unbuilt resolved = (
      execute-loaded up_to w w₁ read allowed
          ∙ execute_steps-started up_to w₁ w₂ w₃ lab.teardown_plan stop some_step loaded unbuilt
              resolved
          ∙ start_steps-closing keeps stop w₃,
      closing-fails (steps_run stop w₃).0 _,
    )
