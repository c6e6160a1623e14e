-- ===== src/Executor/Verdict.antt =====
-- `execute` of cli/src/plan/executor.rs: what a run refuses to start, and the failures that it keeps.
use catallaxy.Prelude.{
  ℕ, zero, suc, ◌+◌, ◌≡◌, ◌⊎◌, inl, inr, Bool, true, false, Option, none, some, List, [], ◌∷◌,
  String, arith, Option-cases, if◌then◌else◌, is_nil,
}
use catallaxy.StepKind.{Direction, teardown}
use catallaxy.Plan
use catallaxy.Plan.{PlannedStep, WrongDirection, runs_in, type_tag, refuse_wrong_direction}
use catallaxy.Executor.{
  Run, ◌>>=◌, build_failed, call, Result, ok, err, panic, wrong_direction, Env, StepContext,
  Machine, LabSpec, Context, plan_of, refuse_steps, load_steps, execute, run_steps,
  build_lab_package_for, with_fragment, attempt_from, run_one, run_unskipped,
  should_skip_if_reachable, pause,
}

-- `steps`, numbered from `i`, begin with steps that can run in the direction, and then comes one
-- that cannot; `e` tells its number from 1 and its tag.
abbrev pub FirstWrong :
    {V : Type 0} → Direction → ℕ → List (PlannedStep V) → WrongDirection → Type 0
FirstWrong d i [] e = ⊥
FirstWrong d i (step ∷ steps) e =
    (runs_in step d ≡ false)
      × (e ≡ record { direction = d; number = i + 1; kind_tag = type_tag step })
    ⊎ ((runs_in step d ≡ true) × FirstWrong d (suc i) steps e)

pub bind-ok :
    {S E A B : Type 0} (m : Run S E A) (k : A → Run S E B) (s : S) (a : A) (s' : S)
    → m s ≡ (ok a, s')
    → (m >>= k) s ≡ k a s'
bind-ok m k s a s' h = ground arith

bind-err :
    {S E A B : Type 0} (m : Run S E A) (k : A → Run S E B) (s : S) (e : E) (s' : S)
    → m s ≡ (err e, s')
    → (m >>= k) s ≡ (err e, s')
bind-err m k s e s' h = ground arith

bind-panic :
    {S E A B : Type 0} (m : Run S E A) (k : A → Run S E B) (s s' : S)
    → m s ≡ (panic, s')
    → (m >>= k) s ≡ (panic, s')
bind-panic m k s s' h = ground arith

FirstWrong-refuse_steps :
    {V : Type 0} (E : Type 0) (d : Direction) (i : ℕ) (steps : List (PlannedStep V))
    (e : WrongDirection)
    → FirstWrong d i steps e
    → refuse_steps E d i steps ≡ err (wrong_direction e)
unfolding refuse_steps refuse_wrong_direction
FirstWrong-refuse_steps E d i [] e wrong = elim wrong [ ]
FirstWrong-refuse_steps E d i (step ∷ steps) e (inl (no_run, told)) =
    rw (no_run, told, refuse_steps)
FirstWrong-refuse_steps E d i (step ∷ steps) e (inr (runs, later)) =
    rw (runs, refuse_steps) (FirstWrong-refuse_steps E d (suc i) steps e later)

module _ {V L C E W : Type 0} (env : Env V L C E W) where
  -- A plan with a step that cannot run in the direction of the run is refused before anything else
  -- is done: the error tells the first such step, and the world is as the reading of the lab left
  -- it.
  pub execute-FirstWrong :
      (ctx : Context) (lab_name : String) (dry_run : Bool) (d : Direction) (up_to : Option String)
      (allow_infra : Bool) (lab : LabSpec V L) (w w₁ : W) (e : WrongDirection)
      → env.get_lab_spec (with_fragment ctx lab_name) lab_name w ≡ (ok lab, w₁)
      → FirstWrong d 0 (plan_of lab d) e
      → execute env ctx lab_name dry_run d up_to allow_infra w ≡ (err (wrong_direction e), w₁)
  unfolding execute load_steps
  execute-FirstWrong ctx lab_name dry_run d up_to allow_infra lab w w₁ e read wrong =
      ground (arith, FirstWrong-refuse_steps E d 0 (plan_of lab d) e wrong)

  -- What a step module does to the record of failures: it only adds to it.
  abbrev pub KeepsFailures : Type 0
  KeepsFailures =
      (sctx : StepContext V L C) (step : PlannedStep V) (m : Machine W)
      → is_nil m.failures ≡ false
      → is_nil (env.dispatch sctx step m).1.failures ≡ false

  module _ (keeps : KeepsFailures) (sctx : StepContext V L C) where
    pause-failures : (n : ℕ) (m : Machine W) → (pause env n m).failures ≡ m.failures
    unfolding pause
    pause-failures n m = ground arith

    attempt_from-failures :
        (step : PlannedStep V) (left n : ℕ) (last : Option E) (m : Machine W)
        → is_nil m.failures ≡ false
        → is_nil (attempt_from env sctx step left n last m).1.failures ≡ false
    unfolding attempt_from
    attempt_from-failures step zero n none m h = h
    attempt_from-failures step zero n (some e) m h = h
    attempt_from-failures step (suc left) n last m h =
        let kept = keeps sctx step (pause env n m) (rw pause-failures h) in
        elim (Option-cases (env.dispatch sctx step (pause env n m)).0) [
          | inl done ↦ rw (done, attempt_from) kept
          | inr (e, failed) ↦
              rw (failed, attempt_from) (attempt_from-failures step left (suc n) (some e) _ kept)
        ]

    run_unskipped-failures :
        (step : PlannedStep V) (m : Machine W)
        → is_nil m.failures ≡ false
        → is_nil (run_unskipped env sctx step m).1.failures ≡ false
    unfolding run_unskipped
    run_unskipped-failures step m h = ground (
      arith,
      attempt_from-failures step (if sctx.dry_run then 1 else Plan.attempts step) 1 none m h,
    )

    run_one-failures :
        (step : PlannedStep V) (m : Machine W)
        → is_nil m.failures ≡ false
        → is_nil (run_one env sctx step m).1.failures ≡ false
    unfolding run_one should_skip_if_reachable
    run_one-failures step m h =
        let asked = (should_skip_if_reachable env step m).1 in
        ground (arith, run_unskipped-failures step m h, run_unskipped-failures step asked)

    pub run_steps-failures :
        (total i : ℕ) (steps : List (PlannedStep V)) (stop : Option ℕ) (m : Machine W)
        → is_nil m.failures ≡ false
        → is_nil (run_steps env sctx total i steps stop m).1.failures ≡ false
    unfolding run_steps
    run_steps-failures total i [] stop m h = h
    run_steps-failures total i (step ∷ steps) stop m h = ground (
      arith,
      run_one-failures step m h,
      run_steps-failures total (suc i) steps stop (run_one env sctx step m).1,
    )

  pub call-ok :
      {A : Type 0} (f : W → Result E A × W) (w w' : W) (a : A)
      → f w ≡ (ok a, w')
      → call env f w ≡ (ok a, w')
  call-ok f w w' a h = ground arith

  pub build_lab_package_for-err :
      (ctx : Context) (lab_name : String) (e : E) (w w' : W)
      → env.build_lab_package ctx lab_name w ≡ (err e, w')
      → build_lab_package_for env ctx lab_name teardown w ≡ (ok ("", build_failed env e ∷ []), w')
  unfolding build_lab_package_for
  build_lab_package_for-err ctx lab_name e w w' h = ground arith
