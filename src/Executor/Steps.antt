-- ===== src/Executor/Steps.antt =====
-- `run_steps` of cli/src/plan/executor.rs: what an early stop and a failure leave behind.
use catallaxy.Prelude.{
  ℕ, zero, suc, ◌+◌, ◌≡◌, refl, false, Option, none, some, List, [], ◌∷◌, ◌++◌, arith, Bool-cases,
  inl, inr, eqb, eqb_iff, length, take, if◌then◌else◌, ◌∙◌, sym, ap, fun_ext,
}
use catallaxy.Plan.{PlannedStep, label}
use catallaxy.Executor.{
  Result, ok, err, panic, ExecError, step_failed, Env, StepContext, Machine, run_one, run_steps,
  stops_at,
}

module _ {V L C E W : Type 0} (env : Env V L C E W) (sctx : StepContext V L C) where
  eqb-ne : (i n : ℕ) → eqb i (i + suc n) ≡ false
  eqb-ne i n = ground arith

  later : (i n : ℕ) → i + suc n ≡ suc i + n
  later i n = omega arith

  -- A run that stops after the step of index `i + n` is a run of the first `n + 1` steps.
  pub run_steps-take :
      (total i n : ℕ) (steps : List (PlannedStep V)) (m : Machine W)
      → run_steps env sctx total i steps (some (i + n)) m
        ≡ run_steps env sctx total i (take (suc n) steps) none m
  unfolding run_steps
  run_steps-take total i n [] m = refl
  run_steps-take total i zero (step ∷ steps) m = rw ((eqb_iff i (i + 0)).1 (omega arith))
  run_steps-take total i (suc n) (step ∷ steps) m =
      rw (eqb-ne i n, later i n, fun_ext (run_steps-take total (suc i) n steps))

  module _ (total i : ℕ) (step : PlannedStep V) (steps : List (PlannedStep V))
      (stop : Option ℕ) where
    pub run_steps-ok :
        (m m₁ : Machine W)
        → run_one env sctx step m ≡ (ok tt, m₁)
        → run_steps env sctx total i (step ∷ steps) stop m ≡ (
            if stops_at stop i then (ok tt, m₁) else run_steps env sctx total (suc i) steps stop m₁)
    unfolding run_steps
    run_steps-ok m m₁ h = ground arith

    pub run_steps-err :
        (m m₁ : Machine W) (cause : ExecError E)
        → run_one env sctx step m ≡ (err cause, m₁)
        → run_steps env sctx total i (step ∷ steps) stop m
          ≡ (err (step_failed (i + 1) total (label step) cause), m₁)
    unfolding run_steps
    run_steps-err m m₁ cause h = ground arith

    run_steps-panic :
        (m m₁ : Machine W)
        → run_one env sctx step m ≡ (panic, m₁)
        → run_steps env sctx total i (step ∷ steps) stop m ≡ (panic, m₁)
    unfolding run_steps
    run_steps-panic m m₁ h = ground arith

  pub run_steps-nil :
      (total i : ℕ) (stop : Option ℕ) (m : Machine W)
      → run_steps env sctx total i [] stop m ≡ (ok tt, m)
  unfolding run_steps
  run_steps-nil total i stop m = refl

  -- Of `steps`, numbered from `i`, those before one ran from `m` with success, that one failed and
  -- left `m'`, and `e` names it by its number and label.
  pub record FailedAt (total i : ℕ) (steps : List (PlannedStep V)) (m : Machine W) (e : ExecError E)
      (m' : Machine W) : Type 0 where
    pub before : List (PlannedStep V)
    pub step : PlannedStep V
    pub after : List (PlannedStep V)
    pub cause : ExecError E
    pub reached : Machine W
    pub split : steps ≡ before ++ step ∷ after
    pub passed : run_steps env sctx total i before none m ≡ (ok tt, reached)
    pub failed : run_one env sctx step reached ≡ (err cause, m')
    pub named : e ≡ step_failed (i + length before + 1) total (label step) cause

  FailedAt-cons :
      {total i : ℕ} {step : PlannedStep V} {steps : List (PlannedStep V)} {m m₁ m' : Machine W}
      {e : ExecError E}
      → run_one env sctx step m ≡ (ok tt, m₁)
      → FailedAt total (suc i) steps m₁ e m'
      → FailedAt total i (step ∷ steps) m e m'
  FailedAt-cons {total} {i} {step} {steps} {m} {m₁} q f = record {
    before = step ∷ f.before;
    step = f.step;
    after = f.after;
    cause = f.cause;
    reached = f.reached;
    split = cc f.split;
    passed = run_steps-ok total i step f.before none m m₁ q ∙ f.passed;
    failed = f.failed;
    named = f.named ∙ ap (λ n. step_failed n total (label f.step) f.cause) (omega arith);
  }

  -- A failed run ran the steps before one of them, each with success, and then that one failed.
  -- The error names the failed step by its number, and no later step was started.
  pub run_steps-eq-err :
      (total i : ℕ) (steps : List (PlannedStep V)) (stop_after : Option ℕ) (m : Machine W)
      (e : ExecError E) (m' : Machine W)
      → run_steps env sctx total i steps stop_after m ≡ (err e, m')
      → FailedAt total i steps m e m'
  run_steps-eq-err total i [] stop_after m e m' h = cc (run_steps-nil total i stop_after m)
  run_steps-eq-err total i (step ∷ steps) stop_after m e m' h =
      go (run_one env sctx step m) refl (run_steps-eq-err total (suc i) steps stop_after)
    where
      go :
          (r : Result (ExecError E) (Unit {0}) × Machine W)
          → run_one env sctx step m ≡ r
          → ((m : Machine W) (e : ExecError E) (m' : Machine W)
              → run_steps env sctx total (suc i) steps stop_after m ≡ (err e, m')
              → FailedAt total (suc i) steps m e m')
          → FailedAt total i (step ∷ steps) m e m'
      go (ok _, m₁) q rec =
          let went = sym (run_steps-ok total i step steps stop_after m m₁ q) ∙ h in
          elim (Bool-cases (stops_at stop_after i)) [
            | inl stops ↦ absurd (cc (rw stops at went))
            | inr goes ↦ FailedAt-cons q (rec m₁ e m' (rw goes at went))
          ]
      go (err cause, m₁) q rec =
          let went = sym (run_steps-err total i step steps stop_after m m₁ cause q) ∙ h in
          record {
            before = [];
            step = step;
            after = steps;
            cause = cause;
            reached = m;
            split = refl;
            passed = run_steps-nil total i none m;
            failed = cc (q, went);
            named = ground arith;
          }
      go (panic, m₁) q rec = cc (run_steps-panic total i step steps stop_after m m₁ q)
