-- ===== src/Executor/DryRun.antt =====
-- `run_steps` of cli/src/plan/executor.rs in a dry run.
use catallaxy.Prelude.{
  ℕ, suc, ◌≡◌, refl, sym, ◌∙◌, subst, ◌↔◌, true, Bool-cases, Option-cases, inl, inr, Option, none,
  some, List, [], ◌∷◌, arith, keep, if◌then◌else◌,
}
use catallaxy.Plan.{PlannedStep, dry_run_safe}
use catallaxy.Executor.{
  Result, ok, err, ExecError, other, Env, StepContext, Machine, pause, attempt_from, run_unskipped,
  run_one, run_steps,
}
use catallaxy.Executor.Steps.{run_steps-ok, run_steps-err, run_steps-nil}

module _ {V L C E W : Type 0} (env : Env V L C E W) (sctx : StepContext V L C) where
  -- The steps are dispatched once each, in order, up to the first that fails, and nothing else happens:
  -- the failure, if there was one, and the machine that is left.
  abbrev pub dispatched : List (PlannedStep V) → Machine W → Option E × Machine W
  dispatched [] m = (none, m)
  dispatched (step ∷ steps) m =
      let (failed, m') = env.dispatch sctx step m in
      elim failed [ none ↦ dispatched steps m' | some e ↦ (some e, m') ]

  -- What one step is in a dry run.
  abbrev dry_one : PlannedStep V → Machine W → Result (ExecError E) (Unit {0}) × Machine W
  dry_one step m =
      let (failed, m') = env.dispatch sctx step m in
      if dry_run_safe step
      then (elim failed [ none ↦ ok tt | some e ↦ err (other e) ], m')
      else (ok tt, m)

  run_one-dry_run :
      (step : PlannedStep V) (m : Machine W)
      → sctx.dry_run ≡ true
      → run_one env sctx step m ≡ dry_one step m
  unfolding run_one run_unskipped attempt_from pause
  run_one-dry_run step m dry = ground arith

  -- The two runs leave the same machine, and succeed together.
  abbrev pub Agree : Result (ExecError E) (Unit {0}) × Machine W → Option E × Machine W → Type 0
  Agree r d = (r.1 ≡ d.1) × ((r.0 ≡ ok tt) ↔ (d.0 ≡ none))

  -- A dry run of a plan is a run of its safe steps alone, each of them dispatched once and in order,
  -- up to the first that fails: it ends with the machine that these dispatches leave, and succeeds
  -- exactly if all of them do. It dispatches no other step, tries none again, waits for nothing, and
  -- does not ask whether a cluster is reachable.
  pub run_steps-dry_run :
      (total i : ℕ) (steps : List (PlannedStep V)) (m : Machine W)
      → sctx.dry_run ≡ true
      → Agree (run_steps env sctx total i steps none m) (dispatched (keep dry_run_safe steps) m)
  run_steps-dry_run total i [] m dry =
      subst (λ r. Agree r (none, m)) (sym (run_steps-nil env sctx total i none m))
        (refl, (λ _. refl, λ _. refl))
  run_steps-dry_run total i (step ∷ steps) m dry = elim (Bool-cases (dry_run_safe step)) [
    | inr unsafe ↦
        let one : run_one env sctx step m ≡ (ok tt, m) =
          run_one-dry_run step m dry ∙ rw unsafe refl in
        subst (λ r. Agree r (dispatched (keep dry_run_safe (step ∷ steps)) m))
          (sym (run_steps-ok env sctx total i step steps none m m one))
          (rw unsafe (run_steps-dry_run total (suc i) steps m dry))
    | inl safe ↦ elim (Option-cases (env.dispatch sctx step m).0) [
      | inl done ↦
          let m₁ = (env.dispatch sctx step m).1 in
          let one : run_one env sctx step m ≡ (ok tt, m₁) =
            run_one-dry_run step m dry ∙ rw (safe, done) refl in
          subst (λ r. Agree r (dispatched (keep dry_run_safe (step ∷ steps)) m))
            (sym (run_steps-ok env sctx total i step steps none m m₁ one))
            (rw (safe, done) (run_steps-dry_run total (suc i) steps m₁ dry))
      | inr (e, failed) ↦
          let m₁ = (env.dispatch sctx step m).1 in
          let one : run_one env sctx step m ≡ (err (other e), m₁) =
            run_one-dry_run step m dry ∙ rw (safe, failed) refl in
          subst (λ r. Agree r (dispatched (keep dry_run_safe (step ∷ steps)) m))
            (sym (run_steps-err env sctx total i step steps none m m₁ (other e) one))
            (rw (safe, failed) (refl, (λ q. absurd cc, λ q. absurd cc)))
    ]
  ]
