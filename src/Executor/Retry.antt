-- ===== src/Executor/Retry.antt =====
-- `run_one` of cli/src/plan/executor.rs: how often a step is tried, and what a dry run leaves out.
use catallaxy.Prelude.{
  ℕ, zero, suc, ◌+◌, ◌^◌, ◌≤◌, ◌<◌, ◌≡◌, refl, false, Option, none, some, arith, Option-cases, inl,
  inr, subst,
}
use catallaxy.Plan.{PlannedStep, attempts}
use catallaxy.Plan.Policy.{attempts_bounds}
use catallaxy.Executor.{
  Result, ok, err, ExecError, other, Env, StepContext, Machine, pause, attempt_from, run_unskipped,
  run_one, should_skip_if_reachable,
}

pair_eq : {A B : Type 0} {p : A × B} {a : A} → p.0 ≡ a → p ≡ (a, p.1)
pair_eq {p = p} e i = (e i, p.1)

-- The wait after `n` failed attempts: none, then 1, 2, 4, … seconds.
module _ {V L C E W : Type 0} (env : Env V L C E W) where
  abbrev pub wait : ℕ → Machine W → Machine W
  wait zero m = m
  wait (suc k) m = record m { world = env.sleep (2 ^ k) m.world }

  pause-eq-wait : (n : ℕ) (m : Machine W) → n ≤ 64 → pause env (suc n) m ≡ wait n m
  unfolding pause
  pause-eq-wait zero m h = refl
  pause-eq-wait (suc k) m h = ground arith

  module _ (sctx : StepContext V L C) (step : PlannedStep V) (m : Machine W) where
    -- Tries of the step from `m` that all failed: their number, the last error, the machine then.
    pub data Failed : ℕ → Option E → Machine W → Type 0 where
      untried : Failed zero none m
      again :
          {n : ℕ} {last : Option E} {m₁ : Machine W} (e : E) (m₂ : Machine W)
          → Failed n last m₁
          → env.dispatch sctx step (wait n m₁) ≡ (some e, m₂)
          → Failed (suc n) (some e) m₂

    -- The end of at most `k` tries: one succeeded after fewer than `k` failures, or all failed
    -- and the last error is the result.
    pub data Attempted (k : ℕ) : Result (ExecError E) (Unit {0}) → Machine W → Type 0 where
      succeeded :
          {n : ℕ} {last : Option E} {m₁ : Machine W} (m₂ : Machine W)
          → n < k
          → Failed n last m₁
          → env.dispatch sctx step (wait n m₁) ≡ (none, m₂)
          → Attempted k (ok tt) m₂
      exhausted : {e : E} {m₂ : Machine W} → Failed k (some e) m₂ → Attempted k (err (other e)) m₂

    Failed-none : {n : ℕ} {m₁ : Machine W} → Failed n none m₁ → n ≡ 0
    Failed-none untried = refl

    attempt_from-done :
        (left n : ℕ) (last : Option E) (m₁ m₂ : Machine W)
        → n ≤ 64
        → env.dispatch sctx step (wait n m₁) ≡ (none, m₂)
        → attempt_from env sctx step (suc left) (suc n) last m₁ ≡ (ok tt, m₂)
    unfolding attempt_from
    attempt_from-done left n last m₁ m₂ small h = ground (arith, pause-eq-wait n m₁)

    attempt_from-failed :
        (left n : ℕ) (last : Option E) (m₁ : Machine W) (e : E) (m₂ : Machine W)
        → n ≤ 64
        → env.dispatch sctx step (wait n m₁) ≡ (some e, m₂)
        → attempt_from env sctx step (suc left) (suc n) last m₁
          ≡ attempt_from env sctx step left (suc (suc n)) (some e) m₂
    unfolding attempt_from
    attempt_from-failed left n last m₁ e m₂ small h = ground (arith, pause-eq-wait n m₁)

    attempt_from-zero :
        (n : ℕ) (e : E) (m₁ : Machine W)
        → attempt_from env sctx step zero n (some e) m₁ ≡ (err (other e), m₁)
    unfolding attempt_from
    attempt_from-zero n e m₁ = refl

    attempt_from-Attempted :
        {k : ℕ} (left n : ℕ) (last : Option E) (m₁ : Machine W)
        → Failed n last m₁
        → left + n ≡ k
        → 0 < k
        → k ≤ 64
        → let r = attempt_from env sctx step left (suc n) last m₁ in Attempted k r.0 r.1
    attempt_from-Attempted zero n none m₁ f e pos small = absurd (omega (arith, Failed-none f))
    attempt_from-Attempted zero n (some x) m₁ f e pos small =
        rw attempt_from-zero (exhausted (subst (λ j. Failed j (some x) m₁) (omega arith) f))
    attempt_from-Attempted (suc left) n last m₁ f e pos small =
        elim (Option-cases (env.dispatch sctx step (wait n m₁)).0) [
          | inl done ↦
              rw (attempt_from-done left n last m₁ _ (omega arith) (pair_eq done))
                (succeeded _ (omega arith) f (pair_eq done))
          | inr (x, failed) ↦
              rw (attempt_from-failed left n last m₁ x _ (omega arith) (pair_eq failed)) (
                attempt_from-Attempted left (suc n) (some x) _ (again x _ f (pair_eq failed))
                  (omega arith) pos small)
        ]

    run_one-attempt_from :
        (m₀ : Machine W)
        → sctx.dry_run ≡ false
        → should_skip_if_reachable env step m₀ ≡ (ok false, m)
        → run_one env sctx step m₀ ≡ attempt_from env sctx step (attempts step) 1 none m
    unfolding run_one run_unskipped
    run_one-attempt_from m₀ real unskipped = rw (real, unskipped)

    -- A step that is run for real, and not skipped for a reachable cluster, is tried at most as
    -- often as its policy says, with waits of 1 and 2 seconds between the tries. The first success
    -- ends the tries, only when all fail is the result an error, that of the last try, and there
    -- is no panic.
    pub run_one-Attempted :
        (m₀ : Machine W)
        → sctx.dry_run ≡ false
        → should_skip_if_reachable env step m₀ ≡ (ok false, m)
        → let r = run_one env sctx step m₀ in Attempted (attempts step) r.0 r.1
    run_one-Attempted m₀ real unskipped =
        let bounds = attempts_bounds step in
        rw (run_one-attempt_from m₀ real unskipped) (
          attempt_from-Attempted (attempts step) 0 none m untried (omega arith) bounds.0
            (omega arith))
