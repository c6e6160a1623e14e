-- ===== src/Plan/Policy.antt =====
-- What the policy of a step says (cli/src/domain/plan.rs).
use catallaxy.Prelude.{◌≤◌, arith}
use catallaxy.Plan.{PlannedStep, attempts}

-- Every step has at least one attempt and at most three.
pub attempts_bounds :
    {V : Type 0} (step : PlannedStep V) → (1 ≤ attempts step) × (attempts step ≤ 3)
unfolding attempts
attempts_bounds step = ground arith
