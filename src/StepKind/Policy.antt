-- ===== src/StepKind/Policy.antt =====
-- How the tables of cli/src/domain/step_kind.rs agree with one another.
use catallaxy.Prelude.{◌≡◌, true, false, ◌||◌, arith}
use catallaxy.StepKind.{
  StepKind, deploy, teardown, idempotent, one_shot, destructive, retry, runs_in, dry_run_safe,
}

-- What the tables owe one another at one kind.
pub record IsCoherent (k : StepKind) : Type 0 where
  pub reachable : (runs_in k deploy || runs_in k teardown) ≡ true
  pub safe_retried : dry_run_safe k ≡ true → retry k ≡ idempotent
  pub builds : retry k ≡ one_shot → (runs_in k deploy ≡ true) × (runs_in k teardown ≡ false)
  pub destroys : retry k ≡ destructive → runs_in k teardown ≡ true

-- For every kind: it runs in at least one direction; if a dry run executes it, it is idempotent;
-- if it is one-shot, it runs in deployments and in no teardown; if it is destructive, it runs in
-- teardowns.
pub all_kinds-IsCoherent : (k : StepKind) → IsCoherent k
unfolding runs_in dry_run_safe retry
all_kinds-IsCoherent StepKind.setup_services = ground arith
all_kinds-IsCoherent _ = ground arith
