-- ===== src/Executor/Defs.antt =====
-- cli/src/plan/executor.rs: the types of a run, and what it takes from outside.
use catallaxy.Prelude.{ℕ, Bool, Option, List, String}
use catallaxy.StepKind.{Direction}
use catallaxy.Plan.{PlannedStep, WrongDirection}
use catallaxy.Teardown.{StepFailure}

-- `Result<A>`, and the panic of an `expect` that fails.
pub data Result (E A : Type 0) : Type 0 where
  ok : A → Result E A
  err : E → Result E A
  panic : Result E A

-- The failures of this module, and those (`other`) that come from outside.
pub data ExecError (E : Type 0) : Type 0 where
  other : E → ExecError E
  wrong_direction : WrongDirection → ExecError E
  -- `with_context` of `run_steps`: the step's number, the number of steps, the step's label.
  step_failed : ℕ → ℕ → String → ExecError E → ExecError E
  no_such_step : String → Direction → ExecError E
  not_a_kind : String → List String → ExecError E
  failures_left : ℕ → ExecError E

-- A computation over a state, as `Result` and the state that it leaves.
abbrev pub Run : (S E A : Type 0) → Type 0
Run S E A = S → Result E A × S

module _ {S E A : Type 0} where
  abbrev pub pure : A → Run S E A
  pure a s = (ok a, s)

  abbrev pub throw : E → Run S E A
  throw e s = (err e, s)

module _ {S E A B : Type 0} where
  abbrev pub and_then : Result E A → (A → Run S E B) → Run S E B
  and_then (ok a) f s = f a s
  and_then (err e) f s = (err e, s)
  and_then panic f s = (panic, s)

  infixl 5 ◌>>=◌ ◌>>◌
  abbrev pub ◌>>=◌ : Run S E A → (A → Run S E B) → Run S E B
  (m >>= f) s = and_then (m s).0 f (m s).1

  abbrev pub ◌>>◌ : Run S E A → Run S E B → Run S E B
  m >> k = m >>= λ _. k

-- `config::Context`, of which `execute` reads and sets the flake's fragment.
pub record Context : Type 0 where
  pub flake : String
  pub fragment : Option String

-- What `execute` reads of a lab; `L` stands for the rest.
pub record LabSpec (V L : Type 0) : Type 0 where
  pub deployment_plan : List (PlannedStep V)
  pub teardown_plan : List (PlannedStep V)
  pub rescue_hints : List (String × String)
  pub rest : L

pub record StepContext (V L C : Type 0) : Type 0 where
  pub ctx : Context
  pub lab_name : String
  pub lab : LabSpec V L
  pub lab_package : String
  pub secrets_cache : C
  pub dry_run : Bool
  pub allow_infra : Bool

-- The world, and the failures that steps have recorded so far.
pub record Machine (W : Type 0) : Type 0 where
  pub world : W
  pub failures : List StepFailure

-- What the executor calls: nix, the secret stores, kubectl, the clock, the lab record and the step
-- modules. Their errors are of type `E`, the world is of type `W`.
pub record Env (V L C E W : Type 0) : Type 0 where
  pub get_lab_spec : Context → String → W → Result E (LabSpec V L) × W
  pub load_secrets_cache : Context → String → LabSpec V L → W → Result E C × W
  pub build_lab_package : Context → String → W → Result E String × W
  pub api_reachable : String → W → Bool × W
  pub sleep : ℕ → W → W
  pub forget_lab_record : String → W → W
  -- The match over `StepParams`: one attempt at one step. It returns an error or it is done.
  pub dispatch : StepContext V L C → PlannedStep V → Machine W → Option E × Machine W
  -- How an error reads in the record of a failed build.
  pub describe_error : E → String
