-- ===== src/Ssa/Workloads.antt =====
-- cli/src/io/ssa/mod.rs: which workloads a bundle's manifests declare, and the wait until they are
-- ready.
use catallaxy.Prelude.{
  ℕ, Bool, false, not, Option, none, some, List, [], ◌∷◌, ◌++◌, String, ◌<>◌, ◌==◌, contains,
  is_nil, length, and_then, non_empty, trim, or_else, if◌then◌else◌,
}
use catallaxy.Ssa.{
  Values, Outside, Output, Run, stalled, pure, ensure, ◌>>=◌, output, kubectl, succeeded,
  yaml_files,
}
use catallaxy.Ssa.Owned.{text_at}

abbrev await_rollout : String
await_rollout = "catallaxy.io/await-rollout"

-- What the code holds as a triple.
pub record Target : Type 0 where
  pub kind : String
  pub namespace : String
  pub name : String

abbrev awaited_kinds : List String
awaited_kinds = "Deployment" ∷ "StatefulSet" ∷ "DaemonSet" ∷ "Job" ∷ []

module _ {V : Type 0} (values : Values V) where
  abbrev says_false : V → Bool
  says_false v = elim (values.as_bool v) [
    | some b ↦ not b
    | none ↦ elim (values.as_str v) [ none ↦ false | some t ↦ t == "false" ]
  ]

  unfoldable pub opted_out : V → Bool
  opted_out metadata =
      elim (and_then (values.field metadata "annotations") (λ a. values.field a await_rollout)) [
        | none ↦ false
        | some v ↦ says_false v
      ]

  abbrev pub target_of : String → V → Option Target
  target_of kind metadata =
      if opted_out metadata
      then none
      else and_then (text_at values metadata "name") (λ name. some (record {
        kind = kind;
        namespace = or_else (text_at values metadata "namespace") "default";
        name = name;
      }))

  unfoldable pub wait_target_in_value : V → Option Target
  unfolding opted_out
  wait_target_in_value doc = and_then (text_at values doc "kind") (λ kind.
      if contains awaited_kinds kind
      then and_then (values.field doc "metadata") (target_of kind)
      else none)

  abbrev targets_of : List V → List Target
  targets_of [] = []
  targets_of (doc ∷ docs) =
      let rest = targets_of docs in
      elim (wait_target_in_value doc) [ none ↦ rest | some t ↦ t ∷ rest ]

  unfoldable pub wait_targets_in_file : String → List Target
  unfolding wait_target_in_value
  wait_targets_in_file content = targets_of (values.parse content)

pub data Readiness : Type 0 where
  rollout : Readiness
  condition : String → Readiness

unfoldable pub readiness_for : String → Readiness
readiness_for kind = if kind == "Job" then condition "condition=complete" else rollout

abbrev pub timeout_arg : String → String
timeout_arg timeout = "--timeout=" <> timeout

-- The words of the three ways to wait for a workload.
abbrev pub replicas_args : String → String → String → List String
replicas_args want target timeout =
    "wait" ∷ ("--for=jsonpath={.status.readyReplicas}=" <> want) ∷ target ∷ timeout_arg timeout ∷ []

abbrev pub rollout_args : String → String → List String
rollout_args target timeout = "rollout" ∷ "status" ∷ target ∷ timeout_arg timeout ∷ []

abbrev pub condition_args : String → String → String → List String
condition_args c target timeout = "wait" ∷ ("--for=" <> c) ∷ target ∷ timeout_arg timeout ∷ []

module _ {J Y E W : Type 0} (o : Outside J Y E W) where
  abbrev pub slashed : Target → String
  slashed t = o.to_lowercase t.kind <> ("/" <> t.name)

  abbrev pub in_namespace : String → Target → List String → List String
  in_namespace context t args = kubectl o context ("-n" ∷ t.namespace ∷ args)

  -- `run_capture`: what a command that succeeded prints.
  abbrev pub captured : Option Output → Option String
  captured none = none
  captured (some out) = if out.status_ok then some out.stdout else none

  abbrev pub spec_args : String → Target → List String
  spec_args path t = "get" ∷ slashed t ∷ "-o" ∷ ("jsonpath={.spec." <> (path <> "}")) ∷ []

  abbrev pub ask : String → Target → String → Run E W (Option Output)
  ask context t path = output o (in_namespace context t (spec_args path t))

  abbrev pub read_replicas : Option Output → Option String
  read_replicas out = and_then (captured out) (λ n. non_empty (trim n))

  unfoldable pub desired_replicas : String → Target → Run E W (Option String)
  desired_replicas context t = ask context t "replicas" >>= λ out. pure (read_replicas out)

  abbrev pub says_on_delete : Option Output → Bool
  says_on_delete out = elim (captured out) [ none ↦ false | some n ↦ trim n == "OnDelete" ]

  unfoldable pub updates_on_delete : String → Target → Run E W Bool
  updates_on_delete context t =
      ask context t "updateStrategy.type" >>= λ out. pure (says_on_delete out)

  abbrev pub args_of_rollout : String → String → Target → Bool → Run E W (List String)
  args_of_rollout context timeout t on_delete =
      if on_delete
      then (desired_replicas context t >>= λ want.
          pure (replicas_args (or_else want "1") (slashed t) timeout))
      else pure (rollout_args (slashed t) timeout)

  abbrev pub args_of : String → String → Target → Readiness → Run E W (List String)
  args_of context timeout t (condition c) = pure (condition_args c (slashed t) timeout)
  args_of context timeout t rollout =
      updates_on_delete context t >>= args_of_rollout context timeout t

  -- The words of the wait, which ask the cluster where the kind does not say.
  unfoldable pub wait_args : String → String → Target → Run E W (List String)
  unfolding desired_replicas updates_on_delete readiness_for
  wait_args context timeout t = args_of context timeout t (readiness_for t.kind)

  abbrev pub and_stalled : Target → Option Output → List String → List String
  and_stalled t out rest =
      if succeeded out then rest else (t.namespace <> ("/" <> slashed t)) ∷ rest

  -- The loop over the targets: the workloads that did not become ready.
  unfoldable pub wait_each : String → String → List Target → Run E W (List String)
  unfolding wait_args
  wait_each context timeout [] = pure []
  wait_each context timeout (t ∷ ts) = wait_args context timeout t >>= λ args.
      output o (in_namespace context t args) >>= λ out.
      wait_each context timeout ts >>= λ rest. pure (and_stalled t out rest)

  abbrev pub targets_in : List String → List Target
  targets_in [] = []
  targets_in (path ∷ paths) =
      elim (o.read_to_string path) [
        | none ↦ []
        | some content ↦ wait_targets_in_file o.yaml content
      ]
      ++ targets_in paths

  -- The workloads below a directory.
  unfoldable pub targets_under : String → List Target
  unfolding yaml_files
  targets_under dir = targets_in (yaml_files o (o.entries dir))

  abbrev pub all_ready : ℕ → List String → Run E W (Unit {0})
  all_ready of names = ensure (is_nil names) (stalled names of)

  abbrev pub wait_all : String → String → List Target → Run E W (Unit {0})
  wait_all context timeout targets =
      if is_nil targets
      then pure tt
      else (wait_each context timeout targets >>= all_ready (length targets))

  unfoldable pub wait_workloads_ready : String → String → String → Run E W (Unit {0})
  unfolding targets_under wait_each
  wait_workloads_ready context dir timeout = wait_all context timeout (targets_under dir)
