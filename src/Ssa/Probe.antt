-- ===== src/Ssa/Probe.antt =====
-- cli/src/io/ssa/probe.rs: the probe that says whether a bundle is ready. What each kind of probe runs
-- is `probe_commands`; all kinds run their commands in order until one fails.
use catallaxy.Prelude.{
  ℕ, Bool, not, Option, none, some, List, [], ◌∷◌, ◌++◌, String, ◌<>◌, ◌==◌, contains, decimal,
  or_else, to_ascii_lowercase, is_ascii_alphanumeric, trim_matches, split_at, eqb, if◌then◌else◌,
  zero, suc,
}
use Prim.Native.Char.{Char, code}
use catallaxy.Ssa.{
  Outside, ReadyProbe, condition, jsonpath, exists, pod, kubectl_wait, script, Run, probe_failed,
  pure, ensure, ◌>>=◌, require_named, kubectl, status, for_each,
}
use catallaxy.Ssa.Workloads.{timeout_arg}

abbrev namespace_args : Option String → List String
namespace_args none = []
namespace_args (some ns) = "-n" ∷ ns ∷ []

-- `resource.split_once('/')`: the part in front, or the whole.
abbrev resource_kind : String → String
resource_kind resource = elim (split_at b'/' resource) [ [] ↦ resource | front ∷ rest ↦ front ]

-- What to wait for: the kinds without an `Available` condition are asked for a replica.
unfoldable pub condition_arg : String → String → String
unfolding to_ascii_lowercase
condition_arg resource c =
    let kind = to_ascii_lowercase (resource_kind resource) in
    if not (to_ascii_lowercase c == "available")
    then "--for=condition=" <> c
    else if contains ("statefulset" ∷ "sts" ∷ "statefulsets" ∷ []) kind
    then "--for=jsonpath={.status.readyReplicas}=1"
    else if contains ("daemonset" ∷ "ds" ∷ "daemonsets" ∷ []) kind
    then "--for=jsonpath={.status.numberReady}=1"
    else "--for=condition=" <> c

abbrev is_dash : Char → Bool
is_dash c = eqb (code c) b'-'

abbrev dashed : String → String
dashed String.[] = ""
dashed (String.◌∷◌ c s) =
    let rest = dashed s in if is_ascii_alphanumeric c then String.◌∷◌ c rest else "-" <> rest

-- `chars().take(n)`
abbrev take_chars : ℕ → String → String
take_chars zero s = ""
take_chars (suc n) String.[] = ""
take_chars (suc n) (String.◌∷◌ c s) = String.◌∷◌ c (take_chars n s)

unfoldable pub pod_name : String → ℕ → String
unfolding trim_matches to_ascii_lowercase decimal
pod_name bundle stamp =
    let slug = to_ascii_lowercase (trim_matches is_dash (dashed bundle)) in
    "probe-" <> (trim_matches is_dash (take_chars 40 slug) <> ("-" <> decimal stamp))

module _ {J Y E W : Type 0} (o : Outside J Y E W) (context bundle fallback : String) where
  abbrev wait_for : String → Option String → Option String → String → List String
  wait_for resource namespace timeout for_arg = kubectl o context (
      namespace_args namespace
      ++ ("wait" ∷ for_arg ∷ resource ∷ timeout_arg (or_else timeout fallback) ∷ []))

  -- `suffix` of the value that the path is to have.
  abbrev value_suffix : Option J → String
  value_suffix none = ""
  value_suffix (some v) = "=" <> or_else (o.json.as_str v) (o.json.show v)

  -- What `probe_condition`, `probe_jsonpath`, `probe_exists`, `probe_pod`, `probe_kubectl_wait` and
  -- `probe_script` run.
  unfoldable pub condition_commands :
      String → Option String → String → Option String → List (List String)
  unfolding condition_arg
  condition_commands resource namespace c timeout =
      wait_for resource namespace timeout "--for=create"
      ∷ wait_for resource namespace timeout (condition_arg resource c)
      ∷ []

  unfoldable pub jsonpath_commands :
      String → Option String → String → Option J → Option String → List (List String)
  jsonpath_commands resource namespace path value timeout =
      wait_for resource namespace timeout "--for=create"
      ∷ wait_for resource namespace timeout ("--for=jsonpath=" <> (path <> value_suffix value))
      ∷ []

  unfoldable pub exists_commands : String → Option String → Option String → List (List String)
  exists_commands resource namespace timeout =
      wait_for resource namespace timeout "--for=create" ∷ []

  unfoldable pub pod_commands :
      ℕ → String → List String → List String → Option String → Option String → List (List String)
  unfolding pod_name
  pod_commands stamp image command args namespace timeout =
      kubectl o context (
        "-n"
        ∷ or_else namespace "default"
        ∷ "run"
        ∷ pod_name bundle stamp
        ∷ "--rm"
        ∷ "--attach"
        ∷ "--restart=Never"
        ∷ ("--pod-running-timeout=" <> or_else timeout fallback)
        ∷ ("--image=" <> image)
        ∷ "--command"
        ∷ "--"
        ∷ (command ++ args))
      ∷ []

  unfoldable pub kubectl_wait_commands : List String → List (List String)
  kubectl_wait_commands args = kubectl o context ("wait" ∷ args) ∷ []

  -- `KUBE_CONTEXT` is set for the script.
  unfoldable pub script_commands : String → List (List String)
  script_commands body =
      ("env" ∷ ("KUBE_CONTEXT=" <> context) ∷ "bash" ∷ "-euo" ∷ "pipefail" ∷ "-c" ∷ body ∷ []) ∷ []

  -- The commands of a probe, at the time `stamp`.
  unfoldable pub probe_commands : ℕ → ReadyProbe J → List (List String)
  unfolding condition_commands jsonpath_commands exists_commands pod_commands kubectl_wait_commands
      script_commands
  probe_commands stamp (condition resource namespace c timeout) =
      condition_commands resource namespace c timeout
  probe_commands stamp (jsonpath resource namespace path value timeout) =
      jsonpath_commands resource namespace path value timeout
  probe_commands stamp (exists resource namespace timeout) =
      exists_commands resource namespace timeout
  probe_commands stamp (pod image command args namespace timeout) =
      pod_commands stamp image command args namespace timeout
  probe_commands stamp (kubectl_wait args) = kubectl_wait_commands args
  probe_commands stamp (script body) = script_commands body

  -- A command of a probe, which has to succeed.
  abbrev pub demand : List String → Run E W (Unit {0})
  demand command = status o command >>= λ success. ensure success (probe_failed bundle command)

  abbrev pub run_commands : Bool → ReadyProbe J → Run E W (Unit {0})
  run_commands dry_run probe = if dry_run then pure tt else λ s.
      for_each demand (probe_commands (o.unix_time s.world) probe) s

  unfoldable pub run_ready_probe : Bool → ReadyProbe J → Run E W (Unit {0})
  unfolding probe_commands
  run_ready_probe dry_run probe = require_named context >>= λ _. run_commands dry_run probe
