-- ===== src/Ssa/Up.antt =====
-- What it is for a bundle of a wave (cli/src/io/ssa/mod.rs) to be up, by the commands that were run.
use catallaxy.Prelude.{◌≡◌, true, false, Option, some, List, String, All, ℕ, is_empty, trim}
use catallaxy.Ssa.{Outside, Output, Session, Wave, WaveBundle, ReadyProbe, ApplyManifests}
use catallaxy.Ssa.Workloads.{
  Target, rollout, condition, readiness_for, in_namespace, slashed, rollout_args, replicas_args,
  condition_args, targets_under, spec_args,
}
use catallaxy.Ssa.Probe.{probe_commands}
use catallaxy.Ssa.Bundle.{apply_args}
use catallaxy.Ssa.Waves.{is_projection, dir_of, timeout}
use catallaxy.Ssa.Returns.{Seen}

module _ {J Y E W : Type 0} (o : Outside J Y E W) where
  module _ (context within : String) (t : Target) where
    abbrev pub replicas_answer : W → Option Output
    replicas_answer w = (o.spawn (in_namespace o context t (spec_args o "replicas" t)) w).0

    -- The number of replicas that a get of the workload prints, and one where it fails or prints
    -- nothing.
    pub data IsWanted : String → Type 0 where
      printed :
          (out : Output) (w : W)
          → replicas_answer w ≡ some out
          → out.status_ok ≡ true
          → is_empty (trim out.stdout) ≡ false
          → IsWanted (trim out.stdout)
      not_printed :
          (w : W)
          → ((out : Output)
              → replicas_answer w ≡ some out
              → out.status_ok ≡ true
              → is_empty (trim out.stdout) ≡ true)
          → IsWanted "1"

    -- The commands that wait for a workload: the condition of a job, and the rollout or the replicas
    -- of anything else.
    pub data IsWait : List String → Type 0 where
      reached :
          (c : String)
          → readiness_for t.kind ≡ condition c
          → IsWait (in_namespace o context t (condition_args c (slashed o t) within))
      rolled_out :
          readiness_for t.kind ≡ rollout
          → IsWait (in_namespace o context t (rollout_args (slashed o t) within))
      replicated :
          (want : String)
          → IsWanted want
          → readiness_for t.kind ≡ rollout
          → IsWait (in_namespace o context t (replicas_args want (slashed o t) within))

    abbrev pub IsAwaited : Session W → Type 0
    IsAwaited s = (c : List String) × IsWait c × Seen c s

  module _ (fuel : ℕ) (opts : ApplyManifests) where
    abbrev pub IsProbed : WaveBundle J → Session W → ReadyProbe J → Type 0
    IsProbed b s probe =
        (stamp : ℕ) × All (λ c. Seen c s)
          (probe_commands o opts.kube_context b.key (timeout o fuel opts) stamp probe)

    -- The manifests were applied, unless the bundle is a projection or has no directory, and, if it has
    -- content, each workload in them was seen ready and the probe has succeeded.
    pub record IsUp (b : WaveBundle J) (s : Session W) : Type 0 where
      pub applied :
          is_projection b.key ≡ false
          → o.exists (dir_of o fuel opts b) ≡ true
          → Seen (apply_args o opts.kube_context opts.field_manager (dir_of o fuel opts b)) s
      pub awaited :
          b.has_content ≡ true
          → All
              (λ t. IsAwaited opts.kube_context (timeout o fuel opts) t s)
              (targets_under o (dir_of o fuel opts b))
      pub probed :
          b.has_content ≡ true
          → (probe : ReadyProbe J) → b.ready_probe ≡ some probe
          → IsProbed b s probe

    abbrev pub WaveIsUp : Wave J → Session W → Type 0
    WaveIsUp wave s = All (λ b. IsUp b s) wave.bundles
