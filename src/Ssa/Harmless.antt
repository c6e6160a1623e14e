-- ===== src/Ssa/Harmless.antt =====
-- Applying and awaiting the waves of cli/src/io/ssa runs no command that deletes.
use catallaxy.Prelude.{
  refl, Bool, true, false, none, some, List, [], ◌∷◌, String, is_nil, full_lines, or_else, length,
  leb, ◌+◌, ℕ, zero, suc, not, All,
}
use catallaxy.Ssa.{
  Outside, Run, ReadyProbe, Wave, WaveBundle, ApplyManifests, ProjectionConfig, condition, jsonpath,
  exists, pod, kubectl_wait, script, secret_not_applied, pure, for_each, output, status, stalled,
  probe_failed,
}
use catallaxy.Ssa.Workloads
use catallaxy.Ssa.Workloads.{
  Target, updates_on_delete, desired_replicas, wait_args, wait_each, in_namespace, targets_under,
  wait_workloads_ready, captured, spec_args, ask, read_replicas, says_on_delete, args_of,
  args_of_rollout, and_stalled, all_ready, Readiness, readiness_for, slashed, condition_args,
  rollout_args, replicas_args,
}
use catallaxy.Ssa.Probe.{probe_commands, demand, run_commands, run_ready_probe}
use catallaxy.Ssa.Bundle.{
  bundle_apply_deadline, phase_apply_backoff, rest_for, elapsed, apply_args, after_attempt, retry,
  apply_bundle_with_retry, wait_crd, wait_bundle_crds,
}
use catallaxy.Ssa.Waves.{
  is_projection, timeout, dir_of, apply_secret, projections_for, apply_wave_bundle,
  apply_wave_bundles, probe_bundle, await_bundle, await_wave_bundles, apply_wave,
}
use catallaxy.Ssa.Commands.{IsHarmless}
use catallaxy.Ssa.Projections.{inject_projections}
use catallaxy.Ssa.Injected.{inject_projections-Only}
use catallaxy.Ssa.Established.{wait_crd-Only}
use catallaxy.Ssa.Only.{
  Only, Added-refl, Only-if, Only-bind, Only-for_each, Only-require_named, Only-output, Only-status,
  Only-option, Added-if, Only-pure, Only-ensure, Only-bail, Added-if,
}

abbrev pub Safe : {E W A : Type 0} → Run E W A → Type 0
Safe m = Only IsHarmless m

module _ {J Y E W : Type 0} (o : Outside J Y E W) where
  pub args_of-Safe :
      (context within : String) (t : Target) (r : Readiness) → Safe (args_of o context within t r)
  unfolding updates_on_delete desired_replicas
  args_of-Safe context within t (Workloads.condition c) = Only-pure IsHarmless _
  args_of-Safe context within t Workloads.rollout =
      Only-bind IsHarmless (updates_on_delete o context t) (args_of_rollout o context within t)
        (Only-bind IsHarmless (ask o context t "updateStrategy.type") _
          (Only-output o IsHarmless _ refl) (λ out. Only-pure IsHarmless (says_on_delete o out)))
        (λ on_delete.
          Only-if IsHarmless on_delete _ _
            (Only-bind IsHarmless (desired_replicas o context t) _
              (Only-bind IsHarmless (ask o context t "replicas") _ (Only-output o IsHarmless _ refl)
                (λ out. Only-pure IsHarmless (read_replicas o out)))
              (λ want.
                Only-pure IsHarmless (replicas_args (or_else want "1") (slashed o t) within)))
            (Only-pure IsHarmless (rollout_args (slashed o t) within)))

  pub wait_each-Safe :
      (context within : String) (ts : List Target) → Safe (wait_each o context within ts)
  unfolding wait_each wait_args
  wait_each-Safe context within [] = Only-pure IsHarmless []
  wait_each-Safe context within (t ∷ ts) =
      Only-bind IsHarmless (wait_args o context within t) _
        (args_of-Safe context within t (readiness_for t.kind))
        (λ args.
          Only-bind IsHarmless (output o (in_namespace o context t args)) _
            (Only-output o IsHarmless _ refl)
            (λ out.
              Only-bind IsHarmless (wait_each o context within ts) _
                (wait_each-Safe context within ts)
                (λ rest. Only-pure IsHarmless (and_stalled o t out rest))))

  pub wait_workloads_ready-Safe :
      (context dir within : String) → Safe (wait_workloads_ready o context dir within)
  unfolding wait_workloads_ready
  wait_workloads_ready-Safe context dir within =
      Only-if IsHarmless (is_nil (targets_under o dir)) (pure tt) _ (Only-pure IsHarmless tt) (
        Only-bind IsHarmless (wait_each o context within (targets_under o dir))
          (all_ready o (length (targets_under o dir)))
          (wait_each-Safe context within (targets_under o dir))
          (λ names.
            Only-ensure IsHarmless (is_nil names) (stalled names (length (targets_under o dir)))))

  module _ (context bundle fallback : String) where
    pub demand-Safe :
        (command : List String)
        → IsHarmless command
        → Safe (demand o context bundle fallback command)
    demand-Safe command h =
        Only-bind IsHarmless (status o command) _ (Only-status o IsHarmless command h)
          (λ success. Only-ensure IsHarmless success (probe_failed bundle command))

    pub demands-Safe :
        (commands : List (List String))
        → All IsHarmless commands
        → Safe (for_each (demand o context bundle fallback) commands)
    demands-Safe [] h = Only-pure IsHarmless tt
    demands-Safe (c ∷ cs) (h, hs) =
        Only-bind IsHarmless (demand o context bundle fallback c) _ (demand-Safe c h)
          (λ _. demands-Safe cs hs)

    pub probe_commands-IsHarmless :
        (stamp : ℕ) (probe : ReadyProbe J)
        → All IsHarmless (probe_commands o context bundle fallback stamp probe)
    unfolding probe_commands
    probe_commands-IsHarmless stamp (condition resource none c limit) = (refl, (refl, tt))
    probe_commands-IsHarmless stamp (condition resource (some ns) c limit) = (refl, (refl, tt))
    probe_commands-IsHarmless stamp (jsonpath resource none path value limit) = (refl, (refl, tt))
    probe_commands-IsHarmless stamp (jsonpath resource (some ns) path value limit) =
        (refl, (refl, tt))
    probe_commands-IsHarmless stamp (exists resource none limit) = (refl, tt)
    probe_commands-IsHarmless stamp (exists resource (some ns) limit) = (refl, tt)
    probe_commands-IsHarmless stamp (pod image command args ns limit) = (refl, tt)
    probe_commands-IsHarmless stamp (kubectl_wait args) = (refl, tt)
    probe_commands-IsHarmless stamp (script body) = (refl, tt)

    run_commands-Safe :
        (dry_run : Bool) (probe : ReadyProbe J)
        → Safe (run_commands o context bundle fallback dry_run probe)
    run_commands-Safe true probe = Only-pure IsHarmless tt
    run_commands-Safe false probe = record {
      added = λ s. (demands-Safe _ (probe_commands-IsHarmless (o.unix_time s.world) probe)).added s;
    }

    run_ready_probe-Safe :
        (dry_run : Bool) (probe : ReadyProbe J)
        → Safe (run_ready_probe o context bundle fallback dry_run probe)
    unfolding run_ready_probe
    run_ready_probe-Safe dry_run probe =
        Only-require_named IsHarmless context _ (run_commands-Safe dry_run probe)

  module _ (bundle context field_manager dir : String) where
    after_attempt-Safe :
        (started attempt : ℕ) (again : Run E W (Unit {0})) (success : Bool)
        → Safe again
        → Safe (
            after_attempt o started bundle
              (apply_args o context field_manager dir)
              attempt
              again
              success)
    after_attempt-Safe started attempt again true h = Only-pure IsHarmless tt
    after_attempt-Safe started attempt again false h = record {
      added = λ s.
          Added-if IsHarmless s
            (leb bundle_apply_deadline (elapsed o started s + phase_apply_backoff)) _ _
            (Added-refl IsHarmless s) (h.added (rest_for o phase_apply_backoff s));
    }

    retry-Safe :
        (started fuel attempt : ℕ)
        → Safe (retry o started bundle (apply_args o context field_manager dir) fuel attempt)
    unfolding retry
    retry-Safe started zero attempt = record { added = Added-refl IsHarmless }
    retry-Safe started (suc fuel) attempt =
        Only-bind IsHarmless (status o (apply_args o context field_manager dir)) _
          (Only-status o IsHarmless _ refl)
          (λ success.
            after_attempt-Safe started (suc attempt) _ success
              (retry-Safe started fuel (suc attempt)))

    apply_bundle_with_retry-Safe :
        (fuel : ℕ) (dry_run : Bool)
        → Safe (apply_bundle_with_retry o fuel context field_manager bundle dir dry_run)
    unfolding apply_bundle_with_retry
    apply_bundle_with_retry-Safe fuel dry_run =
        Only-if IsHarmless dry_run (pure tt) _ (Only-pure IsHarmless tt)
          (record { added = λ s. (retry-Safe (o.now s.world) fuel 0).added s })

  pub wait_bundle_crds-Safe :
      (context dir timeout : String) (dry_run : Bool)
      → Safe (wait_bundle_crds o context dir timeout dry_run)
  unfolding wait_bundle_crds
  wait_bundle_crds-Safe context dir timeout dry_run =
      Only-if IsHarmless (o.exists (o.join dir ".crd-wait")) _ (pure tt)
        (Only-option IsHarmless (o.read_to_string (o.join dir ".crd-wait")) _ _
          (Only-bail IsHarmless _)
          (λ content.
            Only-if IsHarmless (is_nil (full_lines content)) (pure tt) _ (Only-pure IsHarmless tt) (
              Only-if IsHarmless dry_run (pure tt) _ (Only-pure IsHarmless tt) (
                Only-for_each IsHarmless (wait_crd o context timeout)
                  (λ crd. wait_crd-Only o context crd IsHarmless refl timeout)
                  (full_lines content)))))
        (Only-pure IsHarmless tt)

  module _ (fuel : ℕ) (opts : ApplyManifests) where
    pub inject-Safe :
        (ps : List (String × ProjectionConfig))
        → Safe (inject_projections o opts (apply_secret o fuel opts) ps)
    inject-Safe =
        inject_projections-Only o opts IsHarmless (λ path. refl) (apply_secret o fuel opts)
          (λ dir name. Only-if IsHarmless opts.dry_run (pure tt) _ (Only-pure IsHarmless tt) (
            Only-bind IsHarmless (status o (apply_args o opts.kube_context opts.field_manager dir))
              _ (Only-status o IsHarmless _ refl)
              (λ success. Only-ensure IsHarmless success (secret_not_applied name))))

    pub apply_wave_bundle-Safe : (b : WaveBundle J) → Safe (apply_wave_bundle o fuel opts b)
    apply_wave_bundle-Safe b =
        Only-if IsHarmless (is_projection b.key) (pure tt) _ (Only-pure IsHarmless tt) (
          Only-if IsHarmless (not (o.exists (dir_of o fuel opts b))) (pure tt) _
            (Only-pure IsHarmless tt)
            (Only-bind IsHarmless
              (apply_bundle_with_retry o fuel opts.kube_context opts.field_manager b.key
                (dir_of o fuel opts b) opts.dry_run)
              _
              (apply_bundle_with_retry-Safe b.key opts.kube_context opts.field_manager
                (dir_of o fuel opts b) fuel opts.dry_run)
              (λ _.
                wait_bundle_crds-Safe opts.kube_context (dir_of o fuel opts b) (timeout o fuel opts)
                  opts.dry_run)))

    pub probe_bundle-Safe : (b : WaveBundle J) → Safe (probe_bundle o fuel opts b)
    probe_bundle-Safe b =
        Only-option IsHarmless b.ready_probe (pure tt) _ (Only-pure IsHarmless tt) (λ probe.
          run_ready_probe-Safe opts.kube_context b.key (timeout o fuel opts) opts.dry_run probe)

    pub await_bundle-Safe : (b : WaveBundle J) → Safe (await_bundle o fuel opts b)
    await_bundle-Safe b =
        Only-if IsHarmless b.has_content _ (pure tt)
          (Only-bind IsHarmless _ _
            (Only-if IsHarmless opts.dry_run (pure tt) _ (Only-pure IsHarmless tt) (
              wait_workloads_ready-Safe opts.kube_context (dir_of o fuel opts b)
                (timeout o fuel opts)))
            (λ _. probe_bundle-Safe b))
          (Only-pure IsHarmless tt)

    pub apply_wave-Safe : (wave : Wave J) → Only IsHarmless (apply_wave o fuel opts wave)
    unfolding apply_wave apply_wave_bundles await_wave_bundles
    apply_wave-Safe wave =
        Only-bind IsHarmless _ _
          (Only-bind IsHarmless
            (inject_projections o opts (apply_secret o fuel opts)
              (projections_for o fuel opts wave.bundles))
            _ (inject-Safe (projections_for o fuel opts wave.bundles))
            (λ _.
              Only-for_each IsHarmless (apply_wave_bundle o fuel opts) apply_wave_bundle-Safe
                wave.bundles))
          (λ _. Only-for_each IsHarmless (await_bundle o fuel opts) await_bundle-Safe wave.bundles)
