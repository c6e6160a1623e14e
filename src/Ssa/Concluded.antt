-- ===== src/Ssa/Concluded.antt =====
-- With enough fuel for the attempts of a bundle, a run of cli/src/io/ssa/mod.rs ends.
use catallaxy.Prelude.{
  Bool, true, false, not, List, [], ◌∷◌, String, ℕ, ◌≤◌, is_nil, full_lines, length, or_else,
}
use catallaxy.Prune.{plan_prune, is_empty_plan}
use catallaxy.Ssa.{
  Outside, Outcome, Session, ReadyProbe, Wave, WaveBundle, ApplyManifests, ProjectionConfig, pure,
  bail, for_each, require_named, output, status, running, stalled, probe_failed, secret_not_applied,
  no_manifest_root, no_wave_meta, reading, parsing,
}
use catallaxy.Ssa.Owned.{owned_by_lab, run, delete, delete_args}
use catallaxy.Ssa.Workloads
use catallaxy.Ssa.Workloads.{
  Target, Readiness, readiness_for, in_namespace, slashed, replicas_args, rollout_args,
  condition_args, targets_under, wait_args, args_of, args_of_rollout, and_stalled, wait_each,
  all_ready, wait_all, wait_workloads_ready, updates_on_delete, desired_replicas, read_replicas,
  says_on_delete, ask,
}
use catallaxy.Ssa.Probe.{probe_commands, demand, run_ready_probe}
use catallaxy.Ssa.Bundle.{apply_bundle_with_retry, wait_crd, wait_bundle_crds, apply_args}
use catallaxy.Ssa.Waves.{
  is_projection, timeout, dir_of, apply_secret, projections_for, apply_wave_bundle,
  apply_wave_bundles, await_bundle, await_wave_bundles, apply_wave, declared_bundles, prune_inputs,
  delete_one, prune_undeclared, apply_wave_ordered, guarded, apply_manifest_root,
}
use catallaxy.Ssa.Attempts.{
  KeepsTime, Tried, applied, gave_up, not_started, apply_bundle_with_retry-Tried,
}
use catallaxy.Ssa.Projections.{inject_projections}
use catallaxy.Ssa.InjectedEnds.{inject_projections-Ends}
use catallaxy.Ssa.Established.{wait_crd-Ends}
use catallaxy.Ssa.Ends.{
  IsEnd, Ends, Ends-pure, Ends-bail, Ends-if, Ends-bind, Ends-option, Ends-for_each, Ends-ensure,
  Ends-require_named, Ends-output, Ends-status, run-Ends, owned_by_lab-Ends,
}

module _ {J Y E W : Type 0} (o : Outside J Y E W) where
  args_of-Ends :
      (context within : String) (t : Target) (r : Readiness)
      → Ends {E = E} (args_of o context within t r)
  unfolding updates_on_delete desired_replicas
  args_of-Ends context within t (Workloads.condition c) =
      Ends-pure (condition_args c (slashed o t) within)
  args_of-Ends context within t Workloads.rollout =
      Ends-bind (updates_on_delete o context t) (args_of_rollout o context within t)
        (Ends-bind (ask o context t "updateStrategy.type") _ (Ends-output o _)
          (λ out. Ends-pure (says_on_delete o out)))
        (λ on_delete.
          Ends-if on_delete _ _
            (Ends-bind (desired_replicas o context t) _
              (Ends-bind (ask o context t "replicas") _ (Ends-output o _)
                (λ out. Ends-pure (read_replicas o out)))
              (λ want. Ends-pure (replicas_args (or_else want "1") (slashed o t) within)))
            (Ends-pure (rollout_args (slashed o t) within)))

  wait_each-Ends :
      (context within : String) (ts : List Target) → Ends {E = E} (wait_each o context within ts)
  unfolding wait_each wait_args
  wait_each-Ends context within [] = Ends-pure []
  wait_each-Ends context within (t ∷ ts) =
      Ends-bind (wait_args o context within t) _
        (args_of-Ends context within t (readiness_for t.kind))
        (λ args. Ends-bind (output o (in_namespace o context t args)) _ (Ends-output o _) (λ out.
          Ends-bind (wait_each o context within ts) _ (wait_each-Ends context within ts)
            (λ rest. Ends-pure (and_stalled o t out rest))))

  wait_workloads_ready-Ends :
      (context dir within : String) → Ends {E = E} (wait_workloads_ready o context dir within)
  unfolding wait_workloads_ready
  wait_workloads_ready-Ends context dir within =
      Ends-if (is_nil (targets_under o dir)) (pure tt) _ (Ends-pure tt) (
        Ends-bind (wait_each o context within (targets_under o dir))
          (all_ready o (length (targets_under o dir)))
          (wait_each-Ends context within (targets_under o dir))
          (λ names. Ends-ensure (is_nil names) (stalled names (length (targets_under o dir)))))

  run_ready_probe-Ends :
      (context bundle fallback : String) (dry_run : Bool) (probe : ReadyProbe J)
      → Ends {E = E} (run_ready_probe o context bundle fallback dry_run probe)
  unfolding run_ready_probe
  run_ready_probe-Ends context bundle fallback dry_run probe =
      let one = demand o context bundle fallback in
      Ends-bind (require_named context) _ (Ends-require_named context) (λ _.
        Ends-if dry_run (pure tt) _ (Ends-pure tt) (record {
          at_end = λ s.
              (Ends-for_each one
                  (probe_commands o context bundle fallback (o.unix_time s.world) probe)
                  (λ c.
                    Ends-bind (status o c) _ (Ends-status o c)
                      (λ success. Ends-ensure success (probe_failed bundle c)))).at_end
                s;
        }))

  Tried-IsEnd :
      (bundle : String) (command : List String) (s : Session W)
      (r : Outcome E (Unit {0}) × Session W)
      → Tried o bundle command s r
      → IsEnd r
  Tried-IsEnd bundle command s r (applied n s' few e) = tt
  Tried-IsEnd bundle command s r (gave_up n s' few late e) = tt
  Tried-IsEnd bundle command s r (not_started n s' few e) = tt

  wait_bundle_crds-Ends :
      KeepsTime o
      → (context dir timeout : String) (dry_run : Bool)
      → Ends {E = E} (wait_bundle_crds o context dir timeout dry_run)
  unfolding wait_bundle_crds
  wait_bundle_crds-Ends keeps context dir timeout dry_run =
      Ends-if (o.exists (o.join dir ".crd-wait")) _ (pure tt)
        (Ends-option (o.read_to_string (o.join dir ".crd-wait")) _ _ (Ends-bail _) (λ content.
          Ends-if (is_nil (full_lines content)) (pure tt) _ (Ends-pure tt) (
            Ends-if dry_run (pure tt) _ (Ends-pure tt) (
              Ends-for_each (wait_crd o context timeout) (full_lines content)
                (λ crd. wait_crd-Ends o context crd keeps timeout)))))
        (Ends-pure tt)

  module _ (fuel : ℕ) (opts : ApplyManifests) where
    inject-Ends :
        (ps : List (String × ProjectionConfig))
        → Ends {E = E} (inject_projections o opts (apply_secret o fuel opts) ps)
    inject-Ends = inject_projections-Ends o opts (apply_secret o fuel opts) (λ dir name.
        Ends-if opts.dry_run (pure tt) _ (Ends-pure tt) (
          Ends-bind (status o (apply_args o opts.kube_context opts.field_manager dir)) _
            (Ends-status o _) (λ success. Ends-ensure success (secret_not_applied name))))

    module _ (keeps : KeepsTime o) (enough : 30 ≤ fuel) where
      apply_bundle-Ends :
          (bundle dir : String) (dry_run : Bool)
          → Ends (
              apply_bundle_with_retry o fuel opts.kube_context opts.field_manager bundle dir
                dry_run)
      unfolding apply_bundle_with_retry
      apply_bundle-Ends bundle dir true = Ends-pure tt
      apply_bundle-Ends bundle dir false = record {
        at_end = λ s.
            Tried-IsEnd bundle (apply_args o opts.kube_context opts.field_manager dir) s _ (
              apply_bundle_with_retry-Tried o fuel opts.kube_context opts.field_manager bundle dir s
                keeps enough);
      }

      apply_wave_bundle-Ends : (b : WaveBundle J) → Ends (apply_wave_bundle o fuel opts b)
      apply_wave_bundle-Ends b = Ends-if (is_projection b.key) (pure tt) _ (Ends-pure tt) (
          Ends-if (not (o.exists (dir_of o fuel opts b))) (pure tt) _ (Ends-pure tt) (
            Ends-bind
              (apply_bundle_with_retry o fuel opts.kube_context opts.field_manager b.key
                (dir_of o fuel opts b) opts.dry_run)
              _ (apply_bundle-Ends b.key (dir_of o fuel opts b) opts.dry_run)
              (λ _.
                wait_bundle_crds-Ends keeps opts.kube_context (dir_of o fuel opts b)
                  (timeout o fuel opts) opts.dry_run)))

      await_bundle-Ends : (b : WaveBundle J) → Ends (await_bundle o fuel opts b)
      await_bundle-Ends b =
          Ends-if b.has_content _ (pure tt)
            (Ends-bind _ _
              (Ends-if opts.dry_run (pure tt) _ (Ends-pure tt) (
                wait_workloads_ready-Ends opts.kube_context (dir_of o fuel opts b)
                  (timeout o fuel opts)))
              (λ _. Ends-option b.ready_probe (pure tt) _ (Ends-pure tt) (λ probe.
                run_ready_probe-Ends opts.kube_context b.key (timeout o fuel opts) opts.dry_run
                  probe)))
            (Ends-pure tt)

      apply_wave-Ends : (wave : Wave J) → Ends (apply_wave o fuel opts wave)
      unfolding apply_wave apply_wave_bundles await_wave_bundles
      apply_wave-Ends wave =
          Ends-bind _ _
            (Ends-bind
              (inject_projections o opts (apply_secret o fuel opts)
                (projections_for o fuel opts wave.bundles))
              _ (inject-Ends (projections_for o fuel opts wave.bundles))
              (λ _.
                Ends-for_each (apply_wave_bundle o fuel opts) wave.bundles apply_wave_bundle-Ends))
            (λ _. Ends-for_each (await_bundle o fuel opts) wave.bundles await_bundle-Ends)

      prune_undeclared-Ends : (waves : List (Wave J)) → Ends (prune_undeclared o fuel opts waves)
      unfolding prune_undeclared delete
      prune_undeclared-Ends waves =
          Ends-option (declared_bundles o opts.manifest_root) (pure tt) _ (Ends-pure tt)
            (λ declared.
              Ends-bind (owned_by_lab o opts.kube_context opts.lab_name) _
                (owned_by_lab-Ends o opts.kube_context opts.lab_name)
                (λ live.
                  let plan = plan_prune (prune_inputs o fuel opts waves declared live) in
                  Ends-if (is_empty_plan plan) (pure tt) _ (Ends-pure tt) (
                    Ends-for_each (delete_one o fuel opts) plan.delete (λ key.
                      Ends-if opts.dry_run (pure tt) _ (Ends-pure tt) (
                        Ends-bind (run o opts.kube_context (delete_args o key)) _
                          (run-Ends o opts.kube_context (delete_args o key))
                          (λ out.
                            Ends-option out (bail (running (delete_args o key))) (λ r. pure tt)
                              (Ends-bail _) (λ r. Ends-pure tt)))))))

      pub apply_manifest_root-Ends : Ends (apply_manifest_root o fuel opts)
      unfolding apply_manifest_root apply_wave_ordered
      apply_manifest_root-Ends =
          let path = o.join opts.manifest_root ".wave-meta" in
          Ends-bind (require_named opts.kube_context) (λ _. guarded o fuel opts)
            (Ends-require_named opts.kube_context)
            (λ _.
              Ends-if (not (o.exists opts.manifest_root))
                (bail (no_manifest_root opts.manifest_root)) _ (Ends-bail _)
                (Ends-if (not (o.exists path)) (bail (no_wave_meta opts.manifest_root)) _
                  (Ends-bail _)
                  (Ends-option (o.read_to_string path) (bail (reading path)) _ (Ends-bail _) (λ raw.
                    Ends-option (o.parse_waves raw) (bail (parsing path)) _ (Ends-bail _) (λ waves.
                      Ends-bind (for_each (apply_wave o fuel opts) waves)
                        (λ _. prune_undeclared o fuel opts waves)
                        (Ends-for_each (apply_wave o fuel opts) waves apply_wave-Ends)
                        (λ _. prune_undeclared-Ends waves))))))
