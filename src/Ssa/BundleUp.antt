-- ===== src/Ssa/BundleUp.antt =====
-- A bundle whose parts of a wave (cli/src/io/ssa/mod.rs) return is up.
use catallaxy.Prelude.{
  ◌≡◌, refl, ap, ◌∙◌, subst, Bool, true, false, not, none, some, List, [], ◌∷◌, String, All, arith,
  ℕ, zero, suc, Bool-cases, inl, inr, if◌then◌else◌, leb, ◌+◌,
}
use catallaxy.Ssa.{
  Outside, Outcome, ok, err, Run, Session, SsaError, ReadyProbe, WaveBundle, ApplyManifests, pure,
  ◌>>◌, for_each, status, probe_failed, require_named,
}
use catallaxy.Ssa.Workloads.{Target, targets_under, wait_workloads_ready}
use catallaxy.Ssa.Probe.{probe_commands, demand, run_commands, run_ready_probe}
use catallaxy.Ssa.Bundle.{
  bundle_apply_deadline, phase_apply_backoff, elapsed, rest_for, apply_args, after_attempt, retry,
  apply_bundle_with_retry, wait_bundle_crds,
}
use catallaxy.Ssa.Waves.{
  is_projection, timeout, dir_of, apply_wave_bundle, probe_bundle, await_bundle,
}
use catallaxy.Ssa.Up.{IsAwaited, IsProbed}
use catallaxy.Ssa.Harmless.{
  demands-Safe, probe_commands-IsHarmless, probe_bundle-Safe, wait_bundle_crds-Safe,
}
use catallaxy.Ssa.Commands.{IsHarmless}
use catallaxy.Ssa.Returns.{
  Seen, GoesOn, then_branch, else_branch, Seen-later, bind-ok, grows_on, status-ok, ensured-ok,
}
use catallaxy.Ssa.Awaited.{grow, later, wait_workloads_ready-ok}

module _ {J Y E W : Type 0} (o : Outside J Y E W) where
  failed :
      {e : SsaError E} {s s' : Session W}
      → ◌≡◌ {A = Outcome E (Unit {0}) × Session W} (err e, s) (ok tt, s')
      → ⊥
  failed h = cc

  after_attempt-ok :
      (started : ℕ) (bundle : String) (command : List String) (attempt : ℕ)
      (again : Run E W (Unit {0})) (success : Bool) (s s' : Session W)
      → (success ≡ true → Seen command s)
      → ((u : Session W) → again u ≡ (ok tt, s') → Seen command s')
      → after_attempt o started bundle command attempt again success s ≡ (ok tt, s')
      → Seen command s'
  after_attempt-ok started bundle command attempt again true s s' seen next h =
      subst (Seen command) (ap (λ r. r.1) h) (seen refl)
  after_attempt-ok started bundle command attempt again false s s' seen next h =
      elim (Bool-cases (leb bundle_apply_deadline (elapsed o started s + phase_apply_backoff))) [
        | inl late ↦ absurd (failed (rw late at h))
        | inr time ↦ next (rest_for o phase_apply_backoff s) (rw time at h)
      ]

  retry-ok :
      (started : ℕ) (bundle : String) (command : List String) (fuel attempt : ℕ) (s s' : Session W)
      → retry o started bundle command fuel attempt s ≡ (ok tt, s')
      → Seen command s'
  unfolding retry
  retry-ok started bundle command zero attempt s s' h = absurd cc
  retry-ok started bundle command (suc fuel) attempt s s' h =
      let (success, t, e, h') =
        bind-ok (status o command)
          (after_attempt o started bundle command (suc attempt)
            (retry o started bundle command fuel (suc attempt)))
          s tt s' h in
      after_attempt-ok started bundle command (suc attempt)
        (retry o started bundle command fuel (suc attempt)) success t s'
        (λ done. status-ok o command s t (e ∙ ap (λ b. (ok b, t)) done))
        (λ u h''. retry-ok started bundle command fuel (suc attempt) u s' h'') h'

  module _ (fuel : ℕ) (opts : ApplyManifests) (real : opts.dry_run ≡ false) where
    abbrev pub Applied : WaveBundle J → Session W → Type 0
    Applied b s =
        is_projection b.key ≡ false
        → o.exists (dir_of o fuel opts b) ≡ true
        → Seen (apply_args o opts.kube_context opts.field_manager (dir_of o fuel opts b)) s

    applied :
        (key dir : String) (s s' : Session W)
        → apply_bundle_with_retry o fuel opts.kube_context opts.field_manager key dir opts.dry_run s
          ≡ (ok tt, s')
        → Seen (apply_args o opts.kube_context opts.field_manager dir) s'
    unfolding apply_bundle_with_retry
    applied key dir s s' h =
        let command = apply_args o opts.kube_context opts.field_manager dir in
        retry-ok (o.now s.world) key command fuel 0 s s' (
          else_branch (pure tt) (λ s. retry o (o.now s.world) key command fuel 0 s) s (ok tt, s')
            opts.dry_run real h)

    pub apply_wave_bundle-ok :
        (b : WaveBundle J) (s s' : Session W)
        → apply_wave_bundle o fuel opts b s ≡ (ok tt, s')
        → Applied b s'
    apply_wave_bundle-ok b s s' h ours there =
        let dir = dir_of o fuel opts b in
        let apply =
          apply_bundle_with_retry o fuel opts.kube_context opts.field_manager b.key dir
            opts.dry_run in
        let wait = wait_bundle_crds o opts.kube_context dir (timeout o fuel opts) opts.dry_run in
        let h1 =
          else_branch (pure tt) (if not (o.exists dir) then pure tt else apply >> wait) s
            (ok tt, s') (is_projection b.key) ours h in
        let h2 =
          else_branch (pure tt) (apply >> wait) s (ok tt, s') (not (o.exists dir)) (ground arith)
            h1 in
        let (_, t, e, h3) = bind-ok apply (λ _. wait) s tt s' h2 in
        Seen-later (apply_args o opts.kube_context opts.field_manager dir) t s'
          (grows_on wait t s' (ok tt)
            (grow wait
              (wait_bundle_crds-Safe o opts.kube_context dir (timeout o fuel opts) opts.dry_run))
            h3)
          (applied b.key dir s t e)

    pub Applied-later :
        (b : WaveBundle J) (s s' : Session W) → GoesOn s s' → Applied b s → Applied b s'
    Applied-later b s s' g a ours there = Seen-later _ s s' g (a ours there)

    still_awaited :
        (ts : List Target) (s s' : Session W)
        → GoesOn s s'
        → All (λ t. IsAwaited o opts.kube_context (timeout o fuel opts) t s) ts
        → All (λ t. IsAwaited o opts.kube_context (timeout o fuel opts) t s') ts
    still_awaited [] s s' g h = tt
    still_awaited (t ∷ ts) s s' g (h, hs) =
        (later o opts.kube_context (timeout o fuel opts) t s s' g h, still_awaited ts s s' g hs)

    seen_later :
        (cs : List (List String)) (s s' : Session W)
        → GoesOn s s'
        → All (λ c. Seen c s) cs
        → All (λ c. Seen c s') cs
    seen_later [] s s' g h = tt
    seen_later (c ∷ cs) s s' g (h, hs) = (Seen-later c s s' g h, seen_later cs s s' g hs)

    pub record Awaited (b : WaveBundle J) (s : Session W) : Type 0 where
      pub awaited :
          b.has_content ≡ true
          → All
              (λ t. IsAwaited o opts.kube_context (timeout o fuel opts) t s)
              (targets_under o (dir_of o fuel opts b))
      pub probed :
          b.has_content ≡ true
          → (probe : ReadyProbe J) → b.ready_probe ≡ some probe
          → IsProbed o fuel opts b s probe

    demands-ok :
        (key : String) (cs : List (List String)) (s s' : Session W)
        → All IsHarmless cs
        → for_each (demand o opts.kube_context key (timeout o fuel opts)) cs s ≡ (ok tt, s')
        → All (λ c. Seen c s') cs
    demands-ok key [] s s' harmless h = tt
    demands-ok key (c ∷ cs) s s' (harmless, more) h =
        let one = demand o opts.kube_context key (timeout o fuel opts) in
        let (_, t, e, h') = bind-ok (one c) (λ _. for_each one cs) s tt s' h in
        (
          Seen-later c t s'
              (grows_on (for_each one cs) t s' (ok tt)
                (grow _ (demands-Safe o opts.kube_context key (timeout o fuel opts) cs more)) h')
              (ensured-ok o c (probe_failed key c) s t e),
          demands-ok key cs t s' more h',
        )

    probe-ok :
        (b : WaveBundle J) (probe : ReadyProbe J) (s s' : Session W)
        → run_ready_probe o opts.kube_context b.key (timeout o fuel opts) opts.dry_run probe s
          ≡ (ok tt, s')
        → IsProbed o fuel opts b s' probe
    unfolding run_ready_probe
    probe-ok b probe s s' h =
        let key = b.key in
        let within = timeout o fuel opts in
        let (_, t, e, h') =
          bind-ok (require_named opts.kube_context)
            (λ _. run_commands o opts.kube_context key within opts.dry_run probe) s tt s' h in
        let commands = probe_commands o opts.kube_context key within (o.unix_time t.world) probe in
        (
          o.unix_time t.world,
          demands-ok key commands t s'
              (probe_commands-IsHarmless o opts.kube_context key within (o.unix_time t.world) probe)
              (else_branch (pure tt)
                (λ s.
                  for_each (demand o opts.kube_context key within)
                    (probe_commands o opts.kube_context key within (o.unix_time s.world) probe) s)
                t (ok tt, s') opts.dry_run real h'),
        )

    -- The two parts of the wait for a bundle with content.
    waits_then_probes :
        (b : WaveBundle J) (s s' : Session W)
        → await_bundle o fuel opts b s ≡ (ok tt, s')
        → b.has_content ≡ true
        → (t : Session W) × (wait_workloads_ready o opts.kube_context
              (dir_of o fuel opts b)
              (timeout o fuel opts)
              s
            ≡ (ok tt, t))
          × (probe_bundle o fuel opts b t ≡ (ok tt, s'))
    waits_then_probes b s s' h content =
        let wait =
          wait_workloads_ready o opts.kube_context (dir_of o fuel opts b) (timeout o fuel opts) in
        let first : Run E W (Unit {0}) = if opts.dry_run then pure tt else wait in
        let h1 =
          then_branch (first >> probe_bundle o fuel opts b) (pure tt) s (ok tt, s') b.has_content
            content h in
        let (_, t, e, h2) = bind-ok first (λ _. probe_bundle o fuel opts b) s tt s' h1 in
        (t, else_branch (pure tt) wait s (ok tt, t) opts.dry_run real e, h2)

    pub await_bundle-ok :
        (b : WaveBundle J) (s s' : Session W)
        → await_bundle o fuel opts b s ≡ (ok tt, s')
        → Awaited b s'
    await_bundle-ok b s s' h = record {
      awaited = λ content.
          let (t, e, h') = waits_then_probes b s s' h content in
          still_awaited (targets_under o (dir_of o fuel opts b)) t s'
            (grows_on (probe_bundle o fuel opts b) t s' (ok tt)
              (grow _ (probe_bundle-Safe o fuel opts b)) h')
            (wait_workloads_ready-ok o opts.kube_context (timeout o fuel opts)
              (dir_of o fuel opts b) s t e);
      probed = λ content probe there.
          let (t, e, h') = waits_then_probes b s s' h content in
          probe-ok b probe t s' (
            subst
              (λ p.
                let m : Run E W (Unit {0}) = elim p [
                  | none ↦ pure tt
                  | some probe ↦
                      run_ready_probe o opts.kube_context b.key (timeout o fuel opts) opts.dry_run
                        probe
                ] in
                m t ≡ (ok tt, s'))
              there h');
    }

    pub Awaited-later :
        (b : WaveBundle J) (s s' : Session W) → GoesOn s s' → Awaited b s → Awaited b s'
    Awaited-later b s s' g a = record {
      awaited = λ content.
          still_awaited (targets_under o (dir_of o fuel opts b)) s s' g (a.awaited content);
      probed = λ content probe there.
          let (stamp, seen) = a.probed content probe there in (stamp, seen_later _ s s' g seen);
    }
