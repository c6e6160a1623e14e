-- ===== src/Ssa/Deployed.antt =====
-- What `apply_manifest_root` of cli/src/io/ssa/mod.rs comes to.
use catallaxy.Prelude.{◌≡◌, refl, ap, subst, false, not, some, List, String, All, ℕ, ◌≤◌}
use catallaxy.Ssa.{
  Outside, Outcome, ok, err, out_of_fuel, Session, SsaError, Wave, ApplyManifests, for_each,
  require_named, no_manifest_root, no_wave_meta, reading, parsing,
}
use catallaxy.Ssa.Waves.{
  apply_wave, prune_undeclared, apply_waves, apply_wave_ordered, guarded, apply_manifest_root,
}
use catallaxy.Ssa.Up.{WaveIsUp}
use catallaxy.Ssa.Attempts.{KeepsTime}
use catallaxy.Ssa.Only.{Added, All-mono}
use catallaxy.Ssa.Returns.{GoesOn, bind-ok, past, option-ok}
use catallaxy.Ssa.Pruned.{Warranted, prune-Warranted}
use catallaxy.Ssa.Order.{waves-ok, waves_later}
use catallaxy.Ssa.Ends.{IsEnd}
use catallaxy.Ssa.Concluded.{apply_manifest_root-Ends}

module _ {J Y E W : Type 0} (o : Outside J Y E W) (fuel : ℕ) (opts : ApplyManifests) where
  -- Every bundle of every wave that the tree lists is up.
  pub record IsDeployed (s : Session W) : Type 0 where
    pub raw : String
    pub read : o.read_to_string (o.join opts.manifest_root ".wave-meta") ≡ some raw
    pub waves : List (Wave J)
    pub parsed : o.parse_waves raw ≡ some waves
    pub up : All (λ w. WaveIsUp o fuel opts w s) waves

  pub data Concluded : Outcome E (Unit {0}) × Session W → Type 0 where
    deployed : (s' : Session W) → IsDeployed s' → Concluded (ok tt, s')
    refused : (e : SsaError E) (s' : Session W) → Concluded (err e, s')

  concluded :
      (r : Outcome E (Unit {0}) × Session W)
      → IsEnd r
      → ((s' : Session W) → r ≡ (ok tt, s') → IsDeployed s')
      → Concluded r
  concluded (ok a, s') h done = deployed s' (done s' refl)
  concluded (err e, s') h done = refused e s'
  concluded (out_of_fuel, s') h done = absurd h

  grown :
      (Q : List String → Type 0) (u s' : Session W) (waves : List (Wave J))
      → prune_undeclared o fuel opts waves u ≡ (ok tt, s')
      → Added Q u (prune_undeclared o fuel opts waves u).1
      → GoesOn u s'
  grown Q u s' waves e added =
      subst (GoesOn u) (ap (λ r. r.1) e)
        (let (t, eq, all) = added in (t, eq, All-mono Q _ t (λ c q. tt) all))

  module _ (real : opts.dry_run ≡ false) where
    apply_manifest_root-ok :
        (s s' : Session W) → apply_manifest_root o fuel opts s ≡ (ok tt, s') → IsDeployed s'
    unfolding apply_manifest_root apply_wave_ordered
    apply_manifest_root-ok s s' h =
        let path = o.join opts.manifest_root ".wave-meta" in
        let ordered = apply_wave_ordered o fuel opts path in
        let (_, t, _, h1) =
          bind-ok (require_named opts.kube_context) (λ _. guarded o fuel opts) s tt s' h in
        let h2 =
          past (not (o.exists opts.manifest_root)) (no_manifest_root opts.manifest_root) _ t s' tt
            h1 in
        let h3 = past (not (o.exists path)) (no_wave_meta opts.manifest_root) ordered t s' tt h2 in
        let (raw, read, h4) = option-ok (o.read_to_string path) (reading path) _ t s' tt h3 in
        let (waves, parsed, h5) =
          option-ok (o.parse_waves raw) (parsing path) (apply_waves o fuel opts) t s' tt h4 in
        let (_, u, e, h6) =
          bind-ok (for_each (apply_wave o fuel opts) waves)
            (λ _. prune_undeclared o fuel opts waves) t tt s' h5 in
        record {
          raw = raw;
          read = read;
          waves = waves;
          parsed = parsed;
          up =
              waves_later o fuel opts real waves u s'
                (grown (Warranted o fuel opts t) u s' waves h6
                  (prune-Warranted o fuel opts t raw read waves parsed u e))
                (waves-ok o fuel opts real waves t u e);
        }

    -- With a clock that does not run back and fuel for 30 attempts at a bundle, a run of a manifest root
    -- that is no dry run ends: with an error, or with every bundle of every wave of the tree up. Up
    -- means that its manifests were applied, unless it is a projection or has no directory, and that,
    -- if it has content, each of its workloads was seen ready and its probe has succeeded.
    pub apply_manifest_root-Concluded :
        KeepsTime o → 30 ≤ fuel → (s : Session W) → Concluded (apply_manifest_root o fuel opts s)
    apply_manifest_root-Concluded keeps enough s =
        concluded (apply_manifest_root o fuel opts s)
          ((apply_manifest_root-Ends o fuel opts keeps enough).at_end s) (apply_manifest_root-ok s)
