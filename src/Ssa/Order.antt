-- ===== src/Ssa/Order.antt =====
-- The waves of a manifest tree (cli/src/io/ssa/mod.rs) come up in order.
use catallaxy.Prelude.{◌≡◌, ◌≢◌, false, List, [], ◌∷◌, ◌++◌, All, ℕ, inl, inr}
use catallaxy.Ssa.{Outside, ok, Session, Wave, WaveBundle, ApplyManifests, ◌>>◌, for_each}
use catallaxy.Ssa.Projections.{inject_projections}
use catallaxy.Ssa.Waves.{
  apply_secret, projections_for, apply_wave_bundle, apply_wave_bundles, await_bundle,
  await_wave_bundles, apply_wave,
}
use catallaxy.Ssa.Up.{IsUp, WaveIsUp}
use catallaxy.Ssa.Harmless.{apply_wave_bundle-Safe, await_bundle-Safe, apply_wave-Safe}
use catallaxy.Ssa.Only.{Only-for_each}
use catallaxy.Ssa.Returns.{GoesOn, bind-ok, grows_on, for_each-append, for_each-ok}
use catallaxy.Ssa.Awaited.{grow}
use catallaxy.Ssa.BundleUp.{
  Applied, Applied-later, Awaited, Awaited-later, apply_wave_bundle-ok, await_bundle-ok,
}

module _ {J Y E W : Type 0} (o : Outside J Y E W) (fuel : ℕ) (opts : ApplyManifests) where
  -- What comes of two stretches of waves: all of the first is up when the second begins, or the run
  -- ends within the first.
  pub data Gated (earlier later : List (Wave J)) (s : Session W) : Type 0 where
    reached :
        (between : Session W)
        → for_each (apply_wave o fuel opts) earlier s ≡ (ok tt, between)
        → All (λ w. WaveIsUp o fuel opts w between) earlier
        → for_each (apply_wave o fuel opts) (earlier ++ later) s
          ≡ for_each (apply_wave o fuel opts) later between
        → Gated earlier later s
    ended :
        (for_each (apply_wave o fuel opts) earlier s).0 ≢ ok tt
        → for_each (apply_wave o fuel opts) (earlier ++ later) s
          ≡ for_each (apply_wave o fuel opts) earlier s
        → Gated earlier later s

  module _ (real : opts.dry_run ≡ false) where
    up :
        (bs : List (WaveBundle J)) (s s' : Session W)
        → GoesOn s s'
        → All (λ b. Applied o fuel opts real b s) bs
        → All (λ b. Awaited o fuel opts real b s') bs
        → All (λ b. IsUp o fuel opts b s') bs
    up [] s s' g a w = tt
    up (b ∷ bs) s s' g (a, more) (w, rest) = (
      record {
        applied = Applied-later o fuel opts real b s s' g a;
        awaited = w.awaited;
        probed = w.probed;
      },
      up bs s s' g more rest,
    )

    pub apply_wave-ok :
        (wave : Wave J) (s s' : Session W)
        → apply_wave o fuel opts wave s ≡ (ok tt, s')
        → WaveIsUp o fuel opts wave s'
    unfolding apply_wave apply_wave_bundles await_wave_bundles
    apply_wave-ok wave s s' h =
        let inject =
          inject_projections o opts (apply_secret o fuel opts)
            (projections_for o fuel opts wave.bundles) in
        let apply = for_each (apply_wave_bundle o fuel opts) wave.bundles in
        let await = for_each (await_bundle o fuel opts) wave.bundles in
        let grows_applying = λ (b : WaveBundle J).
          grow (apply_wave_bundle o fuel opts b) (apply_wave_bundle-Safe o fuel opts b) in
        let grows_awaiting = λ (b : WaveBundle J).
          grow (await_bundle o fuel opts b) (await_bundle-Safe o fuel opts b) in
        let (_, t, e, h1) = bind-ok (inject >> apply) (λ _. await) s tt s' h in
        let (_, u, e', h2) = bind-ok inject (λ _. apply) s tt t e in
        up wave.bundles t s'
          (grows_on await t s' (ok tt)
            (Only-for_each _ (await_bundle o fuel opts) grows_awaiting wave.bundles) h1)
          (for_each-ok (apply_wave_bundle o fuel opts) (Applied o fuel opts real) grows_applying
            (apply_wave_bundle-ok o fuel opts real) (Applied-later o fuel opts real) wave.bundles u
            t h2)
          (for_each-ok (await_bundle o fuel opts) (Awaited o fuel opts real) grows_awaiting
            (await_bundle-ok o fuel opts real) (Awaited-later o fuel opts real) wave.bundles t s'
            h1)

    bundles_last :
        (bs : List (WaveBundle J)) (s s' : Session W)
        → GoesOn s s'
        → All (λ b. IsUp o fuel opts b s) bs
        → All (λ b. IsUp o fuel opts b s') bs
    bundles_last [] s s' g h = tt
    bundles_last (b ∷ bs) s s' g (h, hs) =
        let w =
          Awaited-later o fuel opts real b s s' g
            (record { awaited = h.awaited; probed = h.probed }) in
        (
          record {
            applied = Applied-later o fuel opts real b s s' g h.applied;
            awaited = w.awaited;
            probed = w.probed;
          },
          bundles_last bs s s' g hs,
        )

    pub waves_later :
        (waves : List (Wave J)) (s s' : Session W)
        → GoesOn s s'
        → All (λ w. WaveIsUp o fuel opts w s) waves
        → All (λ w. WaveIsUp o fuel opts w s') waves
    waves_later [] s s' g h = tt
    waves_later (w ∷ ws) s s' g (h, hs) =
        (bundles_last w.bundles s s' g h, waves_later ws s s' g hs)

    pub waves-ok :
        (waves : List (Wave J)) (s s' : Session W)
        → for_each (apply_wave o fuel opts) waves s ≡ (ok tt, s')
        → All (λ w. WaveIsUp o fuel opts w s') waves
    waves-ok =
        for_each-ok (apply_wave o fuel opts) (WaveIsUp o fuel opts)
          (λ w. grow (apply_wave o fuel opts w) (apply_wave-Safe o fuel opts w)) apply_wave-ok
          (λ w s s' g h. bundles_last w.bundles s s' g h)

  -- In a run that is no dry run, no command of a wave is run before every bundle of the waves before
  -- it is up: its manifests were applied, unless it is a projection or has no directory, and, if it
  -- has content, each of its workloads was seen ready and its probe has succeeded. Where a wave
  -- fails, nothing of the waves behind it is run.
  pub apply_wave-Gated :
      opts.dry_run ≡ false → (earlier later : List (Wave J)) (s : Session W) → Gated earlier later s
  apply_wave-Gated real earlier later s =
      elim (for_each-append (apply_wave o fuel opts) later earlier s) [
        | inl (between, e, split) ↦ reached between e (waves-ok real earlier s between e) split
        | inr (not_ok, split) ↦ ended not_ok split
      ]
