-- ===== src/Ssa/Pruned.antt =====
-- What a run of `apply_manifest_root` (cli/src/io/ssa/mod.rs) deletes, and when.
use catallaxy.Prelude.{
  ◌≡◌, refl, ap, false, some, List, String, arith, inl, inr, ℕ, Option-cases, not,
}
use catallaxy.Prune.{ResourceKey, LiveResource, plan_prune, is_empty_plan}
use catallaxy.Prune.Plan.{Deletes, plan_prune-IsSound}
use catallaxy.Ssa.{
  Outside, ok, Session, Wave, ApplyManifests, kubectl, for_each, pure, bail, running,
  no_manifest_root, no_wave_meta,
}
use catallaxy.Ssa.Owned.{owned_by_lab, delete, delete_args, run}
use catallaxy.Ssa.Waves.{
  declared_bundles, prune_inputs, apply_wave, prune_undeclared, delete_one, apply_waves,
  apply_wave_ordered, guarded, apply_manifest_root,
}
use catallaxy.Ssa.Commands.{
  IsRead, IsDelete, IsHarmless, IsRead-IsHarmless, run-Only, owned_by_lab-Only,
}
use catallaxy.Ssa.Harmless.{apply_wave-Safe}
use catallaxy.Ssa.Only.{
  Added, Only, Added-refl, Only-if, Only-pure, Only-bail, Only-bind, Only-option, Only-for_each,
  Only-for_each_given, Only-mono, Added-bind, Added-either, Only-by, Added-require_named,
}

module _ {J Y E W : Type 0} (o : Outside J Y E W) (fuel : ℕ) (opts : ApplyManifests) where
  -- Why a command that deletes may have been run: all waves were applied and awaited, and what then
  -- carries the lab's label has a resource for the key that may go.
  pub record IsWarranted (s : Session W) (command : List String) : Type 0 where
    pub for_real : opts.dry_run ≡ false
    pub raw : String
    pub read : o.read_to_string (o.join opts.manifest_root ".wave-meta") ≡ some raw
    pub waves : List (Wave J)
    pub parsed : o.parse_waves raw ≡ some waves
    pub deployed : Session W
    pub all_waves : for_each (apply_wave o fuel opts) waves s ≡ (ok tt, deployed)
    pub declared : List String
    pub bundles : declared_bundles o opts.manifest_root ≡ some declared
    pub live : List LiveResource
    pub listed : (owned_by_lab o opts.kube_context opts.lab_name deployed).0 ≡ ok live
    pub key : ResourceKey
    pub asked : command ≡ kubectl o opts.kube_context (delete_args o key)
    pub dropped : Deletes (prune_inputs o fuel opts waves declared live) key

  module _ (s : Session W) where
    abbrev pub Warranted : List String → Type 0
    Warranted c = IsDelete c → IsWarranted s c

    harmless : (c : List String) → IsHarmless c → Warranted c
    harmless c h d = absurd (ground arith)

    module _ (raw : String)
        (read : o.read_to_string (o.join opts.manifest_root ".wave-meta") ≡ some raw) where
      module _ (waves : List (Wave J)) (parsed : o.parse_waves raw ≡ some waves) where
        module _ (deployed : Session W)
            (all_waves : for_each (apply_wave o fuel opts) waves s ≡ (ok tt, deployed)) where
          delete_one-Warranted :
              (declared : List String)
              → declared_bundles o opts.manifest_root ≡ some declared
              → (live : List LiveResource)
              → (owned_by_lab o opts.kube_context opts.lab_name deployed).0 ≡ ok live
              → (key : ResourceKey) → Deletes (prune_inputs o fuel opts waves declared live) key
              → Only Warranted (delete_one o fuel opts key)
          unfolding delete
          delete_one-Warranted declared bundles live listed key dropped =
              Only-by Warranted opts.dry_run (pure tt) _ (λ dry. Only-pure Warranted tt)
                (λ for_real.
                  (Only-bind Warranted (run o opts.kube_context (delete_args o key)) _
                    (run-Only o Warranted opts.kube_context (delete_args o key) (λ _. record {
                      for_real = for_real;
                      raw = raw;
                      read = read;
                      waves = waves;
                      parsed = parsed;
                      deployed = deployed;
                      all_waves = all_waves;
                      declared = declared;
                      bundles = bundles;
                      live = live;
                      listed = listed;
                      key = key;
                      asked = refl;
                      dropped = dropped;
                    }))
                    (λ out.
                      Only-option Warranted out (bail (running (delete_args o key))) (λ r. pure tt)
                        (Only-bail Warranted _) (λ r. Only-pure Warranted tt))))

          pub prune-Warranted :
              Added Warranted deployed (prune_undeclared o fuel opts waves deployed).1
          unfolding prune_undeclared
          prune-Warranted = elim (Option-cases (declared_bundles o opts.manifest_root)) [
            | inl e ↦ rw (e, prune_undeclared) (Added-refl Warranted deployed)
            | inr (declared, e) ↦
                rw (e, prune_undeclared)
                  (Added-bind Warranted (owned_by_lab o opts.kube_context opts.lab_name) _ deployed
                    ((Only-mono IsRead Warranted _ (λ c r. harmless c (IsRead-IsHarmless c r))
                        (owned_by_lab-Only o opts.kube_context opts.lab_name)).added
                      deployed)
                    (λ live s' listed.
                      let inputs = prune_inputs o fuel opts waves declared live in
                      (Only-if Warranted (is_empty_plan (plan_prune inputs)) (pure tt) _
                          (Only-pure Warranted tt)
                          (Only-for_each_given Warranted (Deletes inputs) (delete_one o fuel opts)
                            (delete_one-Warranted declared e live (ap (λ r. r.0) listed))
                            (plan_prune inputs).delete (plan_prune-IsSound inputs).deletes)).added
                        s'))
          ]

        apply_waves-Warranted : Added Warranted s (apply_waves o fuel opts waves s).1
        apply_waves-Warranted =
            Added-bind Warranted (for_each (apply_wave o fuel opts) waves)
              (λ _. prune_undeclared o fuel opts waves) s
              ((Only-mono IsHarmless Warranted _ harmless (
                  Only-for_each IsHarmless (apply_wave o fuel opts) (apply_wave-Safe o fuel opts)
                    waves)).added
                s)
              (λ _ deployed e. prune-Warranted deployed e)

    ordered-Warranted :
        Added Warranted s
          (apply_wave_ordered o fuel opts (o.join opts.manifest_root ".wave-meta") s).1
    unfolding apply_wave_ordered
    ordered-Warranted =
        elim (Option-cases (o.read_to_string (o.join opts.manifest_root ".wave-meta"))) [
          | inl e ↦ rw (e, apply_wave_ordered) (Added-refl Warranted s)
          | inr (raw, read) ↦ elim (Option-cases (o.parse_waves raw)) [
            | inl e ↦ rw (read, e, apply_wave_ordered) (Added-refl Warranted s)
            | inr (waves, parsed) ↦
                rw (read, parsed, apply_wave_ordered) (apply_waves-Warranted raw read waves parsed)
          ]
        ]

  -- Every `kubectl delete` of a run is warranted: the run is no dry run, it came after all waves were
  -- applied and awaited, and it is for the key of a live resource whose bundle is no longer declared,
  -- or was applied here without the resource, and which is not storage.
  pub apply_manifest_root-Deletes :
      (s : Session W)
      → Added (λ c. IsDelete c → IsWarranted s c) s (apply_manifest_root o fuel opts s).1
  unfolding apply_manifest_root
  apply_manifest_root-Deletes s =
      Added-require_named (Warranted s) opts.kube_context (λ _. guarded o fuel opts) s
        (Added-either (Warranted s) (not (o.exists opts.manifest_root))
          (bail (no_manifest_root opts.manifest_root)) _ s (Added-refl (Warranted s) s)
          (Added-either (Warranted s) (not (o.exists (o.join opts.manifest_root ".wave-meta")))
            (bail (no_wave_meta opts.manifest_root))
            (apply_wave_ordered o fuel opts (o.join opts.manifest_root ".wave-meta")) s
            (Added-refl (Warranted s) s) (ordered-Warranted s)))
