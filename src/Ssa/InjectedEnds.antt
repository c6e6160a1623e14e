-- ===== src/Ssa/InjectedEnds.antt =====
-- Injecting projections (cli/src/apply/mod.rs) ends.
use catallaxy.Prelude.{
  Option, none, some, List, [], ◌∷◌, String, ◌<>◌, Map, get, is_nil, ◌⊎◌, inl, inr, if◌then◌else◌,
}
use catallaxy.Secrets.{
  Backend, StoreValues, sops, env, vault, external, backend_of, env_bindings, validate_store,
}
use catallaxy.Ssa.{
  Outside, ApplyManifests, ProjectionConfig, ProjectionKeyConfig, Run, running, parsing, no_store,
  unread_backend, pure, bail, output, Session, done_or, value_or,
}
use catallaxy.Ssa.Projections.{
  call, secure_tempdir, decrypt_args, decrypted, decrypt_store, project, project_keys, serialized,
  write_secret, store_file_path, load_store, checked, store_data, store_name, inject_one,
  inject_from, inject_projections, read_env_store, transformed,
}
use catallaxy.Ssa.Ends.{
  IsEnd, Ends, Ends-pure, Ends-bail, Ends-if, Ends-bind, Ends-option, Ends-output,
}

module _ {J Y E W : Type 0} (o : Outside J Y E W) (opts : ApplyManifests) where
  decrypt_store-Ends : (path : String) → Ends {E = E} (decrypt_store o path)
  unfolding decrypt_store
  decrypt_store-Ends path =
      Ends-bind (output o (decrypt_args o path)) (decrypted o path)
        (Ends-output o (decrypt_args o path))
        (λ out. Ends-option out (bail (running (decrypt_args o path))) _ (Ends-bail _) (λ r.
          Ends-if r.status_ok _ _
            (Ends-option (o.parse_store r.stdout) (bail (parsing path)) (λ held. pure held)
              (Ends-bail _) (λ held. Ends-pure held))
            (Ends-bail _)))

  load_store-Ends : (store : String) → Ends {E = E} (load_store o opts store)
  unfolding load_store
  load_store-Ends store = by_backend (backend_of opts.secrets store)
    where
      by_backend :
          (b : Backend)
          → Ends {E = E} (elim b [
            | sops ↦
                let path = store_file_path o opts store in
                if o.exists path then decrypt_store o path else bail (no_store store path)
            | env ↦ pure (read_env_store o [] (env_bindings opts.secrets store))
            | vault ↦ bail (unread_backend store vault)
            | external ↦ bail (unread_backend store external)
          ])
      by_backend sops =
          Ends-if (o.exists (store_file_path o opts store)) _ _
            (decrypt_store-Ends (store_file_path o opts store)) (Ends-bail _)
      by_backend env = Ends-pure _
      by_backend vault = Ends-bail _
      by_backend external = Ends-bail _

  store_data-Ends :
      (cache : Map StoreValues) (store : String) → Ends {E = E} (store_data o opts cache store)
  unfolding store_data
  store_data-Ends cache store =
      Ends-option (get store opts.secrets_cache) _ (λ held. pure (held, cache))
        (Ends-option (get store cache) _ (λ held. pure (held, cache))
          (Ends-bind (load_store o opts store) _ (load_store-Ends store) (λ loaded.
            Ends-bind (checked o opts store loaded) _
              (Ends-if (is_nil (validate_store opts.secrets store loaded)) _ _ (Ends-pure loaded)
                (Ends-bail _))
              (λ held. Ends-pure (held, (store, held) ∷ cache))))
          (λ held. Ends-pure (held, cache)))
        (λ held. Ends-pure (held, cache))

  project_keys-Ends :
      (name source : String) (values : Map String) (keys : Map ProjectionKeyConfig)
      → Ends {E = E} (project_keys o name source values keys)
  unfolding project_keys
  project_keys-Ends name source values [] = Ends-pure []
  project_keys-Ends name source values ((key_name, key_def) ∷ keys) =
      Ends-option (get key_def.from values) _ _ (Ends-bail _) (λ value.
        Ends-bind (project_keys o name source values keys) _
          (project_keys-Ends name source values keys)
          (λ more. Ends-pure ((key_name, transformed o key_name key_def value) ∷ more)))

  project-Ends :
      (name : String) (p : ProjectionConfig) (held : StoreValues)
      → Ends {E = E} (project o name p held)
  project-Ends name p held =
      Ends-option (get p.source held) _ _ (Ends-bail _)
        (λ values. project_keys-Ends name p.source values p.keys)

  abbrev dir_at : String → String → String
  dir_at tmp name = o.join tmp ("secrets-" <> name)

  done_or-IsEnd : (failed : Option E) (s : Session W) → IsEnd (done_or failed, s)
  done_or-IsEnd none s = tt
  done_or-IsEnd (some e) s = tt

  value_or-IsEnd : (written : String ⊎ E) (s : Session W) → IsEnd (value_or written, s)
  value_or-IsEnd (inl dir) s = tt
  value_or-IsEnd (inr e) s = tt

  write_secret-Ends :
      (tmp name : String) (p : ProjectionConfig) (held : Map String)
      → Ends {E = E} (write_secret o tmp name p held)
  unfolding write_secret
  write_secret-Ends tmp name p held =
      Ends-bind (serialized o name p held) _
        (record { at_end = λ s. value_or-IsEnd (o.secret_yaml name p.namespace held) s })
        (λ yaml.
          Ends-bind (call o (o.create_dir_all (dir_at tmp name))) _
            (record {
              at_end = λ s. done_or-IsEnd (o.create_dir_all (dir_at tmp name) s.world).0 _;
            })
            (λ _.
              Ends-bind (call o (o.write (o.join (dir_at tmp name) "secret.yaml") yaml)) _
                (record {
                  at_end = λ s.
                      done_or-IsEnd
                        (o.write (o.join (dir_at tmp name) "secret.yaml") yaml s.world).0 _;
                })
                (λ _. Ends-pure _)))

  module _ (apply_fn : String → String → Run E W (Unit {0}))
      (applies : (dir name : String) → Ends {E = E} (apply_fn dir name)) where
    inject_from-Ends :
        (tmp : String) (cache : Map StoreValues) (ps : List (String × ProjectionConfig))
        → Ends {E = E} (inject_from o opts apply_fn tmp cache ps)
    unfolding inject_from
    inject_from-Ends tmp cache [] = Ends-pure tt
    inject_from-Ends tmp cache ((name, p) ∷ ps) =
        Ends-bind (inject_one o opts apply_fn tmp cache (name, p)) _
          (Ends-bind (store_data o opts cache (store_name o opts p)) _
            (store_data-Ends cache (store_name o opts p))
            (λ found. Ends-bind (project o name p found.0) _ (project-Ends name p found.0) (λ held.
              Ends-bind (write_secret o tmp name p held) _ (write_secret-Ends tmp name p held)
                (λ dir.
                  Ends-bind (apply_fn dir name) _ (applies dir name) (λ _. Ends-pure found.1)))))
          (λ loaded. inject_from-Ends tmp loaded ps)

    pub inject_projections-Ends :
        (ps : List (String × ProjectionConfig))
        → Ends {E = E} (inject_projections o opts apply_fn ps)
    unfolding inject_projections
    inject_projections-Ends ps = Ends-if (is_nil ps) (pure tt) _ (Ends-pure tt) (
        Ends-bind (secure_tempdir o) _
          (record { at_end = λ s. value_or-IsEnd (o.secure_tempdir s.world).0 _ })
          (λ tmp. inject_from-Ends tmp [] ps))
