-- ===== src/Ssa/Injected.antt =====
-- The commands that injecting projections (cli/src/apply/mod.rs) runs.
use catallaxy.Prelude.{refl, List, [], ◌∷◌, String, Map, get, is_nil, if◌then◌else◌}
use catallaxy.Secrets.{
  Backend, StoreValues, sops, env, vault, external, backend_of, env_bindings, validate_store,
}
use catallaxy.Ssa.{
  Outside, ApplyManifests, ProjectionConfig, ProjectionKeyConfig, Run, running, parsing, no_store,
  unread_backend, pure, bail, output,
}
use catallaxy.Ssa.Projections.{
  call, secure_tempdir, decrypt_args, decrypted, decrypt_store, project, project_keys, serialized,
  write_secret, store_file_path, load_store, checked, store_data, store_name, inject_one,
  inject_from, inject_projections, read_env_store, transformed,
}
use catallaxy.Ssa.Only.{
  Only, Only-pure, Only-bail, Only-still, Only-if, Only-bind, Only-output, Only-option,
}

module _ {J Y E W : Type 0} (o : Outside J Y E W) (opts : ApplyManifests) (P : List String → Type 0)
    (decrypts : (path : String) → P (decrypt_args o path)) where
  decrypt_store-Only : (path : String) → Only P (decrypt_store o path)
  unfolding decrypt_store
  decrypt_store-Only path =
      Only-bind P (output o (decrypt_args o path)) (decrypted o path)
        (Only-output o P (decrypt_args o path) (decrypts path))
        (λ out. Only-option P out (bail (running (decrypt_args o path))) _ (Only-bail P _) (λ r.
          Only-if P r.status_ok _ _
            (Only-option P (o.parse_store r.stdout) (bail (parsing path)) (λ held. pure held)
              (Only-bail P _) (λ held. Only-pure P held))
            (Only-bail P _)))

  load_store-Only : (store : String) → Only P (load_store o opts store)
  unfolding load_store
  load_store-Only store = by_backend (backend_of opts.secrets store)
    where
      by_backend :
          (b : Backend)
          → Only P (elim b [
            | sops ↦
                let path = store_file_path o opts store in
                if o.exists path then decrypt_store o path else bail (no_store store path)
            | env ↦ pure (read_env_store o [] (env_bindings opts.secrets store))
            | vault ↦ bail (unread_backend store vault)
            | external ↦ bail (unread_backend store external)
          ])
      by_backend sops =
          Only-if P (o.exists (store_file_path o opts store)) _ _
            (decrypt_store-Only (store_file_path o opts store)) (Only-bail P _)
      by_backend env = Only-pure P _
      by_backend vault = Only-bail P _
      by_backend external = Only-bail P _

  store_data-Only :
      (cache : Map StoreValues) (store : String) → Only P (store_data o opts cache store)
  unfolding store_data
  store_data-Only cache store =
      Only-option P (get store opts.secrets_cache) _ (λ held. pure (held, cache))
        (Only-option P (get store cache) _ (λ held. pure (held, cache))
          (Only-bind P (load_store o opts store) _ (load_store-Only store) (λ loaded.
            Only-bind P (checked o opts store loaded) _
              (Only-if P (is_nil (validate_store opts.secrets store loaded)) _ _
                (Only-pure P loaded) (Only-bail P _))
              (λ held. Only-pure P (held, (store, held) ∷ cache))))
          (λ held. Only-pure P (held, cache)))
        (λ held. Only-pure P (held, cache))

  project_keys-Only :
      (name source : String) (values : Map String) (keys : Map ProjectionKeyConfig)
      → Only P (project_keys o name source values keys)
  unfolding project_keys
  project_keys-Only name source values [] = Only-pure P []
  project_keys-Only name source values ((key_name, key_def) ∷ keys) =
      Only-option P (get key_def.from values) _ _ (Only-bail P _) (λ value.
        Only-bind P (project_keys o name source values keys) _
          (project_keys-Only name source values keys)
          (λ more. Only-pure P ((key_name, transformed o key_name key_def value) ∷ more)))

  project-Only :
      (name : String) (p : ProjectionConfig) (held : StoreValues) → Only P (project o name p held)
  project-Only name p held =
      Only-option P (get p.source held) _ _ (Only-bail P _)
        (λ values. project_keys-Only name p.source values p.keys)

  write_secret-Only :
      (tmp name : String) (p : ProjectionConfig) (held : Map String)
      → Only P (write_secret o tmp name p held)
  unfolding write_secret
  write_secret-Only tmp name p held =
      Only-bind P (serialized o name p held) _ (Only-still P _ (λ s. refl)) (λ yaml.
        Only-bind P (call o (o.create_dir_all _)) _ (Only-still P _ (λ s. refl)) (λ _.
          Only-bind P (call o (o.write _ yaml)) _ (Only-still P _ (λ s. refl))
            (λ _. Only-pure P _)))

  module _ (apply_fn : String → String → Run E W (Unit {0}))
      (applies : (dir name : String) → Only P (apply_fn dir name)) where
    inject_from-Only :
        (tmp : String) (cache : Map StoreValues) (ps : List (String × ProjectionConfig))
        → Only P (inject_from o opts apply_fn tmp cache ps)
    unfolding inject_from
    inject_from-Only tmp cache [] = Only-pure P tt
    inject_from-Only tmp cache ((name, p) ∷ ps) =
        Only-bind P (inject_one o opts apply_fn tmp cache (name, p)) _
          (Only-bind P (store_data o opts cache (store_name o opts p)) _
            (store_data-Only cache (store_name o opts p))
            (λ found.
              Only-bind P (project o name p found.0) _ (project-Only name p found.0) (λ held.
                Only-bind P (write_secret o tmp name p held) _ (write_secret-Only tmp name p held)
                  (λ dir.
                    Only-bind P (apply_fn dir name) _ (applies dir name)
                      (λ _. Only-pure P found.1)))))
          (λ loaded. inject_from-Only tmp loaded ps)

    pub inject_projections-Only :
        (ps : List (String × ProjectionConfig)) → Only P (inject_projections o opts apply_fn ps)
    unfolding inject_projections
    inject_projections-Only ps = Only-if P (is_nil ps) (pure tt) _ (Only-pure P tt) (
        Only-bind P (secure_tempdir o) _ (Only-still P _ (λ s. refl))
          (λ tmp. inject_from-Only tmp [] ps))
