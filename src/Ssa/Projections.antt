-- ===== src/Ssa/Projections.antt =====
-- `inject_projections_with` of cli/src/apply/mod.rs, with `load_store` of cli/src/io/secrets.rs and
-- `decrypt_store` of cli/src/io/sops.rs: the secrets that a lab projects into a cluster. A `HashMap` is
-- the list of its entries.
use catallaxy.Prelude.{
  Option, none, some, List, [], ◌∷◌, String, ◌<>◌, ◌==◌, Map, get, upsert, or_else, is_nil,
  if◌then◌else◌,
}
use catallaxy.Secrets.{
  StoreValues, EnvVarBinding, sops, env, vault, external, backend_of, store_of, env_bindings,
  validate_store,
}
use catallaxy.Ssa.{
  Outside, Output, ApplyManifests, ProjectionConfig, ProjectionKeyConfig, Run, running, parsing,
  no_store, not_decrypted, unread_backend, store_problems, no_source, no_source_value, done_or,
  value_or, pure, bail, ◌>>=◌, output,
}

module _ {J Y E W : Type 0} (o : Outside J Y E W) where
  -- A call that changes the world only.
  abbrev pub call : (W → Option E × W) → Run E W (Unit {0})
  call f s = (done_or (f s.world).0, record s { world = (f s.world).1 })

  abbrev pub secure_tempdir : Run E W String
  secure_tempdir s =
      let (made, w) = o.secure_tempdir s.world in (value_or made, record s { world = w })

  abbrev pub decrypt_args : String → List String
  decrypt_args path = "sops" ∷ "--decrypt" ∷ "--output-type" ∷ "yaml" ∷ path ∷ []

  abbrev pub decrypted : String → Option Output → Run E W StoreValues
  decrypted path none = bail (running (decrypt_args path))
  decrypted path (some out) =
      if out.status_ok
      then elim (o.parse_store out.stdout) [ none ↦ bail (parsing path) | some held ↦ pure held ]
      else bail (not_decrypted path)

  unfoldable pub decrypt_store : String → Run E W StoreValues
  decrypt_store path = output o (decrypt_args path) >>= decrypted path

  -- The loop of `read_env_store_with` over the bindings.
  unfoldable pub read_env_store : StoreValues → List EnvVarBinding → StoreValues
  read_env_store values [] = values
  read_env_store values (binding ∷ bindings) = elim (o.env_var binding.var) [
    | none ↦ read_env_store values bindings
    | some value ↦
        read_env_store
          (upsert binding.secret [] (λ keys. upsert binding.key value (λ _. value) keys) values)
          bindings
  ]

  -- The value of one key behind its transformation.
  unfoldable pub transformed : String → ProjectionKeyConfig → String → String
  transformed key_name key_def value =
      let transform = or_else key_def.transform "none" in
      if transform == "base64"
      then o.base64 value
      else if transform == "json-wrap"
      then o.json_object (or_else key_def.json_key key_name) value
      else value

  -- The loop over the keys of a projection.
  unfoldable pub project_keys :
      String → String → Map String → Map ProjectionKeyConfig → Run E W (Map String)
  unfolding transformed
  project_keys name source values [] = pure []
  project_keys name source values ((key_name, key_def) ∷ keys) =
      let rest = project_keys name source values keys in
      elim (get key_def.from values) [
        | none ↦ bail (no_source_value name source key_def.from)
        | some value ↦ rest >>= λ more. pure ((key_name, transformed key_name key_def value) ∷ more)
      ]

  abbrev pub project : String → ProjectionConfig → StoreValues → Run E W (Map String)
  project name p held = elim (get p.source held) [
    | none ↦ bail (no_source name p.source)
    | some values ↦ project_keys name p.source values p.keys
  ]

  abbrev pub serialized : String → ProjectionConfig → Map String → Run E W String
  serialized name p held s = (value_or (o.secret_yaml name p.namespace held), s)

  -- The manifest of a Secret in a directory of its own, which is the result.
  unfoldable pub write_secret : String → String → ProjectionConfig → Map String → Run E W String
  write_secret tmp name p held =
      let dir = o.join tmp ("secrets-" <> name) in
      serialized name p held >>= λ yaml. call (o.create_dir_all dir) >>= λ _.
      call (o.write (o.join dir "secret.yaml") yaml) >>= λ _. pure dir

  module _ (opts : ApplyManifests) where
    unfoldable pub store_file_path : String → String
    store_file_path store =
        let filename = store <> ".enc.yaml" in
        let primary = o.join (o.join (o.join opts.flake_uri "secrets") opts.lab_name) filename in
        let fallback =
          o.join (o.join (o.join opts.flake_uri "examples/labs/secrets") opts.lab_name) filename in
        if o.exists primary then primary else if o.exists fallback then fallback else primary

    unfoldable pub load_store : String → Run E W StoreValues
    unfolding backend_of env_bindings decrypt_store read_env_store store_file_path
    load_store store = elim (backend_of opts.secrets store) [
      | sops ↦
          let path = store_file_path store in
          if o.exists path then decrypt_store path else bail (no_store store path)
      | env ↦ pure (read_env_store [] (env_bindings opts.secrets store))
      | vault ↦ bail (unread_backend store vault)
      | external ↦ bail (unread_backend store external)
    ]

    abbrev pub checked : String → StoreValues → Run E W StoreValues
    checked store held =
        let problems = validate_store opts.secrets store held in
        if is_nil problems then pure held else bail (store_problems store problems)

    -- The values of a store, and the stores that this run has loaded so far.
    unfoldable pub store_data : Map StoreValues → String → Run E W (StoreValues × Map StoreValues)
    unfolding load_store
    store_data cache store = elim (get store opts.secrets_cache) [
      | some held ↦ pure (held, cache)
      | none ↦ elim (get store cache) [
        | some held ↦ pure (held, cache)
        | none ↦ load_store store >>= λ loaded.
            checked store loaded >>= λ held. pure (held, (store, held) ∷ cache)
      ]
    ]

    abbrev pub store_name : ProjectionConfig → String
    store_name p = or_else (store_of opts.secrets p.source) p.source

    module _ (apply_fn : String → String → Run E W (Unit {0})) (tmp : String) where
      -- The body of the loop, with the stores that are loaded behind it.
      abbrev pub inject_one :
          Map StoreValues → String × ProjectionConfig → Run E W (Map StoreValues)
      inject_one cache (name, p) = store_data cache (store_name p) >>= λ found.
          project name p found.0 >>= λ held.
          write_secret tmp name p held >>= λ dir. apply_fn dir name >>= λ _. pure found.1

      unfoldable pub inject_from :
          Map StoreValues → List (String × ProjectionConfig) → Run E W (Unit {0})
      unfolding store_data project_keys write_secret
      inject_from cache [] = pure tt
      inject_from cache (p ∷ projections) =
          inject_one cache p >>= λ loaded. inject_from loaded projections

    -- `inject_projections_with`, which is only called where there is a projection.
    unfoldable pub inject_projections :
        (String → String → Run E W (Unit {0}))
        → List (String × ProjectionConfig)
        → Run E W (Unit {0})
    unfolding inject_from
    inject_projections apply_fn projections =
        if is_nil projections
        then pure tt
        else secure_tempdir >>= λ tmp. inject_from apply_fn tmp [] projections
