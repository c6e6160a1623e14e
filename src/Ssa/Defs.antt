-- ===== src/Ssa/Defs.antt =====
-- cli/src/io/ssa/mod.rs: the types of a run, and what it takes from outside.
use catallaxy.Prelude.{
  ℕ, Bool, false, ◌⊎◌, inl, inr, Option, none, some, List, [], ◌∷◌, ◌++◌, String, Map, trim,
  is_empty, if◌then◌else◌,
}
use catallaxy.Secrets.{Backend, SecretsSpec, StoreValues, StoreProblem}

-- What the code asks of the values of serde_json or serde_yaml. `parse` is the documents of a text
-- that are values; `show` is how a value reads in a message.
pub record Values (V : Type 0) : Type 0 where
  pub parse : String → List V
  pub field : V → String → Option V
  pub as_str : V → Option String
  pub as_bool : V → Option Bool
  pub as_array : V → Option (List V)
  pub is_object : V → Bool
  pub show : V → String

pub data ReadyProbe (V : Type 0) : Type 0 where
  condition :
      (resource : String)
      → (namespace : Option String) → (condition : String) → (timeout : Option String)
      → ReadyProbe V
  jsonpath :
      (resource : String)
      → (namespace : Option String) → (path : String) → (value : Option V)
      → (timeout : Option String) → ReadyProbe V
  exists :
      (resource : String) → (namespace : Option String) → (timeout : Option String) → ReadyProbe V
  pod :
      (image : String)
      → (command args : List String) → (namespace : Option String) → (timeout : Option String)
      → ReadyProbe V
  kubectl_wait : (args : List String) → ReadyProbe V
  script : (body : String) → ReadyProbe V

pub record WaveBundle (V : Type 0) : Type 0 where
  pub key : String
  pub dir : String
  pub ready_probe : Option (ReadyProbe V)
  pub has_content : Bool
  pub requires : List String
  pub provides : List String

pub record Wave (V : Type 0) : Type 0 where
  pub index : ℕ
  pub bundles : List (WaveBundle V)

-- One key of a projection, and a projection of a managed secret as a Secret of Kubernetes.
pub record ProjectionKeyConfig : Type 0 where
  pub from : String
  pub transform : Option String
  pub json_key : Option String

pub record ProjectionConfig : Type 0 where
  pub source : String
  pub namespace : String
  pub keys : Map ProjectionKeyConfig

-- `ApplyManifests` with the flake's URI of its context, the projections of its cluster as
-- `parse_projections` reads them, and the stores loaded before, none of them where there is no cache.
pub record ApplyManifests : Type 0 where
  pub kube_context : String
  pub manifest_root : String
  pub field_manager : String
  pub wait_timeout_seconds : ℕ
  pub dry_run : Bool
  pub lab_name : String
  pub flake_uri : String
  pub secrets : SecretsSpec
  pub secrets_cache : Map StoreValues
  pub projections : Map ProjectionConfig

-- What is below a directory, in the order in which it is read: a file with its path, or a directory.
mutual
  pub data Entry : Type 0 where
    file : String → Entry
    directory : Entries → Entry

  pub data Entries : Type 0 where
    nil : Entries
    cons : Entry → Entries → Entries

-- A run of a command: whether it succeeded and what it printed.
pub record Output : Type 0 where
  pub status_ok : Bool
  pub stdout : String

-- The files, which do not change during a run, the tools and the clock. The world is of type `W`,
-- JSON and YAML values are of type `J` and `Y`, other errors of type `E`.
pub record Outside (J Y E W : Type 0) : Type 0 where
  pub json : Values J
  pub yaml : Values Y
  pub parse_waves : String → Option (List (Wave J))
  pub exists : String → Bool
  pub read_to_string : String → Option String
  pub entries : String → Entries
  pub has_extension : String → String → Bool
  pub join : String → String → String
  -- `to_lowercase` of a text
  pub to_lowercase : String → String
  -- A run of a command by its words; `none` where it cannot be started.
  pub spawn : List String → W → Option Output × W
  -- The time in nanoseconds, and a sleep.
  pub now : W → ℕ
  pub sleep : ℕ → W → W
  -- The seconds since the epoch.
  pub unix_time : W → ℕ
  -- `str::parse` at `u64`, `std::env::var`, base64, and an object of JSON with one text as text.
  pub parse_u64 : String → Option ℕ
  pub env_var : String → Option String
  pub base64 : String → String
  pub json_object : (key value : String) → String
  -- `serde_yaml` on the values of a store, and on the manifest of a Secret with its name, namespace
  -- and texts.
  pub parse_store : String → Option StoreValues
  pub secret_yaml : (name namespace : String) → Map String → String ⊎ E
  -- A fresh directory, directories, and the contents of a file.
  pub secure_tempdir : W → (String ⊎ E) × W
  pub create_dir_all : String → W → Option E × W
  pub write : (path contents : String) → W → Option E × W

pub data SsaError (E : Type 0) : Type 0 where
  unnamed_context : SsaError E
  no_manifest_root : (root : String) → SsaError E
  no_wave_meta : (root : String) → SsaError E
  reading : (path : String) → SsaError E
  parsing : (path : String) → SsaError E
  running : (command : List String) → SsaError E
  not_applied : (bundle : String) → (attempts elapsed_secs : ℕ) → SsaError E
  secret_not_applied : (name : String) → SsaError E
  stalled : (workloads : List String) → (of : ℕ) → SsaError E
  probe_failed : (bundle : String) → (command : List String) → SsaError E
  bad_timeout : (timeout : String) → SsaError E
  crd_not_established : (crd : String) → (limit : ℕ) → SsaError E
  no_store : (store path : String) → SsaError E
  not_decrypted : (path : String) → SsaError E
  unread_backend : (store : String) → Backend → SsaError E
  store_problems : (store : String) → List StoreProblem → SsaError E
  no_source : (projection source : String) → SsaError E
  no_source_value : (projection source from : String) → SsaError E
  no_api_resources : SsaError E
  no_owned_resources : SsaError E
  other : E → SsaError E

-- `Result`, and the end of the fuel of the loop that retries.
pub data Outcome (E A : Type 0) : Type 0 where
  ok : A → Outcome E A
  err : SsaError E → Outcome E A
  out_of_fuel : Outcome E A

-- The world, and the commands run so far, each with whether it succeeded.
pub record Session (W : Type 0) : Type 0 where
  pub world : W
  pub ran : List (List String × Bool)

abbrev pub Run : (E W A : Type 0) → Type 0
Run E W A = Session W → Outcome E A × Session W

-- The results of calls.
abbrev pub done_or : {E : Type 0} → Option E → Outcome E (Unit {0})
done_or none = ok tt
done_or (some e) = err (other e)

abbrev pub value_or : {E A : Type 0} → A ⊎ E → Outcome E A
value_or (inl a) = ok a
value_or (inr e) = err (other e)

module _ {E W A : Type 0} where
  abbrev pub pure : A → Run E W A
  pure a s = (ok a, s)

  abbrev pub bail : SsaError E → Run E W A
  bail e s = (err e, s)

-- A `bail!` behind a test.
abbrev pub ensure : {E W : Type 0} → Bool → SsaError E → Run E W (Unit {0})
ensure holds e = if holds then pure tt else bail e

module _ {E W A B : Type 0} where
  abbrev pub continue : Outcome E A → (A → Run E W B) → Run E W B
  continue (ok a) f s = f a s
  continue (err e) f s = (err e, s)
  continue out_of_fuel f s = (out_of_fuel, s)

  infixl 5 ◌>>=◌ ◌>>◌
  abbrev pub ◌>>=◌ : Run E W A → (A → Run E W B) → Run E W B
  (m >>= f) s = continue (m s).0 f (m s).1

  abbrev pub ◌>>◌ : Run E W A → Run E W B → Run E W B
  m >> k = m >>= λ _. k

-- A `for` loop.
abbrev pub for_each : {E W A : Type 0} → (A → Run E W (Unit {0})) → List A → Run E W (Unit {0})
for_each f [] = pure tt
for_each f (x ∷ xs) = f x >> for_each f xs

-- io/kube_context.rs: `require_named`
abbrev pub require_named : {E W : Type 0} → String → Run E W String
require_named context = if is_empty (trim context) then bail unnamed_context else pure context

abbrev pub succeeded : Option Output → Bool
succeeded none = false
succeeded (some out) = out.status_ok

-- The `?` of a `status`: whether the command succeeded.
abbrev pub success_of : {E W : Type 0} → List String → Option Output → Run E W Bool
success_of command none = bail (running command)
success_of command (some out) = pure out.status_ok

module _ {J Y E W : Type 0} (o : Outside J Y E W) where
  -- A command is run, and written down.
  abbrev pub output : List String → Run E W (Option Output)
  output command s =
      let (out, w) = o.spawn command s.world in
      (ok out, record { world = w; ran = s.ran ++ ((command, succeeded out) ∷ []) })

  abbrev pub status : List String → Run E W Bool
  status command = output command >>= success_of command

  abbrev pub kubectl : String → List String → List String
  kubectl context args = "kubectl" ∷ "--context" ∷ context ∷ args

  -- `yaml_files_under`
  unfoldable mutual
    pub yaml_files : Entries → List String
    yaml_files nil = []
    yaml_files (cons e es) = yaml_files_of e ++ yaml_files es

    pub yaml_files_of : Entry → List String
    yaml_files_of (file path) =
        if o.has_extension path "yaml"
        then path ∷ []
        else if o.has_extension path "yml"
        then path ∷ []
        else []
    yaml_files_of (directory es) = yaml_files es
