-- ===== src/Secrets.antt =====
-- cli/src/domain/secrets.rs: the secrets that a lab declares, the environment variables that carry
-- them, and what a store lacks. A `BTreeMap` is the list of its entries in the order of the keys.
pub mod Names
pub mod Validate
mod Tests
use catallaxy.Prelude.{
  ℕ, ◌-◌, Bool, true, false, ◌&&◌, Option, none, some, List, [], ◌∷◌, ◌++◌, String, ◌<>◌, ◌==◌, leb,
  keep, map, flat_map, is_empty, get, Map, is_ascii_alphanumeric, or_else, join, if◌then◌else◌,
}
use Prim.Native.Char.{Char, code}
use Prim.Native.String.{slice}

pub data Backend : Type 0 where
  sops env vault external : Backend

unfoldable pub backend_as_str : Backend → String
backend_as_str sops = "sops"
backend_as_str env = "env"
backend_as_str vault = "vault"
backend_as_str external = "external"

unfoldable pub readable_here : Backend → Bool
readable_here sops = true
readable_here env = true
readable_here vault = false
readable_here external = false

abbrev pub backend_eq : Backend → Backend → Bool
backend_eq sops sops = true
backend_eq env env = true
backend_eq vault vault = true
backend_eq external external = true
backend_eq _ _ = false

pub data StoreDirection : Type 0 where
  authored runtime : StoreDirection

pub record VaultStore : Type 0 where
  pub server : Option String
  pub path : String
  pub version : String

pub record SecretStore : Type 0 where
  pub backend : Backend
  pub direction : StoreDirection
  pub writer_command : Option (List String)
  pub vault : VaultStore

pub data SecretKind : Type 0 where
  value ca : SecretKind

pub record ManagedKeyDef : Type 0 where
  pub generator : Option String
  pub length : Option ℕ

pub record ManagedSecret : Type 0 where
  pub store : String
  pub kind : SecretKind
  pub keys : Map ManagedKeyDef

pub record HostProjection : Type 0 where
  pub secret_name : String
  pub store : String
  pub key : String
  pub host_path : String
  pub kind : SecretKind

pub record SecretsSpec : Type 0 where
  pub stores : Map SecretStore
  pub managed : Map ManagedSecret
  pub env_file : Option String
  pub host_projections : List HostProjection

pub record EnvVarBinding : Type 0 where
  pub var : String
  pub secret : String
  pub key : String

pub data StoreProblem : Type 0 where
  missing_secret : (secret : String) → StoreProblem
  missing_key : (secret key : String) → StoreProblem
  blank_key : (secret key : String) → StoreProblem
  placeholder_key : (secret key : String) → StoreProblem

abbrev pub placeholder : String
placeholder = "PLACEHOLDER_USE_SECRETS_EDIT"

-- The values of a store: of each secret, its keys.
abbrev pub StoreValues : Type 0
StoreValues = Map (Map String)

-- A letter or a digit in upper case, and `_` for anything else.
abbrev pub env_char : Char → String
env_char c =
    if is_ascii_alphanumeric c
    then (if leb b'a' (code c) && leb (code c) b'z'
        then slice "ABCDEFGHIJKLMNOPQRSTUVWXYZ" (code c - 97) (code c - 96)
        else String.◌∷◌ c "")
    else "_"

unfoldable pub env_component : String → String
env_component String.[] = ""
env_component (String.◌∷◌ c part) = env_char c <> env_component part

unfoldable pub env_var_name : String → String → String → String
unfolding env_component
env_var_name store secret key =
    "CATA_SECRET_"
    <> (env_component store <> ("__" <> (env_component secret <> ("__" <> env_component key))))

abbrev pub backend_or_sops : Option SecretStore → Backend
backend_or_sops none = sops
backend_or_sops (some s) = s.backend

module _ (spec : SecretsSpec) where
  unfoldable pub backend_of : String → Backend
  backend_of store = backend_or_sops (get store spec.stores)

  unfoldable pub stores_with : Backend → List String
  stores_with backend = map (λ s. s.0) (keep (λ s. backend_eq s.1.backend backend) spec.stores)

  unfoldable pub store_of : String → Option String
  store_of secret = elim (get secret spec.managed) [ none ↦ none | some s ↦ some s.store ]

  unfoldable pub secrets_in : String → List (String × ManagedSecret)
  secrets_in store = keep (λ s. s.1.store == store) spec.managed

  abbrev pub bindings_of : String → String × ManagedSecret → List EnvVarBinding
  bindings_of store (secret_name, secret) =
      map
        (λ k. record { var = env_var_name store secret_name k.0; secret = secret_name; key = k.0 })
        secret.keys

  unfoldable pub env_bindings : String → List EnvVarBinding
  unfolding secrets_in env_var_name
  env_bindings store = flat_map (bindings_of store) (secrets_in store)

-- The `match` on one key of a secret.
abbrev pub check_value : String → String → Option String → List StoreProblem
check_value secret key none = missing_key secret key ∷ []
check_value secret key (some v) =
    if is_empty v
    then blank_key secret key ∷ []
    else if v == placeholder
    then placeholder_key secret key ∷ []
    else []

abbrev pub check_keys : String → Map ManagedKeyDef → Option (Map String) → List StoreProblem
check_keys secret keys none = missing_secret secret ∷ []
check_keys secret keys (some present) =
    flat_map (λ k. check_value secret k.0 (get k.0 present)) keys

abbrev pub check_secret : StoreValues → String × ManagedSecret → List StoreProblem
check_secret values (name, secret) = check_keys name secret.keys (get name values)

unfoldable pub validate_store : SecretsSpec → String → StoreValues → List StoreProblem
unfolding secrets_in
validate_store spec store values = flat_map (check_secret values) (secrets_in spec store)
