-- ===== src/Secrets/Tests.antt =====
-- A lab with one store, whose session key is blank, and whose mail password was not edited.
use catallaxy.Prelude.{◌≡◌, refl, ◌<>◌, ◌↔◌, none, [], ◌∷◌, String, List, Map}
use mathlib.Core.List.{Memᴰ}
use catallaxy.Secrets.{
  SecretsSpec, ManagedSecret, ManagedKeyDef, StoreValues, env, authored, value, blank_key,
  missing_key, missing_secret, placeholder_key, validate_store, secrets_in, env_var_name,
  env_component,
}
use catallaxy.Secrets.Names.{env_var_name-collides}
use catallaxy.Secrets.Validate.{IsProblem, validate_store-IsProblem}

abbrev managed_key : ManagedKeyDef
managed_key = record { generator = none; length = none }

abbrev keyed : List String → Map ManagedKeyDef
keyed [] = []
keyed (k ∷ ks) = (k, managed_key) ∷ keyed ks

abbrev secret_of : List String → ManagedSecret
secret_of keys = record { store = "app"; kind = value; keys = keyed keys }

abbrev spec : SecretsSpec
spec = record {
  stores =
      (
        "app",
        record {
          backend = env;
          direction = authored;
          writer_command = none;
          vault = record { server = none; path = "secret"; version = "v2" };
        },
      )
      ∷ [];
  managed =
      ("mail", secret_of ("password" ∷ "user" ∷ []))
      ∷ ("session-key", secret_of ("secret" ∷ []))
      ∷ ("tls", secret_of ("crt" ∷ []))
      ∷ [];
  env_file = none;
  host_projections = [];
}

abbrev values : StoreValues
values =
    ("mail", ("password", "PLACEHOLDER_USE_SECRETS_EDIT") ∷ [])
    ∷ ("session-key", ("secret", "") ∷ [])
    ∷ []

problems :
    validate_store spec "app" values
    ≡ placeholder_key "mail" "password"
      ∷ missing_key "mail" "user"
      ∷ blank_key "session-key" "secret"
      ∷ missing_secret "tls"
      ∷ []
unfolding validate_store secrets_in
problems = refl

validate_store-IsProblem_example :
    Memᴰ (missing_key "mail" "user") (validate_store spec "app" values)
    ↔ IsProblem spec "app" values (missing_key "mail" "user")
validate_store-IsProblem_example =
    validate_store-IsProblem spec "app" values (missing_key "mail" "user")

named : env_var_name "app" "session-key" "secret" ≡ "CATA_SECRET_APP__SESSION_KEY__SECRET"
unfolding env_var_name env_component
named = refl

env_var_name-collides_example :
    (env_var_name "app" ("session" <> ("-" <> "key")) "secret"
      ≡ env_var_name "app" ("session" <> ("_" <> "key")) "secret")
    × (env_var_name ("app" <> "_") "session" "secret"
        ≡ env_var_name "app" ("_" <> "session") "secret")
env_var_name-collides_example = env_var_name-collides "app" "session" "key" "secret"
