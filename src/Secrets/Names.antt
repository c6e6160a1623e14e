-- ===== src/Secrets/Names.antt =====
-- The environment variables of cli/src/domain/secrets.rs.
use catallaxy.Prelude.{◌≡◌, refl, sym, ap, ◌∙◌, String, ◌<>◌}
use text.Mathlib.TextLemmas.{append_assoc, nil-append, cons-append}
use catallaxy.Secrets.{env_char, env_component, env_var_name}

component_append : (a b : String) → env_component (a <> b) ≡ env_component a <> env_component b
unfolding env_component
component_append String.[] b = rw (nil-append b, nil-append (env_component b)) refl
component_append (String.◌∷◌ c a) b = rw (cons-append c a b) (
    ap (λ t. env_char c <> t) (component_append a b)
    ∙ sym (append_assoc (env_char c) (env_component a) (env_component b)))

moved : (a b c : String) → (a <> "_") <> ("__" <> (b <> c)) ≡ a <> ("__" <> (("_" <> b) <> c))
moved a b c =
    append_assoc a "_" ("__" <> (b <> c))
    ∙ ap (λ t. a <> t)
        (sym (append_assoc "_" "__" (b <> c))
          ∙ append_assoc "__" "_" (b <> c)
          ∙ ap (λ t. "__" <> t) (sym (append_assoc "_" b c)))

dashed_component :
    (a b : String) → env_component (a <> ("-" <> b)) ≡ env_component (a <> ("_" <> b))
unfolding env_component
dashed_component a b =
    component_append a ("-" <> b)
    ∙ ap (λ t. env_component a <> t) (component_append "-" b ∙ sym (component_append "_" b))
    ∙ sym (component_append a ("_" <> b))

-- Different secrets have the same variable: two names of a secret of which one has a dash where the
-- other has an underscore; and a secret whose name begins with an underscore, in a store, with the
-- secret without the underscore in the store whose name ends in one more.
pub env_var_name-collides :
    (store secret rest key : String)
    → (env_var_name store (secret <> ("-" <> rest)) key
        ≡ env_var_name store (secret <> ("_" <> rest)) key)
      × (env_var_name (store <> "_") secret key ≡ env_var_name store ("_" <> secret) key)
unfolding env_var_name env_component
env_var_name-collides store secret rest key = (
  ap (λ t. "CATA_SECRET_" <> (env_component store <> ("__" <> (t <> ("__" <> env_component key)))))
      (dashed_component secret rest),
  ap (λ t. "CATA_SECRET_" <> (t <> ("__" <> (env_component secret <> ("__" <> env_component key)))))
        (component_append store "_")
      ∙ ap (λ t. "CATA_SECRET_" <> t)
          (moved (env_component store) (env_component secret) ("__" <> env_component key))
      ∙ ap
          (λ t.
            "CATA_SECRET_" <> (env_component store <> ("__" <> (t <> ("__" <> env_component key)))))
          (sym (component_append "_" secret)),
)
