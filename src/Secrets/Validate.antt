-- ===== src/Secrets/Validate.antt =====
-- What `validate_store` of cli/src/domain/secrets.rs finds.
use catallaxy.Prelude.{
  ◌≡◌, refl, sym, ap, subst, Option, none, some, String, ◌==◌, Map, get, is_empty, ◌↔◌, eq_iff, inl,
  inr, Bool-cases, Option-cases, Mem-flat_map, flat_map-Mem, Mem-keep, keep-Mem,
}
use mathlib.Core.List.{Memᴰ}
use catallaxy.Secrets.{
  SecretsSpec, ManagedSecret, ManagedKeyDef, StoreProblem, missing_secret, missing_key, blank_key,
  placeholder_key, placeholder, StoreValues, check_value, check_keys, check_secret, validate_store,
  secrets_in,
}

module _ (spec : SecretsSpec) (store : String) (values : StoreValues) where
  -- What a store lacks of the secrets that are declared for it.
  pub data IsProblem : StoreProblem → Type 0 where
    no_secret :
        (name : String) (secret : ManagedSecret)
        → Memᴰ (name, secret) spec.managed
        → secret.store ≡ store
        → get name values ≡ none
        → IsProblem (missing_secret name)
    no_value :
        (name : String) (secret : ManagedSecret) (present : Map String) (key : String)
        (def : ManagedKeyDef)
        → Memᴰ (name, secret) spec.managed
        → secret.store ≡ store
        → get name values ≡ some present
        → Memᴰ (key, def) secret.keys
        → get key present ≡ none
        → IsProblem (missing_key name key)
    empty_value :
        (name : String) (secret : ManagedSecret) (present : Map String) (key : String)
        (def : ManagedKeyDef)
        → Memᴰ (name, secret) spec.managed
        → secret.store ≡ store
        → get name values ≡ some present
        → Memᴰ (key, def) secret.keys
        → get key present ≡ some ""
        → IsProblem (blank_key name key)
    generated_value :
        (name : String) (secret : ManagedSecret) (present : Map String) (key : String)
        (def : ManagedKeyDef)
        → Memᴰ (name, secret) spec.managed
        → secret.store ≡ store
        → get name values ≡ some present
        → Memᴰ (key, def) secret.keys
        → get key present ≡ some placeholder
        → IsProblem (placeholder_key name key)

  -- The problem of one value.
  data OfValue (secret key : String) (found : Option String) : StoreProblem → Type 0 where
    is_missing : found ≡ none → OfValue secret key found (missing_key secret key)
    is_blank : found ≡ some "" → OfValue secret key found (blank_key secret key)
    is_placeholder :
        found ≡ some placeholder → OfValue secret key found (placeholder_key secret key)

  check_value-OfValue :
      (secret key : String) (found : Option String) (p : StoreProblem)
      → Memᴰ p (check_value secret key found)
      → OfValue secret key found p
  check_value-OfValue secret key none p m = elim m [
    | Memᴰ.head e ↦ subst (OfValue secret key none) (sym e) (is_missing refl)
    | Memᴰ.tail n ↦ elim n [ ]
  ]
  check_value-OfValue secret key (some v) p m = elim (Bool-cases (is_empty v)) [
    | inl blank ↦ elim (rw blank at m) [
      | Memᴰ.head e ↦
          subst (OfValue secret key (some v)) (sym e) (is_blank (ap some ((eq_iff v "").0 blank)))
      | Memᴰ.tail n ↦ elim n [ ]
    ]
    | inr full ↦ elim (Bool-cases (v == placeholder)) [
      | inl same ↦ elim (rw (full, same) at m) [
        | Memᴰ.head e ↦
            subst (OfValue secret key (some v)) (sym e)
              (is_placeholder (ap some ((eq_iff v placeholder).0 same)))
        | Memᴰ.tail n ↦ elim n [ ]
      ]
      | inr other ↦ elim (rw (full, other) at m) [ ]
    ]
  ]

  OfValue-Mem :
      (secret key : String) (found : Option String) (p : StoreProblem)
      → OfValue secret key found p
      → Memᴰ p (check_value secret key found)
  OfValue-Mem secret key found p (is_missing e) = rw e (Memᴰ.head refl)
  OfValue-Mem secret key found p (is_blank e) = rw e (Memᴰ.head refl)
  OfValue-Mem secret key found p (is_placeholder e) = rw e (Memᴰ.head refl)

  module _ (name : String) (secret : ManagedSecret) (declared : Memᴰ (name, secret) spec.managed)
      (here : secret.store ≡ store) where
    found-IsProblem :
        (present : Map String) (key : String) (def : ManagedKeyDef) (p : StoreProblem)
        → get name values ≡ some present
        → Memᴰ (key, def) secret.keys
        → OfValue name key (get key present) p
        → IsProblem p
    found-IsProblem present key def p there k (is_missing e) =
        no_value name secret present key def declared here there k e
    found-IsProblem present key def p there k (is_blank e) =
        empty_value name secret present key def declared here there k e
    found-IsProblem present key def p there k (is_placeholder e) =
        generated_value name secret present key def declared here there k e

    check_secret-IsProblem :
        (p : StoreProblem) → Memᴰ p (check_secret values (name, secret)) → IsProblem p
    check_secret-IsProblem p m = elim (Option-cases (get name values)) [
      | inl gone ↦ elim (rw gone at m) [
        | Memᴰ.head e ↦ subst IsProblem (sym e) (no_secret name secret declared here gone)
        | Memᴰ.tail n ↦ elim n [ ]
      ]
      | inr (present, there) ↦
          let m' : Memᴰ p (check_keys name secret.keys (some present)) = rw there at m in
          let ((key, def), k, h) =
            Mem-flat_map (λ k. check_value name k.0 (get k.0 present)) secret.keys p m' in
          found-IsProblem present key def p there k
            (check_value-OfValue name key (get key present) p h)
    ]

    of_key :
        (present : Map String) (key : String) (def : ManagedKeyDef) (p : StoreProblem)
        → get name values ≡ some present
        → Memᴰ (key, def) secret.keys
        → OfValue name key (get key present) p
        → Memᴰ p (validate_store spec store values)
    unfolding validate_store secrets_in
    of_key present key def p there k problem =
        flat_map-Mem (check_secret values) (secrets_in spec store) (name, secret) p
          (keep-Mem (λ s. s.1.store == store) spec.managed (name, secret) declared
            ((eq_iff secret.store store).1 here))
          (rw there (
            flat_map-Mem (λ k. check_value name k.0 (get k.0 present)) secret.keys (key, def) p k
              (OfValue-Mem name key (get key present) p problem)))

    of_secret :
        get name values ≡ none → Memᴰ (missing_secret name) (validate_store spec store values)
    unfolding validate_store secrets_in
    of_secret gone =
        flat_map-Mem (check_secret values) (secrets_in spec store) (name, secret)
          (missing_secret name)
          (keep-Mem (λ s. s.1.store == store) spec.managed (name, secret) declared
            ((eq_iff secret.store store).1 here))
          (rw gone (Memᴰ.head refl))

  validated : (p : StoreProblem) → Memᴰ p (validate_store spec store values) → IsProblem p
  unfolding validate_store secrets_in
  validated p m =
      let ((name, secret), n, h) = Mem-flat_map (check_secret values) (secrets_in spec store) p m in
      let (declared, here) = Mem-keep (λ s. s.1.store == store) spec.managed (name, secret) n in
      check_secret-IsProblem name secret declared ((eq_iff secret.store store).0 here) p h

  reported : (p : StoreProblem) → IsProblem p → Memᴰ p (validate_store spec store values)
  reported p (no_secret name secret declared here gone) = of_secret name secret declared here gone
  reported p (no_value name secret present key def declared here there k e) =
      of_key name secret declared here present key def p there k (is_missing e)
  reported p (empty_value name secret present key def declared here there k e) =
      of_key name secret declared here present key def p there k (is_blank e)
  reported p (generated_value name secret present key def declared here there k e) =
      of_key name secret declared here present key def p there k (is_placeholder e)

  -- A problem is reported exactly if the store has it: a secret declared for the store that has no
  -- entry, or a declared key of one that has no value, an empty value, or the generated placeholder.
  pub validate_store-IsProblem :
      (p : StoreProblem) → Memᴰ p (validate_store spec store values) ↔ IsProblem p
  validate_store-IsProblem p = (validated p, reported p)
