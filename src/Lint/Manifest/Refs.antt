-- ===== src/Lint/Manifest/Refs.antt =====
-- cli/src/lint/manifest.rs: which ConfigMaps and Secrets the pods of a resource cannot do without.
use catallaxy.Prelude.{
  Bool, true, false, not, Option, none, some, List, [], ◌∷◌, ◌++◌, String, or_else, and_then,
  flat_map, filter_map, map, keep, strip_suffix, if◌then◌else◌,
}
use catallaxy.Lint.Yaml.{Yaml, as_mapping}

pub data RefKind : Type 0 where
  config_map secret : RefKind

pub record Ref : Type 0 where
  pub ref_kind : RefKind
  pub ref_name : String

abbrev pub is_config_map : Ref → Bool
is_config_map r = elim r.ref_kind [ config_map ↦ true | secret ↦ false ]

-- `ends_with`
abbrev pub ends_with : String → String → Bool
ends_with s t = elim (strip_suffix s t) [ none ↦ false | some _ ↦ true ]

module _ {V : Type 0} (y : Yaml V) where
  unfoldable pub get_str : V → String → Option String
  get_str mapping key = and_then (y.get_field mapping key) y.as_str

  unfoldable pub submap : V → String → Option V
  submap m key = and_then (y.get_field m key) (as_mapping y)

  unfoldable pub subseq : V → String → Option (List V)
  subseq m key = and_then (y.get_field m key) y.as_sequence

  unfoldable pub is_optional : V → Bool
  is_optional m = or_else (and_then (y.get_field m "optional") y.as_bool) false

  unfoldable pub required_ref : V → String → String → RefKind → Option Ref
  unfolding submap get_str
  required_ref m key name_key kind = and_then (submap m key) λ r.
      if is_optional r
      then none
      else and_then (get_str r name_key) λ name. some (record { ref_kind = kind; ref_name = name })

  unfoldable pub pod_spec_of : V → Option V
  unfolding submap
  pod_spec_of mapping = and_then (y.get_field mapping "spec") λ spec. as_mapping y (
      or_else
        (and_then (as_mapping y spec) λ s. and_then (submap s "template") λ t. y.get_field t "spec")
        spec)

  -- The two references that an entry may have.
  abbrev pub refs_at : String → String → String → V → List Ref
  refs_at cm_key secret_key secret_name m =
      filter_map (λ r. r)
        (required_ref m cm_key "name" config_map
          ∷ required_ref m secret_key secret_name secret
          ∷ [])

  unfoldable pub volume_refs : V → List Ref
  unfolding required_ref subseq
  volume_refs pod =
      let volumes = or_else (subseq pod "volumes") [] in
      flat_map (refs_at "configMap" "secret" "secretName") (filter_map (as_mapping y) volumes)

  unfoldable pub refs_under : V → String → String → String → (V → Option V) → List Ref
  unfolding required_ref subseq
  refs_under container list_key cm_key secret_key source =
      let entries = or_else (subseq container list_key) [] in
      flat_map (refs_at cm_key secret_key "name")
        (filter_map source (filter_map (as_mapping y) entries))

  unfoldable pub env_from_refs : V → List Ref
  unfolding refs_under
  env_from_refs container = refs_under container "envFrom" "configMapRef" "secretRef" (λ m. some m)

  unfoldable pub env_refs : V → List Ref
  unfolding refs_under submap
  env_refs container =
      refs_under container "env" "configMapKeyRef" "secretKeyRef" (λ m. submap m "valueFrom")

  unfoldable pub container_refs : V → List Ref
  unfolding env_from_refs env_refs subseq
  container_refs pod =
      flat_map (λ c. env_from_refs c ++ env_refs c)
        (filter_map (as_mapping y)
          (flat_map (λ key. or_else (subseq pod key) []) ("containers" ∷ "initContainers" ∷ [])))

  unfoldable pub extract_refs : V → List String × List String
  unfolding pod_spec_of volume_refs container_refs
  extract_refs mapping = elim (pod_spec_of mapping) [
    | none ↦ ([], [])
    | some pod ↦
        let refs = volume_refs pod ++ container_refs pod in
        (
          map (λ r. r.ref_name) (keep is_config_map refs),
          map (λ r. r.ref_name) (keep (λ r. not (is_config_map r)) refs),
        )
  ]
