-- ===== src/Ssa/Owned.antt =====
-- cli/src/io/kubectl/owned.rs, with what it reads of seam.rs, run.rs and domain/provenance.rs: which
-- resources of a cluster say that the lab owns them, and the deletion of one.
use catallaxy.Prelude.{
  Bool, false, not, Option, none, some, List, [], ◌∷◌, ◌++◌, String, ◌<>◌, ◌==◌, any, keep, join,
  is_nil, and_then, non_empty, full_lines, split_at, trim, to_ascii_lowercase, if◌then◌else◌,
}
use catallaxy.Prune.{ResourceKey, LiveResource}
use catallaxy.Ssa.{
  Values, Outside, Output, Outcome, Run, no_api_resources, no_owned_resources, running, pure, bail,
  ◌>>=◌, require_named, output, kubectl, ok, err, out_of_fuel,
}

abbrev derived_kinds : List String
derived_kinds = "pods" ∷ "replicasets" ∷ "endpoints" ∷ "endpointslices" ∷ "events" ∷ []

unfoldable pub is_derived : String → Bool
unfolding to_ascii_lowercase
is_derived kind = any (λ d. d == to_ascii_lowercase kind) derived_kinds

-- `k.split('.').next().unwrap_or(k)`
abbrev pub first_part : String → String
first_part k = elim (split_at b'.' k) [ [] ↦ k | part ∷ rest ↦ part ]

module _ {V : Type 0} (values : Values V) where
  unfoldable pub has_owner : V → Bool
  has_owner metadata = elim (and_then (values.field metadata "ownerReferences") values.as_array) [
    | none ↦ false
    | some refs ↦ not (is_nil refs)
  ]

  abbrev pub text_at : V → String → Option String
  text_at v k = and_then (values.field v k) values.as_str

  abbrev bundle_of : V → Option String
  bundle_of metadata =
      and_then (and_then (values.field metadata "labels") (λ l. text_at l "catallaxy.io/bundle"))
        non_empty

  -- The resource of an item with that metadata.
  abbrev parse_metadata : String → V → Option LiveResource
  parse_metadata kind metadata =
      if has_owner metadata
      then none
      else and_then (text_at metadata "name") (λ name. some (record {
        key = record { kind = kind; namespace = text_at metadata "namespace"; name = name };
        bundle = bundle_of metadata;
      }))

  abbrev parse_item : V → Option LiveResource
  parse_item item =
      and_then (text_at item "kind")
        (λ kind. and_then (values.field item "metadata") (parse_metadata kind))

  abbrev parse_each : List V → List LiveResource
  parse_each [] = []
  parse_each (item ∷ items) =
      let rest = parse_each items in elim (parse_item item) [ none ↦ rest | some r ↦ r ∷ rest ]

  -- A text that is not one value has no items.
  unfoldable pub parse_items : String → List LiveResource
  unfolding has_owner
  parse_items raw = elim (values.parse raw) [
    | doc ∷ [] ↦ elim (and_then (values.field doc "items") values.as_array) [
      | none ↦ []
      | some items ↦ parse_each items
    ]
    | _ ↦ []
  ]

abbrev pub printed : {E W : Type 0} → Outcome E (Option Output) → Run E W (Option String)
printed (ok none) s = (ok none, s)
printed (ok (some out)) s = (ok (if out.status_ok then some out.stdout else none), s)
printed (err e) s = (ok none, s)
printed out_of_fuel s = (out_of_fuel, s)

module _ {J Y E W : Type 0} (o : Outside J Y E W) where
  -- `Kubectl::run` of `Real`: an empty context is refused.
  unfoldable pub run : String → List String → Run E W (Option Output)
  unfolding trim
  run context args = require_named context >>= λ context. output o (kubectl o context args)

  -- `stdout_of`: an error of `run` is no answer.
  unfoldable pub stdout_of : String → List String → Run E W (Option String)
  unfolding run
  stdout_of context args s = printed (run context args s).0 (run context args s).1

  abbrev pub list_args : List String
  list_args = "api-resources" ∷ "--verbs=list,delete" ∷ "-o" ∷ "name" ∷ "--cached" ∷ []

  unfoldable pub listable_kinds : String → Run E W (List String)
  unfolding stdout_of full_lines
  listable_kinds context = stdout_of context list_args >>= λ out. elim out [
    | none ↦ bail no_api_resources
    | some text ↦ pure (full_lines text)
  ]

  abbrev pub get_args : String → List String → List String
  get_args lab kinds =
      "get"
      ∷ join "," kinds
      ∷ "--all-namespaces"
      ∷ "-l"
      ∷ ("catallaxy.io/lab=" <> lab)
      ∷ "--ignore-not-found"
      ∷ "-o"
      ∷ "json"
      ∷ []

  -- `owned_by_lab` from the kinds to ask for.
  abbrev pub owned_among : String → String → List String → Run E W (List LiveResource)
  owned_among context lab kinds =
      if is_nil kinds
      then pure []
      else (stdout_of context (get_args lab kinds) >>= λ out. elim out [
        | none ↦ bail no_owned_resources
        | some raw ↦ pure (parse_items o.json raw)
      ])

  unfoldable pub owned_by_lab : String → String → Run E W (List LiveResource)
  unfolding listable_kinds is_derived
  owned_by_lab context lab = listable_kinds context >>= λ listed.
      owned_among context lab (keep (λ k. not (is_derived (first_part k))) listed)

  abbrev pub delete_args : ResourceKey → List String
  delete_args key =
      ("delete" ∷ elim key.namespace [ none ↦ [] | some ns ↦ "-n" ∷ ns ∷ [] ])
      ++ ((o.to_lowercase key.kind <> ("/" <> key.name))
          ∷ "--ignore-not-found"
          ∷ "--wait=false"
          ∷ [])

  -- What kubectl says of the deletion is not looked at.
  unfoldable pub delete : String → ResourceKey → Run E W (Unit {0})
  unfolding run
  delete context key = run context (delete_args key) >>= λ out. elim out [
    | none ↦ bail (running (delete_args key))
    | some r ↦ pure tt
  ]
