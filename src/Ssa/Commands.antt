-- ===== src/Ssa/Commands.antt =====
-- Which commands the parts of cli/src/io/ssa run: reading ones, and ones that delete nothing.
use catallaxy.Prelude.{
  ◌≡◌, refl, true, false, Option, none, some, List, [], ◌∷◌, String, ◌==◌, is_nil, keep, not,
  full_lines,
}
use catallaxy.Ssa.{
  Outside, Output, Outcome, ok, err, out_of_fuel, Session, pure, bail, output, kubectl,
  no_api_resources, no_owned_resources,
}
use catallaxy.Ssa.Owned.{
  run, stdout_of, printed, list_args, get_args, listable_kinds, owned_among, owned_by_lab,
  is_derived, first_part, parse_items,
}
use catallaxy.Ssa.Only.{
  Only, Added-trans, Only-if, Only-bind, Only-require_named, Only-output, Only-option, Only-still,
  Only-pure, Only-bail, Only-still,
}

-- The word behind `kubectl --context <context>`.
abbrev pub verb : List String → String
verb (tool ∷ flag ∷ context ∷ v ∷ rest) = v
verb _ = ""

-- The commands that only read: two of kubectl, and the decryption of a store.
pub data IsRead : List String → Type 0 where
  gets :
      (context : String) (rest : List String)
      → IsRead ("kubectl" ∷ "--context" ∷ context ∷ "get" ∷ rest)
  lists_kinds :
      (context : String) (rest : List String)
      → IsRead ("kubectl" ∷ "--context" ∷ context ∷ "api-resources" ∷ rest)
  decrypts : (path : String) → IsRead ("sops" ∷ "--decrypt" ∷ "--output-type" ∷ "yaml" ∷ path ∷ [])

abbrev pub IsDelete : List String → Type 0
IsDelete c = (verb c == "delete") ≡ true

abbrev pub IsHarmless : List String → Type 0
IsHarmless c = (verb c == "delete") ≡ false

pub IsRead-IsHarmless : (c : List String) → IsRead c → IsHarmless c
IsRead-IsHarmless _ (gets context rest) = refl
IsRead-IsHarmless _ (lists_kinds context rest) = refl
IsRead-IsHarmless _ (decrypts path) = refl

module _ {J Y E W : Type 0} (o : Outside J Y E W) where
  module _ (Q : List String → Type 0) where
    printed-ran :
        (out : Outcome E (Option Output)) (s : Session W)
        → (printed {E = E} {W = W} out s).1.ran ≡ s.ran
    printed-ran (ok none) s = refl
    printed-ran (ok (some r)) s = refl
    printed-ran (err e) s = refl
    printed-ran out_of_fuel s = refl

    pub run-Only :
        (context : String) (args : List String)
        → Q (kubectl o context args)
        → Only Q (run o context args)
    unfolding run
    run-Only context args q =
        Only-require_named Q context (λ c. output o (kubectl o c args))
          (Only-output o Q (kubectl o context args) q)

    stdout_of-Only :
        (context : String) (args : List String)
        → Q (kubectl o context args)
        → Only Q (stdout_of o context args)
    unfolding stdout_of
    stdout_of-Only context args q = record {
      added = λ s.
          let r = run o context args s in
          Added-trans Q s r.1 (printed {E = E} r.0 r.1).1 ((run-Only context args q).added s)
            ((Only-still {E = E} Q (printed r.0) (printed-ran r.0)).added r.1);
    }

  listable_kinds-Only : (context : String) → Only IsRead (listable_kinds o context)
  unfolding listable_kinds
  listable_kinds-Only context =
      Only-bind IsRead (stdout_of o context (list_args o)) _
        (stdout_of-Only IsRead context (list_args o) (lists_kinds context _))
        (λ out.
          Only-option IsRead out (bail no_api_resources) (λ text. pure (full_lines text))
            (Only-bail IsRead no_api_resources) (λ text. Only-pure IsRead (full_lines text)))

  owned_among-Only :
      (context lab : String) (kinds : List String) → Only IsRead (owned_among o context lab kinds)
  owned_among-Only context lab kinds =
      Only-if IsRead (is_nil kinds) (pure []) _ (Only-pure IsRead []) (
        Only-bind IsRead (stdout_of o context (get_args o lab kinds)) _
          (stdout_of-Only IsRead context (get_args o lab kinds) (gets context _))
          (λ out.
            Only-option IsRead out (bail no_owned_resources) (λ raw. pure (parse_items o.json raw))
              (Only-bail IsRead no_owned_resources)
              (λ raw. Only-pure IsRead (parse_items o.json raw))))

  pub owned_by_lab-Only : (context lab : String) → Only IsRead (owned_by_lab o context lab)
  unfolding owned_by_lab
  owned_by_lab-Only context lab =
      Only-bind IsRead (listable_kinds o context) _ (listable_kinds-Only context) (λ listed.
        owned_among-Only context lab (keep (λ k. not (is_derived (first_part k))) listed))
