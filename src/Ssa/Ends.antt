-- ===== src/Ssa/Ends.antt =====
-- The runs of cli/src/io/ssa that end, and what is put together from them.
use catallaxy.Prelude.{
  Bool, true, false, not, Option, none, some, List, [], ◌∷◌, String, is_nil, full_lines,
  if◌then◌else◌, is_empty, trim, keep,
}
use catallaxy.Ssa.{
  Outside, Output, Outcome, ok, err, out_of_fuel, Run, Session, SsaError, pure, bail, continue,
  ◌>>=◌, for_each, ensure, require_named, output, status, success_of, running, kubectl,
  unnamed_context, no_api_resources, no_owned_resources,
}
use catallaxy.Ssa.Owned.{
  run, stdout_of, printed, list_args, get_args, listable_kinds, owned_among, owned_by_lab,
  is_derived, first_part, parse_items,
}

abbrev pub IsEnd : {E A W : Type 0} → Outcome E A × Session W → Type 0
IsEnd (ok a, s) = Unit {0}
IsEnd (err e, s) = Unit {0}
IsEnd (out_of_fuel, s) = ⊥

pub record Ends {E W A : Type 0} (m : Run E W A) : Type 0 where
  pub at_end : (s : Session W) → IsEnd (m s)

module _ {E W A : Type 0} where
  pub Ends-pure : (a : A) → Ends {E = E} {W = W} (pure a)
  Ends-pure a = record { at_end = λ s. tt }

  pub Ends-bail : (e : SsaError E) → Ends {E = E} {W = W} {A = A} (bail e)
  Ends-bail e = record { at_end = λ s. tt }

  pub Ends-if : (b : Bool) (m n : Run E W A) → Ends m → Ends n → Ends (if b then m else n)
  Ends-if true m n hm hn = hm
  Ends-if false m n hm hn = hn

module _ {E W A B : Type 0} where
  continue-IsEnd :
      (r : Outcome E A × Session W) (f : A → Run E W B)
      → IsEnd r
      → ((a : A) → Ends (f a))
      → IsEnd (continue r.0 f r.1)
  continue-IsEnd (ok a, s) f h hf = (hf a).at_end s
  continue-IsEnd (err e, s) f h hf = tt
  continue-IsEnd (out_of_fuel, s) f h hf = h

  pub Ends-bind :
      (m : Run E W A) (f : A → Run E W B) → Ends m → ((a : A) → Ends (f a)) → Ends (m >>= f)
  Ends-bind m f hm hf = record { at_end = λ s. continue-IsEnd (m s) f (hm.at_end s) hf }

  pub Ends-option :
      (found : Option B) (m : Run E W A) (f : B → Run E W A)
      → Ends m
      → ((b : B) → Ends (f b))
      → Ends (elim found [ none ↦ m | some b ↦ f b ])
  Ends-option none m f hm hf = hm
  Ends-option (some b) m f hm hf = hf b

pub Ends-for_each :
    {E W A : Type 0} (f : A → Run E W (Unit {0})) (xs : List A)
    → ((x : A) → Ends (f x))
    → Ends (for_each f xs)
Ends-for_each f [] h = Ends-pure tt
Ends-for_each f (x ∷ xs) h = Ends-bind (f x) (λ _. for_each f xs) (h x) (λ _. Ends-for_each f xs h)

pub Ends-ensure : {E W : Type 0} (holds : Bool) (e : SsaError E) → Ends {W = W} (ensure holds e)
Ends-ensure holds e = Ends-if holds (pure tt) (bail e) (Ends-pure tt) (Ends-bail e)

pub Ends-require_named :
    {E W : Type 0} (context : String) → Ends {E = E} {W = W} (require_named context)
unfolding trim
Ends-require_named context =
    Ends-if (is_empty (trim context)) (bail unnamed_context) (pure context)
      (Ends-bail unnamed_context) (Ends-pure context)

module _ {J Y E W : Type 0} (o : Outside J Y E W) where
  pub Ends-output : (c : List String) → Ends {E = E} (output o c)
  Ends-output c = record { at_end = λ s. tt }

  pub success_of-Ends :
      (c : List String) (out : Option Output) → Ends (success_of {E = E} {W = W} c out)
  success_of-Ends c none = Ends-bail (running c)
  success_of-Ends c (some r) = Ends-pure r.status_ok

  pub Ends-status : (c : List String) → Ends {E = E} (status o c)
  Ends-status c = Ends-bind (output o c) (success_of c) (Ends-output c) (success_of-Ends c)

  pub run-Ends : (context : String) (args : List String) → Ends {E = E} (run o context args)
  unfolding run
  run-Ends context args =
      Ends-bind (require_named context) (λ c. output o (kubectl o c args))
        (Ends-require_named context) (λ c. Ends-output (kubectl o c args))

  printed-IsEnd : (r : Outcome E (Option Output) × Session W) → IsEnd r → IsEnd (printed r.0 r.1)
  printed-IsEnd (ok none, s) h = tt
  printed-IsEnd (ok (some out), s) h = tt
  printed-IsEnd (err e, s) h = tt
  printed-IsEnd (out_of_fuel, s) h = h

  pub stdout_of-Ends :
      (context : String) (args : List String) → Ends {E = E} (stdout_of o context args)
  unfolding stdout_of
  stdout_of-Ends context args = record {
    at_end = λ s. printed-IsEnd (run o context args s) ((run-Ends context args).at_end s);
  }

  pub owned_among-Ends :
      (context lab : String) (kinds : List String) → Ends {E = E} (owned_among o context lab kinds)
  owned_among-Ends context lab kinds = Ends-if (is_nil kinds) (pure []) _ (Ends-pure []) (
      Ends-bind (stdout_of o context (get_args o lab kinds)) _
        (stdout_of-Ends context (get_args o lab kinds))
        (λ out.
          Ends-option out (bail no_owned_resources) (λ raw. pure (parse_items o.json raw))
            (Ends-bail no_owned_resources) (λ raw. Ends-pure (parse_items o.json raw))))

  pub owned_by_lab-Ends : (context lab : String) → Ends {E = E} (owned_by_lab o context lab)
  unfolding owned_by_lab listable_kinds
  owned_by_lab-Ends context lab =
      Ends-bind (listable_kinds o context) _
        (Ends-bind (stdout_of o context (list_args o)) _ (stdout_of-Ends context (list_args o))
          (λ out.
            Ends-option out (bail no_api_resources) (λ text. pure (full_lines text))
              (Ends-bail no_api_resources) (λ text. Ends-pure (full_lines text))))
        (λ listed.
          owned_among-Ends context lab (keep (λ k. not (is_derived (first_part k))) listed))
