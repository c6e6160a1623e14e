-- ===== src/Ssa/Only.antt =====
-- Which commands a run of cli/src/io/ssa adds to those run before.
use catallaxy.Prelude.{
  ◌≡◌, refl, sym, ap, ◌∙◌, Bool, true, false, Option, none, some, List, [], ◌∷◌, ◌++◌, String, All,
  is_empty, trim, if◌then◌else◌,
}
use mathlib.Core.List.{append_assoc, append-nil}
use catallaxy.Ssa.{
  Outside, Outcome, ok, err, out_of_fuel, SsaError, Run, Session, pure, bail, continue, ◌>>=◌,
  for_each, require_named, success_of, ensure, Output, unnamed_context, output, status, succeeded,
}

abbrev pub Ran : Type 0
Ran = List (List String × Bool)

-- The second session goes on from the first with commands of the predicate only.
abbrev pub Added : {W : Type 0} → (List String → Type 0) → Session W → Session W → Type 0
Added P s s' = (t : Ran) × (s'.ran ≡ s.ran ++ t) × All (λ c. P c.0) t

pub record Only {E W A : Type 0} (P : List String → Type 0) (m : Run E W A) : Type 0 where
  pub added : (s : Session W) → Added P s (m s).1

All-join :
    (P : List String → Type 0) (t u : Ran)
    → All (λ c. P c.0) t
    → All (λ c. P c.0) u
    → All (λ c. P c.0) (t ++ u)
All-join P [] u ht hu = hu
All-join P (c ∷ t) u (h, ht) hu = (h, All-join P t u ht hu)

module _ {W : Type 0} (P : List String → Type 0) where
  pub Added-refl : (s : Session W) → Added P s s
  Added-refl s = ([], sym (append-nil s.ran), tt)

  pub Added-trans : (s s' s'' : Session W) → Added P s s' → Added P s' s'' → Added P s s''
  Added-trans s s' s'' (t, e, ht) (u, e', hu) =
      (t ++ u, e' ∙ ap (λ r. r ++ u) e ∙ append_assoc s.ran t u, All-join P t u ht hu)

pub Added-if :
    {E W A : Type 0} (P : List String → Type 0) (s : Session W) (b : Bool)
    (x y : Outcome E A × Session W)
    → Added P s x.1
    → Added P s y.1
    → Added P s (if b then x else y).1
Added-if P s true x y hx hy = hx
Added-if P s false x y hx hy = hy

module _ {E W A : Type 0} (P : List String → Type 0) where
  pub Only-pure : (a : A) → Only {E = E} {W = W} P (pure a)
  Only-pure a = record { added = Added-refl P }

  pub Only-bail : (e : SsaError E) → Only {E = E} {W = W} {A = A} P (bail e)
  Only-bail e = record { added = Added-refl P }

  -- A run that leaves the commands as they are.
  pub Only-still : (m : Run E W A) → ((s : Session W) → (m s).1.ran ≡ s.ran) → Only P m
  Only-still m h = record { added = λ s. ([], h s ∙ sym (append-nil s.ran), tt) }

  pub Only-if : (b : Bool) (m n : Run E W A) → Only P m → Only P n → Only P (if b then m else n)
  Only-if true m n hm hn = hm
  Only-if false m n hm hn = hn

module _ {E W A B : Type 0} (P : List String → Type 0) where
  continue-Added :
      (out : Outcome E A) (f : A → Run E W B) (s s' : Session W)
      → Added P s s'
      → ((a : A) → Only P (f a))
      → Added P s (continue out f s').1
  continue-Added (ok a) f s s' h hf = Added-trans P s s' (f a s').1 h ((hf a).added s')
  continue-Added (err e) f s s' h hf = h
  continue-Added out_of_fuel f s s' h hf = h

  pub Only-bind :
      (m : Run E W A) (f : A → Run E W B) → Only P m → ((a : A) → Only P (f a)) → Only P (m >>= f)
  Only-bind m f hm hf = record { added = λ s. continue-Added (m s).0 f s (m s).1 (hm.added s) hf }

pub Only-for_each :
    {E W A : Type 0} (P : List String → Type 0) (f : A → Run E W (Unit {0}))
    → ((x : A) → Only P (f x))
    → (xs : List A) → Only P (for_each f xs)
Only-for_each P f h [] = record { added = Added-refl P }
Only-for_each P f h (x ∷ xs) =
    Only-bind P (f x) (λ _. for_each f xs) (h x) (λ _. Only-for_each P f h xs)

pub Added-either :
    {E W A : Type 0} (P : List String → Type 0) (b : Bool) (m n : Run E W A) (s : Session W)
    → Added P s (m s).1
    → Added P s (n s).1
    → Added P s ((if b then m else n) s).1
Added-either P true m n s hm hn = hm
Added-either P false m n s hm hn = hn

pub Only-by :
    {E W A : Type 0} (P : List String → Type 0) (b : Bool) (m n : Run E W A)
    → (b ≡ true → Only P m)
    → (b ≡ false → Only P n)
    → Only P (if b then m else n)
Only-by P true m n hm hn = hm refl
Only-by P false m n hm hn = hn refl

-- A context name is looked at without a command.
module _ {E W A : Type 0} (P : List String → Type 0) (context : String)
    (f : String → Run E W A) where
  named-Added :
      (blank : Bool) (s : Session W)
      → Added P s (f context s).1
      → Added P s (((if blank then bail unnamed_context else pure context) >>= f) s).1
  named-Added true s h = Added-refl P s
  named-Added false s h = h

  pub Added-require_named :
      (s : Session W) → Added P s (f context s).1 → Added P s ((require_named context >>= f) s).1
  unfolding trim
  Added-require_named = named-Added (is_empty (trim context))

  pub Only-require_named : Only P (f context) → Only P (require_named context >>= f)
  Only-require_named h = record { added = λ s. Added-require_named s (h.added s) }

-- A loop over elements of which something is known.
pub Only-for_each_given :
    {E W A : Type 0} (P : List String → Type 0) (G : A → Type 0) (f : A → Run E W (Unit {0}))
    → ((x : A) → G x → Only P (f x))
    → (xs : List A) → All G xs
    → Only P (for_each f xs)
Only-for_each_given P G f h [] g = record { added = Added-refl P }
Only-for_each_given P G f h (x ∷ xs) (g, gs) =
    Only-bind P (f x) (λ _. for_each f xs) (h x g) (λ _. Only-for_each_given P G f h xs gs)

-- A run that goes on with what another returned.
module _ {E W A B : Type 0} (P : List String → Type 0) (m : Run E W A) (f : A → Run E W B)
    (s : Session W) where
  goes_on :
      (out : Outcome E A) (s' : Session W)
      → m s ≡ (out, s')
      → Added P s s'
      → ((a : A) (s' : Session W) → m s ≡ (ok a, s') → Added P s' (f a s').1)
      → Added P s (continue out f s').1
  goes_on (ok a) s' e h hf = Added-trans P s s' (f a s').1 h (hf a s' e)
  goes_on (err x) s' e h hf = h
  goes_on out_of_fuel s' e h hf = h

  pub Added-bind :
      Added P s (m s).1
      → ((a : A) (s' : Session W) → m s ≡ (ok a, s') → Added P s' (f a s').1)
      → Added P s ((m >>= f) s).1
  Added-bind = goes_on (m s).0 (m s).1 refl

module _ {J Y E W : Type 0} (o : Outside J Y E W) (P : List String → Type 0) where
  pub Only-output : (command : List String) → P command → Only P (output o command)
  Only-output command p = record {
    added = λ s. ((command, succeeded (o.spawn command s.world).0) ∷ [], refl, (p, tt));
  }

  success_of-Only :
      (command : List String) (out : Option Output)
      → Only P (success_of {E = E} {W = W} command out)
  success_of-Only command none = record { added = Added-refl P }
  success_of-Only command (some out) = record { added = Added-refl P }

  pub Only-status : (command : List String) → P command → Only P (status o command)
  Only-status command p =
      Only-bind P (output o command) (success_of command) (Only-output command p)
        (success_of-Only command)

-- A run that depends on whether something is there.
pub Only-option :
    {E W A B : Type 0} (P : List String → Type 0) (found : Option B) (m : Run E W A)
    (f : B → Run E W A)
    → Only P m
    → ((b : B) → Only P (f b))
    → Only P (elim found [ none ↦ m | some b ↦ f b ])
Only-option P none m f hm hf = hm
Only-option P (some b) m f hm hf = hf b

pub All-mono :
    (P Q : List String → Type 0) (t : Ran)
    → ((c : List String) → P c → Q c)
    → All (λ c. P c.0) t
    → All (λ c. Q c.0) t
All-mono P Q [] h ht = tt
All-mono P Q (c ∷ t) h (p, ht) = (h c.0 p, All-mono P Q t h ht)

pub Only-mono :
    {E W A : Type 0} (P Q : List String → Type 0) (m : Run E W A)
    → ((c : List String) → P c → Q c)
    → Only P m
    → Only Q m
Only-mono P Q m h hm = record {
  added = λ s. let (t, e, ht) = hm.added s in (t, e, All-mono P Q t h ht);
}

pub Only-ensure :
    {E W : Type 0} (P : List String → Type 0) (holds : Bool) (e : SsaError E)
    → Only {W = W} P (ensure holds e)
Only-ensure P holds e = Only-if P holds (pure tt) (bail e) (Only-pure P tt) (Only-bail P e)
