-- ===== src/Ssa/Returns.antt =====
-- What holds where a run of cli/src/io/ssa returns, and that commands stay written down.
use catallaxy.Prelude.{
  Mem-front, Mem-back, ◌≡◌, ◌≢◌, ◌⊎◌, inl, inr, refl, sym, ap, ◌∙◌, subst, Bool, true, false,
  Option, none, some, List, [], ◌∷◌, ◌++◌, String, All, arith, if◌then◌else◌,
}
use mathlib.Core.List.{Memᴰ}
use catallaxy.Ssa.{
  Outside, Output, Outcome, ok, err, out_of_fuel, SsaError, Run, Session, pure, bail, continue,
  ◌>>=◌, for_each, ensure, output, status, success_of, succeeded,
}
use catallaxy.Ssa.Only.{Added, Only, Only-for_each}

-- The command was run, and succeeded.
abbrev pub Seen : {W : Type 0} → List String → Session W → Type 0
Seen c s = Memᴰ (c, true) s.ran

abbrev Any : List String → Type 0
Any c = Unit {0}

-- The second session goes on from the first.
abbrev pub GoesOn : {W : Type 0} → Session W → Session W → Type 0
GoesOn s s' = Added Any s s'

abbrev pub Grows : {E W A : Type 0} → Run E W A → Type 0
Grows m = Only Any m

pub Seen-later :
    {W : Type 0} (c : List String) (s s' : Session W) → GoesOn s s' → Seen c s → Seen c s'
Seen-later c s s' (t, e, h) m = subst (Memᴰ (c, true)) (sym e) (Mem-front s.ran t (c, true) m)

module _ {E W A B : Type 0} (m : Run E W A) (f : A → Run E W B) (s : Session W) (b : B)
    (s'' : Session W) where
  returned :
      (out : Outcome E A) (s' : Session W)
      → m s ≡ (out, s')
      → continue out f s' ≡ (ok b, s'')
      → (a : A) × (s' : Session W) × (m s ≡ (ok a, s')) × (f a s' ≡ (ok b, s''))
  returned (ok a) s' e h = (a, s', e, h)
  returned (err x) s' e h = absurd cc
  returned out_of_fuel s' e h = absurd cc

  -- A sequence that returns has two parts that return.
  pub bind-ok :
      (m >>= f) s ≡ (ok b, s'')
      → (a : A) × (s' : Session W) × (m s ≡ (ok a, s')) × (f a s' ≡ (ok b, s''))
  bind-ok h = returned (m s).0 (m s).1 refl h

-- The branch that a test selects.
module _ {E W A : Type 0} (m n : Run E W A) (s : Session W) (r : Outcome E A × Session W) where
  pub then_branch : (b : Bool) → b ≡ true → (if b then m else n) s ≡ r → m s ≡ r
  then_branch true e h = h
  then_branch false e h = absurd (ground arith)

  pub else_branch : (b : Bool) → b ≡ false → (if b then m else n) s ≡ r → n s ≡ r
  else_branch true e h = absurd (ground arith)
  else_branch false e h = h

-- A run that returns has got past its guards.
pub past :
    {E W A : Type 0} (b : Bool) (e : SsaError E) (n : Run E W A) (s s' : Session W) (a : A)
    → (if b then bail e else n) s ≡ (ok a, s')
    → n s ≡ (ok a, s')
past true e n s s' a h = absurd cc
past false e n s s' a h = h

pub option-ok :
    {E W A B : Type 0} (found : Option B) (e : SsaError E) (f : B → Run E W A) (s s' : Session W)
    (a : A)
    → (let m : Run E W A = elim found [ none ↦ bail e | some b ↦ f b ] in m s) ≡ (ok a, s')
    → (b : B) × (found ≡ some b) × (f b s ≡ (ok a, s'))
option-ok none e f s s' a h = absurd cc
option-ok (some b) e f s s' a h = (b, refl, h)

ok_injective : {E A : Type 0} (a b : A) → ◌≡◌ {A = Outcome E A} (ok a) (ok b) → a ≡ b
ok_injective a b h = cc

pub pure-ok :
    {E W A : Type 0} (a b : A) (s s' : Session W)
    → pure {E = E} a s ≡ (ok b, s')
    → (a ≡ b) × (s ≡ s')
pure-ok a b s s' h = (ok_injective a b (ap (λ r. r.0) h), ap (λ r. r.1) h)

pub ensure-ok :
    {E W : Type 0} (holds : Bool) (e : SsaError E) (s s' : Session W)
    → ensure holds e s ≡ (ok tt, s')
    → (holds ≡ true) × (s ≡ s')
ensure-ok true e s s' h = (refl, ap (λ r. r.1) h)
ensure-ok false e s s' h = absurd cc

pub grows_on :
    {E W A : Type 0} (m : Run E W A) (s s' : Session W) (out : Outcome E A)
    → Grows m
    → m s ≡ (out, s')
    → GoesOn s s'
grows_on m s s' out g e = subst (GoesOn s) (ap (λ r. r.1) e) (g.added s)

-- A loop that returns has done, for each element, what one round of it does for the element.
pub for_each-ok :
    {E W A : Type 0} (f : A → Run E W (Unit {0})) (Q : A → Session W → Type 0)
    → ((x : A) → Grows (f x))
    → ((x : A) (s s' : Session W) → f x s ≡ (ok tt, s') → Q x s')
    → ((x : A) (s s' : Session W) → GoesOn s s' → Q x s → Q x s')
    → (xs : List A) (s s' : Session W) → for_each f xs s ≡ (ok tt, s')
    → All (λ x. Q x s') xs
for_each-ok f Q grows does lasts [] s s' h = tt
for_each-ok f Q grows does lasts (x ∷ xs) s s' h =
    let (_, t, e, h') = bind-ok (f x) (λ _. for_each f xs) s tt s' h in
    (
      lasts x t s' (grows_on (for_each f xs) t s' (ok tt) (Only-for_each Any f grows xs) h')
          (does x s t e),
      for_each-ok f Q grows does lasts xs t s' h',
    )

module _ {E W A : Type 0} (f : A → Run E W (Unit {0})) (ys : List A) where
  -- A loop over two lists ends in the first, or goes on with the second.
  abbrev pub Splits : List A → Session W → Type 0
  Splits xs s =
      ((t : Session W) × (for_each f xs s ≡ (ok tt, t))
        × (for_each f (xs ++ ys) s ≡ for_each f ys t))
      ⊎ (((for_each f xs s).0 ≢ ok tt) × (for_each f (xs ++ ys) s ≡ for_each f xs s))

  append_from :
      (out : Outcome E (Unit {0})) (xs : List A) (t : Session W)
      → Splits xs t
      → ((u : Session W) × (continue out (λ _. for_each f xs) t ≡ (ok tt, u))
          × (continue out (λ _. for_each f (xs ++ ys)) t ≡ for_each f ys u))
        ⊎ (((continue out (λ _. for_each f xs) t).0 ≢ ok tt)
            × (continue out (λ _. for_each f (xs ++ ys)) t ≡ continue out (λ _. for_each f xs) t))
  append_from (ok a) xs t h = h
  append_from (err e) xs t h = inr (λ same. cc, refl)
  append_from out_of_fuel xs t h = inr (λ same. cc, refl)

  pub for_each-append : (xs : List A) (s : Session W) → Splits xs s
  for_each-append [] s = inl (s, refl, refl)
  for_each-append (x ∷ xs) s = append_from (f x s).0 xs (f x s).1 (for_each-append xs (f x s).1)

module _ {J Y E W : Type 0} (o : Outside J Y E W) where
  pub output-ok :
      (c : List String) (s s' : Session W) (out : Option Output)
      → output {E = E} o c s ≡ (ok out, s')
      → Memᴰ (c, succeeded out) s'.ran
  output-ok c s s' out h =
      let answer : ok (o.spawn c s.world).0 ≡ ok out = ap (λ r. r.0) h in
      let same : (o.spawn c s.world).0 ≡ out = cc in
      subst (λ x. Memᴰ (c, succeeded x) s'.ran) same
        (subst (λ r. Memᴰ (c, succeeded (o.spawn c s.world).0) r) (ap (λ r. r.1.ran) h)
          (Mem-back s.ran ((c, succeeded (o.spawn c s.world).0) ∷ []) _ (Memᴰ.head refl)))

  success_of-ok :
      (c : List String) (out : Option Output) (s s' : Session W)
      → success_of {E = E} c out s ≡ (ok true, s')
      → (succeeded out ≡ true) × (s ≡ s')
  success_of-ok c none s s' h = absurd cc
  success_of-ok c (some r) s s' h =
      let answer : ok r.status_ok ≡ ok true = ap (λ r. r.0) h in (cc, ap (λ r. r.1) h)

  pub status-ok :
      (c : List String) (s s' : Session W) → status {E = E} o c s ≡ (ok true, s') → Seen c s'
  status-ok c s s' h =
      let (out, t, e, h') = bind-ok (output o c) (success_of c) s true s' h in
      let (done, same) = success_of-ok c out t s' h' in
      subst (Seen c) same (subst (λ b. Memᴰ (c, b) t.ran) done (output-ok c s t out e))

  -- A command that has to succeed has succeeded where the run returns.
  pub ensured-ok :
      (c : List String) (e : SsaError E) (s s' : Session W)
      → (status o c >>= λ success. ensure success e) s ≡ (ok tt, s')
      → Seen c s'
  ensured-ok c e s s' h =
      let (success, t, e', h') = bind-ok (status o c) (λ success. ensure success e) s tt s' h in
      let (done, same) = ensure-ok success e t s' h' in
      subst (Seen c) same (status-ok c s t (e' ∙ ap (λ b. (ok b, t)) done))
