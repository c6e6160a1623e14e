-- ===== src/Ssa/Established.antt =====
-- The wait for a definition of resources (cli/src/io/kubectl/crossplane.rs): what it runs, and that it
-- ends.
use catallaxy.Prelude.{
  ℕ, zero, suc, ◌+◌, ◌*◌, ◌≤◌, ◌≡◌, false, Option, List, [], ◌∷◌, ◌++◌, String, arith, ltb, trim,
  is_empty, Bool-cases, inl, inr,
}
use catallaxy.Ssa.{
  Outside, Output, Run, Session, succeeded, require_named, output, pure, bail, bad_timeout, ◌>>=◌,
}
use catallaxy.Ssa.Bundle.{
  second, elapsed, rest_for, crd_args, after_wait, wait_rounds, wait_crd, parse_timeout,
}
use catallaxy.Ssa.Attempts.{KeepsTime}
use catallaxy.Ssa.Ends.{IsEnd, Ends, Ends-bail, Ends-option}
use catallaxy.Ssa.Only.{
  Only, Added-refl, Added-if, Only-pure, Only-bail, Only-if, Only-bind, Only-output, Only-option,
  Only-require_named,
}

module _ {J Y E W : Type 0} (o : Outside J Y E W) (context crd : String) where
  module _ (P : List String → Type 0) (waits : P (crd_args o context crd)) where
    after_wait-Only :
        (started limit : ℕ) (again : Run E W (Unit {0})) (out : Option Output)
        → Only P again
        → Only P (after_wait o context crd started limit again out)
    after_wait-Only started limit again out h =
        Only-if P (succeeded out) (pure tt) _ (Only-pure P tt) (record {
          added = λ s.
              Added-if P s (ltb (limit * second) (elapsed o started s)) _ _ (Added-refl P s)
                (h.added (rest_for o (5 * second) s));
        })

    wait_rounds-Only :
        (started limit fuel : ℕ) → Only P (wait_rounds o context crd started limit fuel)
    unfolding wait_rounds
    wait_rounds-Only started limit zero = record { added = Added-refl P }
    wait_rounds-Only started limit (suc fuel) = Only-require_named P context _ (
        Only-bind P (output o (crd_args o context crd)) _
          (Only-output o P (crd_args o context crd) waits)
          (λ out. after_wait-Only started limit _ out (wait_rounds-Only started limit fuel)))

    pub wait_crd-Only : (timeout : String) → Only P (wait_crd o context timeout crd)
    unfolding wait_crd
    wait_crd-Only timeout =
        Only-option P (parse_timeout o timeout) (bail (bad_timeout timeout)) _ (Only-bail P _)
          (λ limit. record {
            added = λ s. (wait_rounds-Only (o.now s.world) limit (suc (suc limit))).added s;
          })

  module _ (keeps : KeepsTime o) where
    -- The rounds that are left last until the limit has passed.
    abbrev Enough : ℕ → ℕ → ℕ → ℕ → Type 0
    Enough started limit fuel now = limit * second + second + started ≤ now + fuel * (5 * second)

    -- What is left of a round after the wait of kubectl.
    after_wait-IsEnd :
        (started limit : ℕ) (again : Run E W (Unit {0})) (out : Option Output) (s : Session W)
        → ((s' : Session W)
            → o.now s.world + 5 * second ≤ o.now s'.world
            → ltb (limit * second) (elapsed o started s) ≡ false
            → IsEnd (again s'))
        → IsEnd (after_wait o context crd started limit again out s)
    after_wait-IsEnd started limit again out s next = elim (Bool-cases (succeeded out)) [
      | inl done ↦ rw done tt
      | inr waits ↦ elim (Bool-cases (ltb (limit * second) (elapsed o started s))) [
        | inl up ↦ rw (waits, up) tt
        | inr early ↦
            rw (waits, early)
              (next (rest_for o (5 * second) s) (keeps.sleeps (5 * second) s.world) early)
      ]
    ]

    named-IsEnd :
        (m : String → Run E W (Unit {0})) (s : Session W)
        → IsEnd (m context s)
        → IsEnd ((require_named context >>= m) s)
    unfolding trim
    named-IsEnd m s h = elim (Bool-cases (is_empty (trim context))) [
      | inl blank ↦ rw (blank, require_named) tt
      | inr named ↦ rw (named, require_named) h
    ]

    wait_rounds-IsEnd :
        (started limit fuel : ℕ) (s : Session W)
        → Enough started limit fuel (o.now s.world)
        → IsEnd (wait_rounds o context crd started limit (suc fuel) s)
    unfolding wait_rounds
    wait_rounds-IsEnd started limit zero s enough =
        let command = crd_args o context crd in
        let (out, w) = o.spawn command s.world in
        let later = keeps.spawns command s.world in
        named-IsEnd _ s (
          after_wait-IsEnd started limit (wait_rounds o context crd started limit zero) out
            (record { world = w; ran = s.ran ++ ((command, succeeded out) ∷ []) })
            (λ s' slept early. absurd (ground arith)))
    wait_rounds-IsEnd started limit (suc fuel) s enough =
        let command = crd_args o context crd in
        let (out, w) = o.spawn command s.world in
        let later = keeps.spawns command s.world in
        named-IsEnd _ s (
          after_wait-IsEnd started limit (wait_rounds o context crd started limit (suc fuel)) out
            (record { world = w; ran = s.ran ++ ((command, succeeded out) ∷ []) })
            (λ s' slept early. wait_rounds-IsEnd started limit fuel s' (omega arith)))

    pub wait_crd-Ends : (timeout : String) → Ends {E = E} (wait_crd o context timeout crd)
    unfolding wait_crd
    wait_crd-Ends timeout =
        Ends-option (parse_timeout o timeout) (bail (bad_timeout timeout)) _ (Ends-bail _) (λ limit.
          record {
            at_end = λ s. wait_rounds-IsEnd (o.now s.world) limit (suc limit) s (omega arith);
          })
