-- ===== src/Executor/Stop.antt =====
-- `resolve_stop_after` of cli/src/plan/executor.rs: which step `--up-to` stops after.
use catallaxy.Prelude.{
  ℕ, zero, suc, ◌≡◌, ◌≢◌, inl, inr, Option, none, some, List, [], ◌∷◌, String, eq_iff, arith,
  Option-cases, map, sort_texts-perm,
}
use mathlib.Core.List.{Perm}
use catallaxy.StepKind.{StepKind, Direction, tag, from_tag, all_kinds}
use catallaxy.StepKind.Tags.{from_tag-eq-some}
use catallaxy.Plan.{PlannedStep, type_tag}
use catallaxy.Executor.{
  Result, ok, err, ExecError, no_such_step, not_a_kind, rposition, resolve_stop_after,
}

module _ {V : Type 0} where
  abbrev pub NoneTagged : String → List (PlannedStep V) → Type 0
  NoneTagged t [] = Unit
  NoneTagged t (step ∷ steps) = (type_tag step ≢ t) × NoneTagged t steps

  -- The step of index `i` has the tag, and none after it has.
  abbrev pub IsLastTagged : String → List (PlannedStep V) → ℕ → Type 0
  IsLastTagged t [] i = ⊥
  IsLastTagged t (step ∷ steps) zero = (type_tag step ≡ t) × NoneTagged t steps
  IsLastTagged t (step ∷ steps) (suc i) = IsLastTagged t steps i

  rposition-eq-none :
      (t : String) (steps : List (PlannedStep V)) → rposition t steps ≡ none → NoneTagged t steps
  unfolding rposition
  rposition-eq-none t [] h = tt
  rposition-eq-none t (step ∷ steps) h =
      ground (arith, eq_iff (type_tag step) t, rposition-eq-none t steps)

  rposition-eq-some :
      (t : String) (steps : List (PlannedStep V)) (i : ℕ)
      → rposition t steps ≡ some i
      → IsLastTagged t steps i
  unfolding rposition
  rposition-eq-some t [] i h = absurd (cc)
  rposition-eq-some t (step ∷ steps) zero h =
      ground (arith, eq_iff (type_tag step) t, rposition-eq-none t steps)
  rposition-eq-some t (step ∷ steps) (suc i) h = ground (arith, rposition-eq-some t steps i)

  -- What `--up-to` resolves to, in all cases.
  pub data Resolved (E : Type 0) (steps : List (PlannedStep V)) (t : String) (d : Direction)
      : Result (ExecError E) (Option ℕ) → Type 0 where
    last_step : (i : ℕ) → IsLastTagged t steps i → Resolved E steps t d (ok (some i))
    absent :
        (k : StepKind)
        → tag k ≡ t
        → NoneTagged t steps
        → Resolved E steps t d (err (no_such_step t d))
    unknown :
        (valid : List String)
        → ((k : StepKind) → tag k ≢ t)
        → NoneTagged t steps
        → Perm valid (map tag all_kinds)
        → Resolved E steps t d (err (not_a_kind t valid))

  -- A kind given to `--up-to` resolves to the last step of that kind. Where the plan has no such
  -- step, it is an error: one for a kind that exists, another, with the tags of all kinds, for a
  -- text that is the tag of none.
  pub resolve_stop_after-Resolved :
      (E : Type 0) (steps : List (PlannedStep V)) (t : String) (d : Direction)
      → Resolved E steps t d (resolve_stop_after E steps (some t) d)
  unfolding resolve_stop_after
  resolve_stop_after-Resolved E steps t d = elim (Option-cases (rposition t steps)) [
    | inr (i, e) ↦ rw (e, resolve_stop_after) (last_step i (rposition-eq-some t steps i e))
    | inl e ↦ elim (Option-cases (from_tag t)) [
      | inr (k, f) ↦
          rw (e, f, resolve_stop_after)
            (absent k ((from_tag-eq-some t k).0 f) (rposition-eq-none t steps e))
      | inl f ↦
          rw (e, f, resolve_stop_after)
            (unknown _ (λ k same. cc (f, (from_tag-eq-some t k).1 same))
              (rposition-eq-none t steps e) (sort_texts-perm _))
    ]
  ]
