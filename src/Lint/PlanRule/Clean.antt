-- ===== src/Lint/PlanRule/Clean.antt =====
-- When the rule over the deployment plan (cli/src/lint/rules/plan.rs) reports nothing.
use catallaxy.Prelude.{
  ℕ, suc, ◌≡◌, refl, ◌↔◌, true, false, none, some, List, [], ◌∷◌, ◌++◌, String, eq_iff, arith, All,
  Option-cases, inl, inr, contains, ◌⊎◌, subst, ap, ◌∙◌, sym, ◌+◌, length, Mem-front, Mem-back,
}
use mathlib.Core.List.{Memᴰ}
use catallaxy.Lint.{Diagnostic}
use catallaxy.Plan.{PlannedStep, cluster_refs}
use catallaxy.Plan.Params.{InfraParams, infra_plan, infra_apply, infra_destroy}
use catallaxy.Lint.PlanRule.{
  check_refs, check_cluster_refs_from, check_cluster_refs, check_duplicates_from,
  check_duplicate_create, check_plan, created, unknown_cluster,
}

append-eq-nil : {A : Type 0} (xs ys : List A) → (xs ++ ys ≡ []) ↔ ((xs ≡ []) × (ys ≡ []))
append-eq-nil [] ys = (λ h. (refl, h), λ h. h.1)
append-eq-nil (x ∷ xs) ys = (λ h. absurd (cc), λ h. absurd (cc))

-- No text occurs twice.
abbrev pub NoRepeats : List String → Type 0
NoRepeats [] = Unit
NoRepeats (x ∷ xs) = (contains xs x ≡ false) × NoRepeats xs

-- None of the names is among the seen ones.
abbrev Fresh : List String → List String → Type 0
Fresh seen names = All (λ n. contains seen n ≡ false) names

Fresh-cons :
    (name : String) (seen names : List String)
    → Fresh (name ∷ seen) names ↔ (Fresh seen names × (contains names name ≡ false))
Fresh-cons name seen [] = (λ _. (tt, refl), λ _. tt)
Fresh-cons name seen (x ∷ xs) =
    ground (arith, Fresh-cons name seen xs, eq_iff name x, eq_iff x name)

Fresh-nil : (names : List String) → Fresh [] names
Fresh-nil [] = tt
Fresh-nil (n ∷ ns) = (refl, Fresh-nil ns)

module _ {V : Type 0} where
  -- Every cluster that the step names is known.
  abbrev pub NamesKnown : List String → PlannedStep V → Type 0
  NamesKnown known step = All (λ ref. contains known ref.1 ≡ true) (cluster_refs step.params)

  abbrev pub created_names : List (PlannedStep V) → List String
  created_names [] = []
  created_names (step ∷ plan) = elim (created step.params) [
    | none ↦ created_names plan
    | some name ↦ name ∷ created_names plan
  ]

  check_refs-eq-nil :
      (known : List String) (idx : ℕ) (step : PlannedStep V) (refs : List (String × String))
      → (check_refs known idx step refs ≡ []) ↔ All (λ ref. contains known ref.1 ≡ true) refs
  unfolding check_refs
  check_refs-eq-nil known idx step [] = (λ _. tt, λ _. refl)
  check_refs-eq-nil known idx step ((field, c) ∷ refs) =
      ground (arith, check_refs-eq-nil known idx step refs)

  check_cluster_refs_from-eq-nil :
      (known : List String) (idx : ℕ) (plan : List (PlannedStep V))
      → (check_cluster_refs_from known idx plan ≡ []) ↔ All (NamesKnown known) plan
  unfolding check_cluster_refs_from
  check_cluster_refs_from-eq-nil known idx [] = (λ _. tt, λ _. refl)
  check_cluster_refs_from-eq-nil known idx (step ∷ plan) =
      let split =
        append-eq-nil (check_refs known idx step (cluster_refs step.params))
          (check_cluster_refs_from known (suc idx) plan) in
      let here = check_refs-eq-nil known idx step (cluster_refs step.params) in
      let later = check_cluster_refs_from-eq-nil known (suc idx) plan in
      (λ h. (here.0 (split.0 h).0, later.0 (split.0 h).1), λ h. split.1 (here.1 h.0, later.1 h.1))

  check_duplicates_from-eq-nil :
      (seen : List String) (plan : List (PlannedStep V))
      → (check_duplicates_from seen plan ≡ [])
        ↔ (Fresh seen (created_names plan) × NoRepeats (created_names plan))
  unfolding check_duplicates_from
  check_duplicates_from-eq-nil seen [] = (λ _. (tt, tt), λ _. refl)
  check_duplicates_from-eq-nil seen (step ∷ plan) = elim (Option-cases (created step.params)) [
    | inl e ↦ ground (arith, check_duplicates_from-eq-nil seen plan)
    | inr (name, e) ↦ ground (
      arith,
      check_duplicates_from-eq-nil (name ∷ seen) plan,
      Fresh-cons name seen (created_names plan),
    )
  ]

  -- The rule reports nothing exactly when every cluster that a step names is a known one, and no
  -- two steps create a cluster of one name.
  pub check_plan-eq-nil :
      (known : List String) (plan : List (PlannedStep V))
      → (check_plan known plan ≡ [])
        ↔ (All (NamesKnown known) plan × NoRepeats (created_names plan))
  unfolding check_plan
  check_plan-eq-nil known plan =
      let split = append-eq-nil (check_cluster_refs plan known) (check_duplicate_create plan) in
      let refs = check_cluster_refs_from-eq-nil known 0 plan in
      let creates = check_duplicates_from-eq-nil [] plan in
      (
        λ h. (refs.0 (split.0 h).0, (creates.0 (split.0 h).1).1),
        λ h. split.1 (refs.1 h.0, creates.1 (Fresh-nil (created_names plan), h.1)),
      )

  -- The step acts on the infrastructure stack of the name.
  abbrev pub ActsOnStack : String → PlannedStep V → Type 0
  ActsOnStack stack step =
      (p : InfraParams) × (p.stack ≡ stack)
      × ((step.params ≡ infra_plan p)
          ⊎ (step.params ≡ infra_apply p)
          ⊎ (step.params ≡ infra_destroy p))

  cluster_refs-stack :
      (step : PlannedStep V) (p : InfraParams)
      → (step.params ≡ infra_plan p)
        ⊎ (step.params ≡ infra_apply p)
        ⊎ (step.params ≡ infra_destroy p)
      → cluster_refs step.params ≡ ("stack", p.stack) ∷ []
  unfolding cluster_refs
  cluster_refs-stack step p (inl e) = ap cluster_refs e
  cluster_refs-stack step p (inr (inl e)) = ap cluster_refs e
  cluster_refs-stack step p (inr (inr e)) = ap cluster_refs e

  check_refs-stack :
      (known : List String) (idx : ℕ) (step : PlannedStep V) (stack : String)
      → contains known stack ≡ false
      → check_refs known idx step (("stack", stack) ∷ [])
        ≡ unknown_cluster idx step "stack" stack ∷ []
  unfolding check_refs
  check_refs-stack known idx step stack h = rw (h, check_refs) refl

  -- The diagnostics of a step stand among those of the plan, with the index of the step.
  refs_from-Mem :
      (known : List String) (idx : ℕ) (before : List (PlannedStep V)) (step : PlannedStep V)
      (after : List (PlannedStep V)) (d : Diagnostic)
      → Memᴰ d (check_refs known (idx + length before) step (cluster_refs step.params))
      → Memᴰ d (check_cluster_refs_from known idx (before ++ step ∷ after))
  unfolding check_cluster_refs_from
  refs_from-Mem known idx [] step after d m =
      Mem-front (check_refs known idx step (cluster_refs step.params))
        (check_cluster_refs_from known (suc idx) after) d
        (subst (λ n. Memᴰ d (check_refs known n step (cluster_refs step.params))) (omega arith) m)
  refs_from-Mem known idx (b ∷ before) step after d m =
      Mem-back (check_refs known idx b (cluster_refs b.params))
        (check_cluster_refs_from known (suc idx) (before ++ step ∷ after)) d
        (refs_from-Mem known (suc idx) before step after d (
          subst (λ n. Memᴰ d (check_refs known n step (cluster_refs step.params))) (omega arith) m))

  -- The rule takes the stack of an infrastructure step for a cluster: for every such step of a plan,
  -- wherever it stands, the rule reports that the step, by its index, references an unknown cluster
  -- of the name of the stack, unless a cluster has that name.
  pub check_plan-ActsOnStack :
      (known : List String) (before : List (PlannedStep V)) (step : PlannedStep V)
      (after : List (PlannedStep V)) (stack : String)
      → ActsOnStack stack step
      → contains known stack ≡ false
      → Memᴰ
          (unknown_cluster (length before) step "stack" stack)
          (check_plan known (before ++ step ∷ after))
  unfolding check_plan check_cluster_refs
  check_plan-ActsOnStack known before step after stack (p, e, acts) unknown =
      let zero_plus : 0 + length before ≡ length before = omega arith in
      let refs : cluster_refs step.params ≡ ("stack", stack) ∷ [] =
        cluster_refs-stack step p acts ∙ ap (λ t. ("stack", t) ∷ []) e in
      let told : check_refs known (0 + length before) step (cluster_refs step.params)
          ≡ unknown_cluster (length before) step "stack" stack ∷ [] =
        ap (λ n. check_refs known n step (cluster_refs step.params)) zero_plus
        ∙ ap (check_refs known (length before) step) refs
        ∙ check_refs-stack known (length before) step stack unknown in
      Mem-front (check_cluster_refs (before ++ step ∷ after) known)
        (check_duplicate_create (before ++ step ∷ after)) _
        (refs_from-Mem known 0 before step after _ (subst (Memᴰ _) (sym told) (Memᴰ.head refl)))
