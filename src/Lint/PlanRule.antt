-- ===== src/Lint/PlanRule.antt =====
-- cli/src/lint/rules/plan.rs: the rule over the deployment plan. A `HashSet` is the list of its
-- elements.
pub mod Clean
use catallaxy.Prelude.{
  ℕ, zero, suc, ◌≡◌, refl, ◌↔◌, ◌≢◌, Bool, true, false, Option, none, some, List, [], ◌∷◌, ◌++◌,
  String, ◌<>◌, ◌==◌, eq_iff, arith, All, Bool-cases, inl, inr, contains, decimal, if◌then◌else◌,
}
use catallaxy.Plan.{PlannedStep, cluster_refs, type_tag}
use catallaxy.Plan.Params.{StepParams, create_cluster}
use catallaxy.Lint.{Diagnostic, Severity, error}

unfoldable pub diag : Severity → String → String → Diagnostic
diag severity resource message = record {
  severity = severity;
  check = "plan";
  cluster = "<lab>";
  file = "";
  resource = resource;
  message = message;
}

abbrev pub more_than_one : String → Diagnostic
more_than_one name =
    diag error name ("cluster '" <> (name <> "' has more than one create-cluster step"))

module _ {V : Type 0} where
  abbrev pub unknown_cluster : ℕ → PlannedStep V → String → String → Diagnostic
  unknown_cluster idx step field cluster = diag error ("step[" <> (decimal idx <> "]")) (
      "plan step '"
      <> (type_tag step
          <> ("' " <> (field <> (" references unknown cluster '" <> (cluster <> "'"))))))

  -- The inner loop, over the references of one step.
  unfoldable pub check_refs :
      List String → ℕ → PlannedStep V → List (String × String) → List Diagnostic
  check_refs known idx step [] = []
  check_refs known idx step ((field, cluster) ∷ refs) =
      let rest = check_refs known idx step refs in
      if contains known cluster then rest else unknown_cluster idx step field cluster ∷ rest

  unfoldable pub check_cluster_refs_from : List String → ℕ → List (PlannedStep V) → List Diagnostic
  check_cluster_refs_from known idx [] = []
  check_cluster_refs_from known idx (step ∷ plan) =
      check_refs known idx step (cluster_refs step.params)
      ++ check_cluster_refs_from known (suc idx) plan

  unfoldable pub check_cluster_refs : List (PlannedStep V) → List String → List Diagnostic
  unfolding check_cluster_refs_from check_refs
  check_cluster_refs plan known = check_cluster_refs_from known 0 plan

  -- The name that a step creates a cluster under.
  unfoldable pub created : StepParams V → Option String
  created (create_cluster p) = some p.name
  created _ = none

  -- The loop of `check_duplicate_create`, with the names seen so far.
  unfoldable pub check_duplicates_from : List String → List (PlannedStep V) → List Diagnostic
  check_duplicates_from seen [] = []
  check_duplicates_from seen (step ∷ plan) = elim (created step.params) [
    | none ↦ check_duplicates_from seen plan
    | some name ↦
        let later = check_duplicates_from (name ∷ seen) plan in
        if contains seen name then more_than_one name ∷ later else later
  ]

  unfoldable pub check_duplicate_create : List (PlannedStep V) → List Diagnostic
  unfolding check_duplicates_from created
  check_duplicate_create plan = check_duplicates_from [] plan

  -- `Plan::check`
  unfoldable pub check_plan : List String → List (PlannedStep V) → List Diagnostic
  unfolding check_cluster_refs check_duplicate_create
  check_plan known plan = check_cluster_refs plan known ++ check_duplicate_create plan
