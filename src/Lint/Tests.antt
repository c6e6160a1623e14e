-- ===== src/Lint/Tests.antt =====
-- The lint rules on small plans.
use catallaxy.Prelude.{ℕ, ◌≡◌, ◌↔◌, refl, All, List, [], ◌∷◌, inl, inr, none}
use catallaxy.Plan.{PlannedStep, cluster_refs}
use catallaxy.Plan.Samples.{create, apply_stack, deploy_to}
use mathlib.Core.List.{Memᴰ}
use catallaxy.Lint.PlanRule.{check_plan, unknown_cluster}
use catallaxy.Lint.PlanRule.Clean.{
  NamesKnown, NoRepeats, created_names, check_plan-eq-nil, check_plan-ActsOnStack,
}

abbrev hub_plan : List (PlannedStep ℕ)
hub_plan = create "hub" ∷ deploy_to "hub" ∷ []

hub_plan_clean : check_plan ("hub" ∷ []) hub_plan ≡ []
unfolding check_plan cluster_refs
hub_plan_clean = refl

check_plan-eq-nil_example :
    (check_plan ("hub" ∷ []) hub_plan ≡ [])
    ↔ (All (NamesKnown ("hub" ∷ [])) hub_plan × NoRepeats (created_names hub_plan))
check_plan-eq-nil_example = check_plan-eq-nil ("hub" ∷ []) hub_plan

check_plan-ActsOnStack_example :
    Memᴰ
      (unknown_cluster 1 (apply_stack "after-clusters") "stack" "after-clusters")
      (check_plan ("app" ∷ []) (create "app" ∷ apply_stack "after-clusters" ∷ deploy_to "app" ∷ []))
check_plan-ActsOnStack_example =
    check_plan-ActsOnStack ("app" ∷ []) (create "app" ∷ []) (apply_stack "after-clusters")
      (deploy_to "app" ∷ []) "after-clusters"
      (record { stack = "after-clusters"; working_dir = none }, refl, inr (inl refl)) refl
