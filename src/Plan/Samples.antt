-- ===== src/Plan/Samples.antt =====
-- Planned steps that the tests share.
use catallaxy.Prelude.{ℕ, true, false, none, String}
use catallaxy.StepKind.{Idempotency, idempotent, one_shot}
use catallaxy.Plan.{PlannedStep, fatal}
use catallaxy.Plan.Params.{
  StepParams, publish_manifests, create_cluster, infra_apply, deploy_manifests,
  wait_for_cluster_gone,
}

abbrev step_of : String → Idempotency → StepParams ℕ → PlannedStep ℕ
step_of name retry params = record {
  name = name;
  origin = "";
  description = "";
  cluster = none;
  policy = record {
    retry = retry;
    on_failure = fatal;
    interactive = false;
    skip_if_cluster_reachable = none;
  };
  params = params;
}

abbrev pub publish : PlannedStep ℕ
publish = step_of "publish" idempotent publish_manifests

abbrev pub create : String → PlannedStep ℕ
create name = step_of name one_shot (create_cluster (record { name = name; provisioner = "k3d" }))

abbrev pub apply_stack : String → PlannedStep ℕ
apply_stack stack =
    step_of stack idempotent (infra_apply (record { stack = stack; working_dir = none }))

abbrev pub deploy_to : String → PlannedStep ℕ
deploy_to target =
    step_of target idempotent
      (deploy_manifests (record { target = target; bootstrap = true; kube_context = none }))

abbrev pub await_removal : PlannedStep ℕ
await_removal = step_of "gone" idempotent (
    wait_for_cluster_gone (record {
      target = none;
      kube_context = none;
      resource_kind = none;
      resource_name = none;
      wait_timeout_seconds = none;
    }))
