-- ===== src/Lib.antt =====
-- A verification of the core of `cata`, the command line of catallaxy: a Rust program that builds
-- labs of Kubernetes clusters from plans which Nix computes. The sources are under cli/src.
--
-- The parts and their files:
-- - StepKind (domain/step_kind.rs): the kinds of plan step with their tags, their retry policy, the
--   directions that they run in and whether a dry run executes them.
-- - Plan (domain/plan.rs): a planned step, its policy and its parameters. Plan/Params has the
--   parameters of each kind, with the type of JSON values left open.
-- - Executor (plan/executor.rs): `execute` reads a lab, refuses a plan with steps of the other
--   direction, loads the secrets, builds the lab package, runs the steps with retries, and gives
--   the verdict. What it calls is the record `Env` of Executor/Defs: nix, the secret stores,
--   kubectl, the clock and the step modules, which `dispatch` selects. The functions have the names
--   of the source; the loops of `run_one` and `run_steps` are `attempt_from` and a recursion on the
--   steps. A computation returns a `Result` and the state that it leaves, and the failed `expect`
--   of `run_one` is the result `panic`.
-- - Teardown (domain/teardown.rs): the failures that steps record, and the report about them.
-- - Lint (domain/diagnostic.rs, lint): the linter of a rendered lab. Lint/Manifest has the resources
--   (lint/manifest.rs), Lint/Context what a rule is given. The rules of lint/rules are in Lint/PlanRule,
--   Lint/Basics (schema, identity, prefix, assertions), Lint/Selector, Lint/References, Lint/ImagePin,
--   Lint/CrdSchema and Lint/Crds (crd_schema, missing_crd), Lint/ReadyProbe and Lint/Network
--   (network_policy); a function `check` of the source has the name of its rule, as `check_identity`.
--   Lint/Custom has the checks that are scripts, and Lint/Run `run_lint`, which calls all of them. What
--   serde_yaml does is the record `Yaml` of Lint/Yaml.
-- - Subnet (domain/subnet.rs): IPv4 networks, which of them collide and which are free.
-- - Images (images/reference.rs): the parts of an image reference, with the lemmas on joined and split
--   texts in Images/Splits and those on the parser in Images/Parts and Images/RoundTrip.
-- - Ports (domain/port_mapping.rs): publish arguments of docker, with the parser of port numbers as a
--   parameter. KappStatus (domain/kapp_status.rs): the status in the description of a kapp app.
-- - Release (plan/steps/release_cluster_cloud_resources.rs): the wait of a teardown for the cloud
--   resources of a cluster. `advance` is one step of it, a pure function of the state, a look at
--   the cluster and the time; its four parts are `note_counts`, `progress`, `diagnose` and
--   `unstick`. Release/Loop has the loop `poll_until_released`, over a record `Cluster` of what it
--   reads and does outside, with its clock. Release/Trace speaks of histories of looks.
-- - Prune (domain/prune.rs): which live resources to delete when the declaration stops naming them.
-- - Managed (io/poll.rs, domain/crossplane.rs, plan/steps/delete_managed_resource.rs and
--   plan/steps/wait_for_cluster_gone.rs): how a cloud resource is deleted, and what counts as a
--   proof that it is gone. The record `Kubectl` is what the steps call. Managed/Wait and
--   Managed/Delete are the two steps.
-- - ClusterShape (domain/cluster_shape.rs, with the types of domain/cluster.rs that it reads): the
--   shape that a cluster was built from, its comparison with the declared one field by field, and
--   the fixes. A report is the list of its fields.
-- - Inventory (domain/inventory.rs, with what it reads of domain/provenance.rs and
--   domain/lab_record.rs): `correlate`, which works out from facts what runs on the machine. Its three
--   loops are `see_containers`, `see_clusters` and `see_records`; Inventory/Attributed says without
--   any map what the result should be. Inventory/Cleanup has `plan_cleanup`, the removal
--   of a lab, and Inventory/Provenance the labels of containers.
-- - Secrets (domain/secrets.rs): the declared secrets, their environment variables, and
--   `validate_store`.
-- - Ssa (io/ssa/mod.rs, io/ssa/probe.rs, io/kubectl/owned.rs): `apply_manifest_root`, which applies
--   the bundles of a tree of manifests wave by wave, waits for them and then prunes. What it takes
--   from outside is the record `Outside` of Ssa/Defs: commands, files, the clock, and values of JSON and
--   YAML. A run leaves a `Session`, in which every command it ran is
--   written down with whether it succeeded. Ssa/Owned asks which resources the lab owns,
--   Ssa/Workloads and Ssa/Probe wait, Ssa/Bundle retries and waits for definitions of
--   resources, Ssa/Projections injects secrets (apply/mod.rs, io/secrets.rs, io/sops.rs), Ssa/Waves has the waves and the pruning,
--   for which it calls `plan_prune` of Prune. Ssa/Only and Ssa/Returns are about all runs.
-- - Prelude: lists, maps, texts and tests that the parts share.
--
-- The executor's loops recur on the attempts left and on the steps, without fuel. The loop of
-- `poll_until_released` and that of `poll_while_time_remains` run on fuel, one unit for a round. A
-- round sleeps 10 and 20 seconds, and the clock does not run back, so fuel above the timeout in
-- seconds is enough. The loop of `apply_bundle_with_retry` runs on fuel for its attempts, and 30 are
-- enough. `wait_rounds`, the wait for a
-- definition of resources, has two rounds more than its limit has seconds, and a round sleeps 5.
-- `references_in` has fuel for each character of the text, of which a round takes at least one.
-- `parse_schema_node` has fuel for the nesting of a schema, and a schema that is nested deeper is cut off
-- there.
--
-- Numbers are natural numbers; `2u64.checked_pow` is bounded by 2 ^ 64 in `checked_pow2`. A
-- `BTreeMap` or a `HashSet` is a list. The files of a manifest tree do not change during a run, and a check script of the linter
-- is a function of its environment. Printing
-- is left out. Not modelled are the commands, the code generation, the documentation tools, the other
-- steps, the printed report of the linter, `relinquish_field_manager` of io/ssa/mod.rs, and the input and
-- output under cli/src/io but for io/poll.rs, io/ssa, io/kubectl/owned.rs, the wait for a definition of
-- resources, and the loading of a store: they call external tools, or print.
pub mod Prelude
pub mod StepKind
pub mod Plan
pub mod Teardown
pub mod Executor
pub mod Lint
pub mod Release
pub mod Prune
pub mod Inventory
pub mod Managed
pub mod ClusterShape
pub mod Ssa
pub mod Secrets
pub mod Subnet
pub mod Images
pub mod Ports
pub mod KappStatus
