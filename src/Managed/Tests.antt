-- ===== src/Managed/Tests.antt =====
-- Two clusters whose world is a clock: on the one the resource is gone after 40 seconds, and the
-- other never answers.
use catallaxy.Prelude.{
  ◌∷◌, ◌==◌, ℕ, ◌+◌, ◌≤◌, ◌≡◌, ◌≢◌, refl, true, false, Option, none, some, [], String, leb, arith,
  if◌then◌else◌,
}
use catallaxy.Executor.{Machine}
use catallaxy.Plan.Params.{WaitForClusterGoneParams, DeleteManagedResourceParams}
use catallaxy.Managed.{
  Json, managed_state_of, is_deletable, is_blank, Kubectl, KeepsTime, Output, exited, poll_from,
  poll_while_time_remains,
}
use catallaxy.Managed.Poll.{Keeps, Ended, poll_while_time_remains-Ended}
use catallaxy.Managed.Wait
use catallaxy.Managed.Wait.{Outcome, gone}
use catallaxy.Managed.Delete
use catallaxy.Managed.Removal
use catallaxy.Managed.Evidence.{Ends, run-Ends}
use catallaxy.Managed.Differs.{poll_until_gone-Differs}

abbrev answers : (ℕ → Output) → Kubectl ℕ String
answers out = record {
  now = λ w. w;
  sleep = λ n w. w + n;
  api_reachable = λ ctx w. (true, w);
  resource_json = λ ctx name w. (none, w);
  output = λ ctx args w. (some (out w), w);
  status = λ ctx args w. (exited true "0", w);
  list_all_of_kind = λ ctx kind w. ([], w);
  cleanup_kubeconfig = λ target w. w;
}

answers-KeepsTime : (out : ℕ → Output) → KeepsTime (answers out)
answers-KeepsTime out = record { sleeps = λ n w. omega arith; outputs = λ ctx args w. omega arith }

abbrev leaves : ℕ → Output
leaves w = record { success = true; stdout = if leb 40 w then "" else "cluster.x.io/prod" }

abbrev silent : ℕ → Output
silent w = record { success = false; stdout = "" }

abbrev prod : WaitForClusterGoneParams
prod = record {
  target = some "prod";
  kube_context = some "k3d-mgmt";
  resource_kind = some "clusters.x.io";
  resource_name = none;
  wait_timeout_seconds = some 60;
}

abbrev start : Machine ℕ
start = record { world = 0; failures = [] }

left_in_time : Wait.run (answers leaves) 61 prod start ≡ some (record { world = 40; failures = [] })
unfolding Wait.run Wait.poll_until_gone poll_while_time_remains poll_from Wait.probe Wait.classify
    Wait.settle Wait.prior_delete_failed
left_in_time = refl

run-Ends_example :
    Ends
      (answers leaves)
      (answers-KeepsTime leaves)
      "prod"
      "k3d-mgmt"
      "clusters.x.io"
      "prod"
      start
      (Wait.run (answers leaves) 61 prod start)
run-Ends_example = run-Ends (answers leaves) (answers-KeepsTime leaves) 61 prod start (omega arith)

poll_until_gone-Differs_example :
    (Delete.poll_until_gone (answers silent) "k3d-mgmt" "clusters.x.io" "prod" 61 60 0
      ≡ some (true, 0))
    × ((o : Outcome) × (w' : ℕ) × (Wait.poll_until_gone
            (answers silent)
            "k3d-mgmt"
            "clusters.x.io"
            "prod"
            61
            60
            0
          ≡ some (o, w'))
        × (o ≢ gone))
poll_until_gone-Differs_example =
    poll_until_gone-Differs (answers silent) (answers-KeepsTime silent) "k3d-mgmt" "clusters.x.io"
      "prod" 61 60 0 (λ args w. refl) (omega arith) (omega arith)

-- A probe that answers at the third second.
abbrev third : ℕ → Option String × ℕ
third s = (if leb 3 s then some "ready" else none, s)

third-Keeps : Keeps (λ s. s) (λ n s. s + n) third (λ s. 0 ≤ s)
third-Keeps = record {
  sleeps = λ n s. omega arith;
  probes = λ s. omega arith;
  asked = λ s inv h. omega arith;
  slept = λ n s inv. omega arith;
}

poll_while_time_remains-Ended_example :
    Ended
      (λ s. s)
      (λ n s. s + n)
      third
      (λ s. 0 ≤ s)
      0
      30
      (poll_while_time_remains (λ s. s) (λ n s. s + n) third 31 30 1 0)
poll_while_time_remains-Ended_example =
    poll_while_time_remains-Ended (λ s. s) (λ n s. s + n) third (λ s. 0 ≤ s) 31 30 1 0 third-Keeps
      (omega arith) (omega arith) (omega arith)

-- A value that has the same text wherever it is read, but an external name.
abbrev managed : Json String
managed = record {
  pointer =
      λ v path. some (if path == "/metadata/finalizers" then "finalizer.crossplane.io" else v);
  as_str = λ v. some v;
  as_array = λ v. some (v ∷ []);
}

abbrev holds : Kubectl ℕ String
holds = record (answers leaves) { resource_json = λ ctx name w. (some "uuid-1", w) }

holds-KeepsTime : KeepsTime holds
holds-KeepsTime = record { sleeps = λ n w. omega arith; outputs = λ ctx args w. omega arith }

abbrev doomed : DeleteManagedResourceParams
doomed = record {
  target = "prod";
  resource_kind = "clusters.x.io";
  resource_name = "prod";
  wait = none;
  wait_timeout_seconds = some 60;
  kube_context = some "k3d-mgmt";
  external_name_discovery_bin = none;
}

removed_in_time :
    Delete.run holds managed 61 doomed start ≡ some (record { world = 40; failures = [] })
unfolding Delete.run Delete.run_reachable Delete.delete_found Delete.issue_delete Delete.await_gone
    Delete.poll_until_gone poll_while_time_remains poll_from Delete.probe is_blank managed_state_of
    is_deletable
removed_in_time = refl

run-Removes_example :
    Removal.Ends holds holds-KeepsTime "k3d-mgmt" "clusters.x.io" "prod" managed true start
      (Delete.run holds managed 61 doomed start)
run-Removes_example =
    Removal.run-Removes holds holds-KeepsTime managed 61 doomed start (omega arith)
