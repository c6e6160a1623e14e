-- ===== src/Release/Tests.antt =====
-- A cluster whose namespace hangs on its finalizers, and the theorems about waits for it.
use catallaxy.Prelude.{ℕ, ◌+◌, ◌≤◌, ◌≡◌, refl, true, some, none, List, [], ◌∷◌, arith}
use catallaxy.Release.{
  Observation, strip_finalizers, advance, only_namespaces_left, everything_gone, counts,
}
use catallaxy.Release.Trace.{
  Look, actions_after, strips, strips-le, SawOnlyNamespaces, strip-SawOnlyNamespaces, Unchanged,
  dump-Unchanged,
}
use catallaxy.Release.Loop.{Cluster, KeepsTime, poll_until_released}
use catallaxy.Release.Loop.Outcome.{Ended, poll_until_released-Ended}

abbrev hung : Observation
hung = record { remaining_ns = "apps" ∷ []; load_balancers = 0; volume_claims = 0 }

-- Seven looks, ten seconds apart, the latest first.
abbrev looks : List Look
looks =
    (some hung, 50)
    ∷ (some hung, 40)
    ∷ (none, 30)
    ∷ (some hung, 20)
    ∷ (some hung, 10)
    ∷ (some hung, 0)
    ∷ []

abbrev hung_looks : List Look
hung_looks = (some hung, 60) ∷ looks

last_actions : actions_after hung_looks ≡ strip_finalizers ∷ []
unfolding actions_after advance everything_gone only_namespaces_left
last_actions = refl

strips-le_example : strips hung_looks ≤ 1
strips-le_example = strips-le hung_looks

strip-SawOnlyNamespaces_example :
    (only_namespaces_left hung ≡ true) × ((t : ℕ) × SawOnlyNamespaces looks t × (t + 60 ≤ 60))
unfolding actions_after advance everything_gone only_namespaces_left
strip-SawOnlyNamespaces_example = strip-SawOnlyNamespaces looks hung 60 refl

dump_after_pause : (t : ℕ) × Unchanged (counts hung) t looks × (t + 45 ≤ 50)
unfolding actions_after advance everything_gone only_namespaces_left
dump_after_pause =
    dump-Unchanged
      ((some hung, 40) ∷ (none, 30) ∷ (some hung, 20) ∷ (some hung, 10) ∷ (some hung, 0) ∷ []) hung
      50 refl

-- The world is the time.
abbrev slow_cluster : Cluster ℕ
slow_cluster = record {
  now = λ w. w;
  sleep = λ n w. w + n;
  read_remaining = λ w. (some ("apps" ∷ "kube-system" ∷ [], 0, 0), w + 1);
  dump_stuck_state = λ ns w. w + 2;
  strip_finalizers_in = λ ns w. ("pod/apps" ∷ [], w + 3);
}

slow_cluster-KeepsTime : KeepsTime slow_cluster
slow_cluster-KeepsTime = record {
  sleeps = λ n w. omega arith;
  reads = λ w. omega arith;
  dumps = λ ns w. omega arith;
  strips = λ ns w. omega arith;
}

poll_until_released-Ended_example :
    Ended slow_cluster slow_cluster-KeepsTime
      ("apps" ∷ [])
      5
      (5 + 100)
      (poll_until_released slow_cluster 101 ("apps" ∷ []) 100 5)
poll_until_released-Ended_example =
    poll_until_released-Ended slow_cluster slow_cluster-KeepsTime 101 ("apps" ∷ []) 100 5
      (omega arith)
