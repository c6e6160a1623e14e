-- ===== src/Release/Loop.antt =====
-- `poll_until_released` of cli/src/plan/steps/release_cluster_cloud_resources.rs: the loop that looks
-- at the cluster, and does what `advance` says, until all is released or the time is up.
pub mod Outcome
use catallaxy.Prelude.{
  ℕ, zero, suc, ◌+◌, ◌-◌, ◌≤◌, Bool, true, false, Option, none, some, List, [], ◌∷◌, ◌++◌, String,
  ltb, keep, contains, if◌then◌else◌,
}
use catallaxy.Release.{
  Observation, ReleaseState, Action, unreadable, released, report_progress, dump_diagnostics,
  strip_finalizers, advance, initial, poll_interval_secs,
}

-- What the loop reads and does outside. `W` is the world, and `now` its clock in seconds.
pub record Cluster (W : Type 0) : Type 0 where
  pub now : W → ℕ
  pub sleep : ℕ → W → W
  -- The namespaces, and the numbers of LoadBalancer services and volume claims; `none` if a
  -- query failed.
  pub read_remaining : W → Option (List String × ℕ × ℕ) × W
  pub dump_stuck_state : List String → W → W
  pub strip_finalizers_in : List String → W → List String × W

-- The clock runs forward, and a sleep takes its time.
pub record KeepsTime {W : Type 0} (c : Cluster W) : Type 0 where
  pub sleeps : (n : ℕ) (w : W) → c.now w + n ≤ c.now (c.sleep n w)
  pub reads : (w : W) → c.now w ≤ c.now (c.read_remaining w).1
  pub dumps : (ns : List String) (w : W) → c.now w ≤ c.now (c.dump_stuck_state ns w)
  pub strips : (ns : List String) (w : W) → c.now w ≤ c.now (c.strip_finalizers_in ns w).1

pub record ReleaseOutcome : Type 0 where
  pub released : Bool
  pub stripped_finalizers : List String

pub data LoopEnd (W : Type 0) : Type 0 where
  ended : ReleaseOutcome → W → LoopEnd W
  -- An `expect` on the observation that fails.
  panicked : LoopEnd W
  out_of_fuel : LoopEnd W

-- The end of the loop over the actions of one round.
pub data RoundEnd (W : Type 0) : Type 0 where
  go_on : List String → W → RoundEnd W
  return_released : List String → W → RoundEnd W
  expect_failed : RoundEnd W

-- The observation, of the namespaces that the step deletes only.
unfoldable pub observe : List String → Option (List String × ℕ × ℕ) → Option Observation
observe targets none = none
observe targets (some (all_ns, load_balancers, volume_claims)) = some (record {
  remaining_ns = keep (λ n. contains targets n) all_ns;
  load_balancers = load_balancers;
  volume_claims = volume_claims;
})

module _ {W : Type 0} (c : Cluster W) where
  unfoldable pub perform : List Action → Option Observation → List String → W → RoundEnd W
  perform [] observed stripped w = go_on stripped w
  perform (released ∷ actions) observed stripped w = return_released stripped w
  perform (unreadable ∷ actions) observed stripped w = perform actions observed stripped w
  perform (report_progress ∷ actions) none stripped w = expect_failed
  perform (report_progress ∷ actions) (some obs) stripped w = perform actions (some obs) stripped w
  perform (dump_diagnostics ∷ actions) none stripped w = expect_failed
  perform (dump_diagnostics ∷ actions) (some obs) stripped w =
      perform actions (some obs) stripped (c.dump_stuck_state obs.remaining_ns w)
  perform (strip_finalizers ∷ actions) none stripped w = expect_failed
  perform (strip_finalizers ∷ actions) (some obs) stripped w =
      let (more, w') = c.strip_finalizers_in obs.remaining_ns w in
      perform actions (some obs) (stripped ++ more) w'

  module _ (targets : List String) (started deadline : ℕ) where
    -- One look at the cluster and the step that it leads to.
    unfoldable pub look : ReleaseState → W → (ReleaseState × List Action) × Option Observation
    unfolding observe
    look s w =
        let (read, w') = c.read_remaining w in
        let observed = observe targets read in (advance s observed (c.now w' - started), observed)

    unfoldable pub round : ReleaseState → List String → W → RoundEnd W
    unfolding look perform
    round s stripped w =
        let (step, observed) = look s w in perform step.1 observed stripped (c.read_remaining w).1

    unfoldable pub poll : ℕ → ReleaseState → List String → W → LoopEnd W
    poll zero s stripped w = out_of_fuel
    poll (suc fuel) s stripped w = elim (ltb (c.now w) deadline) [
      | false ↦ ended (record { released = false; stripped_finalizers = stripped }) w
      | true ↦ elim (round s stripped w) [
        | return_released stripped' w' ↦
            ended (record { released = true; stripped_finalizers = stripped' }) w'
        | go_on stripped' w' ↦ poll fuel (look s w).0.0 stripped' (c.sleep poll_interval_secs w')
        | expect_failed ↦ panicked
      ]
    ]

  unfoldable pub poll_until_released : ℕ → List String → ℕ → W → LoopEnd W
  unfolding poll
  poll_until_released fuel targets timeout_secs w =
      let started = c.now w in poll targets started (started + timeout_secs) fuel initial [] w
