-- ===== src/Release.antt =====
-- cli/src/plan/steps/release_cluster_cloud_resources.rs: what a teardown does, from one look at a
-- cluster to the next, while it waits for the cluster's cloud resources to be released.
-- Times are whole seconds since the wait began.
pub mod Trace
pub mod Actions
pub mod Loop
mod Tests
use catallaxy.Prelude.{
  ℕ, ◌-◌, Bool, true, false, not, ◌&&◌, Option, none, some, List, [], ◌∷◌, ◌++◌, String, leb, eqb,
  is_nil, length, if◌then◌else◌,
}

abbrev pub finalizer_strip_grace_secs : ℕ
finalizer_strip_grace_secs = 60

abbrev pub progress_report_secs : ℕ
progress_report_secs = 30

abbrev pub poll_interval_secs : ℕ
poll_interval_secs = 10

abbrev pub diagnostic_dump_grace_secs : ℕ
diagnostic_dump_grace_secs = 45

pub data Reachability : Type 0 where
  reachable in_kubeconfig_but_down not_in_kubeconfig : Reachability

unfoldable pub classify_reachability : Bool → Bool → Reachability
classify_reachability in_kubeconfig true = reachable
classify_reachability true false = in_kubeconfig_but_down
classify_reachability false false = not_in_kubeconfig

pub record Observation : Type 0 where
  pub remaining_ns : List String
  pub load_balancers : ℕ
  pub volume_claims : ℕ

-- The three numbers that `counts` makes of an observation.
pub record Counts : Type 0 where
  pub namespaces : ℕ
  pub load_balancers : ℕ
  pub volume_claims : ℕ

abbrev counts_eq : Counts → Counts → Bool
counts_eq a b =
    eqb a.namespaces b.namespaces
    && (eqb a.load_balancers b.load_balancers && eqb a.volume_claims b.volume_claims)

-- `Some(a) == last`
abbrev pub same_counts : Option Counts → Counts → Bool
same_counts none b = false
same_counts (some a) b = counts_eq a b

abbrev pub counts : Observation → Counts
counts o = record {
  namespaces = length o.remaining_ns;
  load_balancers = o.load_balancers;
  volume_claims = o.volume_claims;
}

unfoldable pub everything_gone : Observation → Bool
everything_gone o =
    counts_eq (counts o) (record { namespaces = 0; load_balancers = 0; volume_claims = 0 })

unfoldable pub only_namespaces_left : Observation → Bool
only_namespaces_left o =
    eqb o.load_balancers 0 && (eqb o.volume_claims 0 && not (is_nil o.remaining_ns))

pub record ReleaseState : Type 0 where
  pub last_report_at : ℕ
  pub last_counts : Option Counts
  pub stall_since : Option ℕ
  pub diagnostic_dumped : Bool
  pub stuck_since : Option ℕ
  pub finalizer_strip_done : Bool

-- `ReleaseState::default()`
abbrev pub initial : ReleaseState
initial = record {
  last_report_at = 0;
  last_counts = none;
  stall_since = none;
  diagnostic_dumped = false;
  stuck_since = none;
  finalizer_strip_done = false;
}

pub data Action : Type 0 where
  unreadable released report_progress dump_diagnostics strip_finalizers : Action

-- The parts of `advance`, in its order. Each returns the state and the actions that it adds.
module _ (obs : Observation) (elapsed : ℕ) where
  unfoldable pub note_counts : ReleaseState → ReleaseState
  note_counts s =
      if same_counts s.last_counts (counts obs)
      then record s { last_counts = some (counts obs) }
      else record s {
        last_counts = some (counts obs);
        stall_since = some elapsed;
        diagnostic_dumped = false;
      }

  unfoldable pub progress : ReleaseState → ReleaseState × List Action
  progress s =
      if leb progress_report_secs (elapsed - s.last_report_at)
      then (record s { last_report_at = elapsed }, report_progress ∷ [])
      else (s, [])

  -- `stalled_for.is_some_and(|s| s >= DIAGNOSTIC_DUMP_GRACE_SECS)`
  abbrev pub stalled : ReleaseState → Bool
  stalled s = elim s.stall_since [
    | none ↦ false
    | some t ↦ leb diagnostic_dump_grace_secs (elapsed - t)
  ]

  unfoldable pub diagnose : ReleaseState → ReleaseState × List Action
  diagnose s =
      if not s.diagnostic_dumped && stalled s
      then (record s { diagnostic_dumped = true }, dump_diagnostics ∷ [])
      else (s, [])

  -- `get_or_insert(elapsed)`
  abbrev pub stuck_from : ReleaseState → ℕ
  stuck_from s = elim s.stuck_since [ some t ↦ t | none ↦ elapsed ]

  unfoldable pub unstick : ReleaseState → ReleaseState × List Action
  unstick s =
      if only_namespaces_left obs
      then (if not s.finalizer_strip_done && leb finalizer_strip_grace_secs (elapsed - stuck_from s)
          then (
            record s { stuck_since = some (stuck_from s); finalizer_strip_done = true },
            strip_finalizers ∷ [],
          )
          else (record s { stuck_since = some (stuck_from s) }, []))
      else (s, [])

  unfoldable pub advance_present : ReleaseState → ReleaseState × List Action
  unfolding note_counts progress diagnose unstick
  advance_present s =
      let (s₁, reports) = progress (note_counts s) in
      let (s₂, dumps) = diagnose s₁ in
      let (s₃, strips) = unstick s₂ in (s₃, reports ++ (dumps ++ strips))

unfoldable pub advance : ReleaseState → Option Observation → ℕ → ReleaseState × List Action
unfolding advance_present
advance s none elapsed = (s, unreadable ∷ [])
advance s (some obs) elapsed =
    if everything_gone obs then (s, released ∷ []) else advance_present obs elapsed s
