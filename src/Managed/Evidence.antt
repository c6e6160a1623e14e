-- ===== src/Managed/Evidence.antt =====
-- What the steps wait_for_cluster_gone.rs and delete_managed_resource.rs take for a proof that a
-- resource is gone.
use catallaxy.Prelude.{
  ℕ, ◌+◌, ◌≤◌, ◌<◌, ◌≡◌, ◌≢◌, refl, sym, ap, subst, true, Option, none, some, [], ◌∷◌, ◌++◌, String,
  eq_iff, is_empty, arith, Bool-cases, inl, inr,
}
use catallaxy.Teardown.{StepFailure}
use catallaxy.Executor.{Machine}
use catallaxy.Plan.Params.{WaitForClusterGoneParams}
use catallaxy.Managed.{
  Polled, answered, gave_up, out_of_fuel, Output, Kubectl, KeepsTime, unwrap_or,
}
use catallaxy.Managed.Poll.{Keeps, Ended, probed, timed_out, poll_while_time_remains-Ended}
use catallaxy.Managed.Wait
use catallaxy.Managed.Wait.{Outcome, gone, still_present, cannot_tell, answer_of}

-- A get that succeeded and printed nothing.
pub record ProvesGone (out : Option Output) : Type 0 where
  pub got : Output
  pub ran : out ≡ some got
  pub success : got.success ≡ true
  pub nothing : got.stdout ≡ ""

judge-ProvesGone :
    (out : Option Output) (a : Outcome)
    → answer_of (Wait.judge out) ≡ some a
    → ProvesGone out × (a ≡ gone)
unfolding Wait.classify
judge-ProvesGone none a h = absurd (cc)
judge-ProvesGone (some o) a h = elim (Bool-cases o.success) [
  | inr failed ↦ absurd (cc (rw (failed, Wait.classify) at h))
  | inl ok ↦ elim (Bool-cases (is_empty o.stdout)) [
    | inl blank ↦ (
      record { got = o; ran = refl; success = ok; nothing = (eq_iff o.stdout "").0 blank },
      cc (rw (ok, blank, Wait.classify) at h),
    )
    | inr other ↦ absurd (cc (rw (ok, other, Wait.classify) at h))
  ]
]

unanswered-not_gone : (o : Outcome) → answer_of o ≡ none → o ≢ gone
unanswered-not_gone o h = ground arith

-- The worlds that a wait reaches from one: it asks for the resource, and sleeps, and nothing else.
pub data Waited {W V : Type 0} (k : Kubectl W V) (kube_ctx kind name : String) (start : W)
    : W → Type 0 where
  here : Waited k kube_ctx kind name start start
  after_get :
      (w : W)
      → Waited k kube_ctx kind name start w
      → Waited k kube_ctx kind name start (k.output kube_ctx (Wait.get_args kind name) w).1
  after_sleep :
      (n : ℕ) (w : W)
      → Waited k kube_ctx kind name start w
      → Waited k kube_ctx kind name start (k.sleep n w)

module _ {W V : Type 0} (k : Kubectl W V) (time : KeepsTime k) (kube_ctx kind name : String) where
  abbrev asked : W → Option Output × W
  asked w = k.output kube_ctx (Wait.get_args kind name) w

  -- What holds of the world and the last outcome while the wait goes on.
  abbrev Waits : W → W × Outcome → Type 0
  Waits start s = (s.1 ≢ gone) × Waited k kube_ctx kind name start s.0

  module _ (start : W) (deadline : ℕ) where
    -- What the wait comes back with: that the resource is gone, as its last get proves, or another
    -- answer once the time is up. Until then it only asked and slept.
    pub data Told : Option (Outcome × W) → Type 0 where
      proved :
          (w : W)
          → Waited k kube_ctx kind name start w
          → ProvesGone (asked w).0
          → Told (some (gone, (asked w).1))
      untold :
          (o : Outcome) (w : W)
          → Waited k kube_ctx kind name start w
          → o ≢ gone
          → deadline ≤ k.now w
          → Told (some (o, w))

  keeps :
      (start : W)
      → Keeps
          (λ s. k.now s.0)
          (λ n s. (k.sleep n s.0, s.1))
          (Wait.probe k kube_ctx kind name)
          (Waits start)
  unfolding Wait.probe
  keeps start = record {
    sleeps = λ n s. time.sleeps n s.0;
    probes = λ s. time.outputs kube_ctx (Wait.get_args kind name) s.0;
    asked = λ s inv h. (unanswered-not_gone (Wait.judge (asked s.0).0) h, after_get s.0 inv.1);
    slept = λ n s inv. (inv.0, after_sleep n s.0 inv.1);
  }

  Ended-Told :
      (start : W) (started deadline : ℕ) (r : Polled (W × Outcome) Outcome)
      → Ended
          (λ s. k.now s.0)
          (λ n s. (k.sleep n s.0, s.1))
          (Wait.probe k kube_ctx kind name)
          (Waits start)
          started
          deadline
          r
      → Told start deadline (elim r [
        | answered outcome s ↦ some (outcome, s.0)
        | gave_up s ↦ some (s.1, s.0)
        | out_of_fuel ↦ none
      ])
  unfolding Wait.probe
  Ended-Told start started deadline _ (timed_out s up inv) = untold s.1 s.0 inv.1 inv.0 up
  Ended-Told start started deadline _ (probed s a s' from before e inv) =
      let (proof, is_gone) = judge-ProvesGone (asked s.0).0 a (ap (λ r. r.0) e) in
      subst (λ x. Told start deadline (some x)) (λ i. (sym is_gone i, (ap (λ r. r.1.0) e) i))
        (proved s.0 inv.1 proof)

  pub poll_until_gone-Told :
      (fuel timeout_secs : ℕ) (w : W)
      → timeout_secs < fuel
      → Told w
          (k.now w + timeout_secs)
          (Wait.poll_until_gone k kube_ctx kind name fuel timeout_secs w)
  unfolding Wait.poll_until_gone
  poll_until_gone-Told fuel timeout_secs w enough =
      Ended-Told w (k.now w) (k.now w + timeout_secs) _ (
        poll_while_time_remains-Ended (λ s. k.now s.0) (λ n s. (k.sleep n s.0, s.1))
          (Wait.probe k kube_ctx kind name) (Waits w) fuel timeout_secs 20 (w, cannot_tell)
          (keeps w) (omega arith) enough ((λ same. cc), here))

-- What the step did to the machine: it only asked for the resource and slept, and recorded one
-- failure more; or, after it had asked and slept, a get proved the resource gone, and then it cleaned
-- the kubeconfig up, and recorded nothing.
pub data Settled {W V : Type 0} (k : Kubectl W V) (target kube_ctx kind name : String)
    (m : Machine W) : Machine W → Type 0 where
  not_confirmed :
      (f : StepFailure) (w : W)
      → Waited k kube_ctx kind name m.world w
      → Settled k target kube_ctx kind name m
          (record { world = w; failures = m.failures ++ (f ∷ []) })
  confirmed :
      (w : W)
      → Waited k kube_ctx kind name m.world w
      → ProvesGone (k.output kube_ctx (Wait.get_args kind name) w).0
      → Settled k target kube_ctx kind name m (record {
        world = k.cleanup_kubeconfig target (k.output kube_ctx (Wait.get_args kind name) w).1;
        failures = m.failures;
      })

module _ {W V : Type 0} (k : Kubectl W V) (time : KeepsTime k) where
  -- How the step ends.
  abbrev pub Ends : String → String → String → String → Machine W → Option (Machine W) → Type 0
  Ends target kube_ctx kind name m r =
      (m' : Machine W) × (r ≡ some m') × Settled k target kube_ctx kind name m m'

  settle-Ends :
      (target kube_ctx kind name : String) (timeout_secs deadline : ℕ) (m : Machine W)
      (r : Option (Outcome × W))
      → Told k time kube_ctx kind name m.world deadline r
      → Ends target kube_ctx kind name m (elim r [
        | none ↦ none
        | some (outcome, w) ↦
            some (
              Wait.settle k target kube_ctx kind name timeout_secs outcome (record m { world = w }))
      ])
  unfolding Wait.settle
  settle-Ends target kube_ctx kind name timeout_secs deadline m _ (proved w waited proof) =
      (_, refl, confirmed w waited proof)
  settle-Ends target kube_ctx kind name timeout_secs deadline m _ (untold gone w waited other up) =
      absurd (other refl)
  settle-Ends target kube_ctx kind name timeout_secs deadline m _
        (untold still_present w waited other up) =
      (_, refl, not_confirmed _ w waited)
  settle-Ends target kube_ctx kind name timeout_secs deadline m _
        (untold cannot_tell w waited other up) =
      (_, refl, not_confirmed _ w waited)

  -- With more fuel than the timeout, which is 600 seconds by default, the step that waits for a
  -- cluster ends in one of two ways. Either it did nothing to the world but gets of the resource and
  -- sleeps, and recorded exactly one failure; or, after such gets and sleeps, a get succeeded and
  -- printed nothing, and the step then cleaned the target out of the kubeconfig and recorded nothing.
  pub run-Ends :
      (fuel : ℕ) (p : WaitForClusterGoneParams) (m : Machine W)
      → unwrap_or p.wait_timeout_seconds 600 < fuel
      → (let target = unwrap_or p.target "unknown" in
          Ends target
            (unwrap_or p.kube_context target)
            (unwrap_or p.resource_kind "")
            (unwrap_or p.resource_name target)
            m
            (Wait.run k fuel p m))
  unfolding Wait.run
  run-Ends fuel p m enough =
      let target = unwrap_or p.target "unknown" in
      let kube_ctx = unwrap_or p.kube_context target in
      let kind = unwrap_or p.resource_kind "" in
      let name = unwrap_or p.resource_name target in
      let timeout_secs = unwrap_or p.wait_timeout_seconds 600 in
      elim (Bool-cases (is_empty kind)) [
        | inl nothing ↦ rw (nothing, Wait.run) (_, refl, not_confirmed _ m.world here)
        | inr named ↦
            elim (Bool-cases
              (Wait.prior_delete_failed m.failures (record { kind = kind; name = name }))) [
                | inl undone ↦ rw (named, undone, Wait.run) (_, refl, not_confirmed _ m.world here)
                | inr fine ↦
                    rw (named, fine, Wait.run)
                      (settle-Ends target kube_ctx kind name timeout_secs
                        (k.now m.world + timeout_secs) m _
                        (poll_until_gone-Told k time kube_ctx kind name fuel timeout_secs m.world
                          enough))
              ]
      ]
