-- ===== src/Release/Loop/Outcome.antt =====
-- The loop of release_cluster_cloud_resources.rs ends, without a panic, and what its outcome means.
use catallaxy.Prelude.{
  ltb→lt, ℕ, zero, suc, ◌+◌, ◌-◌, ◌≤◌, ◌<◌, ◌≡◌, refl, Bool, true, false, Option, none, some, List,
  [], ◌∷◌, String, ltb, arith, keep, contains, length-eq-zero, Bool-cases, inl, inr, any, sym, ◌∙◌,
}
use catallaxy.Release.{
  Observation, ReleaseState, Action, unreadable, released, report_progress, dump_diagnostics,
  strip_finalizers, advance, initial, poll_interval_secs, everything_gone,
}
use catallaxy.Release.Actions.{is_released, advance-any_released}
use catallaxy.Release.Loop.{
  Cluster, KeepsTime, LoopEnd, ended, panicked, RoundEnd, go_on, return_released, expect_failed,
  observe, perform, look, round, poll, poll_until_released,
}

module _ {W : Type 0} (c : Cluster W) where
  -- No action of the list needs an observation that is not there.
  abbrev Fits : Option Observation → List Action → Type 0
  Fits none actions = actions ≡ unreadable ∷ []
  Fits (some obs) actions = Unit

  advance-Fits : (s : ReleaseState) (o : Option Observation) (t : ℕ) → Fits o (advance s o t).1
  unfolding advance
  advance-Fits s none t = refl
  advance-Fits s (some obs) t = tt

  -- A list of actions ends in one of the two good ways, in the second only if an action says so,
  -- and time does not run back in it.
  data Performed (w : W) (says_so : Bool) : RoundEnd W → Type 0 where
    went_on :
        (stripped : List String) (w' : W)
        → c.now w ≤ c.now w'
        → Performed w says_so (go_on stripped w')
    was_released :
        (stripped : List String) (w' : W)
        → says_so ≡ true
        → Performed w says_so (return_released stripped w')

  Performed-le :
      {w₀ w : W} {b : Bool} {r : RoundEnd W}
      → c.now w₀ ≤ c.now w
      → Performed w b r
      → Performed w₀ b r
  Performed-le le (went_on stripped w' h) = went_on stripped w' (omega arith)
  Performed-le le (was_released stripped w' h) = was_released stripped w' h

  module _ (time : KeepsTime c) where
    perform-some :
        (actions : List Action) (obs : Observation) (stripped : List String) (w : W)
        → Performed w (any is_released actions) (perform c actions (some obs) stripped w)
    unfolding perform
    perform-some [] obs stripped w = went_on stripped w (omega arith)
    perform-some (released ∷ actions) obs stripped w = was_released stripped w refl
    perform-some (unreadable ∷ actions) obs stripped w = perform-some actions obs stripped w
    perform-some (report_progress ∷ actions) obs stripped w = perform-some actions obs stripped w
    perform-some (dump_diagnostics ∷ actions) obs stripped w =
        Performed-le (time.dumps obs.remaining_ns w) (perform-some actions obs stripped _)
    perform-some (strip_finalizers ∷ actions) obs stripped w =
        Performed-le (time.strips obs.remaining_ns w) (perform-some actions obs _ _)

    perform-Performed :
        (actions : List Action) (o : Option Observation) (stripped : List String) (w : W)
        → Fits o actions
        → Performed w (any is_released actions) (perform c actions o stripped w)
    unfolding perform
    perform-Performed actions (some obs) stripped w h = perform-some actions obs stripped w
    perform-Performed actions none stripped w h = rw h (went_on stripped w (omega arith))

    module _ (targets : List String) (started deadline : ℕ) where
      -- A look within the time that read the cluster found no load balancer, no volume claim, and none of the
      -- namespaces that the step deletes.
      pub record Confirmed : Type 0 where
        pub at : W
        pub from : started ≤ c.now at
        pub before : c.now at < deadline
        pub namespaces : List String
        pub nothing_else : (c.read_remaining at).0 ≡ some (namespaces, 0, 0)
        pub none_left : keep (λ n. contains targets n) namespaces ≡ []

      -- The loop ended: with all released, which a look confirmed, or when the time was up.
      pub data Ended : LoopEnd W → Type 0 where
        confirmed :
            (stripped : List String) (w : W)
            → Confirmed
            → Ended (ended (record { released = true; stripped_finalizers = stripped }) w)
        timed_out :
            (stripped : List String) (w : W)
            → deadline ≤ c.now w
            → Ended (ended (record { released = false; stripped_finalizers = stripped }) w)

      everything_gone-zeros :
          (obs : Observation)
          → everything_gone obs ≡ true
          → (obs.remaining_ns ≡ []) × (obs.load_balancers ≡ 0) × (obs.volume_claims ≡ 0)
      unfolding everything_gone
      everything_gone-zeros obs h =
          (length-eq-zero obs.remaining_ns (ground arith), ground arith, ground arith)

      observe-Confirmed :
          (w : W)
          → started ≤ c.now w
          → c.now w < deadline
          → (r : Option (List String × ℕ × ℕ)) → (c.read_remaining w).0 ≡ r
          → (s : ReleaseState) (t : ℕ) → any is_released (advance s (observe targets r) t).1 ≡ true
          → Confirmed
      unfolding observe advance
      observe-Confirmed w from before none e s t h = absurd (cc)
      observe-Confirmed w from before (some (ns, lbs, pvcs)) e s t h =
          let obs : Observation = record {
            remaining_ns = keep (λ n. contains targets n) ns;
            load_balancers = lbs;
            volume_claims = pvcs;
          } in
          let zeros = everything_gone-zeros obs (sym (advance-any_released obs t s) ∙ h) in
          record {
            at = w;
            from = from;
            before = before;
            namespaces = ns;
            nothing_else = cc (e, zeros.1, zeros.2);
            none_left = zeros.0;
          }

      round-Performed :
          (s : ReleaseState) (stripped : List String) (w : W)
          → Performed
              (c.read_remaining w).1
              (any is_released (look c targets started deadline s w).0.1)
              (round c targets started deadline s stripped w)
      unfolding round look
      round-Performed s stripped w =
          let o = observe targets (c.read_remaining w).0 in
          let t = c.now (c.read_remaining w).1 - started in
          perform-Performed (advance s o t).1 o stripped (c.read_remaining w).1 (advance-Fits s o t)

      look-Confirmed :
          (s : ReleaseState) (w : W)
          → started ≤ c.now w
          → c.now w < deadline
          → any is_released (look c targets started deadline s w).0.1 ≡ true
          → Confirmed
      unfolding look
      look-Confirmed s w from before h =
          observe-Confirmed w from before (c.read_remaining w).0 refl s _ h

      -- The case on the end of a round in `poll`.
      poll-round :
          (fuel : ℕ) (s : ReleaseState) {w : W} {b : Bool} (r : RoundEnd W)
          → Performed w b r
          → (b ≡ true → Confirmed)
          → ((stripped : List String) (w' : W)
              → c.now w ≤ c.now w'
              → Ended
                  (poll c targets started deadline fuel s stripped (c.sleep poll_interval_secs w')))
          → Ended (elim r [
            | return_released stripped' w' ↦
                ended (record { released = true; stripped_finalizers = stripped' }) w'
            | go_on stripped' w' ↦
                poll c targets started deadline fuel s stripped' (c.sleep poll_interval_secs w')
            | expect_failed ↦ panicked
          ])
      poll-round fuel s _ (went_on stripped w' le) seen next = next stripped w' le
      poll-round fuel s _ (was_released stripped w' says) seen next =
          confirmed stripped w' (seen says)

      poll-Ended :
          (fuel : ℕ) (s : ReleaseState) (stripped : List String) (w : W)
          → deadline - c.now w < fuel
          → started ≤ c.now w
          → Ended (poll c targets started deadline fuel s stripped w)
      unfolding poll
      poll-Ended zero s stripped w h from = absurd (omega arith)
      poll-Ended (suc fuel) s stripped w h from = elim (Bool-cases (ltb (c.now w) deadline)) [
        | inr up ↦ rw (up, poll) (timed_out stripped w (ground arith))
        | inl before ↦
            rw (before, poll)
              (poll-round fuel (look c targets started deadline s w).0.0
                (round c targets started deadline s stripped w) (round-Performed s stripped w)
                (look-Confirmed s w from (ltb→lt (c.now w) deadline before))
                (λ stripped' w' le.
                  poll-Ended fuel (look c targets started deadline s w).0.0 stripped'
                    (c.sleep poll_interval_secs w')
                    (ground (
                      arith,
                      time.sleeps poll_interval_secs w',
                      time.reads w,
                      ltb→lt (c.now w) deadline before,
                    ))
                    (omega (arith, time.sleeps poll_interval_secs w', time.reads w))))
      ]

  -- With more fuel than the timeout, the wait ends: it does not panic, it says that all is
  -- released only if a look at the cluster confirmed it, and it gives up only when the time is up.
  pub poll_until_released-Ended :
      (time : KeepsTime c) (fuel : ℕ) (targets : List String) (timeout_secs : ℕ) (w : W)
      → timeout_secs < fuel
      → Ended time targets
          (c.now w)
          (c.now w + timeout_secs)
          (poll_until_released c fuel targets timeout_secs w)
  unfolding poll_until_released
  poll_until_released-Ended time fuel targets timeout_secs w h =
      poll-Ended time targets (c.now w) (c.now w + timeout_secs) fuel initial [] w (omega arith)
        (omega arith)
