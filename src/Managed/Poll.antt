-- ===== src/Managed/Poll.antt =====
-- What `poll_while_time_remains` of cli/src/io/poll.rs comes back with.
use catallaxy.Prelude.{
  ℕ, zero, suc, ◌+◌, ◌-◌, ◌≤◌, ◌<◌, ◌≡◌, refl, Option, none, some, arith, ltb, ltb→lt, Bool-cases,
  inl, inr,
}
use catallaxy.Managed.{Polled, answered, gave_up, poll_from, poll_while_time_remains}

module _ {S T : Type 0} (now : S → ℕ) (sleep : ℕ → S → S) (probe : S → Option T × S) where
  -- The clock runs forward, and a sleep takes its time. `Inv` is a fact of the state that holds
  -- after each probe without an answer and each sleep.
  pub record Keeps (Inv : S → Type 0) : Type 0 where
    pub sleeps : (n : ℕ) (s : S) → now s + n ≤ now (sleep n s)
    pub probes : (s : S) → now s ≤ now (probe s).1
    pub asked : (s : S) → Inv s → (probe s).0 ≡ none → Inv (probe s).1
    pub slept : (n : ℕ) (s : S) → Inv s → Inv (sleep n s)

  module _ (Inv : S → Type 0) (started deadline : ℕ) where
    -- The loop ended: with the answer of the last probe, which was asked in time, or when the time
    -- was up; the fact held before that probe, or at the end.
    pub data Ended : Polled S T → Type 0 where
      probed :
          (s : S) (answer : T) (s' : S)
          → started ≤ now s
          → now s < deadline
          → probe s ≡ (some answer, s')
          → Inv s
          → Ended (answered answer s')
      timed_out : (s : S) → deadline ≤ now s → Inv s → Ended (gave_up s)

    poll_probe :
        (interval fuel : ℕ) (s : S) (o : Option T) (s' : S)
        → started ≤ now s
        → now s < deadline
        → probe s ≡ (o, s')
        → Inv s
        → (o ≡ none → Ended (poll_from now sleep probe deadline interval fuel (sleep interval s')))
        → Ended (elim o [
          | some a ↦ answered a s'
          | none ↦ poll_from now sleep probe deadline interval fuel (sleep interval s')
        ])
    poll_probe interval fuel s (some a) s' from before e inv next = probed s a s' from before e inv
    poll_probe interval fuel s none s' from before e inv next = next refl

    module _ (keeps : Keeps Inv) (interval : ℕ) (waits : 0 < interval) where
      poll_from-Ended :
          (fuel : ℕ) (s : S)
          → deadline - now s < fuel
          → started ≤ now s
          → Inv s
          → Ended (poll_from now sleep probe deadline interval fuel s)
      unfolding poll_from
      poll_from-Ended zero s enough from inv = absurd (omega arith)
      poll_from-Ended (suc fuel) s enough from inv = elim (Bool-cases (ltb (now s) deadline)) [
        | inr up ↦ rw (up, poll_from) (timed_out s (ground arith) inv)
        | inl before ↦
            let early = ltb→lt (now s) deadline before in
            let probed_at = keeps.probes s in
            let slept_at = keeps.sleeps interval (probe s).1 in
            rw (before, poll_from)
              (poll_probe interval fuel s (probe s).0 (probe s).1 from early refl inv (λ unanswered.
                poll_from-Ended fuel (sleep interval (probe s).1) (omega arith) (omega arith)
                  (keeps.slept interval (probe s).1 (keeps.asked s inv unanswered))))
      ]

  -- With more fuel than the budget, a poll ends: with the answer of a probe that was asked within
  -- the budget, in a state where the fact that probes without an answer keep still holds, or with
  -- none, once the budget is spent, and in a state where the fact still holds.
  pub poll_while_time_remains-Ended :
      (Inv : S → Type 0) (fuel budget interval : ℕ) (s : S)
      → Keeps Inv
      → 0 < interval
      → budget < fuel
      → Inv s
      → Ended Inv
          (now s)
          (now s + budget)
          (poll_while_time_remains now sleep probe fuel budget interval s)
  unfolding poll_while_time_remains
  poll_while_time_remains-Ended Inv fuel budget interval s keeps waits enough inv =
      poll_from-Ended Inv (now s) (now s + budget) keeps interval waits fuel s (omega arith)
        (omega arith) inv
