-- ===== src/Ssa/Attempts.antt =====
-- How often `apply_bundle_with_retry` of cli/src/io/ssa/mod.rs tries, and for how long.
use catallaxy.Prelude.{
  ℕ, zero, suc, ◌+◌, ◌*◌, ◌/◌, ◌≤◌, ◌<◌, ◌≡◌, refl, sym, ap, ◌∙◌, Bool, true, false, Option, none,
  some, List, [], ◌∷◌, ◌++◌, String, arith, leb, Bool-cases, inl, inr,
}
use mathlib.Core.List.{append_assoc, append-nil}
use catallaxy.Ssa.{
  Outside, Output, Outcome, ok, err, Run, Session, not_applied, running, continue, success_of,
  succeeded,
}
use catallaxy.Ssa.Bundle.{
  second, bundle_apply_deadline, phase_apply_backoff, elapsed, rest_for, apply_args, after_attempt,
  retry, apply_bundle_with_retry,
}
use catallaxy.Ssa.Only.{Ran}

-- A command that failed so many times.
abbrev pub failures : List String → ℕ → Ran
failures c zero = []
failures c (suc n) = (c, false) ∷ failures c n

failures-snoc : (c : List String) (n : ℕ) → failures c n ++ ((c, false) ∷ []) ≡ failures c (suc n)
failures-snoc c zero = refl
failures-snoc c (suc n) = ap (λ r. (c, false) ∷ r) (failures-snoc c n)

module _ {J Y E W : Type 0} (o : Outside J Y E W) where
  -- The clock does not run back, and a sleep takes its time.
  pub record KeepsTime : Type 0 where
    pub spawns : (c : List String) (w : W) → o.now w ≤ o.now (o.spawn c w).1
    pub sleeps : (n : ℕ) (w : W) → o.now w + n ≤ o.now (o.sleep n w)

  module _ (bundle : String) (command : List String) (s : Session W) where
    -- The attempts of a run from the session: some that failed, and the last one.
    pub data Tried : Outcome E (Unit {0}) × Session W → Type 0 where
      applied :
          (n : ℕ) (s' : Session W)
          → n < 30
          → s'.ran ≡ s.ran ++ (failures command n ++ ((command, true) ∷ []))
          → Tried (ok tt, s')
      gave_up :
          (n : ℕ) (s' : Session W)
          → n ≤ 30
          → 174 * second ≤ elapsed o (o.now s.world) s'
          → s'.ran ≡ s.ran ++ failures command n
          → Tried (err (not_applied bundle n (elapsed o (o.now s.world) s' / second)), s')
      not_started :
          (n : ℕ) (s' : Session W)
          → n < 30
          → s'.ran ≡ s.ran ++ (failures command n ++ ((command, false) ∷ []))
          → Tried (err (running command), s')

    module _ (keeps : KeepsTime) where
      -- The loop with `attempt` attempts behind it.
      record Begun (fuel attempt : ℕ) (u : Session W) : Type 0 where
        few : attempt < 30
        enough : 30 ≤ attempt + fuel
        late : o.now s.world + attempt * phase_apply_backoff ≤ o.now u.world
        failed : u.ran ≡ s.ran ++ failures command attempt

      one_more :
          (attempt : ℕ) (b : Bool) (u : Ran)
          → u ≡ s.ran ++ failures command attempt
          → u ++ ((command, b) ∷ []) ≡ s.ran ++ (failures command attempt ++ ((command, b) ∷ []))
      one_more attempt b u e =
          ap (λ r. r ++ ((command, b) ∷ [])) e
          ∙ append_assoc s.ran (failures command attempt) ((command, b) ∷ [])

      module _ (fuel attempt : ℕ) (few : attempt < 30) (enough : 30 ≤ attempt + suc fuel)
          (again : Run E W (Unit {0})) where
        module _ (next : (u : Session W) → Begun fuel (suc attempt) u → Tried (again u)) where
          judged :
              (success : Bool) (u : Session W)
              → u.ran ≡ s.ran ++ (failures command attempt ++ ((command, success) ∷ []))
              → o.now s.world + attempt * phase_apply_backoff ≤ o.now u.world
              → Tried (after_attempt o (o.now s.world) bundle command (suc attempt) again success u)
          judged true u e late = applied attempt u few e
          judged false u e late =
              let failed = e ∙ ap (λ r. s.ran ++ r) (failures-snoc command attempt) in
              let slept = keeps.sleeps phase_apply_backoff u.world in
              elim (Bool-cases
                (leb bundle_apply_deadline (elapsed o (o.now s.world) u + phase_apply_backoff))) [
                  | inl up ↦ rw up (gave_up (suc attempt) u (omega arith) (ground arith) failed)
                  | inr early ↦ rw early (
                      next (rest_for o phase_apply_backoff u) (record {
                        few = ground arith;
                        enough = omega arith;
                        late = omega arith;
                        failed = failed;
                      }))
                ]

          answered :
              (out : Option Output) (u : Session W)
              → u.ran ≡ s.ran ++ (failures command attempt ++ ((command, succeeded out) ∷ []))
              → o.now s.world + attempt * phase_apply_backoff ≤ o.now u.world
              → Tried (
                  continue
                    (success_of {E = E} command out u).0
                    (after_attempt o (o.now s.world) bundle command (suc attempt) again)
                    (success_of {E = E} command out u).1)
          answered none u e late = not_started attempt u few e
          answered (some r) u e late = judged r.status_ok u e late

      retry-Tried :
          (fuel attempt : ℕ) (u : Session W)
          → Begun fuel attempt u
          → Tried (retry o (o.now s.world) bundle command fuel attempt u)
      unfolding retry
      retry-Tried zero attempt u begun =
          absurd (let few = begun.few in let enough = begun.enough in omega arith)
      retry-Tried (suc fuel) attempt u begun =
          let spawned = keeps.spawns command u.world in
          let late = begun.late in
          answered fuel attempt begun.few begun.enough
            (retry o (o.now s.world) bundle command fuel (suc attempt))
            (λ u begun. retry-Tried fuel (suc attempt) u begun) (o.spawn command u.world).0
            (record {
              world = (o.spawn command u.world).1;
              ran = u.ran ++ ((command, succeeded (o.spawn command u.world).0) ∷ []);
            })
            (one_more attempt (succeeded (o.spawn command u.world).0) u.ran begun.failed)
            (omega arith)

  -- With a clock that does not run back, fuel for 30 attempts is enough to apply a bundle: at most 30
  -- are made, each after the others failed. The run returns after an attempt that succeeds, and gives
  -- up no sooner than after 174 seconds, with the number of the attempts made and the time they took;
  -- it also ends where kubectl cannot be started.
  pub apply_bundle_with_retry-Tried :
      (fuel : ℕ) (context field_manager bundle dir : String) (s : Session W)
      → KeepsTime
      → 30 ≤ fuel
      → Tried bundle
          (apply_args o context field_manager dir)
          s
          (apply_bundle_with_retry o fuel context field_manager bundle dir false s)
  unfolding apply_bundle_with_retry
  apply_bundle_with_retry-Tried fuel context field_manager bundle dir s keeps enough =
      retry-Tried bundle (apply_args o context field_manager dir) s keeps fuel 0 s (record {
        few = omega arith;
        enough = omega arith;
        late = omega arith;
        failed = sym (append-nil s.ran);
      })
