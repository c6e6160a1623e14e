-- ===== src/Managed/Differs.antt =====
-- Where plan/steps/delete_managed_resource.rs and plan/steps/wait_for_cluster_gone.rs under cli/src
-- disagree on whether a resource is gone.
use catallaxy.Prelude.{
  ℕ, ◌+◌, ◌<◌, ◌≡◌, ◌≢◌, refl, sym, ◌∙◌, true, false, Option, some, List, String, zero, suc, ltb,
  arith,
}
use catallaxy.Managed.{poll_from, poll_while_time_remains, Kubectl, KeepsTime, is_blank}
use catallaxy.Managed.Wait
use catallaxy.Managed.Wait.{Outcome, gone, still_present, cannot_tell, answer_of}
use catallaxy.Managed.Delete
use catallaxy.Managed.Evidence.{Told, proved, untold, poll_until_gone-Told}

module _ {W V : Type 0} (k : Kubectl W V) (time : KeepsTime k) (kube_ctx kind name : String) where
  -- Every run of kubectl for its output fails, and prints nothing to it.
  abbrev pub FailsSilently : Type 0
  FailsSilently =
      (args : List String) (w : W)
      → (k.output kube_ctx args w).0 ≡ some (record { success = false; stdout = "" })

  Told-untold :
      (start : W) (deadline : ℕ) (r : Option (Outcome × W))
      → FailsSilently
      → Told k time kube_ctx kind name start deadline r
      → (o : Outcome) × (w : W) × (r ≡ some (o, w)) × (o ≢ gone)
  Told-untold start deadline _ fails (untold o w waited other up) = (o, w, refl, other)
  Told-untold start deadline _ fails (proved w waited proof) =
      let same : some (record { success = false; stdout = "" }) ≡ some proof.got =
        sym (fails (Wait.get_args kind name) w) ∙ proof.ran in
      absurd (cc (same, proof.success))

  deceived :
      (fuel timeout_secs : ℕ) (w : W)
      → FailsSilently
      → 0 < timeout_secs
      → 0 < fuel
      → Delete.poll_until_gone k kube_ctx kind name fuel timeout_secs w
        ≡ some (true, (k.output kube_ctx (Delete.get_args kind name) w).1)
  unfolding Delete.poll_until_gone poll_while_time_remains poll_from Delete.probe is_blank
  deceived (suc fuel) timeout_secs w fails some_time h =
      let early : ltb (k.now w) (k.now w + timeout_secs) ≡ true = ground arith in
      rw (
        early,
        fails (Delete.get_args kind name) w,
        Delete.poll_until_gone,
        Delete.probe,
        poll_while_time_remains,
        poll_from,
      )
  deceived zero timeout_secs w fails some_time h = absurd (omega arith)

  -- While every get of kubectl fails and prints nothing, the poll of the delete step says at once
  -- that the resource is gone, and the poll of the step that waits does not, for any timeout that
  -- is not zero.
  pub poll_until_gone-Differs :
      (fuel timeout_secs : ℕ) (w : W)
      → FailsSilently
      → 0 < timeout_secs
      → timeout_secs < fuel
      → (Delete.poll_until_gone k kube_ctx kind name fuel timeout_secs w
          ≡ some (true, (k.output kube_ctx (Delete.get_args kind name) w).1))
        × ((o : Outcome) × (w' : W) × (Wait.poll_until_gone k kube_ctx kind name fuel timeout_secs w
              ≡ some (o, w'))
            × (o ≢ gone))
  poll_until_gone-Differs fuel timeout_secs w fails some_time enough = (
    deceived fuel timeout_secs w fails some_time (omega arith),
    Told-untold w (k.now w + timeout_secs) _ fails
        (poll_until_gone-Told k time kube_ctx kind name fuel timeout_secs w enough),
  )
