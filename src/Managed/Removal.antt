-- ===== src/Managed/Removal.antt =====
-- How the step of cli/src/plan/steps/delete_managed_resource.rs ends.
use catallaxy.Prelude.{
  ℕ, ◌+◌, ◌<◌, ◌≡◌, refl, ap, Bool, true, false, ◌⊎◌, Option, none, some, List, [], ◌∷◌, ◌++◌,
  String, ◌<>◌, is_empty, is_nil, arith, Bool-cases, Option-cases, inl, inr, if◌then◌else◌,
}
use catallaxy.Teardown.{StepFailure}
use catallaxy.Executor.{Machine}
use catallaxy.Plan.Params.{DeleteManagedResourceParams}
use catallaxy.Managed.{
  Polled, answered, gave_up, out_of_fuel, Output, Exit, exited, not_run, Kubectl, KeepsTime, Json,
  unwrap_or, is_blank, managed_state_of, is_deletable,
}
use catallaxy.Managed.Poll.{Keeps, Ended, probed, timed_out, poll_while_time_remains-Ended}
use catallaxy.Managed.Delete.{
  get_args, judge, probe, poll_until_gone, delete_args, issue_delete, report_missing_cr, await_gone,
  delete_found, run_reachable, run,
}

judge-blank :
    (out : Option Output)
    → judge out ≡ some tt
    → (o : Output) × (out ≡ some o) × (is_blank o.stdout ≡ true)
judge-blank none h = absurd (cc)
judge-blank (some o) h = (o, refl, ground arith)

is_nil-eq : {A : Type 0} (xs : List A) → is_nil xs ≡ true → xs ≡ []
is_nil-eq [] h = refl
is_nil-eq (x ∷ xs) h = absurd (cc)

module _ {W V : Type 0} (k : Kubectl W V) (time : KeepsTime k) (kube_ctx kind name : String) where
  -- A get that printed nothing but blanks; whether it succeeded is left open.
  abbrev pub BlankGet : Type 0
  BlankGet =
      (w : W) × (o : Output) × ((k.output kube_ctx (get_args kind name) w).0 ≡ some o)
      × (is_blank o.stdout ≡ true)

  abbrev OneMore : Machine W → Machine W → Type 0
  OneMore m m' = (f : StepFailure) × (m'.failures ≡ m.failures ++ (f ∷ []))

  keeps : Keeps k.now k.sleep (probe k kube_ctx kind name) (λ s. Unit)
  unfolding probe
  keeps = record {
    sleeps = λ n s. time.sleeps n s;
    probes = λ s. time.outputs kube_ctx (get_args kind name) s;
    asked = λ s inv h. tt;
    slept = λ n s inv. tt;
  }

  -- The poll ends, and `true` is the answer to a blank get.
  abbrev Answers : Option (Bool × W) → Type 0
  Answers r = (b : Bool) × (w : W) × (r ≡ some (b, w)) × (b ≡ true → BlankGet)

  Ended-Answers :
      (started deadline : ℕ) (r : Polled W (Unit {0}))
      → Ended k.now k.sleep (probe k kube_ctx kind name) (λ s. Unit) started deadline r
      → Answers (elim r [
        | answered _ w' ↦ some (true, w')
        | gave_up w' ↦ some (false, w')
        | out_of_fuel ↦ none
      ])
  unfolding probe
  Ended-Answers started deadline _ (timed_out s up inv) = (false, s, refl, λ h. absurd (cc))
  Ended-Answers started deadline _ (probed s a s' from before e inv) =
      let (o, ran, blank) =
        judge-blank (k.output kube_ctx (get_args kind name) s).0 (ap (λ r. r.0) e) in
      (true, s', refl, λ h. (s, o, ran, blank))

  poll_until_gone-Answers :
      (fuel timeout_secs : ℕ) (w : W)
      → timeout_secs < fuel
      → Answers (poll_until_gone k kube_ctx kind name fuel timeout_secs w)
  unfolding poll_until_gone
  poll_until_gone-Answers fuel timeout_secs w enough =
      Ended-Answers (k.now w) (k.now w + timeout_secs) _ (
        poll_while_time_remains-Ended k.now k.sleep (probe k kube_ctx kind name) (λ s. Unit) fuel
          timeout_secs 20 w keeps (omega arith) enough tt)

  -- What is known after the delete was accepted and, if asked for, awaited.
  abbrev Awaited : Bool → Machine W → Option (Machine W) → Type 0
  Awaited wait m r =
      (m' : Machine W) × (r ≡ some m')
      × (OneMore m m' ⊎ ((m'.failures ≡ m.failures) × (wait ≡ true → BlankGet)))

  await_gone-Awaited :
      (fuel : ℕ) (wait : Bool) (timeout_secs : ℕ) (m : Machine W)
      → timeout_secs < fuel
      → Awaited wait m (await_gone k kube_ctx kind name fuel wait timeout_secs m)
  unfolding await_gone
  await_gone-Awaited fuel false timeout_secs m enough = (m, refl, inr (refl, λ h. absurd (cc)))
  await_gone-Awaited fuel true timeout_secs m enough =
      let (b, w, e, blank) = poll_until_gone-Answers fuel timeout_secs m.world enough in
      elim (Bool-cases b) [
        | inl yes_gone ↦ rw (e, yes_gone, await_gone) (_, refl, inr (refl, λ h. blank yes_gone))
        | inr left ↦ rw (e, left, await_gone) (_, refl, inl (_, refl))
      ]

  module _ (json : Json V) (wait : Bool) where
    -- Why the step recorded no failure.
    pub data Reason : Type 0 where
      -- Reading the resource gave none, and listing its kind gave none.
      nothing_there :
          (w w' : W)
          → (k.resource_json kube_ctx (kind <> ("/" <> name)) w).0 ≡ none
          → (k.list_all_of_kind kube_ctx kind w').0 ≡ []
          → Reason
      -- The resource was deletable and kubectl accepted the delete; where the step waits, a get
      -- printed nothing but blanks.
      deleted :
          (cr : V) (w w' : W) (code : String)
          → (k.resource_json kube_ctx (kind <> ("/" <> name)) w).0 ≡ some cr
          → is_deletable (managed_state_of json cr) ≡ true
          → (k.status kube_ctx (delete_args k kube_ctx kind name wait) w').0 ≡ exited true code
          → (wait ≡ true → BlankGet)
          → Reason

    -- The step ends: with one failure more, or with none and a reason.
    abbrev pub Ends : Machine W → Option (Machine W) → Type 0
    Ends m r =
        (m' : Machine W) × (r ≡ some m') × (OneMore m m' ⊎ ((m'.failures ≡ m.failures) × Reason))

    -- The case on the exit of kubectl in `delete_found`.
    after_exit :
        (fuel timeout_secs : ℕ) (cr : V) (w : W) (m : Machine W)
        → timeout_secs < fuel
        → (k.resource_json kube_ctx (kind <> ("/" <> name)) w).0 ≡ some cr
        → is_deletable (managed_state_of json cr) ≡ true
        → (exit : Exit)
        → (k.status kube_ctx (delete_args k kube_ctx kind name wait) m.world).0 ≡ exit
        → Ends m (
            if (issue_delete k kube_ctx kind name wait m).0
            then await_gone k kube_ctx kind name fuel wait timeout_secs
                (issue_delete k kube_ctx kind name wait m).1
            else some (issue_delete k kube_ctx kind name wait m).1)
    unfolding issue_delete
    after_exit fuel timeout_secs cr w m enough found safe (exited true code) e =
        let w' = (k.status kube_ctx (delete_args k kube_ctx kind name wait) m.world).1 in
        let (m', ran, end) =
          await_gone-Awaited fuel wait timeout_secs (record m { world = w' }) enough in
        rw (e, issue_delete)
          (
            m',
            ran,
            elim end [
              | inl more ↦ inl more
              | inr (same, blank) ↦ inr (same, deleted cr w m.world code found safe e blank)
            ],
          )
    after_exit fuel timeout_secs cr w m enough found safe (exited false code) e =
        rw (e, issue_delete) (_, refl, inl (_, refl))
    after_exit fuel timeout_secs cr w m enough found safe (not_run text) e =
        rw (e, issue_delete) (_, refl, inl (_, refl))

    delete_found-Ends :
        (fuel timeout_secs : ℕ) (cr : V) (w : W) (m : Machine W)
        → timeout_secs < fuel
        → (k.resource_json kube_ctx (kind <> ("/" <> name)) w).0 ≡ some cr
        → Ends m (delete_found k kube_ctx kind name json fuel wait timeout_secs cr m)
    unfolding delete_found issue_delete
    delete_found-Ends fuel timeout_secs cr w m enough found =
        elim (Bool-cases (is_deletable (managed_state_of json cr))) [
          | inr unsafe ↦ rw (unsafe, delete_found) (_, refl, inl (_, refl))
          | inl safe ↦
              rw (safe, delete_found)
                (after_exit fuel timeout_secs cr w m enough found safe
                  (k.status kube_ctx (delete_args k kube_ctx kind name wait) m.world).0 refl)
        ]

    report_missing_cr-Ends :
        (w : W) (m : Machine W)
        → (k.resource_json kube_ctx (kind <> ("/" <> name)) w).0 ≡ none
        → Ends m (some (report_missing_cr k kube_ctx kind name m))
    unfolding report_missing_cr
    report_missing_cr-Ends w m missing =
        elim (Bool-cases (is_nil (k.list_all_of_kind kube_ctx kind m.world).0)) [
          | inl none_left ↦
              rw (none_left, report_missing_cr)
                (_, refl, inr (refl, nothing_there w m.world missing (is_nil-eq _ none_left)))
          | inr others ↦ rw (others, report_missing_cr) (_, refl, inl (_, refl))
        ]

module _ {W V : Type 0} (k : Kubectl W V) (time : KeepsTime k) (json : Json V) where
  run_reachable-Ends :
      (kube_ctx kind name : String) (fuel : ℕ) (wait : Bool) (timeout_secs : ℕ) (m : Machine W)
      → timeout_secs < fuel
      → Ends k time kube_ctx kind name json wait m
          (run_reachable k json kube_ctx kind name fuel wait timeout_secs m)
  unfolding run_reachable
  run_reachable-Ends kube_ctx kind name fuel wait timeout_secs m enough =
      let m' : Machine W = record m {
        world = (k.resource_json kube_ctx (kind <> ("/" <> name)) m.world).1;
      } in
      elim (Option-cases (k.resource_json kube_ctx (kind <> ("/" <> name)) m.world).0) [
        | inl missing ↦
            rw (missing, run_reachable)
              (report_missing_cr-Ends k time kube_ctx kind name json wait m.world m' missing)
        | inr (cr, found) ↦
            rw (found, run_reachable)
              (delete_found-Ends k time kube_ctx kind name json wait fuel timeout_secs cr m.world m'
                enough found)
      ]

  -- With more fuel than the timeout, which is 1200 seconds by default, the step that deletes a
  -- managed resource ends, and it records one failure or none. It records none only if reading the
  -- resource and listing its kind both gave nothing, or if the resource has an external name and a
  -- finalizer of Crossplane, kubectl accepted its deletion, and, unless the step does not wait, a
  -- get of kubectl printed nothing but blanks.
  pub run-Removes :
      (fuel : ℕ) (p : DeleteManagedResourceParams) (m : Machine W)
      → unwrap_or p.wait_timeout_seconds 1200 < fuel
      → Ends k time
          (unwrap_or p.kube_context p.target)
          p.resource_kind
          p.resource_name
          json
          (unwrap_or p.wait true)
          m
          (run k json fuel p m)
  unfolding run
  run-Removes fuel p m enough =
      let kube_ctx = unwrap_or p.kube_context p.target in
      elim (Bool-cases (is_empty p.resource_kind)) [
        | inl nothing ↦ rw (nothing, run) (_, refl, inl (_, refl))
        | inr named ↦ elim (Bool-cases (k.api_reachable kube_ctx m.world).0) [
          | inr down ↦ rw (named, down, run) (_, refl, inl (_, refl))
          | inl up ↦
              rw (named, up, run)
                (run_reachable-Ends kube_ctx p.resource_kind p.resource_name fuel
                  (unwrap_or p.wait true) (unwrap_or p.wait_timeout_seconds 1200)
                  (record m { world = (k.api_reachable kube_ctx m.world).1 }) enough)
        ]
      ]
