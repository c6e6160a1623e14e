-- ===== src/Ssa/Awaited.antt =====
-- A wait of cli/src/io/ssa/mod.rs that returns has seen each workload ready, and each probe succeed.
use catallaxy.Prelude.{
  ◌≡◌, refl, ap, ◌∙◌, subst, Bool, true, false, Option, List, [], ◌∷◌, String, All, arith,
  Bool-cases, inl, inr, is_nil, length, or_else, sym, none, some, is_empty, trim, some-injective,
}
use mathlib.Core.List.{Memᴰ}
use catallaxy.Ssa.{Outside, Output, ok, Run, Session, pure, ◌>>=◌, output, succeeded, stalled}
use catallaxy.Ssa.Workloads
use catallaxy.Ssa.Workloads.{
  Target, Readiness, readiness_for, in_namespace, slashed, rollout_args, replicas_args,
  condition_args, targets_under, wait_args, args_of, args_of_rollout, and_stalled, wait_each,
  all_ready, wait_all, wait_workloads_ready, updates_on_delete, desired_replicas, read_replicas,
}
use catallaxy.Ssa.Up.{
  IsWait, reached, rolled_out, replicated, IsAwaited, IsWanted, printed, not_printed,
  replicas_answer,
}
use catallaxy.Ssa.Harmless.{wait_each-Safe}
use catallaxy.Ssa.Commands.{IsHarmless}
use catallaxy.Ssa.Only.{Only, Only-mono}
use catallaxy.Ssa.Returns.{
  GoesOn, Grows, Seen-later, bind-ok, pure-ok, ensure-ok, grows_on, output-ok,
}

pub grow : {E W A : Type 0} (m : Run E W A) → Only IsHarmless m → Grows m
grow m h = Only-mono IsHarmless _ m (λ c x. tt) h

module _ {J Y E W : Type 0} (o : Outside J Y E W) (context within : String) where
  read_replicas-IsWanted :
      (t : Target) (w : W) (out : Option Output)
      → replicas_answer o context within t w ≡ out
      → IsWanted o context within t (or_else (read_replicas o out) "1")
  unfolding trim
  read_replicas-IsWanted t w none e =
      not_printed w (λ r same. absurd (let no : none ≡ some r = sym e ∙ same in cc))
  read_replicas-IsWanted t w (some r) e = elim (Bool-cases r.status_ok) [
    | inr failed ↦ rw failed (
        not_printed w
          (λ q same done. absurd (let is : r ≡ q = some-injective (sym e ∙ same) in cc)))
    | inl done ↦ elim (Bool-cases (is_empty (trim r.stdout))) [
      | inr text ↦ rw (done, text) (printed r w e done text)
      | inl blank ↦
          rw (done, blank)
            (not_printed w (λ q same _.
              subst (λ x. is_empty (trim x.stdout) ≡ true) (some-injective (sym e ∙ same)) blank))
    ]
  ]

  desired_replicas-ok :
      (t : Target) (s u : Session W) (want : Option String)
      → desired_replicas o context t s ≡ (ok want, u)
      → read_replicas o (replicas_answer o context within t s.world) ≡ want
  unfolding desired_replicas
  desired_replicas-ok t s u want e =
      let told : ok (read_replicas o (replicas_answer o context within t s.world)) ≡ ok want =
        ap (λ x. x.0) e in
      cc

  args_of_rollout-ok :
      (t : Target) (on_delete : Bool) (args : List String) (s s' : Session W)
      → readiness_for t.kind ≡ Workloads.rollout
      → args_of_rollout o context within t on_delete s ≡ (ok args, s')
      → IsWait o context within t (in_namespace o context t args)
  args_of_rollout-ok t true args s s' r h =
      let (want, u, e, h') = bind-ok (desired_replicas o context t) _ s args s' h in
      let read = desired_replicas-ok t s u want e in
      subst (λ a. IsWait o context within t (in_namespace o context t a))
        (pure-ok (replicas_args (or_else want "1") (slashed o t) within) args u s' h').0
        (replicated (or_else want "1")
          (subst (λ x. IsWanted o context within t (or_else x "1")) read
            (read_replicas-IsWanted t s.world (replicas_answer o context within t s.world) refl))
          r)
  args_of_rollout-ok t false args s s' r h =
      subst (λ a. IsWait o context within t (in_namespace o context t a))
        (pure-ok (rollout_args (slashed o t) within) args s s' h).0 (rolled_out r)

  args_of-ok :
      (t : Target) (r : Readiness) (args : List String) (s s' : Session W)
      → readiness_for t.kind ≡ r
      → args_of o context within t r s ≡ (ok args, s')
      → IsWait o context within t (in_namespace o context t args)
  args_of-ok t (Workloads.condition c) args s s' r h =
      subst (λ a. IsWait o context within t (in_namespace o context t a))
        (pure-ok (condition_args c (slashed o t) within) args s s' h).0 (reached c r)
  args_of-ok t Workloads.rollout args s s' r h =
      let (on_delete, u, e, h') =
        bind-ok (updates_on_delete o context t) (args_of_rollout o context within t) s args s' h in
      args_of_rollout-ok t on_delete args u s' r h'

  pub later :
      (t : Target) (s s' : Session W)
      → GoesOn s s'
      → IsAwaited o context within t s
      → IsAwaited o context within t s'
  later t s s' g (c, w, seen) = (c, w, Seen-later c s s' g seen)

  and_stalled-nil :
      (t : Target) (out : Option Output) (rest : List String)
      → is_nil (and_stalled o t out rest) ≡ true
      → (succeeded out ≡ true) × (is_nil rest ≡ true)
  and_stalled-nil t out rest h = elim (Bool-cases (succeeded out)) [
    | inl done ↦ (done, ground (arith))
    | inr failed ↦ absurd (ground arith)
  ]

  wait_each-ok :
      (ts : List Target) (names : List String) (s s' : Session W)
      → wait_each o context within ts s ≡ (ok names, s')
      → is_nil names ≡ true
      → All (λ t. IsAwaited o context within t s') ts
  unfolding wait_each wait_args
  wait_each-ok [] names s s' h none_left = tt
  wait_each-ok (t ∷ ts) names s s' h none_left =
      let rest_of : Option Output → Run E W (List String) =
        λ out. wait_each o context within ts >>= λ rest. pure (and_stalled o t out rest) in
      let asked : List String → Run E W (List String) =
        λ args. output o (in_namespace o context t args) >>= rest_of in
      let (args, s1, e1, h1) =
        bind-ok (args_of o context within t (readiness_for t.kind)) asked s names s' h in
      let (out, s2, e2, h2) =
        bind-ok (output o (in_namespace o context t args)) rest_of s1 names s' h1 in
      let (rest, s3, e3, h3) =
        bind-ok (wait_each o context within ts) (λ rest. pure (and_stalled o t out rest)) s2 names
          s' h2 in
      let (here, same) = pure-ok (and_stalled o t out rest) names s3 s' h3 in
      let (done, nil) = and_stalled-nil t out rest (ap is_nil here ∙ none_left) in
      let now : IsAwaited o context within t s2 = (
        in_namespace o context t args,
        args_of-ok t (readiness_for t.kind) args s s1 refl e1,
        subst (λ b. Memᴰ (in_namespace o context t args, b) s2.ran) done
            (output-ok o (in_namespace o context t args) s1 s2 out e2),
      ) in
      let after =
        grows_on (wait_each o context within ts) s2 s3 (ok rest)
          (grow _ (wait_each-Safe o context within ts)) e3 in
      subst (λ u. All (λ t. IsAwaited o context within t u) (t ∷ ts)) same
        (later t s2 s3 after now, wait_each-ok ts rest s2 s3 e3 nil)

  wait_all-ok :
      (ts : List Target) (s s' : Session W)
      → wait_all o context within ts s ≡ (ok tt, s')
      → All (λ t. IsAwaited o context within t s') ts
  wait_all-ok [] s s' h = tt
  wait_all-ok (t ∷ ts) s s' h =
      let (names, s1, e, h1) =
        bind-ok (wait_each o context within (t ∷ ts)) (all_ready o (length (t ∷ ts))) s tt s' h in
      let (nil, same) = ensure-ok (is_nil names) (stalled names (length (t ∷ ts))) s1 s' h1 in
      subst (λ u. All (λ t. IsAwaited o context within t u) (t ∷ ts)) same
        (wait_each-ok (t ∷ ts) names s s1 e nil)

  -- A wait for the workloads below a directory that returns has seen each of them ready.
  pub wait_workloads_ready-ok :
      (dir : String) (s s' : Session W)
      → wait_workloads_ready o context dir within s ≡ (ok tt, s')
      → All (λ t. IsAwaited o context within t s') (targets_under o dir)
  unfolding wait_workloads_ready
  wait_workloads_ready-ok dir s s' h = wait_all-ok (targets_under o dir) s s' h
