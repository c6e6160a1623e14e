-- ===== src/Release/Actions.antt =====
-- When one step of the wait (`advance` of release_cluster_cloud_resources.rs) takes each action.
use catallaxy.Prelude.{
  ℕ, ◌+◌, ◌-◌, ◌≤◌, ◌≡◌, refl, Bool, true, false, Option, none, some, List, [], ◌∷◌, ◌++◌, arith,
  Bool-cases, inl, inr, if◌then◌else◌, any, ap, sym, ◌∙◌, ◌||◌,
}
use catallaxy.Release.{
  Observation, ReleaseState, Action, released, dump_diagnostics, strip_finalizers, advance,
  advance_present, note_counts, progress, diagnose, unstick, everything_gone, only_namespaces_left,
  counts, stuck_from,
}

abbrev pub is_released : Action → Bool
is_released released = true
is_released _ = false

abbrev pub is_strip : Action → Bool
is_strip strip_finalizers = true
is_strip _ = false

abbrev pub is_dump : Action → Bool
is_dump dump_diagnostics = true
is_dump _ = false

abbrev pub one_if : Bool → ℕ
one_if true = 1
one_if false = 0

abbrev pub count : (Action → Bool) → List Action → ℕ
count p [] = 0
count p (a ∷ more) = one_if (p a) + count p more

pub count-append :
    (p : Action → Bool) (xs ys : List Action) → count p (xs ++ ys) ≡ count p xs + count p ys
count-append p [] ys = omega arith
count-append p (x ∷ xs) ys = omega (arith, count-append p xs ys)

-- What the parts of `advance` before the last leave to it.
record KeepsStuck (s s' : ReleaseState) : Type 0 where
  stuck : s'.stuck_since ≡ s.stuck_since
  done : s'.finalizer_strip_done ≡ s.finalizer_strip_done

module _ (obs : Observation) (t : ℕ) where
  note_counts-keeps : (s : ReleaseState) → KeepsStuck s (note_counts obs t s)
  unfolding note_counts
  note_counts-keeps s = ground arith

  progress-keeps : (s : ReleaseState) → KeepsStuck s (progress obs t s).0
  unfolding progress
  progress-keeps s = ground arith

  diagnose-keeps : (s : ReleaseState) → KeepsStuck s (diagnose obs t s).0
  unfolding diagnose
  diagnose-keeps s = ground arith

  -- The state that reaches the last part.
  abbrev before_unstick : ReleaseState → ReleaseState
  before_unstick s = (diagnose obs t (progress obs t (note_counts obs t s)).0).0

  before_unstick-keeps : (s : ReleaseState) → KeepsStuck s (before_unstick s)
  before_unstick-keeps s =
      let a = note_counts-keeps s in
      let b = progress-keeps (note_counts obs t s) in
      let c = diagnose-keeps (progress obs t (note_counts obs t s)).0 in
      record { stuck = cc (a.stuck, b.stuck, c.stuck); done = cc (a.done, b.done, c.done) }

  -- The actions of the first two parts.
  abbrev early : ReleaseState → List Action
  early s =
      (progress obs t (note_counts obs t s)).1
      ++ (diagnose obs t (progress obs t (note_counts obs t s)).0).1

  early-count_strip : (s : ReleaseState) → count is_strip (early s) ≡ 0
  unfolding progress diagnose
  early-count_strip s = ground arith

  unstick-count_strip :
      (s : ReleaseState)
      → let r = unstick obs t s in
        count is_strip r.1 + one_if s.finalizer_strip_done ≡ one_if r.0.finalizer_strip_done
  unfolding unstick
  unstick-count_strip s = ground arith

  -- Why the last part strips finalizers.
  record StripsAt (s : ReleaseState) : Type 0 where
    pub only_left : only_namespaces_left obs ≡ true
    pub first : s.finalizer_strip_done ≡ false
    pub waited : 60 ≤ t - stuck_from obs t s

  unstick-StripsAt : (s : ReleaseState) → any is_strip (unstick obs t s).1 ≡ true → StripsAt s
  unfolding unstick
  unstick-StripsAt s h = ground arith

  unstick-stuck_since :
      (s : ReleaseState)
      → (unstick obs t s).0.stuck_since
        ≡ (if only_namespaces_left obs then some (stuck_from obs t s) else s.stuck_since)
  unfolding unstick
  unstick-stuck_since s = ground arith

  advance_present-count_strip :
      (s : ReleaseState)
      → let r = advance_present obs t s in
        count is_strip r.1 + one_if s.finalizer_strip_done ≡ one_if r.0.finalizer_strip_done
  unfolding advance_present
  advance_present-count_strip s =
      let b = before_unstick s in
      let k = before_unstick-keeps s in
      let p = (progress obs t (note_counts obs t s)).1 in
      let d = (diagnose obs t (progress obs t (note_counts obs t s)).0).1 in
      omega (
        arith,
        count-append is_strip p (d ++ (unstick obs t b).1),
        count-append is_strip d (unstick obs t b).1,
        count-append is_strip p d,
        early-count_strip s,
        unstick-count_strip b,
        ap one_if k.done,
      )

-- The finalizers are stripped by a step at most once, and only if no earlier step did.
pub advance-count_strip :
    (s : ReleaseState) (o : Option Observation) (t : ℕ)
    → let r = advance s o t in
      count is_strip r.1 + one_if s.finalizer_strip_done ≡ one_if r.0.finalizer_strip_done
unfolding advance
advance-count_strip s none t = omega arith
advance-count_strip s (some obs) t = elim (Bool-cases (everything_gone obs)) [
  | inl gone ↦ rw (gone, advance) (omega arith)
  | inr left ↦ rw (left, advance) (advance_present-count_strip obs t s)
]

any-append : (p : Action → Bool) (xs ys : List Action) → any p (xs ++ ys) ≡ (any p xs || any p ys)
any-append p [] ys = refl
any-append p (x ∷ xs) ys = ground (arith, any-append p xs ys)

module _ (obs : Observation) (t : ℕ) (s : ReleaseState) where
  early-any_strip : any is_strip (early obs t s) ≡ false
  unfolding progress diagnose
  early-any_strip = ground arith

  advance_present-any_strip :
      any is_strip (advance_present obs t s).1
      ≡ any is_strip (unstick obs t (before_unstick obs t s)).1
  unfolding advance_present
  advance_present-any_strip =
      let p = (progress obs t (note_counts obs t s)).1 in
      let d = (diagnose obs t (progress obs t (note_counts obs t s)).0).1 in
      let u = (unstick obs t (before_unstick obs t s)).1 in
      ground (
        arith,
        any-append is_strip p (d ++ u),
        any-append is_strip d u,
        any-append is_strip p d,
        early-any_strip,
      )

  -- Why a look at the cluster makes a step strip the finalizers.
  pub record StripReason : Type 0 where
    pub only_left : only_namespaces_left obs ≡ true
    pub waited : 60 ≤ t - stuck_from obs t s

  advance_present-StripReason : any is_strip (advance_present obs t s).1 ≡ true → StripReason
  advance_present-StripReason h =
      let why =
        unstick-StripsAt obs t (before_unstick obs t s) (sym advance_present-any_strip ∙ h) in
      let keeps = before_unstick-keeps obs t s in
      record { only_left = why.only_left; waited = ground arith }

  pub advance-StripReason : any is_strip (advance s (some obs) t).1 ≡ true → StripReason
  unfolding advance
  advance-StripReason h = elim (Bool-cases (everything_gone obs)) [
    | inl gone ↦ absurd (cc (rw (gone, advance) at h))
    | inr left ↦ advance_present-StripReason (rw (left, advance) at h)
  ]

  pub advance_present-stuck_since :
      (advance_present obs t s).0.stuck_since
      ≡ (if only_namespaces_left obs then some (stuck_from obs t s) else s.stuck_since)
  unfolding advance_present
  advance_present-stuck_since =
      unstick-stuck_since obs t (before_unstick obs t s)
      ∙ ground (arith, before_unstick-keeps obs t s)

  -- What the parts after the first leave of its account of the counts.
  pub advance_present-stall :
      let s' = (advance_present obs t s).0 in
      (s'.stall_since ≡ (note_counts obs t s).stall_since) × (s'.last_counts ≡ some (counts obs))
  unfolding advance_present note_counts progress diagnose unstick
  advance_present-stall = ground arith

  -- Why a look at the cluster makes a step dump the diagnostics.
  pub record DumpReason : Type 0 where
    pub since : ℕ
    pub stalled_from : (note_counts obs t s).stall_since ≡ some since
    pub waited : 45 ≤ t - since

  diagnose-DumpReason :
      (s₁ : ReleaseState)
      → s₁.stall_since ≡ (note_counts obs t s).stall_since
      → any is_dump (diagnose obs t s₁).1 ≡ true
      → DumpReason
  unfolding diagnose
  diagnose-DumpReason s₁ e h = ground arith

  progress-any_dump : (s₁ : ReleaseState) → any is_dump (progress obs t s₁).1 ≡ false
  unfolding progress
  progress-any_dump s₁ = ground arith

  unstick-any_dump : (s₁ : ReleaseState) → any is_dump (unstick obs t s₁).1 ≡ false
  unfolding unstick
  unstick-any_dump s₁ = ground arith

  advance_present-any_dump :
      any is_dump (advance_present obs t s).1
      ≡ any is_dump (diagnose obs t (progress obs t (note_counts obs t s)).0).1
  unfolding advance_present
  advance_present-any_dump =
      let p = (progress obs t (note_counts obs t s)).1 in
      let d = (diagnose obs t (progress obs t (note_counts obs t s)).0).1 in
      let u = (unstick obs t (before_unstick obs t s)).1 in
      ground (
        arith,
        any-append is_dump p (d ++ u),
        any-append is_dump d u,
        progress-any_dump (note_counts obs t s),
        unstick-any_dump (before_unstick obs t s),
      )

  progress-stall : (s₁ : ReleaseState) → (progress obs t s₁).0.stall_since ≡ s₁.stall_since
  unfolding progress
  progress-stall s₁ = ground arith

  pub advance-DumpReason : any is_dump (advance s (some obs) t).1 ≡ true → DumpReason
  unfolding advance
  advance-DumpReason h = elim (Bool-cases (everything_gone obs)) [
    | inl gone ↦ absurd (cc (rw (gone, advance) at h))
    | inr left ↦
        diagnose-DumpReason (progress obs t (note_counts obs t s)).0
          (progress-stall (note_counts obs t s))
          (sym advance_present-any_dump ∙ (rw (left, advance) at h))
  ]

module _ (obs : Observation) (t : ℕ) where
  early-any_released : (s : ReleaseState) → any is_released (early obs t s) ≡ false
  unfolding progress diagnose
  early-any_released s = ground arith

  unstick-any_released : (s : ReleaseState) → any is_released (unstick obs t s).1 ≡ false
  unfolding unstick
  unstick-any_released s = ground arith

  advance_present-any_released :
      (s : ReleaseState) → any is_released (advance_present obs t s).1 ≡ false
  unfolding advance_present
  advance_present-any_released s =
      let p = (progress obs t (note_counts obs t s)).1 in
      let d = (diagnose obs t (progress obs t (note_counts obs t s)).0).1 in
      let u = (unstick obs t (before_unstick obs t s)).1 in
      ground (
        arith,
        any-append is_released p (d ++ u),
        any-append is_released d u,
        any-append is_released p d,
        early-any_released s,
        unstick-any_released (before_unstick obs t s),
      )

  -- Only a look that finds everything gone makes a step say that all is released.
  pub advance-any_released :
      (s : ReleaseState) → any is_released (advance s (some obs) t).1 ≡ everything_gone obs
  unfolding advance
  advance-any_released s = elim (Bool-cases (everything_gone obs)) [
    | inl gone ↦ rw (gone, advance)
    | inr left ↦ rw (left, advance) (advance_present-any_released s)
  ]
