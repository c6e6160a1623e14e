-- ===== src/Release/Trace.antt =====
-- A wait for the release of a cluster's cloud resources, as the looks at the cluster that it has
-- taken: what the sequence of actions of release_cluster_cloud_resources.rs can be.
use catallaxy.Prelude.{
  ℕ, ◌+◌, ◌≤◌, ◌≡◌, refl, Bool, true, false, Option, none, some, List, [], ◌∷◌, arith, Bool-cases,
  Option-cases, inl, inr, any, ap, sym, ◌∙◌, subst,
}
use mathlib.Core.List.{Memᴰ}
use catallaxy.Release.{
  Observation, ReleaseState, Action, Counts, advance, initial, everything_gone,
  only_namespaces_left, counts, note_counts, same_counts,
}
use catallaxy.Release.Actions.{
  is_strip, is_dump, count, one_if, advance-count_strip, advance-StripReason, advance-DumpReason,
  advance_present-stuck_since, advance_present-stall,
}

-- A look at the cluster, `none` where it could not be read, and when it was taken.
abbrev pub Look : Type 0
Look = Option Observation × ℕ

-- The state after a history of looks, the latest first, and the actions of the latest.
unfoldable pub state_after : List Look → ReleaseState
state_after [] = initial
state_after ((o, t) ∷ looks) = (advance (state_after looks) o t).0

unfoldable pub actions_after : List Look → List Action
unfolding state_after
actions_after [] = []
actions_after ((o, t) ∷ looks) = (advance (state_after looks) o t).1

-- How many times the actions of a history strip finalizers.
unfoldable pub strips : List Look → ℕ
unfolding actions_after
strips [] = 0
strips (look ∷ looks) = count is_strip (actions_after (look ∷ looks)) + strips looks

strips_lem : (looks : List Look) → strips looks ≡ one_if (state_after looks).finalizer_strip_done
unfolding strips
strips_lem [] = refl
strips_lem ((o, t) ∷ looks) =
    omega (arith, advance-count_strip (state_after looks) o t, strips_lem looks)

one_if-le : (b : Bool) → one_if b ≤ 1
one_if-le true = omega arith
one_if-le false = omega arith

-- However long a wait is and whatever it sees, it strips finalizers at most once.
pub strips-le : (looks : List Look) → strips looks ≤ 1
strips-le looks =
    omega (arith, strips_lem looks, one_if-le (state_after looks).finalizer_strip_done)

-- At the time, a look of the history found namespaces and nothing else.
pub record SawOnlyNamespaces (looks : List Look) (t : ℕ) : Type 0 where
  pub seen : Observation
  pub taken : Memᴰ (some seen, t) looks
  pub only_left : only_namespaces_left seen ≡ true

later :
    {looks : List Look} {t : ℕ} (look : Look)
    → SawOnlyNamespaces looks t
    → SawOnlyNamespaces (look ∷ looks) t
later look saw = record { seen = saw.seen; taken = Memᴰ.tail saw.taken; only_left = saw.only_left }

now :
    {looks : List Look} (obs : Observation) (t : ℕ)
    → only_namespaces_left obs ≡ true
    → SawOnlyNamespaces ((some obs, t) ∷ looks) t
now obs t only = record { seen = obs; taken = Memᴰ.head refl; only_left = only }

stuck_since-SawOnlyNamespaces :
    (looks : List Look) (t : ℕ)
    → (state_after looks).stuck_since ≡ some t
    → SawOnlyNamespaces looks t
unfolding state_after advance
stuck_since-SawOnlyNamespaces [] t h = absurd (cc)
stuck_since-SawOnlyNamespaces ((none, u) ∷ looks) t h =
    later (none, u) (stuck_since-SawOnlyNamespaces looks t h)
stuck_since-SawOnlyNamespaces ((some obs, u) ∷ looks) t h =
    elim (Bool-cases (everything_gone obs)) [
      | inl gone ↦
          later (some obs, u)
            (stuck_since-SawOnlyNamespaces looks t (rw (gone, state_after, advance) at h))
      | inr left ↦
          let since =
            sym (advance_present-stuck_since obs u (state_after looks))
            ∙ (rw (left, state_after, advance) at h) in
          elim (Bool-cases (only_namespaces_left obs)) [
            | inr more ↦
                later (some obs, u) (stuck_since-SawOnlyNamespaces looks t (rw more at since))
            | inl only ↦ elim (Option-cases (state_after looks).stuck_since) [
              | inl fresh ↦
                  let same : u ≡ t = ground (arith, since) in
                  subst (λ x. SawOnlyNamespaces ((some obs, u) ∷ looks) x) same (now obs u only)
              | inr (t', known) ↦
                  let same : t' ≡ t = ground (arith, since) in
                  later (some obs, u) (stuck_since-SawOnlyNamespaces looks t (known ∙ ap some same))
            ]
          ]
    ]

-- A wait strips finalizers only at a look that finds namespaces and nothing else, when a look that
-- found the same was taken at least 60 seconds before.
pub strip-SawOnlyNamespaces :
    (looks : List Look) (obs : Observation) (t : ℕ)
    → any is_strip (actions_after ((some obs, t) ∷ looks)) ≡ true
    → (only_namespaces_left obs ≡ true) × ((t₀ : ℕ) × SawOnlyNamespaces looks t₀ × (t₀ + 60 ≤ t))
unfolding actions_after
strip-SawOnlyNamespaces looks obs t h =
    let why = advance-StripReason obs t (state_after looks) h in
    elim (Option-cases (state_after looks).stuck_since) [
      | inl fresh ↦ absurd (ground (arith, why.waited))
      | inr (t₀, known) ↦ (
        why.only_left,
        (t₀, stuck_since-SawOnlyNamespaces looks t₀ known, ground (arith, why.waited)),
      )
    ]

-- Since a look at the time `t₀` the counts have been `c` at every look that read the cluster and
-- did not find everything gone.
pub data Unchanged (c : Counts) (t₀ : ℕ) : List Look → Type 0 where
  since :
      {looks : List Look} (obs : Observation)
      → counts obs ≡ c
      → Unchanged c t₀ ((some obs, t₀) ∷ looks)
  still :
      {looks : List Look} (obs : Observation) (t : ℕ)
      → counts obs ≡ c
      → Unchanged c t₀ looks
      → Unchanged c t₀ ((some obs, t) ∷ looks)
  gone :
      {looks : List Look} (obs : Observation) (t : ℕ)
      → everything_gone obs ≡ true
      → Unchanged c t₀ looks
      → Unchanged c t₀ ((some obs, t) ∷ looks)
  unread : {looks : List Look} (t : ℕ) → Unchanged c t₀ looks → Unchanged c t₀ ((none, t) ∷ looks)

same_counts-eq : (c d : Counts) → same_counts (some c) d ≡ true → c ≡ d
same_counts-eq c d h = ground arith

-- What the state knows of the counts of a history: nothing, or what they are and since when.
data Stalling (looks : List Look) (s : ReleaseState) : Type 0 where
  fresh : s.last_counts ≡ none → s.stall_since ≡ none → Stalling looks s
  known :
      (c : Counts) (t₀ : ℕ)
      → s.last_counts ≡ some c
      → s.stall_since ≡ some t₀
      → Unchanged c t₀ looks
      → Stalling looks s

-- Since when the counts of a new look have been what they are.
abbrev StallStart : Observation → ℕ → List Look → ReleaseState → Type 0
StallStart obs t looks s =
    (t₀ : ℕ) × ((note_counts obs t s).stall_since ≡ some t₀)
    × Unchanged (counts obs) t₀ ((some obs, t) ∷ looks)

note_counts-new :
    (obs : Observation) (t : ℕ) (looks : List Look) (s : ReleaseState)
    → same_counts s.last_counts (counts obs) ≡ false
    → StallStart obs t looks s
unfolding note_counts
note_counts-new obs t looks s new = (t, rw (new, note_counts), since obs refl)

note_counts-StallStart :
    (obs : Observation) (t : ℕ) (looks : List Look) (s : ReleaseState)
    → Stalling looks s
    → StallStart obs t looks s
unfolding note_counts
note_counts-StallStart obs t looks s (fresh l _) = note_counts-new obs t looks s (rw l)
note_counts-StallStart obs t looks s (known c t₀ l e u) =
    elim (Bool-cases (same_counts s.last_counts (counts obs))) [
      | inr new ↦ note_counts-new obs t looks s new
      | inl same ↦
          let eq = same_counts-eq c (counts obs) (rw l at same) in
          (t₀, rw (same, note_counts) e, still obs t refl (subst (λ d. Unchanged d t₀ looks) eq u))
    ]

Stalling-state_after : (looks : List Look) → Stalling looks (state_after looks)
unfolding state_after advance
Stalling-state_after [] = fresh refl refl
Stalling-state_after ((none, t) ∷ looks) = elim (Stalling-state_after looks) [
  | fresh l e ↦ fresh l e
  | known c t₀ l e u ↦ known c t₀ l e (unread t u)
]
Stalling-state_after ((some obs, t) ∷ looks) = elim (Bool-cases (everything_gone obs)) [
  | inl all ↦
      rw (all, state_after, advance)
        (elim (Stalling-state_after looks) [
          | fresh l e ↦ fresh l e
          | known c t₀ l e u ↦ known c t₀ l e (gone obs t all u)
        ])
  | inr left ↦
      let (t₀, e, u) =
        note_counts-StallStart obs t looks (state_after looks) (Stalling-state_after looks) in
      let (stall, last) = advance_present-stall obs t (state_after looks) in
      rw (left, state_after, advance) (known (counts obs) t₀ last (stall ∙ e) u)
]

-- A wait dumps diagnostics at a look only when, for at least 45 seconds, every look that read the
-- cluster and did not find everything gone found the same counts as this one.
pub dump-Unchanged :
    (looks : List Look) (obs : Observation) (t : ℕ)
    → any is_dump (actions_after ((some obs, t) ∷ looks)) ≡ true
    → (t₀ : ℕ) × Unchanged (counts obs) t₀ ((some obs, t) ∷ looks) × (t₀ + 45 ≤ t)
unfolding actions_after
dump-Unchanged looks obs t h =
    let why = advance-DumpReason obs t (state_after looks) h in
    let (t₀, e, u) =
      note_counts-StallStart obs t looks (state_after looks) (Stalling-state_after looks) in
    (t₀, u, ground (arith, why.waited, why.stalled_from))
