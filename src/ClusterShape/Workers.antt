-- ===== src/ClusterShape/Workers.antt =====
-- The shortcut `workers_to_add` of cli/src/domain/cluster_shape.rs: growing by its answer is enough.
use catallaxy.Prelude.{
  All-Mem, Mem-All, ℕ, ◌+◌, ◌-◌, ◌<◌, ◌≡◌, ◌≢◌, refl, Bool, true, false, not, inl, inr, some, List,
  [], ◌∷◌, sym, ◌==◌, eqb_iff, arith, all, All, Bool-cases, ltb, if◌then◌else◌, subst, ap,
}
use mathlib.Core.List.{Memᴰ}
use catallaxy.ClusterShape.{ClusterShape}
use catallaxy.ClusterShape.Report.{
  Fix, add_workers, add_servers, rebuild_only, new_cluster, Field, is_drifted, is_clean, fix_or_new,
  workers_to_add,
}
use catallaxy.ClusterShape.Compare.{
  texts, compare, compare_with, compare_counts, common_fields, k3d_fields, compare_shapes,
}
use catallaxy.ClusterShape.Fixes.{fixes-Answers, workers_to_add-only}
use catallaxy.ClusterShape.Clean.{IsSettled, is_clean-IsSettled, All-both, number_settled}

abbrev adds_workers : Fix → Bool
adds_workers (add_workers n) = true
adds_workers _ = false

-- If the field drifted, then adding the workers is its fix.
abbrev OnlyAdds : ℕ → Field → Type 0
OnlyAdds n f = is_drifted f.verdict ≡ true → fix_or_new f.fix ≡ add_workers n

only_fix : (fields : List Field) (n : ℕ) → workers_to_add fields ≡ some n → All (OnlyAdds n) fields
only_fix fields n h = All-Mem (OnlyAdds n) fields (λ f m drifts.
    let there =
      (fixes-Answers fields).enough (fix_or_new f.fix)
        (record { field = f; reported = m; drifts = drifts; remedy = refl }) in
    elim (subst (λ xs. Memᴰ (fix_or_new f.fix) xs) (workers_to_add-only fields n h) there) [
      | Memᴰ.head e ↦ e
      | Memᴰ.tail m ↦ elim m [ ]
    ])

not-IsSettled :
    (fields : List Field) (n : ℕ) → workers_to_add fields ≡ some n → ¬ All IsSettled fields
not-IsSettled fields n h s =
    let c = (fixes-Answers fields).needed (add_workers n) (
      subst (λ xs. Memᴰ (add_workers n) xs) (sym (workers_to_add-only fields n h))
        (Memᴰ.head refl)) in
    absurd (cc (Mem-All IsSettled fields c.field s c.reported, c.drifts))

settle : (n : ℕ) (f : Field) → OnlyAdds n f → adds_workers (fix_or_new f.fix) ≡ false → IsSettled f
settle n f only other = elim (Bool-cases (is_drifted f.verdict)) [
  | inr settled ↦ settled
  | inl drifts ↦ absurd (cc (ap adds_workers (only drifts), other))
]

settle_all :
    (n : ℕ) (fields : List Field)
    → All (OnlyAdds n) fields
    → all (λ f. not (adds_workers (fix_or_new f.fix))) fields ≡ true
    → All IsSettled fields
settle_all n [] only other = tt
settle_all n (f ∷ fields) only other =
    (settle n f only.0 (ground arith), settle_all n fields only.1 (ground arith))

adds_servers_only :
    (m k : ℕ) → adds_workers (if ltb k m then add_servers (m - k) else new_cluster) ≡ false
adds_servers_only m k = ground arith

module _ (d r : ClusterShape) (n : ℕ) where
  -- The shape after the workers have been added.
  abbrev pub grown : ClusterShape
  grown = record r { workers = r.workers + n }

  workers_grow :
      OnlyAdds n (compare_counts "cluster.kubernetes.workers" d.workers r.workers add_workers)
      → d.workers ≢ r.workers
      → (d.workers ≡ r.workers + n) × (0 < n)
  workers_grow only differ = ground (arith, eqb_iff d.workers r.workers)

  common_fields-IsSettled :
      (w : ℕ)
      → All (OnlyAdds n) (common_fields d r)
      → d.workers ≡ w
      → All IsSettled (common_fields d (record r { workers = w }))
  unfolding common_fields
  common_fields-IsSettled w (h₁, (h₂, (h₃, (h₄, (h₅, (h₆, (h₇, h₈))))))) e = (
    settle n (compare texts "cluster.provisioner" d.provisioner r.provisioner) h₁ refl,
    (
      settle n
          (compare_counts "cluster.kubernetes.controlPlanes" d.control_planes r.control_planes
            add_servers)
          h₂ (adds_servers_only d.control_planes r.control_planes),
      (
        (number_settled d.workers w).1 e,
        (
          settle n (compare texts "cluster.kubernetes.distribution" d.distribution r.distribution)
              h₄ refl,
          (
            settle n
                (compare_with texts "cluster.kubernetes.version" d.version r.version rebuild_only)
                h₅ refl,
            (
              settle n (compare texts "cluster.network.podSubnet" d.pod_subnet r.pod_subnet) h₆
                  refl,
              (
                settle n
                    (compare texts "cluster.network.serviceSubnet" d.service_subnet
                      r.service_subnet)
                    h₇ refl,
                tt,
              ),
            ),
          ),
        ),
      ),
    ),
  )

  compare_shapes-IsSettled_with :
      (w : ℕ)
      → All (OnlyAdds n) (compare_shapes d r)
      → d.workers ≡ w
      → All IsSettled (compare_shapes d (record r { workers = w }))
  unfolding compare_shapes k3d_fields
  compare_shapes-IsSettled_with w only e = elim (Bool-cases (d.provisioner == "k3d")) [
    | inr other ↦
        rw (other, compare_shapes)
          (common_fields-IsSettled w (rw (other, compare_shapes) at only) e)
    | inl same ↦
        let (common, k3d) =
          (All-both (OnlyAdds n) (common_fields d r) (k3d_fields d r)).0
            (rw (same, compare_shapes) at only) in
        rw (same, compare_shapes)
          ((All-both IsSettled (common_fields d (record r { workers = w }))
              (k3d_fields d (record r { workers = w }))).1
            (common_fields-IsSettled w common e, settle_all n (k3d_fields d r) k3d refl))
  ]

  workers_only :
      All (OnlyAdds n) (compare_shapes d r)
      → OnlyAdds n (compare_counts "cluster.kubernetes.workers" d.workers r.workers add_workers)
  unfolding compare_shapes common_fields
  workers_only only = elim (Bool-cases (d.provisioner == "k3d")) [
    | inr other ↦ (rw (other, compare_shapes) at only).1.1.0
    | inl same ↦ (rw (same, compare_shapes) at only).1.1.0
  ]

  -- If the report on two shapes says that adding n workers is all that is missing, then n is not
  -- zero, the declared number of workers is n above the recorded one, and the report on the same
  -- shapes after n workers have been added is clean.
  pub workers_to_add-Converges :
      workers_to_add (compare_shapes d r) ≡ some n
      → (0 < n) × (d.workers ≡ r.workers + n) × (is_clean (compare_shapes d grown) ≡ true)
  workers_to_add-Converges h =
      let only = only_fix (compare_shapes d r) n h in
      let (total, some_added) = workers_grow (workers_only only) (λ e.
        not-IsSettled (compare_shapes d r) n h (compare_shapes-IsSettled_with r.workers only e)) in
      (
        some_added,
        total,
        (is_clean-IsSettled (compare_shapes d grown)).1
            (compare_shapes-IsSettled_with (r.workers + n) only total),
      )
