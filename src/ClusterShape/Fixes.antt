-- ===== src/ClusterShape/Fixes.antt =====
-- What `fixes` of cli/src/domain/cluster_shape.rs collects, and what follows for the in-place answer.
use catallaxy.Prelude.{
  All-Mem, Mem-All, Mem-snoc, Mem-old, Mem-last, ℕ, ◌≡◌, refl, true, false, not, ◌&&◌, ◌⊎◌, inl,
  inr, Option, some, List, [], ◌∷◌, ◌++◌, arith, Bool-cases, any, all, All-sort, Mem-sort, sort,
  if◌then◌else◌, is_nil, sym, subst,
}
use mathlib.Core.List.{Memᴰ}
use catallaxy.ClusterShape.FixLists.{
  IsCheapestFirst, IsDistinct, any-Mem, any-new, sort-IsCheapestFirst, sort-IsDistinct,
  snoc-IsDistinct,
}
use catallaxy.ClusterShape.Report.{
  Fix, add_workers, is_in_place, fix_eq, Field, is_drifted, is_clean, fix_or_new, collect_fixes,
  rank_le, fixes, workers_to_add, is_convergeable_in_place, is_recreate, needing_recreate,
}

-- A drifted field of the report calls for the fix.
pub record CalledFor (fields : List Field) (fix : Fix) : Type 0 where
  pub field : Field
  pub reported : Memᴰ field fields
  pub drifts : is_drifted field.verdict ≡ true
  pub remedy : fix_or_new field.fix ≡ fix

-- The vector after one field.
abbrev noted : Field → List Fix → List Fix
noted f out =
    if not (is_drifted f.verdict)
    then out
    else if any (λ g. fix_eq g (fix_or_new f.fix)) out
    then out
    else out ++ (fix_or_new f.fix ∷ [])

noted-IsDistinct : (f : Field) (out : List Fix) → IsDistinct out → IsDistinct (noted f out)
noted-IsDistinct f out h = elim (Bool-cases (is_drifted f.verdict)) [
  | inr matching ↦ rw matching h
  | inl drifts ↦ elim (Bool-cases (any (λ g. fix_eq g (fix_or_new f.fix)) out)) [
    | inl known ↦ rw (drifts, known) h
    | inr new ↦
        rw (drifts, new)
          (snoc-IsDistinct out (fix_or_new f.fix) h (any-new out (fix_or_new f.fix) new))
  ]
]

noted-keeps : (f : Field) (out : List Fix) (g : Fix) → Memᴰ g out → Memᴰ g (noted f out)
noted-keeps f out g m = elim (Bool-cases (is_drifted f.verdict)) [
  | inr matching ↦ rw matching m
  | inl drifts ↦ elim (Bool-cases (any (λ g. fix_eq g (fix_or_new f.fix)) out)) [
    | inl known ↦ rw (drifts, known) m
    | inr new ↦ rw (drifts, new) (Mem-old out (fix_or_new f.fix) g m)
  ]
]

noted-has :
    (f : Field) (out : List Fix)
    → is_drifted f.verdict ≡ true
    → Memᴰ (fix_or_new f.fix) (noted f out)
noted-has f out drifts = elim (Bool-cases (any (λ g. fix_eq g (fix_or_new f.fix)) out)) [
  | inl known ↦ rw (drifts, known) (any-Mem out (fix_or_new f.fix) known)
  | inr new ↦ rw (drifts, new) (Mem-last out (fix_or_new f.fix))
]

noted-from :
    (f : Field) (out : List Fix) (g : Fix)
    → Memᴰ g (noted f out)
    → Memᴰ g out ⊎ (is_drifted f.verdict ≡ true) × (g ≡ fix_or_new f.fix)
noted-from f out g m = elim (Bool-cases (is_drifted f.verdict)) [
  | inr matching ↦ inl (rw matching at m)
  | inl drifts ↦ elim (Bool-cases (any (λ g. fix_eq g (fix_or_new f.fix)) out)) [
    | inl known ↦ inl (rw (drifts, known) at m)
    | inr new ↦ elim (Mem-snoc out (fix_or_new f.fix) g (rw (drifts, new) at m)) [
      | inl old ↦ inl old
      | inr last ↦ inr (drifts, last)
    ]
  ]
]

collect_fixes-IsDistinct :
    (fields : List Field) (out : List Fix) → IsDistinct out → IsDistinct (collect_fixes fields out)
unfolding collect_fixes
collect_fixes-IsDistinct [] out h = h
collect_fixes-IsDistinct (f ∷ fields) out h =
    collect_fixes-IsDistinct fields (noted f out) (noted-IsDistinct f out h)

collect_fixes-keeps :
    (fields : List Field) (out : List Fix) (g : Fix)
    → Memᴰ g out
    → Memᴰ g (collect_fixes fields out)
unfolding collect_fixes
collect_fixes-keeps [] out g m = m
collect_fixes-keeps (f ∷ fields) out g m =
    collect_fixes-keeps fields (noted f out) g (noted-keeps f out g m)

collect_fixes-has :
    (fields : List Field) (out : List Fix) (f : Field)
    → Memᴰ f fields
    → is_drifted f.verdict ≡ true
    → Memᴰ (fix_or_new f.fix) (collect_fixes fields out)
unfolding collect_fixes
collect_fixes-has [] out f m drifts = elim m [ ]
collect_fixes-has (h ∷ fields) out f (Memᴰ.head e) drifts =
    collect_fixes-keeps fields (noted h out) (fix_or_new f.fix) (
      subst (λ x. Memᴰ (fix_or_new x.fix) (noted h out)) (sym e)
        (noted-has h out (subst (λ x. is_drifted x.verdict ≡ true) e drifts)))
collect_fixes-has (h ∷ fields) out f (Memᴰ.tail m) drifts =
    collect_fixes-has fields (noted h out) f m drifts

collect_fixes-from :
    (fields : List Field) (out : List Fix) (g : Fix)
    → Memᴰ g (collect_fixes fields out)
    → Memᴰ g out ⊎ CalledFor fields g
unfolding collect_fixes
collect_fixes-from [] out g m = inl m
collect_fixes-from (f ∷ fields) out g m = elim (collect_fixes-from fields (noted f out) g m) [
  | inr c ↦ inr (record {
    field = c.field;
    reported = Memᴰ.tail c.reported;
    drifts = c.drifts;
    remedy = c.remedy;
  })
  | inl before ↦ elim (noted-from f out g before) [
    | inl old ↦ inl old
    | inr (drifts, e) ↦
        inr (record { field = f; reported = Memᴰ.head refl; drifts = drifts; remedy = sym e })
  ]
]

-- A list of fixes that answers a report.
pub record Answers (fields : List Field) (out : List Fix) : Type 0 where
  pub needed : (g : Fix) → Memᴰ g out → CalledFor fields g
  pub enough : (g : Fix) → CalledFor fields g → Memᴰ g out
  pub distinct : IsDistinct out
  pub cheapest_first : IsCheapestFirst out

-- The fixes are those that some drifted field calls for, where a field without a fix calls for a
-- new cluster: all of them, each once, the cheaper before the dearer.
pub fixes-Answers : (fields : List Field) → Answers fields (fixes fields)
unfolding fixes
fixes-Answers fields =
    let out = collect_fixes fields [] in
    let from : (g : Fix) → Memᴰ g out → CalledFor fields g = λ g m.
      elim (collect_fixes-from fields [] g m) [
        | inl nothing ↦ elim nothing [ ]
        | inr called ↦ called
      ] in
    record {
      needed = λ g m.
          Mem-All (CalledFor fields) (sort rank_le out) g
            (All-sort (CalledFor fields) rank_le out (All-Mem (CalledFor fields) out from)) m;
      enough = λ g c. Mem-sort rank_le g out (
          subst (λ x. Memᴰ x out) c.remedy
            (collect_fixes-has fields [] c.field c.reported c.drifts));
      distinct = sort-IsDistinct out (collect_fixes-IsDistinct fields [] tt);
      cheapest_first = sort-IsCheapestFirst out;
    }

all-in_place :
    (xs : List Fix) (g : Fix) → all is_in_place xs ≡ true → Memᴰ g xs → is_in_place g ≡ true
all-in_place [] g h m = elim m [ ]
all-in_place (x ∷ xs) g h (Memᴰ.head e) = subst (λ f. is_in_place f ≡ true) (sym e) (ground arith)
all-in_place (x ∷ xs) g h (Memᴰ.tail m) = all-in_place xs g (ground arith) m

not_all-in_place :
    (xs : List Fix) → all is_in_place xs ≡ false → (g : Fix) × Memᴰ g xs × (is_in_place g ≡ false)
not_all-in_place [] h = absurd (cc)
not_all-in_place (x ∷ xs) h = elim (Bool-cases (is_in_place x)) [
  | inr new ↦ (x, Memᴰ.head refl, new)
  | inl fine ↦ let (g, m, new) = not_all-in_place xs (ground arith) in (g, Memᴰ.tail m, new)
]

is_recreate-eq : (o : Option Fix) → is_recreate o ≡ not (is_in_place (fix_or_new o))
is_recreate-eq o = ground arith

needing_recreate-nil :
    (fields : List Field)
    → ((f : Field) → Memᴰ f fields → is_drifted f.verdict ≡ true → is_recreate f.fix ≡ false)
    → is_nil (needing_recreate fields) ≡ true
unfolding needing_recreate
needing_recreate-nil [] h = refl
needing_recreate-nil (f ∷ fields) h =
    ground (arith, h f (Memᴰ.head refl), needing_recreate-nil fields (λ g m. h g (Memᴰ.tail m)))

needing_recreate-cons :
    (fields : List Field) (f : Field)
    → Memᴰ f fields
    → is_drifted f.verdict ≡ true
    → is_recreate f.fix ≡ true
    → is_nil (needing_recreate fields) ≡ false
unfolding needing_recreate
needing_recreate-cons [] f m d r = elim m [ ]
needing_recreate-cons (g ∷ fields) f (Memᴰ.head e) d r =
    ground (
      arith,
      subst (λ x. is_drifted x.verdict ≡ true) e d,
      subst (λ x. is_recreate x.fix ≡ true) e r,
    )
needing_recreate-cons (g ∷ fields) f (Memᴰ.tail m) d r =
    ground (arith, needing_recreate-cons fields f m d r)

-- A report can be converged in place exactly if something drifted and no field needs a new cluster:
-- the answer by the fixes and the answer by the fields agree.
pub is_convergeable_in_place-eq :
    (fields : List Field)
    → is_convergeable_in_place fields ≡ (not (is_clean fields) && is_nil (needing_recreate fields))
unfolding is_convergeable_in_place
is_convergeable_in_place-eq fields =
    let answers = fixes-Answers fields in
    elim (Bool-cases (all is_in_place (fixes fields))) [
      | inl fine ↦ ground (
        arith,
        needing_recreate-nil fields (λ f m d. ground (
          arith,
          is_recreate-eq f.fix,
          all-in_place (fixes fields) (fix_or_new f.fix) fine (
              answers.enough (fix_or_new f.fix)
                (record { field = f; reported = m; drifts = d; remedy = refl })),
        )),
      )
      | inr new ↦
          let (g, m, lost) = not_all-in_place (fixes fields) new in
          let c = answers.needed g m in
          ground (
            arith,
            needing_recreate-cons fields c.field c.reported c.drifts (
                ground (
                  arith,
                  is_recreate-eq c.field.fix,
                  subst (λ x. is_in_place x ≡ false) (sym c.remedy) lost,
                )),
          )
    ]

-- One fix that adds workers is all that `workers_to_add` answers for.
pub workers_to_add-only :
    (fields : List Field) (n : ℕ)
    → workers_to_add fields ≡ some n
    → fixes fields ≡ add_workers n ∷ []
unfolding workers_to_add
workers_to_add-only fields n h = ground arith
