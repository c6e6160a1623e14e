-- ===== src/Teardown/Hints.antt =====
-- Which rescue hints the report of cli/src/domain/teardown.rs shows.
use catallaxy.Prelude.{
  ◌≡◌, ◌↔◌, refl, sym, subst, Bool, true, some, List, [], ◌∷◌, String, eq_iff, keep, arith,
  Bool-cases, Option-cases, inl, inr,
}
use mathlib.Core.List.{Memᴰ}
use catallaxy.Teardown.{ResourceRef, StepFailure, names_kind, matching_hints}

Mem-keep :
    {A : Type 0} (p : A → Bool) (xs : List A) (x : A)
    → Memᴰ x (keep p xs) ↔ (Memᴰ x xs × (p x ≡ true))
Mem-keep p [] x = (λ m. elim m [ ], λ h. elim h.0 [ ])
Mem-keep p (y ∷ ys) x = elim (Bool-cases (p y)) [
  | inl t ↦ rw t (
    λ m. elim m [
      | Memᴰ.head e ↦ (Memᴰ.head e, subst (λ z. p z ≡ true) (sym e) t)
      | Memᴰ.tail n ↦ let (there, h) = (Mem-keep p ys x).0 n in (Memᴰ.tail there, h)
    ],
    λ (m, h). elim m [
      | Memᴰ.head e ↦ Memᴰ.head e
      | Memᴰ.tail n ↦ Memᴰ.tail ((Mem-keep p ys x).1 (n, h))
    ],
  )
  | inr t ↦ rw t (
    λ n. let (there, h) = (Mem-keep p ys x).0 n in (Memᴰ.tail there, h),
    λ (m, h). elim m [
      | Memᴰ.head e ↦ absurd (cc (subst (λ z. p z ≡ true) e h, t))
      | Memᴰ.tail n ↦ (Mem-keep p ys x).1 (n, h)
    ],
  )
]

-- Some failure is about a resource of the kind.
pub record Blames (failures : List StepFailure) (kind : String) : Type 0 where
  pub blamed : StepFailure
  pub recorded : Memᴰ blamed failures
  pub resource : ResourceRef
  pub about : blamed.resource ≡ some resource
  pub of_kind : resource.kind ≡ kind

names_kind-Blames :
    (failures : List StepFailure) (kind : String)
    → names_kind failures kind ≡ true
    → Blames failures kind
unfolding names_kind
names_kind-Blames [] kind h = absurd (cc)
names_kind-Blames (f ∷ fs) kind h = elim (Bool-cases (names_kind fs kind)) [
  | inl later ↦
      let b = names_kind-Blames fs kind later in
      record {
        blamed = b.blamed;
        recorded = Memᴰ.tail b.recorded;
        resource = b.resource;
        about = b.about;
        of_kind = b.of_kind;
      }
  | inr not_later ↦ elim (Option-cases f.resource) [
    | inl e ↦ absurd (ground (arith))
    | inr (r, e) ↦ record {
      blamed = f;
      recorded = Memᴰ.head refl;
      resource = r;
      about = e;
      of_kind = ground (arith, eq_iff r.kind kind);
    }
  ]
]

Blames-names_kind :
    (failures : List StepFailure) (f : StepFailure) (r : ResourceRef) (kind : String)
    → Memᴰ f failures
    → f.resource ≡ some r
    → r.kind ≡ kind
    → names_kind failures kind ≡ true
unfolding names_kind
Blames-names_kind [] f r kind m e k = elim m [ ]
Blames-names_kind (g ∷ fs) f r kind (Memᴰ.head same) e k =
    ground (arith, eq_iff r.kind kind, subst (λ x. x.resource ≡ some r) same e)
Blames-names_kind (g ∷ fs) f r kind (Memᴰ.tail m) e k =
    ground (arith, Blames-names_kind fs f r kind m e k)

-- The hints that match the failures are exactly those of the declared hints that are for the kind
-- of a resource which some failure is about.
pub matching_hints-Blames :
    (failures : List StepFailure) (hints : List (String × String)) (kind hint : String)
    → Memᴰ (kind, hint) (matching_hints failures hints)
      ↔ (Memᴰ (kind, hint) hints × Blames failures kind)
unfolding matching_hints
matching_hints-Blames failures hints kind hint =
    let kept = Mem-keep (λ (kind, hint). names_kind failures kind) hints (kind, hint) in
    (
      λ m. ((kept.0 m).0, names_kind-Blames failures kind (kept.0 m).1),
      λ (m, b).
          kept.1
            (m, Blames-names_kind failures b.blamed b.resource kind b.recorded b.about b.of_kind),
    )
