-- ===== src/ClusterShape/FixLists.antt =====
-- Lists of fixes (cli/src/domain/cluster_shape.rs): the order of their costs, and no repetition.
use catallaxy.Prelude.{
  All-Mem, Mem-All, Mem-snoc, ◌≤◌, ◌≡◌, ◌≢◌, ◌↔◌, true, false, inl, inr, List, [], ◌∷◌, ◌++◌, arith,
  Bool-cases, any, All, All-insert, All-sort, insert, sort, sym, ◌∙◌,
}
use mathlib.Core.List.{Memᴰ}
use catallaxy.ClusterShape.Report.{Fix, fix_eq, rank, rank_le}

pub fix_eq_iff : (f g : Fix) → (fix_eq f g ≡ true) ↔ (f ≡ g)
fix_eq_iff f g = ground arith

-- Later fixes cost as much or more.
abbrev pub IsCheapestFirst : List Fix → Type 0
IsCheapestFirst [] = Unit
IsCheapestFirst (f ∷ rest) = All (λ g. rank f ≤ rank g) rest × IsCheapestFirst rest

abbrev pub IsDistinct : List Fix → Type 0
IsDistinct [] = Unit
IsDistinct (f ∷ rest) = All (λ g. f ≢ g) rest × IsDistinct rest

All-map : {P Q : Fix → Type 0} (xs : List Fix) → ((x : Fix) → P x → Q x) → All P xs → All Q xs
All-map [] f h = tt
All-map (x ∷ xs) f h = (f x h.0, All-map xs f h.1)

-- The `contains` of the loop finds the fix exactly if it is there.
pub any-Mem : (xs : List Fix) (f : Fix) → any (λ g. fix_eq g f) xs ≡ true → Memᴰ f xs
any-Mem [] f h = absurd (cc)
any-Mem (x ∷ xs) f h = elim (Bool-cases (fix_eq x f)) [
  | inl same ↦ Memᴰ.head (sym ((fix_eq_iff x f).0 same))
  | inr other ↦ Memᴰ.tail (any-Mem xs f (ground arith))
]

pub any-new : (xs : List Fix) (f : Fix) → any (λ g. fix_eq g f) xs ≡ false → All (λ g. g ≢ f) xs
any-new [] f h = tt
any-new (x ∷ xs) f h = (ground (arith, fix_eq_iff x f), any-new xs f (ground arith))

insert-IsCheapestFirst :
    (f : Fix) (xs : List Fix) → IsCheapestFirst xs → IsCheapestFirst (insert rank_le f xs)
unfolding insert
insert-IsCheapestFirst f [] h = (tt, tt)
insert-IsCheapestFirst f (x ∷ xs) h = elim (Bool-cases (rank_le f x)) [
  | inl cheaper ↦ rw (cheaper, insert) ((ground arith, All-map xs (λ y le. ground arith) h.0), h)
  | inr dearer ↦
      rw (dearer, insert)
        (
          All-insert (λ g. rank x ≤ rank g) rank_le f xs (ground arith) h.0,
          insert-IsCheapestFirst f xs h.1,
        )
]

insert-IsDistinct :
    (f : Fix) (xs : List Fix)
    → All (λ g. f ≢ g) xs
    → IsDistinct xs
    → IsDistinct (insert rank_le f xs)
unfolding insert
insert-IsDistinct f [] new h = (tt, tt)
insert-IsDistinct f (x ∷ xs) new h = elim (Bool-cases (rank_le f x)) [
  | inl cheaper ↦ rw (cheaper, insert) (new, h)
  | inr dearer ↦
      rw (dearer, insert)
        (
          All-insert (λ g. x ≢ g) rank_le f xs (λ e. new.0 (sym e)) h.0,
          insert-IsDistinct f xs new.1 h.1,
        )
]

pub sort-IsCheapestFirst : (xs : List Fix) → IsCheapestFirst (sort rank_le xs)
unfolding sort
sort-IsCheapestFirst [] = tt
sort-IsCheapestFirst (x ∷ xs) = insert-IsCheapestFirst x (sort rank_le xs) (sort-IsCheapestFirst xs)

pub sort-IsDistinct : (xs : List Fix) → IsDistinct xs → IsDistinct (sort rank_le xs)
unfolding sort
sort-IsDistinct [] h = tt
sort-IsDistinct (x ∷ xs) h =
    insert-IsDistinct x (sort rank_le xs) (All-sort (λ g. x ≢ g) rank_le xs h.0)
      (sort-IsDistinct xs h.1)

pub snoc-IsDistinct :
    (xs : List Fix) (f : Fix) → IsDistinct xs → All (λ g. g ≢ f) xs → IsDistinct (xs ++ (f ∷ []))
snoc-IsDistinct [] f h new = (tt, tt)
snoc-IsDistinct (x ∷ xs) f h new = (
  All-Mem (λ g. x ≢ g) (xs ++ (f ∷ []))
      (λ y m. elim (Mem-snoc xs f y m) [
        | inl old ↦ Mem-All (λ g. x ≢ g) xs y h.0 old
        | inr last ↦ λ e. new.0 (e ∙ last)
      ]),
  snoc-IsDistinct xs f h.1 new.1,
)
