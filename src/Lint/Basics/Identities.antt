-- ===== src/Lint/Basics/Identities.antt =====
-- What the rule of identity.rs says of the resources of a cluster.
use catallaxy.Prelude.{
  ◌≡◌, refl, false, List, [], ◌∷◌, String, arith, All, any, find, find-eq-none, Option-cases, inl,
  inr,
}
use mathlib.Core.List.{Memᴰ}
use catallaxy.Lint.Manifest.{K8sResource}
use catallaxy.Lint.Basics.{same_identity, duplicate, check_identity_from, check_identity}
use catallaxy.Lint.Quiet.{NoErrors}

module _ {V : Type 0} where
  -- No resource has the API version, kind, namespace and name of one before it.
  abbrev pub Identities : List (K8sResource V) → Type 0
  Identities [] = Unit
  Identities (r ∷ rest) = All (λ s. same_identity s r ≡ false) rest × Identities rest

  -- The resources of the second list are other than those of the first.
  abbrev Unseen : List (K8sResource V) → List (K8sResource V) → Type 0
  Unseen seen rest = All (λ s. any (same_identity s) seen ≡ false) rest

  older :
      (seen : List (K8sResource V)) (r : K8sResource V) (rest : List (K8sResource V))
      → Unseen (r ∷ seen) rest
      → Unseen seen rest × All (λ s. same_identity s r ≡ false) rest
  older seen r [] h = (tt, tt)
  older seen r (s ∷ rest) h =
      let more = older seen r rest h.1 in
      ((ground (arith, h.0), more.0), (ground (arith, h.0), more.1))

  check_identity_from-Identities :
      (cluster : String) (seen rest : List (K8sResource V))
      → NoErrors (check_identity_from cluster seen rest)
      → Unseen seen rest × Identities rest
  unfolding check_identity_from duplicate
  check_identity_from-Identities cluster seen [] h = (tt, tt)
  check_identity_from-Identities cluster seen (r ∷ rest) h =
      elim (Option-cases (find (same_identity r) seen)) [
        | inl fresh ↦
            let tail : NoErrors (check_identity_from cluster (r ∷ seen) rest) =
              rw (fresh, check_identity_from) at h in
            let (unseen, distinct_texts) =
              check_identity_from-Identities cluster (r ∷ seen) rest tail in
            let (old, here) = older seen r rest unseen in
            ((find-eq-none (same_identity r) seen fresh, old), (here, distinct_texts))
        | inr (first, again) ↦
            let there : Memᴰ (duplicate cluster first r)
                (check_identity_from cluster seen (r ∷ rest)) =
              rw (again, check_identity_from) (Memᴰ.head refl) in
            absurd (ground (arith, h (duplicate cluster first r) there))
      ]

  pub check_identity-Identities :
      (resources : List (K8sResource V)) (cluster : String)
      → NoErrors (check_identity resources cluster)
      → Identities resources
  unfolding check_identity
  check_identity-Identities resources cluster h =
      (check_identity_from-Identities cluster [] resources h).1
