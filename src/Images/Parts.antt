-- ===== src/Images/Parts.antt =====
-- cli/src/images/reference.rs: what the steps of the parser leave for the ones behind them.
use catallaxy.Prelude.{
  ◌≡◌, refl, sym, ap, ◌∙◌, subst, true, false, ◌||◌, Option, none, some, String, ◌<>◌, arith,
  split_once, rsplit_once, contains_char, Bool-cases, Option-cases, inl, inr,
}
use catallaxy.Images.{split_digest, split_tag, split_registry}
use catallaxy.Images.Splits.{
  in_front, at_end, or_pieces, contains_char-append, rsplit_once-append, unsplit_free, Around,
  Around-free, split_once-Around, rsplit_once-Around,
}

-- Behind the last colon of a text, if it has one, there is a slash: the colon is of a port.
abbrev pub Portly : Option (String × String) → Type 0
Portly none = Unit
Portly (some halves) = contains_char b'/' halves.1 ≡ true

-- What a tag may be, with the repository in front of it.
abbrev pub TagFits : String → Option String → Type 0
TagFits repository none = Portly (rsplit_once b':' repository)
TagFits repository (some t) =
    (contains_char b':' t ≡ false) × (contains_char b'/' t ≡ false) × (contains_char b'@' t ≡ false)

-- A repository and a tag as the parser leaves them: no at sign in the repository, and a tag that fits.
pub record IsParts (repository : String) (tag : Option String) : Type 0 where
  pub no_digest : contains_char b'@' repository ≡ false
  pub tag_fits : TagFits repository tag

at_end-Portly :
    (repository : String) (o : Option (String × String)) → Portly (at_end ("/" <> repository) o)
unfolding contains_char
at_end-Portly repository none = tt
at_end-Portly repository (some halves) =
    let slash : contains_char b'/' ("/" <> repository) ≡ true =
      contains_char-append b'/' "/" repository in
    ground (arith, contains_char-append b'/' halves.1 ("/" <> repository), slash)

-- The last colon of a repository behind a registry is that of a port, if the repository has none that
-- is not.
pub port_colon :
    (registry repository : String)
    → Portly (rsplit_once b':' repository)
    → Portly (rsplit_once b':' (registry <> ("/" <> repository)))
unfolding contains_char rsplit_once
port_colon registry repository h = elim (Option-cases (rsplit_once b':' repository)) [
  | inr (halves, e) ↦
      let slash : rsplit_once b':' ("/" <> repository) ≡ some ("/" <> halves.0, halves.1) =
        rsplit_once-append b':' "/" repository
        ∙ ap (λ o. or_pieces (in_front "/" o) (at_end repository (rsplit_once b':' "/"))) e in
      let whole : rsplit_once b':' (registry <> ("/" <> repository))
          ≡ some (registry <> ("/" <> halves.0), halves.1) =
        rsplit_once-append b':' registry ("/" <> repository)
        ∙ ap
            (λ o.
              or_pieces (in_front registry o)
                (at_end ("/" <> repository) (rsplit_once b':' registry)))
            slash in
      subst Portly (sym whole) (subst Portly e h)
  | inl miss ↦
      let slash : rsplit_once b':' ("/" <> repository) ≡ none =
        rsplit_once-append b':' "/" repository
        ∙ ap (λ o. or_pieces (in_front "/" o) (at_end repository (rsplit_once b':' "/"))) miss in
      let whole : rsplit_once b':' (registry <> ("/" <> repository))
          ≡ at_end ("/" <> repository) (rsplit_once b':' registry) =
        rsplit_once-append b':' registry ("/" <> repository)
        ∙ ap
            (λ o.
              or_pieces (in_front registry o)
                (at_end ("/" <> repository) (rsplit_once b':' registry)))
            slash in
      subst Portly (sym whole) (at_end-Portly repository (rsplit_once b':' registry))
]

pub split_digest-free : (image : String) → contains_char b'@' (split_digest image).0 ≡ false
unfolding split_digest
split_digest-free image = elim (Option-cases (split_once b'@' image)) [
  | inl miss ↦ rw (miss, split_digest) (unsplit_free b'@' image miss)
  | inr (halves, e) ↦ rw (e, split_digest) (split_once-Around b'@' image halves.0 halves.1 e).0
]

pub split_tag-IsParts :
    (before : String)
    → contains_char b'@' before ≡ false
    → IsParts (split_tag before).0 (split_tag before).1
unfolding split_tag
split_tag-IsParts before h = elim (Option-cases (rsplit_once b':' before)) [
  | inl miss ↦
      rw (miss, split_tag) (record { no_digest = h; tag_fits = subst Portly (sym miss) tt })
  | inr (halves, e) ↦ elim (Bool-cases (contains_char b'/' halves.1)) [
    | inl of_port ↦
        rw (e, split_tag, of_port)
          (record { no_digest = h; tag_fits = subst Portly (sym e) of_port })
    | inr of_tag ↦
        let (free, around) = rsplit_once-Around b':' before halves.0 halves.1 e in
        let (in_repo, in_tag) = Around-free b'@' b':' before halves.0 halves.1 around h in
        rw (e, split_tag, of_tag)
          (record { no_digest = in_repo; tag_fits = (free, of_tag, in_tag) })
  ]
]

behind_slash :
    (repo first rest : String)
    → Around b'/' repo first rest
    → Portly (rsplit_once b':' repo)
    → Portly (rsplit_once b':' rest)
unfolding rsplit_once
behind_slash repo first rest (c, k, q) h = elim (Option-cases (rsplit_once b':' rest)) [
  | inl miss ↦ subst Portly (sym miss) tt
  | inr (halves, e) ↦
      let one : rsplit_once b':' (String.◌∷◌ c rest) ≡ some (String.◌∷◌ c halves.0, halves.1) =
        rw (e, rsplit_once) refl in
      let whole : rsplit_once b':' repo ≡ some (first <> String.◌∷◌ c halves.0, halves.1) =
        ap (rsplit_once b':') q
        ∙ rsplit_once-append b':' first (String.◌∷◌ c rest)
        ∙ ap
            (λ o.
              or_pieces (in_front first o) (at_end (String.◌∷◌ c rest) (rsplit_once b':' first)))
            one in
      subst Portly (sym e) (subst Portly whole h)
]

pub split_registry-IsParts :
    (repo : String) (tag : Option String) → IsParts repo tag → IsParts (split_registry repo).1 tag
unfolding split_registry
split_registry-IsParts repo tag parts = elim (Option-cases (split_once b'/' repo)) [
  | inl miss ↦ rw (miss, split_registry) parts
  | inr (halves, e) ↦
      elim (Bool-cases (contains_char b'.' halves.0 || contains_char b':' halves.0)) [
        | inr implicit ↦ rw (e, split_registry, implicit) parts
        | inl host ↦
            let around = (split_once-Around b'/' repo halves.0 halves.1 e).1 in
            let free = Around-free b'@' b'/' repo halves.0 halves.1 around parts.no_digest in
            rw (e, split_registry, host)
              (record {
                no_digest = free.1;
                tag_fits = still halves.0 halves.1 tag around parts.tag_fits;
              })
      ]
]
  where
    still :
        (first rest : String) (tag : Option String)
        → Around b'/' repo first rest
        → TagFits repo tag
        → TagFits rest tag
    still first rest none around h = behind_slash repo first rest around h
    still first rest (some t) around h = h
