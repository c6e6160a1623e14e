-- ===== src/Images/RoundTrip.antt =====
-- cli/src/images/reference.rs: the parser on references written against another registry.
use catallaxy.Prelude.{
  ◌≡◌, refl, ap, ◌∙◌, true, false, ◌||◌, Option, none, some, String, ◌<>◌, arith, split_once,
  rsplit_once, contains_char,
}
use text.Mathlib.TextLemmas.{append-nil}
use catallaxy.Images.{
  ImageRef, split_digest, split_tag, split_registry, parse_image, appended, with_registry,
}
use catallaxy.Images.Splits.{
  in_front, at_end, or_pieces, contains_char-append, split_once-append, rsplit_once-append,
  split_once-none, rsplit_once-free, cons_one,
}
use catallaxy.Images.Parts.{
  Portly, IsParts, port_colon, split_digest-free, split_tag-IsParts, split_registry-IsParts,
}

digest_pieces : (d : String) → split_once b'@' ("@" <> d) ≡ some ("", d)
unfolding split_once
digest_pieces d = rw (cons_one "@" d) refl

tag_pieces :
    (t : String) → contains_char b':' t ≡ false → rsplit_once b':' (":" <> t) ≡ some ("", t)
unfolding rsplit_once
tag_pieces t h = rw (cons_one ":" t) (rw (rsplit_once-free b':' t h) refl)

registry_pieces : (r : String) → split_once b'/' ("/" <> r) ≡ some ("", r)
unfolding split_once
registry_pieces r = rw (cons_one "/" r) refl

-- The parts of a reference, from what the three steps leave.
abbrev parts_of : String × String → Option String → Option String → ImageRef
parts_of host tag digest = record {
  registry = host.0;
  repository = host.1;
  tag = tag;
  digest = digest;
}

parse_image-steps :
    (image before repo_part : String) (host : String × String) (tag digest : Option String)
    → split_digest image ≡ (before, digest)
    → split_tag before ≡ (repo_part, tag)
    → split_registry repo_part ≡ host
    → parse_image image ≡ parts_of host tag digest
unfolding parse_image
parse_image-steps image before repo_part host tag digest first second third =
    ap (λ q. parts_of (split_registry (split_tag q.0).0) (split_tag q.0).1 q.1) first
    ∙ ap (λ q. parts_of (split_registry q.0) q.1 digest) second
    ∙ ap (λ h. parts_of h tag digest) third

module _ (registry : String)
    (is_host : (contains_char b'.' registry || contains_char b':' registry) ≡ true)
    (no_slash : contains_char b'/' registry ≡ false)
    (no_digest_in : contains_char b'@' registry ≡ false) where
  split_registry-back :
      (repository : String)
      → split_registry (registry <> ("/" <> repository)) ≡ (registry, repository)
  unfolding split_registry
  split_registry-back repository =
      let pieces : split_once b'/' (registry <> ("/" <> repository)) ≡ some (registry, repository) =
        split_once-append b'/' registry ("/" <> repository) no_slash
        ∙ ap (in_front registry) (registry_pieces repository)
        ∙ ap (λ t. some (t, repository)) (append-nil registry) in
      rw (pieces, split_registry, is_host) refl

  split_tag-back :
      (repository : String) (tag : Option String)
      → IsParts repository tag
      → split_tag (appended (registry <> ("/" <> repository)) ":" tag)
        ≡ (registry <> ("/" <> repository), tag)
  unfolding split_tag
  split_tag-back repository none parts =
      plain (rsplit_once b':' base) refl (port_colon registry repository parts.tag_fits)
    where
      base : String
      base = registry <> ("/" <> repository)

      plain :
          (o : Option (String × String))
          → rsplit_once b':' base ≡ o
          → Portly o
          → split_tag base ≡ (base, none)
      plain none e h = rw (e, split_tag) refl
      plain (some halves) e h = rw (e, split_tag, h) refl
  split_tag-back repository (some t) parts =
      let base = registry <> ("/" <> repository) in
      let pieces : rsplit_once b':' (base <> (":" <> t)) ≡ some (base, t) =
        rsplit_once-append b':' base (":" <> t)
        ∙ ap (λ o. or_pieces (in_front base o) (at_end (":" <> t) (rsplit_once b':' base)))
            (tag_pieces t parts.tag_fits.0)
        ∙ ap (λ b. some (b, t)) (append-nil base) in
      rw (pieces, split_tag, parts.tag_fits.1) refl

  tagged_free :
      (repository : String) (tag : Option String)
      → IsParts repository tag
      → contains_char b'@' (appended (registry <> ("/" <> repository)) ":" tag) ≡ false
  unfolding contains_char
  tagged_free repository none parts = ground (
    arith,
    contains_char-append b'@' registry ("/" <> repository),
    contains_char-append b'@' "/" repository,
    parts.no_digest,
  )
  tagged_free repository (some t) parts = ground (
    arith,
    contains_char-append b'@' registry ("/" <> repository),
    contains_char-append b'@' "/" repository,
    contains_char-append b'@' (registry <> ("/" <> repository)) (":" <> t),
    contains_char-append b'@' ":" t,
    parts.no_digest,
    parts.tag_fits.2,
  )

  split_digest-back :
      (s : String) (digest : Option String)
      → contains_char b'@' s ≡ false
      → split_digest (appended s "@" digest) ≡ (s, digest)
  unfolding split_digest
  split_digest-back s none h = rw (split_once-none b'@' s h, split_digest) refl
  split_digest-back s (some d) h =
      let pieces : split_once b'@' (s <> ("@" <> d)) ≡ some (s, d) =
        split_once-append b'@' s ("@" <> d) h
        ∙ ap (in_front s) (digest_pieces d)
        ∙ ap (λ t. some (t, d)) (append-nil s) in
      rw (pieces, split_digest) refl

  -- With a registry that has a dot or a colon and neither a slash nor an at sign, a reference that is
  -- taken apart, written against that registry and taken apart again has that registry, and the
  -- repository, the tag and the digest that it had.
  pub parse_image-with_registry :
      (image : String)
      → parse_image (with_registry (parse_image image) registry) ≡ record {
        registry = registry;
        repository = (parse_image image).repository;
        tag = (parse_image image).tag;
        digest = (parse_image image).digest;
      }
  unfolding parse_image with_registry
  parse_image-with_registry image =
      let p = parse_image image in
      let before = (split_digest image).0 in
      let parts =
        split_registry-IsParts (split_tag before).0 (split_tag before).1
          (split_tag-IsParts before (split_digest-free image)) in
      let s = appended (registry <> ("/" <> p.repository)) ":" p.tag in
      let digest = split_digest-back s p.digest (tagged_free p.repository p.tag parts) in
      let tag = split_tag-back p.repository p.tag parts in
      let host = split_registry-back p.repository in
      parse_image-steps (with_registry p registry) s (registry <> ("/" <> p.repository))
        (registry, p.repository) p.tag p.digest digest tag host
