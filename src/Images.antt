-- ===== src/Images.antt =====
-- cli/src/images/reference.rs: the parts of an image reference.
pub mod Splits
mod Parts
pub mod RoundTrip
mod Tests
use catallaxy.Prelude.{
  Bool, true, false, not, ◌&&◌, ◌||◌, Option, none, some, List, [], ◌∷◌, String, ◌<>◌, ◌==◌,
  or_else, split_once, rsplit_once, contains_char, if◌then◌else◌,
}

pub record ImageRef : Type 0 where
  pub registry : String
  pub repository : String
  pub tag : Option String
  pub digest : Option String

-- Digest, then tag, then registry: each from the part that the one before leaves.
unfoldable pub split_digest : String → String × Option String
split_digest image = elim (split_once b'@' image) [
  | none ↦ (image, none)
  | some halves ↦ (halves.0, some halves.1)
]

unfoldable pub split_tag : String → String × Option String
split_tag before_digest = elim (rsplit_once b':' before_digest) [
  | none ↦ (before_digest, none)
  | some halves ↦
      if contains_char b'/' halves.1 then (before_digest, none) else (halves.0, some halves.1)
]

unfoldable pub split_registry : String → String × String
split_registry repo_part = elim (split_once b'/' repo_part) [
  | none ↦ ("docker.io", repo_part)
  | some halves ↦
      if contains_char b'.' halves.0 || contains_char b':' halves.0
      then halves
      else ("docker.io", repo_part)
]

-- `ImageRef::parse`
unfoldable pub parse_image : String → ImageRef
unfolding split_digest split_tag split_registry
parse_image image =
    let before = split_digest image in
    let repo = split_tag before.0 in
    record {
      registry = (split_registry repo.0).0;
      repository = (split_registry repo.0).1;
      tag = repo.1;
      digest = before.1;
    }

unfoldable pub image_reference : ImageRef → String
image_reference self = elim self.digest [ some digest ↦ digest | none ↦ or_else self.tag "latest" ]

unfoldable pub api_repository : ImageRef → String
api_repository self =
    if (self.registry == "docker.io") && not (contains_char b'/' self.repository)
    then "library/" <> self.repository
    else self.repository

-- A part that may be missing, behind a separator.
abbrev pub appended : String → String → Option String → String
appended out separator none = out
appended out separator (some part) = out <> (separator <> part)

unfoldable pub with_registry : ImageRef → String → String
with_registry self registry =
    appended (appended (registry <> ("/" <> self.repository)) ":" self.tag) "@" self.digest
