-- ===== src/Images/Tests.antt =====
-- Image references, taken apart and put together.
use catallaxy.Prelude.{◌≡◌, refl, none, some, split_once, rsplit_once, contains_char}
use catallaxy.Images.RoundTrip.{parse_image-with_registry}
use catallaxy.Images.{
  parse_image, split_digest, split_tag, split_registry, with_registry, api_repository,
}

ported : parse_image "registry.local:5000/team/app:1.2@sha256:ab" ≡ record {
  registry = "registry.local:5000";
  repository = "team/app";
  tag = some "1.2";
  digest = some "sha256:ab";
}
unfolding parse_image split_digest split_tag split_registry split_once rsplit_once contains_char
ported = refl

bare :
    parse_image "nginx"
    ≡ record { registry = "docker.io"; repository = "nginx"; tag = none; digest = none }
unfolding parse_image split_digest split_tag split_registry split_once rsplit_once contains_char
bare = refl

bare_repository : api_repository (parse_image "nginx") ≡ "library/nginx"
unfolding api_repository parse_image split_digest split_tag split_registry split_once rsplit_once
    contains_char
bare_repository = refl

moved : with_registry (parse_image "nginx:1.27@sha256:ab") "r.io" ≡ "r.io/nginx:1.27@sha256:ab"
unfolding with_registry parse_image split_digest split_tag split_registry split_once rsplit_once
    contains_char
moved = refl

-- "registry.local:5000/team/app:1.2@sha256:ab" is moved to another host with a port, and read back.
parse_image-with_registry_example :
    parse_image
      (with_registry (parse_image "registry.local:5000/team/app:1.2@sha256:ab") "mirror:80")
    ≡ record {
      registry = "mirror:80";
      repository = (parse_image "registry.local:5000/team/app:1.2@sha256:ab").repository;
      tag = (parse_image "registry.local:5000/team/app:1.2@sha256:ab").tag;
      digest = (parse_image "registry.local:5000/team/app:1.2@sha256:ab").digest;
    }
unfolding contains_char
parse_image-with_registry_example =
    parse_image-with_registry "mirror:80" refl refl refl
      "registry.local:5000/team/app:1.2@sha256:ab"
