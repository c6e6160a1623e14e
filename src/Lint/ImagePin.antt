-- ===== src/Lint/ImagePin.antt =====
-- cli/src/lint/rules/image_pin.rs: the images of a resource against the policy on images.
use catallaxy.Prelude.{
  Bool, true, false, not, ◌&&◌, none, some, List, [], ◌∷◌, ◌++◌, String, ◌<>◌, ◌==◌, flat_map,
  filter_map, contains, and_then, is_nil, if◌then◌else◌,
}
use catallaxy.Images.{ImageRef, parse_image}
use catallaxy.Lint.{Diagnostic, error, warning}
use catallaxy.Lint.Yaml.{Yaml, at_path, elements}
use catallaxy.Lint.Manifest.{K8sResource, has_lint_skip}
use catallaxy.Lint.Context.{ImagePolicy, resource_diag}

abbrev pub containers_paths : List (List String)
containers_paths =
    ("spec" ∷ "template" ∷ "spec" ∷ "containers" ∷ [])
    ∷ ("spec" ∷ "template" ∷ "spec" ∷ "initContainers" ∷ [])
    ∷ ("spec" ∷ "containers" ∷ [])
    ∷ ("spec" ∷ "initContainers" ∷ [])
    ∷ ("spec" ∷ "jobTemplate" ∷ "spec" ∷ "template" ∷ "spec" ∷ "containers" ∷ [])
    ∷ ("spec" ∷ "jobTemplate" ∷ "spec" ∷ "template" ∷ "spec" ∷ "initContainers" ∷ [])
    ∷ []

module _ {V : Type 0} (y : Yaml V) where
  unfoldable pub extract_images : K8sResource V → List String
  extract_images resource =
      flat_map
        (λ path.
          filter_map (λ container. and_then (y.get_field container "image") y.as_str)
            (elements y (at_path y resource.raw path)))
        containers_paths

  abbrev pub is_mutable : ImageRef → Bool
  is_mutable parsed = elim parsed.tag [ none ↦ true | some tag ↦ tag == "latest" ]

  abbrev pub is_undigested : ImageRef → Bool
  is_undigested parsed = elim parsed.digest [ none ↦ true | some _ ↦ false ]

  unfoldable pub image_diags :
      String → ImagePolicy → K8sResource V → String → ImageRef → List Diagnostic
  image_diags cluster policy r image parsed =
      (if is_mutable parsed
        then resource_diag warning "image-pin" cluster r
            ("resolves to the mutable ':latest' tag: " <> image)
          ∷ []
        else [])
      ++ (if policy.require_digest && is_undigested parsed
          then resource_diag error "image-pin" cluster r ("image not pinned by digest: " <> image)
            ∷ []
          else [])
      ++ (if not (is_nil policy.allowed_registries)
            && not (contains policy.allowed_registries parsed.registry)
          then resource_diag warning "image-pin" cluster r
              ("image from unapproved registry '" <> (parsed.registry <> ("': " <> image)))
            ∷ []
          else [])

  unfoldable pub images_of : String → ImagePolicy → K8sResource V → List Diagnostic
  unfolding extract_images image_diags
  images_of cluster policy r =
      if has_lint_skip r "image-pin"
      then []
      else flat_map (λ image. image_diags cluster policy r image (parse_image image))
          (extract_images r)

  unfoldable pub check_image_pin : List (K8sResource V) → String → ImagePolicy → List Diagnostic
  unfolding images_of
  check_image_pin resources cluster policy = flat_map (images_of cluster policy) resources
