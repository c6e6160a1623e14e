-- ===== src/Teardown/Tests.antt =====
-- A teardown that could not delete a cluster, and the hints that it is given.
use catallaxy.Prelude.{◌↔◌, List, [], ◌∷◌, String}
use mathlib.Core.List.{Memᴰ}
use catallaxy.Teardown.{StepFailure, failure, on_resource, matching_hints}
use catallaxy.Teardown.Hints.{Blames, matching_hints-Blames}

abbrev left : List StepFailure
left =
    failure "remove-network" "in use"
    ∷ on_resource "delete-managed-resource" "clusters.x.io" "prod" "still present"
    ∷ []

abbrev rescue : List (String × String)
rescue = ("buckets.x.io", "list the buckets") ∷ ("clusters.x.io", "list the clusters") ∷ []

matching_hints-Blames_example :
    Memᴰ ("clusters.x.io", "list the clusters") (matching_hints left rescue)
    ↔ (Memᴰ ("clusters.x.io", "list the clusters") rescue × Blames left "clusters.x.io")
matching_hints-Blames_example =
    matching_hints-Blames left rescue "clusters.x.io" "list the clusters"
