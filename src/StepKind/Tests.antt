-- ===== src/StepKind/Tests.antt =====
-- The theorems about step kinds at concrete kinds.
use catallaxy.Prelude.{◌≡◌, ◌↔◌, refl, some, none}
use catallaxy.StepKind.{StepKind, tag, from_tag}
use catallaxy.StepKind.Tags.{from_tag-eq-some}
use catallaxy.StepKind.Policy.{IsCoherent, all_kinds-IsCoherent}

no_such_kind : from_tag "deploy-everything" ≡ none
unfolding from_tag
no_such_kind = refl

from_tag-eq-some_example : (from_tag "pivot" ≡ some StepKind.pivot) ↔ (tag StepKind.pivot ≡ "pivot")
from_tag-eq-some_example = from_tag-eq-some "pivot" StepKind.pivot

all_kinds-IsCoherent_example : IsCoherent StepKind.infra_destroy
all_kinds-IsCoherent_example = all_kinds-IsCoherent StepKind.infra_destroy
