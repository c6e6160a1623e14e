-- ===== src/StepKind/Tags.antt =====
-- The tag of a kind and the kind of a tag (cli/src/domain/step_kind.rs).
use catallaxy.Prelude.{◌≡◌, ◌↔◌, refl, some, String, ◌==◌, eq_iff, find-eq-some}
use catallaxy.StepKind.{StepKind, all_kinds, tag, from_tag}

from_tag-tag_lem : (k : StepKind) → from_tag (tag k) ≡ some k
unfolding from_tag
from_tag-tag_lem StepKind.setup_services = refl
from_tag-tag_lem _ = refl

-- A text reads as a kind exactly when it is the tag of that kind: every kind reads back from its
-- tag, no two kinds share a tag, and nothing else is read.
pub from_tag-eq-some : (t : String) (k : StepKind) → (from_tag t ≡ some k) ↔ (tag k ≡ t)
unfolding from_tag
from_tag-eq-some t k = (
  λ h. (eq_iff (tag k) t).0 (find-eq-some (λ j. tag j == t) all_kinds k h),
  λ e. rw (← e) (from_tag-tag_lem k),
)
