-- ===== src/Teardown.antt =====
-- cli/src/domain/teardown.rs: what a teardown could not do, and the report about it. A `BTreeMap`
-- is the list of its entries in the order of the keys.
pub mod Hints
mod Tests
use catallaxy.Prelude.{
  Bool, false, ◌&&◌, Option, none, some, List, [], ◌∷◌, String, ◌<>◌, ◌==◌, length, is_nil, any,
  keep, decimal, if◌then◌else◌,
}
use mathlib.Core.List.{foldl}

pub record ResourceRef : Type 0 where
  pub kind : String
  pub name : String

unfoldable pub qualified : ResourceRef → String
qualified r = r.kind <> ("/" <> r.name)

-- `==` of the derived `PartialEq`.
abbrev pub resource_eq : ResourceRef → ResourceRef → Bool
resource_eq r s = r.kind == s.kind && r.name == s.name

pub record StepFailure : Type 0 where
  pub step : String
  pub detail : String
  pub resource : Option ResourceRef

-- `StepFailure::new`
abbrev pub failure : String → String → StepFailure
failure step detail = record { step = step; detail = detail; resource = none }

abbrev pub on_resource : String → String → String → String → StepFailure
on_resource step kind name detail = record {
  step = step;
  detail = detail;
  resource = some (record { kind = kind; name = name });
}

-- `is_some_and`
abbrev is_some_and {ℓ} : {A : Type ℓ} → (A → Bool) → Option A → Bool
is_some_and p none = false
is_some_and p (some a) = p a

unfoldable pub concerns : StepFailure → ResourceRef → Bool
concerns f resource = is_some_and (λ r. resource_eq r resource) f.resource

unfoldable pub describe : StepFailure → String
describe f = elim f.resource [
  | some r ↦ f.step <> (" " <> (r.kind <> ("/" <> (r.name <> (": " <> f.detail)))))
  | none ↦ f.step <> (": " <> f.detail)
]

-- The test of the filter in `matching_hints`, at one kind.
unfoldable pub names_kind : List StepFailure → String → Bool
names_kind failures kind = any (λ f. is_some_and (λ r. r.kind == kind) f.resource) failures

unfoldable pub matching_hints : List StepFailure → List (String × String) → List (String × String)
matching_hints failures hints = keep (λ (kind, hint). names_kind failures kind) hints

abbrev failure_lines : String → List StepFailure → String
failure_lines out failures = foldl (λ out f. out <> ("  - " <> (describe f <> "\n"))) out failures

abbrev hint_lines : String → List (String × String) → String
hint_lines out hints =
    foldl (λ out (kind, hint). out <> ("  " <> (kind <> ("\n    " <> (hint <> "\n"))))) out hints

abbrev hints_heading : String
hints_heading = "\nCloud resources may still exist. The lab declares these rescue hints:\n"

unfoldable pub report : List StepFailure → List (String × String) → Option String
unfolding matching_hints names_kind describe
report [] hints = none
report (f ∷ fs) hints =
    let failures = f ∷ fs in
    let count = decimal (length failures) in
    let heading = "Teardown finished with " <> (count <> " unresolved failure(s):\n") in
    let out = failure_lines heading failures in
    let matching = matching_hints failures hints in
    some (if is_nil matching then out else hint_lines (out <> hints_heading) matching)
