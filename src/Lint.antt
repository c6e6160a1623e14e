-- ===== src/Lint.antt =====
-- cli/src/domain/diagnostic.rs: what a lint rule reports. The children have the linter, cli/src/lint.
pub mod PlanRule
pub mod Yaml
pub mod Manifest
pub mod Context
pub mod Basics
pub mod Selector
pub mod References
pub mod ImagePin
pub mod CrdSchema
mod SchemaFuel
pub mod Crds
pub mod ReadyProbe
pub mod Network
pub mod Custom
pub mod Quiet
pub mod Run
mod Tests
mod LabTests
use catallaxy.Prelude.{String, Bool, true, false}

pub data Severity : Type 0 where
  error warning : Severity

pub record Diagnostic : Type 0 where
  pub severity : Severity
  pub check : String
  pub cluster : String
  pub file : String
  pub resource : String
  pub message : String

abbrev pub is_error : Diagnostic → Bool
is_error d = elim d.severity [ error ↦ true | warning ↦ false ]
