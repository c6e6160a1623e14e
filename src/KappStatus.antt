-- ===== src/KappStatus.antt =====
-- cli/src/domain/kapp_status.rs: the status that the description of a kapp app stands for.
mod Tests
use catallaxy.Prelude.{Bool, ◌||◌, String, trim, to_ascii_lowercase, has_text, if◌then◌else◌}

pub data KappStatus : Type 0 where
  succeeded : KappStatus
  failed : KappStatus
  pending : KappStatus

-- `KappStatus::classify`
unfoldable pub classify_status : String → KappStatus
classify_status description =
    let text = to_ascii_lowercase (trim description) in
    if has_text text "fail" || has_text text "error"
    then failed
    else if has_text text "succeeded"
    then succeeded
    else pending
