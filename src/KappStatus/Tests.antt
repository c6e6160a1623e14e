-- ===== src/KappStatus/Tests.antt =====
-- Descriptions of kapp apps.
use catallaxy.Prelude.{◌≡◌, refl, trim, to_ascii_lowercase}
use catallaxy.KappStatus.{classify_status, succeeded, failed, pending}

padded : classify_status "  RECONCILE SUCCEEDED  " ≡ succeeded
unfolding classify_status trim to_ascii_lowercase
padded = refl

superseded : classify_status "Reconcile failed (previously Succeeded)" ≡ failed
unfolding classify_status trim to_ascii_lowercase
superseded = refl

unrecognised : classify_status "" ≡ pending
unfolding classify_status trim to_ascii_lowercase
unrecognised = refl
