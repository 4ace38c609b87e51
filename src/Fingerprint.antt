-- ===== src/Fingerprint.antt =====
-- packages/core/src/domain/value-objects/fingerprint.ts. SHA-256 is the platform's: a parameter.
use junando.Common.{String, [], ◌∷◌}
use junando.Common.Text.{to_lower_case, trim, join}
use junando.Domain.Alert.{NormalizedAlert, alert_type_text}

-- The text that `Fingerprint.fromAlert` hashes.
unfoldable pub key_text : NormalizedAlert → String
key_text alert = join "|" (
    trim (to_lower_case alert.service_name)
    ∷ trim (to_lower_case (alert_type_text alert.alert_type))
    ∷ trim (to_lower_case alert.endpoint_path)
    ∷ [])

unfoldable pub from_alert : (String → String) → NormalizedAlert → String
from_alert sha256_hex alert = sha256_hex (key_text alert)
