-- ===== src/Domain/Alert.antt =====
-- packages/core/src/domain/entities/alert.ts, and the alert types of shared/constants.ts.
-- A latency is a whole, non-negative number of milliseconds.
use junando.Common.{ℕ, String, Option, List}

-- `AlertType`
pub data AlertType : Type 0 where
  error warning success : AlertType

unfoldable pub alert_type_text : AlertType → String
alert_type_text error = "http_500"
alert_type_text warning = "latency_spike"
alert_type_text success = "recovery"

-- The `severity` column of `ALERT_TYPE_LABELS`.
unfoldable pub alert_type_severity : AlertType → String
alert_type_severity error = "critical"
alert_type_severity warning = "warning"
alert_type_severity success = "info"

-- `AlertStatusSchema`
pub data AlertStatus : Type 0 where
  firing resolved : AlertStatus

-- `NormalizedAlertSchema`
pub record NormalizedAlert : Type 0 where
  pub fingerprint : String
  pub alert_name : String
  pub status : AlertStatus
  pub service_name : String
  pub alert_type : AlertType
  pub endpoint_path : String
  pub trace_id : Option String
  pub starts_at : String
  pub latency_ms : Option ℕ
  pub labels : List (String × String)
  pub annotations : List (String × String)

-- An element of `alerts` in `AlertmanagerPayloadSchema`.
pub record RawAlert : Type 0 where
  pub status : AlertStatus
  pub labels : List (String × String)
  pub annotations : List (String × String)
  pub starts_at : String
  pub ends_at : String
  pub fingerprint : Option String

-- `AlertmanagerPayloadSchema`
pub record AlertmanagerPayload : Type 0 where
  pub version : String
  pub group_key : String
  pub truncated_alerts : ℕ
  pub status : AlertStatus
  pub receiver : String
  pub group_labels : List (String × String)
  pub common_labels : List (String × String)
  pub common_annotations : List (String × String)
  pub external_url : String
  pub alerts : List RawAlert
