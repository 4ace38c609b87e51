-- ===== src/Domain/Cluster.antt =====
-- packages/core/src/domain/entities/cluster.ts and incident.ts.
use junando.Common.{ℕ, String, Bool, Option, List}
use junando.Domain.Alert.{AlertType}

-- The four levels that `SeverityLevel`, `UrgencyLevelSchema` and `TriageSeverity` share.
pub data Level : Type 0 where
  critical high medium low : Level

unfoldable pub level_text : Level → String
level_text critical = "critical"
level_text high = "high"
level_text medium = "medium"
level_text low = "low"

-- `AlertClusterSchema`
pub record AlertCluster : Type 0 where
  pub fingerprint : String
  pub service_name : String
  pub alert_type : AlertType
  pub endpoint_path : String
  pub alert_count : ℕ
  pub representative_trace_ids : List String
  pub first_seen_at : String
  pub latency_p99_ms : Option ℕ
  pub severity : Option Level
  pub labels : Option (List (String × String))

-- `LLMAnalysisSchema`
pub record LlmAnalysis : Type 0 where
  pub probable_cause : String
  pub impacted_services : List String
  pub recommended_steps : List String
  pub urgency_level : Level
  pub requires_rollback : Bool
