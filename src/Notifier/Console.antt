-- ===== src/Notifier/Console.antt =====
-- The notifier of the console, infrastructure/notifier/slack.adapter.ts.
use junando.Common.{ℕ, Option, none, some, List, [], ◌∷◌, ◌++◌}
use junando.Common.Results.{Result}
use junando.Domain.Alert.{alert_type_text}
use junando.Domain.Cluster.{AlertCluster, LlmAnalysis}
use junando.Incident.Calls.{Thrown}
use junando.Logger.Json.{Json, str, obj, Fields, fields_of}
use junando.Notifier.Post.{log_info, Sent, report_outcome}

-- `ConsoleNotifier`: what it has sent.
pub record ConsoleNotifier : Type 0 where
  pub sent : List (AlertCluster × Option LlmAnalysis)

-- The line that it logs; the diagnosis is a value of the platform's.
unfoldable pub notification_line : (LlmAnalysis → Json) → AlertCluster → Option LlmAnalysis → Fields
notification_line as_json cluster analysis = fields_of (
    (
      "cluster",
      obj (
          fields_of (
            ("serviceName", str cluster.service_name)
            ∷ ("alertType", str (alert_type_text cluster.alert_type))
            ∷ [])),
    )
    ∷ ("analysis", elim analysis [ none ↦ str "unavailable" | some a ↦ as_json a ])
    ∷ [])

-- `ConsoleNotifier.send`, by how the logger's call ends and how long it takes.
unfoldable pub send_console :
    (LlmAnalysis → Json)
    → Result {0, 0} Thrown (Unit {0})
    → ℕ
    → AlertCluster
    → Option LlmAnalysis
    → ConsoleNotifier
    → Sent × ConsoleNotifier
unfolding notification_line
send_console as_json logged latency_ms cluster analysis notifier = (
  report_outcome "unknown" ("console" ∷ []) latency_ms
      (log_info (notification_line as_json cluster analysis) ∷ []) logged,
  record { sent = notifier.sent ++ (cluster, analysis) ∷ [] },
)
