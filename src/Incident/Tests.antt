-- ===== src/Incident/Tests.antt =====
-- Ports whose traces, language model and notifier fail, and an engine that silences everything.
use junando.Common.{some, refl, true, false, none, [], ◌∷◌, ◌≡◌}
use junando.Common.Results.{ok, err}
use junando.Domain.Alert.{error}
use junando.Domain.Cluster.{AlertCluster, medium}
use junando.Incident.Calls.{Thrown, error_object, Ports}
use junando.Incident.Exec.{Ends}
use junando.Incident.Process.{Settings}
use junando.Incident.Pipeline.{process_cluster, process_clusters}
use junando.Incident.Suppressed.{costs, suppressed-costs}
use junando.Rules.Actions.{empty_result}
use junando.Rules.Engine.{RuleEngine, evaluate_pre_llm}
use junando.Incident.Lifecycle.{phase_of, rests}
use junando.Incident.Lifecycle.Run.{AbortedAt, process_clusters-order}

abbrev a_cluster : AlertCluster
a_cluster = record {
  fingerprint = "fp";
  service_name = "payments";
  alert_type = error;
  endpoint_path = "/pay";
  alert_count = 3;
  representative_trace_ids = "t1" ∷ [];
  first_seen_at = "2024-01-01T00:00:00Z";
  latency_p99_ms = none;
  severity = none;
  labels = none;
}

abbrev pub some_settings : Settings
some_settings = record {
  dedup_ttl_seconds = 300;
  rule_engine = none;
  has_triage = true;
  wide_events_enabled = true;
  is_development = false;
}

abbrev refused : Thrown
refused = error_object "channel_not_found" "Error" none

abbrev pub failing_ports : Ports
failing_ports = record {
  now = λ h. 1000;
  timestamp = λ h. "2024-01-01T00:00:00Z";
  is_drawn = λ h. false;
  serialized_bytes = λ event. 100;
  is_new = λ h fp ttl. ok (record { is_new = true; ttl_seconds = ttl; error = none });
  reset = λ h fp. ok tt;
  find_by_trace_id = λ h id. err refused;
  classify = λ h c. ok medium;
  analyze = λ h c spans. err refused;
  send = λ h c analysis channel. err refused;
}

process_clusters-order_example :
    Ends
      (λ _ h. rests (phase_of h) ≡ true)
      (λ _. AbortedAt (a_cluster ∷ []))
      (process_clusters some_settings failing_ports "run" (a_cluster ∷ []) []).0
      (process_clusters some_settings failing_ports "run" (a_cluster ∷ []) []).1
process_clusters-order_example =
    process_clusters-order some_settings failing_ports "run" (a_cluster ∷ [])

-- An engine whose one rule silences every cluster.
abbrev quiet_engine : RuleEngine
quiet_engine = record {
  pre_llm_rules =
      record {
        id = "quiet";
        predicate = λ cluster analysis. true;
        result = record empty_result { suppressed = true };
      }
      ∷ [];
  post_llm_rules = [];
}

abbrev quiet_settings : Settings
quiet_settings = record some_settings { rule_engine = some quiet_engine }

suppressed-costs_example :
    costs (process_cluster quiet_settings failing_ports "run" a_cluster []).1 ≡ costs []
suppressed-costs_example =
    suppressed-costs quiet_settings failing_ports "run" quiet_engine a_cluster [] refl
      (unfold evaluate_pre_llm in refl)
