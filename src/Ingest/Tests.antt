-- ===== src/Ingest/Tests.antt =====
-- A subscriber that receives one message, processes it and deletes it; a runner with two rules; and answers of
-- Loki and Prometheus.
use junando.Common.{
  none, some, refl, [], ◌∷◌, ◌≡◌, ◌⊎◌, List, map, ◌==◌, if◌then◌else◌, true, arith,
}
use junando.Ingest.Subscriber.{
  SubscriberConfig, Message, Subscriber, Reachable, started, run_loop, received, settled,
  batch_done, turns, receives, starts, goes_on, processed,
}
use junando.Domain.Alert.{NormalizedAlert, error, warning}
use junando.Ingest.Mapping.{
  Platform, IngestRule, LokiStreamResult, PrometheusRule, PrometheusInstantResponse,
  map_loki_result_to_alerts, map_metric_result_to_alerts,
}
use junando.Ingest.Mapping.Windows.{map_loki_result_to_alerts-fingerprint}
use junando.Ingest.Mapping.Threshold.{AreSelected, map_metric_result_to_alerts-AreSelected}
use junando.Ingest.Subscriber.Capacity.{IsWithin, Reachable-IsWithin}

abbrev small_config : SubscriberConfig
small_config = record { max_in_flight = 5; batch_size = 10 }

abbrev a_message : Message
a_message = record { message_id = some "1"; receipt_handle = some "r"; body = "{}" }

abbrev asking : Subscriber
asking = run_loop small_config started

abbrev busy : Subscriber
busy = received (a_message ∷ []) asking

abbrev settled_once : Subscriber
settled_once = settled [] [] a_message [] [] (processed true) busy

abbrev deleting : Subscriber
deleting =
    batch_done [] (record { message = a_message; outcome = some true } ∷ []) [] true settled_once

busy-Reachable : Reachable small_config busy
unfolding started run_loop
busy-Reachable =
    goes_on asking busy (goes_on started asking (starts started refl) (turns refl asking refl))
      (receives 5 (a_message ∷ []) refl (omega arith) busy refl)

Reachable-IsWithin_example : IsWithin small_config busy
Reachable-IsWithin_example = Reachable-IsWithin small_config busy busy-Reachable

abbrev single_config : SubscriberConfig
single_config = record { max_in_flight = 1; batch_size = 10 }

-- One message fills the capacity, and the loop waits.
abbrev one_asked : Subscriber
one_asked = run_loop single_config started

abbrev one_busy : Subscriber
one_busy = received (a_message ∷ []) one_asked

abbrev stuck : Subscriber
stuck = run_loop single_config one_busy

abbrev some_platform : Platform
some_platform = record {
  sha256_hex = λ s. s;
  to_iso_string = λ ms. "2024-01-01T00:00:00.000Z";
  trace_id = λ line. none;
  parse_float = λ s. if s == "NaN" then none else some 7;
}

abbrev loki_rule : IngestRule
loki_rule = record {
  name = "errors";
  query = "{}";
  service = "api";
  alert_type = error;
  endpoint_path = none;
  window_ms = none;
}

abbrev some_streams : List LokiStreamResult
some_streams =
    record { stream = ("service", "pay") ∷ []; values = ("1", "boom") ∷ [] }
    ∷ record { stream = []; values = [] }
    ∷ []

-- Half a minute apart.
map_loki_result_to_alerts-fingerprint_example :
    map
      (λ (a : NormalizedAlert). a.fingerprint)
      (map_loki_result_to_alerts some_platform loki_rule some_streams 0 70000)
    ≡ map
        (λ (a : NormalizedAlert). a.fingerprint)
        (map_loki_result_to_alerts some_platform loki_rule some_streams 30000 100000)
map_loki_result_to_alerts-fingerprint_example =
    map_loki_result_to_alerts-fingerprint some_platform loki_rule some_streams 0 30000 70000 100000
      1 (omega arith, omega arith) (omega arith, omega arith)

abbrev metric_rule : PrometheusRule
metric_rule = record {
  name = "slow";
  query = "p99";
  service = "api";
  alert_type = warning;
  threshold = 5;
  comparator = none;
  window_ms = none;
}

abbrev some_response : PrometheusInstantResponse
some_response = record {
  result_type = "vector";
  result =
      record { metric = ("__name__", "p99") ∷ []; value = "7" }
      ∷ record { metric = []; value = "NaN" }
      ∷ [];
}

map_metric_result_to_alerts-AreSelected_example :
    ((some_response.result_type ≡ "vector")
      × AreSelected some_platform metric_rule 60000 some_response.result
          (map_metric_result_to_alerts some_platform metric_rule some_response 60000))
    ⊎ (¬ (some_response.result_type ≡ "vector")
        × (map_metric_result_to_alerts some_platform metric_rule some_response 60000 ≡ []))
map_metric_result_to_alerts-AreSelected_example =
    map_metric_result_to_alerts-AreSelected some_platform metric_rule 60000 some_response
