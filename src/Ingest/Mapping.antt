-- ===== src/Ingest/Mapping.antt =====
-- packages/ingest/src/mapping: the answers of Loki and Prometheus as alerts. The digest, the printer of times
-- and the parse of a log line are parameters; a sample is a natural number, or not finite.
pub mod Windows
pub mod Threshold
use Prim.Native.String
use junando.Common.{
  ℕ, ◌+◌, ◌-◌, ◌*◌, ◌/◌, String, Bool, true, false, not, ◌&&◌, Option, none, some, List, [], ◌∷◌,
  map, ◌==◌, leb, ltb, if◌then◌else◌, or_else,
}
use junando.Common.Assoc.{lookup, remove}
use junando.Common.Split.{decimal}
use junando.Domain.Alert.{AlertType, error, warning, success, NormalizedAlert, firing}

-- `IngestRule`, less what the mapper and the runner do not read.
pub record IngestRule : Type 0 where
  pub name : String
  pub query : String
  pub service : String
  pub alert_type : AlertType
  pub endpoint_path : Option String
  pub window_ms : Option ℕ

-- `LokiStreamResult`: labels, and pairs of a time and a line.
pub record LokiStreamResult : Type 0 where
  pub stream : List (String × String)
  pub values : List (String × String)

-- The four comparators.
pub data Comparator : Type 0 where
  above below at_least at_most : Comparator

abbrev pub comparator_text : Comparator → String
comparator_text above = ">"
comparator_text below = "<"
comparator_text at_least = ">="
comparator_text at_most = "<="

-- `PrometheusRule`, less what the mapper and the runner do not read.
pub record PrometheusRule : Type 0 where
  pub name : String
  pub query : String
  pub service : String
  pub alert_type : AlertType
  pub threshold : ℕ
  pub comparator : Option Comparator
  pub window_ms : Option ℕ

-- `PrometheusInstantResult`, less its time.
pub record PrometheusInstantResult : Type 0 where
  pub metric : List (String × String)
  pub value : String

pub record PrometheusInstantResponse : Type 0 where
  pub result_type : String
  pub result : List PrometheusInstantResult

-- The platform. `trace_id` is the text under `traceId` of a line that is JSON, `parse_float` is `none` where
-- `parseFloat` is not finite.
pub record Platform : Type 0 where
  pub sha256_hex : String → String
  pub to_iso_string : ℕ → String
  pub trace_id : String → Option String
  pub parse_float : String → Option ℕ

abbrev pub default_window_ms : ℕ
default_window_ms = 60000

-- `Math.ceil(nowMs / windowMs) * windowMs`
unfoldable pub ceil_bucket : ℕ → ℕ → ℕ
ceil_bucket window now_ms = (now_ms + (window - 1)) / window * window

-- `Math.floor(nowMs / windowMs) * windowMs`
unfoldable pub floor_bucket : ℕ → ℕ → ℕ
floor_bucket window now_ms = now_ms / window * window

unfoldable pub evaluate : ℕ → Comparator → ℕ → Bool
evaluate value above threshold = ltb threshold value
evaluate value below threshold = ltb value threshold
evaluate value at_least threshold = leb threshold value
evaluate value at_most threshold = leb value threshold

-- The line of the first value.
unfoldable pub first_line : List (String × String) → String
first_line [] = ""
first_line (value ∷ values) = value.1

-- The latency, for a rule of the warning type.
unfoldable pub latency_for : AlertType → ℕ → Option ℕ
latency_for warning value = some value
latency_for error value = none
latency_for success value = none

module _ (platform : Platform) where
  unfoldable pub compute_fingerprint : String → String → ℕ → String
  compute_fingerprint rule_name service window_bucket_end = platform.sha256_hex (
      String.◌++◌ rule_name
        (String.◌++◌ ":" (String.◌++◌ service (String.◌++◌ ":" (decimal window_bucket_end)))))

  -- The alert of one stream.
  unfoldable pub alert_of_stream : IngestRule → ℕ → ℕ → LokiStreamResult → NormalizedAlert
  unfolding first_line
  alert_of_stream rule query_start_ms now_ms stream =
      let service = or_else (lookup "service" stream.stream) rule.service in
      let log_line = first_line stream.values in
      record {
        fingerprint =
            compute_fingerprint rule.name service
              (ceil_bucket (or_else rule.window_ms default_window_ms) now_ms);
        alert_name = rule.name;
        status = firing;
        service_name = service;
        alert_type = rule.alert_type;
        endpoint_path = or_else rule.endpoint_path "";
        trace_id = platform.trace_id log_line;
        starts_at = platform.to_iso_string query_start_ms;
        latency_ms = none;
        labels =
            ("service", service) ∷ ("level", or_else (lookup "level" stream.stream) "unknown") ∷ [];
        annotations = ("message", log_line) ∷ [];
      }

  unfoldable pub map_loki_result_to_alerts :
      IngestRule → List LokiStreamResult → ℕ → ℕ → List NormalizedAlert
  unfolding alert_of_stream
  map_loki_result_to_alerts rule streams query_start_ms now_ms =
      map (alert_of_stream rule query_start_ms now_ms) streams

  -- The alert of one series whose value has passed.
  unfoldable pub alert_of_series :
      PrometheusRule → ℕ → ℕ → PrometheusInstantResult → NormalizedAlert
  unfolding latency_for
  alert_of_series rule now_ms value series =
      let service_name = or_else (lookup "service" series.metric) rule.service in
      record {
        fingerprint =
            compute_fingerprint rule.name service_name
              (floor_bucket (or_else rule.window_ms default_window_ms) now_ms);
        alert_name = rule.name;
        status = firing;
        service_name = service_name;
        alert_type = rule.alert_type;
        endpoint_path = "";
        trace_id = none;
        starts_at = platform.to_iso_string now_ms;
        latency_ms = latency_for rule.alert_type value;
        labels = remove "__name__" series.metric;
        annotations =
            ("threshold", decimal rule.threshold)
            ∷ ("comparator", comparator_text (or_else rule.comparator above))
            ∷ ("value", series.value)
            ∷ [];
      }

  -- One turn of the loop; `none` where the series is skipped.
  unfoldable pub alert_if :
      PrometheusRule → ℕ → PrometheusInstantResult → Option ℕ → Option NormalizedAlert
  unfolding alert_of_series evaluate
  alert_if rule now_ms series none = none
  alert_if rule now_ms series (some value) =
      if evaluate value (or_else rule.comparator above) rule.threshold
      then some (alert_of_series rule now_ms value series)
      else none

  push_alert : Option NormalizedAlert → List NormalizedAlert → List NormalizedAlert
  push_alert none alerts = alerts
  push_alert (some alert) alerts = alert ∷ alerts

  unfoldable pub alerts_of_series :
      PrometheusRule → ℕ → List PrometheusInstantResult → List NormalizedAlert
  unfolding alert_if push_alert
  alerts_of_series rule now_ms [] = []
  alerts_of_series rule now_ms (series ∷ rest) =
      push_alert (alert_if rule now_ms series (platform.parse_float series.value))
        (alerts_of_series rule now_ms rest)

  unfoldable pub map_metric_result_to_alerts :
      PrometheusRule → PrometheusInstantResponse → ℕ → List NormalizedAlert
  unfolding alerts_of_series
  map_metric_result_to_alerts rule response now_ms =
      if not (response.result_type == "vector")
      then []
      else alerts_of_series rule now_ms response.result
