-- ===== src/Worker/Tests.antt =====
-- A file of one alert, and a batch of two records of which one cannot be read.
use junando.Common.{String, none, refl, [], ◌∷◌, ◌≡◌, ◌<◌, true, List}
use junando.Common.Text.{trim, to_lower_case, slice_to}
use junando.Common.Assoc.{lookup}
use junando.Common.Lists.{length}
use junando.Common.Split.{split}
use junando.Domain.Alert.{NormalizedAlert, error, firing}
use junando.Incident.Exec.{Ends}
use junando.Incident.Lifecycle.{phase_of, rests}
use junando.Incident.Tests.{some_settings, failing_ports}
use junando.Worker.Fields.{
  default_csv_column_mapping, parse_row, generate_fingerprint, newline, get_column_value,
  map_severity_to_alert_type, parse_extra_labels, is_iso_text,
}
use junando.Worker.Csv.{Calendar, parse_csv_body, normalize_timestamp}
use junando.Worker.Fields.Rows.{print_row, parse_row-print_row}
use junando.Worker.Csv.Accepted.{AreAlertsOf, parse_csv_body-AreAlertsOf}
use junando.Worker.Handler.{SqsRecord, Platform, parse_failed, handle_records}
use junando.Worker.Handler.Batch.{Aborted, handle_records-order}

parse_row-print_row_example :
    parse_row (print_row "api, v2" ("boom" ∷ [])) ≡ "api, v2" ∷ "boom" ∷ []
unfolding trim
parse_row-print_row_example =
    parse_row-print_row "api, v2" ("boom" ∷ [])
      ((refl, (refl, (refl, (refl, (refl, (refl, (refl, tt))))))), refl)
      (((refl, (refl, (refl, (refl, tt)))), refl), tt)

abbrev some_calendar : Calendar
some_calendar = record {
  to_iso_string = λ ms. "2024-01-01T00:00:00.000Z";
  date_parse = λ s. none;
  now = 1704067200000;
  is_datetime = λ s. true;
}

abbrev csv_body : String
csv_body =
    "service,message,severity,timestamp\napi,boom,error,2024-01-01T00:00:00Z\napi,boom,none,2024-01-01T00:00:00Z"

abbrev csv_alerts : List NormalizedAlert
csv_alerts =
    record {
      fingerprint = generate_fingerprint "api" "boom";
      alert_name = "boom";
      status = firing;
      service_name = "api";
      alert_type = error;
      endpoint_path = "/";
      trace_id = none;
      starts_at = "2024-01-01T00:00:00Z";
      latency_ms = none;
      labels = [];
      annotations = ("source", "csv-adapter") ∷ [];
    }
    ∷ []

parse_csv_body-AreAlertsOf_example :
    (header : String) × (rows : List String) × (split newline (trim csv_body) ≡ header ∷ rows)
    × (0 < length csv_alerts)
    × AreAlertsOf some_calendar default_csv_column_mapping (parse_row header) rows csv_alerts
unfolding split trim get_column_value parse_row map_severity_to_alert_type lookup to_lower_case
    slice_to normalize_timestamp parse_extra_labels is_iso_text
parse_csv_body-AreAlertsOf_example =
    parse_csv_body-AreAlertsOf some_calendar default_csv_column_mapping csv_body csv_alerts
      (unfold parse_csv_body in refl)

abbrev some_platform : Platform
some_platform = record {
  calendar = some_calendar;
  environment = record {
    service_col = none;
    message_col = none;
    severity_col = none;
    timestamp_col = none;
    fingerprint_col = none;
    endpoint_col = none;
    extra_labels = none;
  };
  json_message = λ body. parse_failed;
  random_uuid = λ h. "run";
  sha256_hex = λ s. s;
}

abbrev some_records : List SqsRecord
some_records =
    record { message_id = "1"; body = "{" } ∷ record { message_id = "2"; body = csv_body } ∷ []

handle_records-order_example :
    Ends
      (λ _ h. rests (phase_of h) ≡ true)
      (λ _. Aborted)
      (handle_records some_settings failing_ports some_platform some_records []).0
      (handle_records some_settings failing_ports some_platform some_records []).1
handle_records-order_example =
    handle_records-order some_settings failing_ports some_platform some_records
