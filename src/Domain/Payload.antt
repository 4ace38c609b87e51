-- ===== src/Domain/Payload.antt =====
-- application/dtos/normalize-payload.ts: the webhook's payload as alerts of the domain. `Number` of a
-- latency label and the clock, as a text, are parameters.
use Prim.Native.String
use junando.Common.{
  ℕ, String, Bool, true, false, Option, none, some, List, [], ◌∷◌, map, or_else, or_option,
  if◌then◌else◌,
}
use junando.Common.Lists.{keep}
use junando.Common.Text.{is_empty}
use junando.Common.Assoc.{lookup}
use junando.Domain.Alert.{
  AlertType, error, warning, success, AlertStatus, firing, resolved, NormalizedAlert, RawAlert,
  AlertmanagerPayload,
}

-- `ERROR_TYPE_TO_ALERT_TYPE`
abbrev error_type_to_alert_type : List (String × AlertType)
error_type_to_alert_type =
    ("http_500", error) ∷ ("latency_spike", warning) ∷ ("recovery", success) ∷ []

unfoldable pub to_alert_type : String → AlertType
to_alert_type raw = or_else (lookup raw error_type_to_alert_type) error

is_firing_status : AlertStatus → Bool
is_firing_status firing = true
is_firing_status resolved = false

unfoldable pub is_firing : RawAlert → Bool
unfolding is_firing_status
is_firing a = is_firing_status a.status

-- A label in a template text: one that is absent prints as `undefined`.
abbrev printed : Option String → String
printed o = or_else o "undefined"

module _ (number_of : String → ℕ) (now : String) where
  -- `a.labels['latency_ms'] ? Number(...) : undefined`
  latency_of : Option String → Option ℕ
  latency_of none = none
  latency_of (some s) = if is_empty s then none else some (number_of s)

  unfoldable pub normalize_alert : RawAlert → NormalizedAlert
  unfolding latency_of
  normalize_alert a =
      let label = λ (k : String). lookup k a.labels in
      let annotation = λ (k : String). lookup k a.annotations in
      record {
        fingerprint = or_else a.fingerprint (
            String.◌++◌ (printed (label "alertname"))
              (String.◌++◌ "-" (String.◌++◌ (printed (label "service")) (String.◌++◌ "-" now))));
        alert_name = or_else (label "alertname") "unknown";
        status = a.status;
        service_name = or_else (or_option (label "service") (label "job")) "unknown-service";
        alert_type =
            to_alert_type (or_else (or_option (label "error_type") (label "alertname")) "");
        endpoint_path = or_else (or_option (label "endpoint") (annotation "endpoint")) "/";
        trace_id = or_option (label "trace_id") (annotation "trace_id");
        starts_at = a.starts_at;
        latency_ms = latency_of (label "latency_ms");
        labels = a.labels;
        annotations = a.annotations;
      }

  unfoldable pub normalize_payload : AlertmanagerPayload → List NormalizedAlert
  unfolding normalize_alert is_firing
  normalize_payload payload = map normalize_alert (keep is_firing payload.alerts)
