-- ===== src/Webhook/Tests.antt =====
-- A signed press of the rollback button, and alerts whose message is over the queue's limit.
use Prim.Native.String
use junando.Common.{String, true, false, none, some, refl, [], ◌∷◌, ◌≡◌, ◌↔◌, if◌then◌else◌}
use junando.Common.Text.{is_empty}
use junando.Logger.Json.{Fields, str, obj, fields_of, get_field}
use junando.Webhook.Button.{parse_rollback_value}
use junando.Common.Lists.{any_of}
use junando.Common.Results.{ok}
use junando.Common.Assoc.{lookup}
use junando.Domain.Alert.{NormalizedAlert, AlertmanagerPayload, error, firing, resolved}
use junando.Domain.Cluster.{AlertCluster, LlmAnalysis, high}
use junando.Webhook.Effects.{
  WebhookEvent, SlackPayload, WebhookConfig, not_json, decoded, handled, Platform,
}
use junando.Webhook.Signature.{verify_slack_signature, verify_slack_signature_iff, IsSigned}
use junando.Webhook.Rollback.{
  handle_rollback_action, is_rollback_authorized, run_rollback, build_rollback_action_request,
}
use junando.Webhook.Permission.{rolls_back}
use junando.Webhook.Pressed.{has_target, pressed, pressed_value, handle_rollback_action-pressed}
use junando.Notifier.Slack.{rollback_button_fields}
use junando.Webhook.Handler.{handle_interactivity, handle_webhook, body_text_of}
use junando.Webhook.Authorized.{IsGenuine, handle_webhook-IsGenuine}

abbrev press : SlackPayload
press = record {
  user_id = some "U1";
  username = none;
  actions = record { action_id = some "trigger_rollback"; value = some "{}" } ∷ [];
  message_ts = none;
  response_url = none;
}

abbrev a_value : Fields
a_value = fields_of (
    ("fingerprint", str "fp")
    ∷ ("serviceName", str "api")
    ∷ ("endpointPath", str "/")
    ∷ ("alertType", str "http_500")
    ∷ ("urgencyLevel", str "high")
    ∷ [])

abbrev slack_config : WebhookConfig
slack_config = record {
  notifier_type = "slack";
  slack_signing_secret = some "s";
  rollback_action_enabled = true;
  rollback_action_allowed_slack_user_ids = some ("U1" ∷ []);
}

-- A keyed hash that is the key behind the text.
abbrev some_platform : Platform
some_platform = record {
  queue_url = "queue";
  now_ms = 1700000100000;
  now_text = "2023-11-14T22:15:00Z";
  random_uuid = "run";
  is_uuid = λ s. false;
  from_base64 = λ s. s;
  form_field = λ s. some s;
  parse_int = λ s. some 1700000000;
  hmac_hex = λ key s. String.◌++◌ s key;
  number_of = λ s. 0;
  slack_payload = λ s. decoded press;
  alert_payload = λ s. not_json;
  json_value = λ s. if is_empty s then none else some (obj a_value);
  load_config = ok slack_config;
  rollback_ms = 5;
  rollback_reply = λ request. handled true "done";
  send_message = λ id. ok tt;
  message_bytes = λ id alerts. 300000;
  serialized_bytes = λ event. 100;
  metrics_text = "";
}

abbrev signed_press : WebhookEvent
signed_press = record {
  raw_path = "/webhook/slack-interactivity";
  headers =
      ("x-slack-signature", "v0=v0:1700000000:bodys")
      ∷ ("x-slack-request-timestamp", "1700000000")
      ∷ [];
  body = some "body";
  is_base64_encoded = false;
}

verify_slack_signature_iff_example :
    (verify_slack_signature some_platform
        (some "v0=v0:1700000000:bodys")
        (some "1700000000")
        "body"
        "s"
      ≡ true)
    ↔ IsSigned some_platform (some "v0=v0:1700000000:bodys") (some "1700000000") "body" "s"
verify_slack_signature_iff_example =
    verify_slack_signature_iff some_platform (some "v0=v0:1700000000:bodys") (some "1700000000")
      "body" "s"

handle_webhook-IsGenuine_example :
    (signed_press.raw_path ≡ "/webhook/slack-interactivity")
    × ((raw : String) × (signed_press.body ≡ some raw)
        × IsGenuine some_platform signed_press (body_text_of some_platform signed_press raw))
unfolding any_of handle_interactivity verify_slack_signature lookup handle_rollback_action
    is_rollback_authorized parse_rollback_value get_field fields_of
handle_webhook-IsGenuine_example =
    handle_webhook-IsGenuine some_platform signed_press (unfold handle_webhook in refl)

abbrev noted_alert : NormalizedAlert
noted_alert = record {
  fingerprint = "fp";
  alert_name = "Errors";
  status = firing;
  service_name = "api";
  alert_type = error;
  endpoint_path = "/";
  trace_id = none;
  starts_at = "2023-11-14T22:15:00Z";
  latency_ms = none;
  labels = [];
  annotations = ("summary", "many errors") ∷ [];
}

-- Two alerts, of which one is resolved.
abbrev a_payload : AlertmanagerPayload
a_payload = record {
  version = "4";
  group_key = "{}:{}";
  truncated_alerts = 0;
  status = firing;
  receiver = "junando";
  group_labels = [];
  common_labels = [];
  common_annotations = [];
  external_url = "";
  alerts =
      record {
        status = firing;
        labels = ("alertname", "Errors") ∷ [];
        annotations = [];
        starts_at = "2023-11-14T22:15:00Z";
        ends_at = "";
        fingerprint = none;
      }
      ∷ record {
        status = resolved;
        labels = [];
        annotations = [];
        starts_at = "2023-11-14T22:15:00Z";
        ends_at = "";
        fingerprint = none;
      }
      ∷ [];
}

abbrev alert_platform : Platform
alert_platform = record some_platform { alert_payload = λ s. decoded a_payload }

abbrev alert_event : WebhookEvent
alert_event = record {
  raw_path = "/webhook/alert";
  headers = [];
  body = some "{}";
  is_base64_encoded = false;
}

abbrev a_cluster : AlertCluster
a_cluster = record {
  fingerprint = "fp";
  service_name = "api";
  alert_type = error;
  endpoint_path = "/orders";
  alert_count = 2;
  representative_trace_ids = [];
  first_seen_at = "";
  latency_p99_ms = none;
  severity = none;
  labels = none;
}

abbrev an_analysis : LlmAnalysis
an_analysis = record {
  probable_cause = "bad deploy";
  impacted_services = "api" ∷ [];
  recommended_steps = "roll back" ∷ [];
  urgency_level = high;
  requires_rollback = true;
}

abbrev reading_platform : Platform
reading_platform = record some_platform {
  json_value =
      λ s. if is_empty s then none else some (obj (rollback_button_fields a_cluster an_analysis));
}

handle_rollback_action-pressed_example :
    (any_of rolls_back (
        handle_rollback_action reading_platform
          (pressed reading_platform press "run" (λ fields. "{}") a_cluster an_analysis)
          press
          "run"
          slack_config)
      ≡ has_target a_cluster)
    × (has_target a_cluster ≡ true
        → handle_rollback_action reading_platform
            (pressed reading_platform press "run" (λ fields. "{}") a_cluster an_analysis)
            press
            "run"
            slack_config
          ≡ run_rollback reading_platform
              (build_rollback_action_request (pressed_value a_cluster an_analysis) press "run")
              press)
handle_rollback_action-pressed_example =
    handle_rollback_action-pressed reading_platform press "run" (λ fields. "{}") a_cluster
      an_analysis slack_config refl refl (unfold is_rollback_authorized any_of in refl)
