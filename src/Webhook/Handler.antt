-- ===== src/Webhook/Handler.antt =====
-- `_handler` of the webhook: the routes, Slack's interactions and the alerts of Alertmanager.
use junando.Common.{
  ℕ, String, not, Option, none, some, List, [], ◌∷◌, ◌++◌, map, ◌==◌, if◌then◌else◌, ltb, or_else,
}
use junando.Common.Lists.{length, get_elem?}
use junando.Common.Text.{is_empty, slice_to}
use junando.Common.Assoc.{lookup}
use junando.Common.Results.{Result, ok, err}
use junando.Domain.Alert.{NormalizedAlert, AlertmanagerPayload}
use junando.Domain.Payload.{normalize_payload}
use junando.Logger.Json.{str, num, end, field}
use junando.Webhook.Effects.{
  WebhookEvent, Body, text, json, Response, SlackAction, SlackPayload, WebhookConfig, Decoded,
  not_json, refused, decoded, Effect, count_request, count_received, observe_latency, log_warn,
  publish, run_inline, Platform, Run,
}
use junando.Webhook.Signature.{verify_slack_signature}
use junando.Webhook.Rollback.{handle_rollback_action}

abbrev slack_path : String
slack_path = "/webhook/slack-interactivity"

abbrev alert_path : String
alert_path = "/webhook/alert"

-- An answer behind its count.
unfoldable pub answer : String → String → ℕ → Body → Run
answer endpoint status status_code body = record {
  effects = count_request endpoint status ∷ [];
  reply = ok (record { status_code = status_code; body = body });
}

-- The same, with a warning behind the count.
unfoldable pub refuse : String → ℕ → String → String → Run
refuse status status_code warned body = record {
  effects = count_request slack_path status ∷ log_warn warned ∷ [];
  reply = ok (record { status_code = status_code; body = text body });
}

-- A text that is there and not empty.
abbrev pub truthy : Option String → Option String
truthy none = none
truthy (some s) = if is_empty s then none else some s

abbrev pub max_sqs_message_size : ℕ
max_sqs_message_size = 250000

module _ (platform : Platform) where
  uuid_or_random : Option String → String
  uuid_or_random none = platform.random_uuid
  uuid_or_random (some header) = if platform.is_uuid header then header else platform.random_uuid

  unfoldable pub correlation_id_of : WebhookEvent → String
  unfolding uuid_or_random
  correlation_id_of event = uuid_or_random (truthy (lookup "x-correlation-id" event.headers))

  -- The first action, where it is the rollback button.
  unfoldable pub act_on : Option SlackAction → SlackPayload → String → WebhookConfig → List Effect
  act_on none payload correlation_id config = []
  act_on (some action) payload correlation_id config =
      if or_else action.action_id "" == "trigger_rollback"
      then handle_rollback_action platform action payload correlation_id config
      else []

  unfoldable pub on_payload : Decoded SlackPayload → String → WebhookConfig → Run
  unfolding act_on answer
  on_payload not_json correlation_id config =
      answer slack_path "400" 400 (text "Invalid JSON in payload")
  on_payload (refused issues) correlation_id config =
      answer slack_path "422" 422 (text "Invalid payload schema")
  on_payload (decoded payload) correlation_id config = record {
    effects =
        act_on (get_elem? payload.actions 0) payload correlation_id config
        ++ count_request slack_path "200" ∷ [];
    reply = ok (record { status_code = 200; body = text "" });
  }

  unfoldable pub on_secret :
      Option String → WebhookEvent → String → String → String → WebhookConfig → Run
  unfolding on_payload refuse
  on_secret none event body_text payload_text correlation_id config =
      refuse "400" 400 "Slack signing secret not configured" "Slack signing secret not configured"
  on_secret (some secret) event body_text payload_text correlation_id config =
      if not (
        verify_slack_signature platform (lookup "x-slack-signature" event.headers)
          (lookup "x-slack-request-timestamp" event.headers) body_text secret)
      then refuse "401" 401 "Invalid Slack signature" "Invalid signature"
      else on_payload (platform.slack_payload payload_text) correlation_id config

  unfoldable pub on_config :
      Result String WebhookConfig → WebhookEvent → String → String → String → Run
  unfolding on_secret refuse
  on_config (err e) event body_text payload_text correlation_id = record {
    effects = [];
    reply = err e;
  }
  on_config (ok config) event body_text payload_text correlation_id =
      if not (config.notifier_type == "slack")
      then refuse "400" 400 "Slack interactivity requires Slack notifier"
          "Slack interactivity requires Slack notifier"
      else on_secret (truthy config.slack_signing_secret) event body_text payload_text
          correlation_id config

  unfoldable pub on_form : Option String → WebhookEvent → String → String → Run
  unfolding on_config answer
  on_form none event body_text correlation_id =
      answer slack_path "400" 400 (text "Missing payload parameter")
  on_form (some payload_text) event body_text correlation_id =
      on_config platform.load_config event body_text payload_text correlation_id

  abbrev pub body_text_of : WebhookEvent → String → String
  body_text_of event body = if event.is_base64_encoded then platform.from_base64 body else body

  unfoldable pub on_slack_body : Option String → WebhookEvent → String → Run
  unfolding on_form answer
  on_slack_body none event correlation_id = answer slack_path "400" 400 (text "Missing body")
  on_slack_body (some body) event correlation_id =
      let text = body_text_of event body in
      on_form (truthy (platform.form_field text)) event text correlation_id

  unfoldable pub handle_interactivity : WebhookEvent → String → Run
  unfolding on_slack_body
  handle_interactivity event correlation_id = on_slack_body (truthy event.body) event correlation_id

  -- A copy of the alert whose annotations are cut.
  unfoldable pub cut_annotations : NormalizedAlert → NormalizedAlert
  cut_annotations alert = record alert {
    annotations = map (λ entry. (entry.0, slice_to 1000 entry.1)) alert.annotations;
  }

  -- The alerts as they are published.
  unfoldable pub fitted : String → List NormalizedAlert → List NormalizedAlert
  unfolding cut_annotations
  fitted correlation_id alerts =
      if ltb max_sqs_message_size (platform.message_bytes correlation_id alerts)
      then map cut_annotations alerts
      else alerts

  unfoldable pub accepted_response : ℕ → String → Response
  accepted_response count correlation_id = record {
    status_code = 200;
    body = json (field "accepted" (num count) (field "correlationId" (str correlation_id) end));
  }

  -- What a message that the queue refuses throws goes on.
  unfoldable pub after_publish : Result {0, 0} String Unit → List Effect → Response → Run
  after_publish (ok _) effects response = record {
    effects = effects ++ observe_latency "success" ∷ [];
    reply = ok response;
  }
  after_publish (err e) effects response = record { effects = effects; reply = err e }

  unfoldable pub size_warning : String → List NormalizedAlert → List Effect
  size_warning correlation_id alerts =
      if ltb max_sqs_message_size (platform.message_bytes correlation_id alerts)
      then log_warn "Message truncated due to size limit" ∷ []
      else []

  -- With a queue the alerts are published, and without one the pipeline runs here; what this throws is
  -- caught and counted.
  unfoldable pub pass_on : String → List NormalizedAlert → String → Run
  unfolding fitted after_publish size_warning accepted_response
  pass_on group_key alerts correlation_id =
      let response = accepted_response (length alerts) correlation_id in
      if is_empty platform.queue_url
      then record {
        effects = run_inline alerts correlation_id ∷ observe_latency "success" ∷ [];
        reply = ok response;
      }
      else after_publish (platform.send_message correlation_id)
          (size_warning correlation_id alerts
            ++ publish group_key correlation_id (fitted correlation_id alerts) ∷ [])
          response

  unfoldable pub behind : List Effect → Run → Run
  behind effects run = record run { effects = effects ++ run.effects }

  unfoldable pub on_alerts : String → List NormalizedAlert → String → Run
  unfolding pass_on answer behind
  on_alerts group_key [] correlation_id =
      answer alert_path "200_empty" 200 (json (field "accepted" (num 0) end))
  on_alerts group_key (alert ∷ alerts) correlation_id =
      behind (count_received (length (alert ∷ alerts)) ∷ count_request alert_path "200" ∷ [])
        (pass_on group_key (alert ∷ alerts) correlation_id)

  unfoldable pub on_alert_payload : Decoded AlertmanagerPayload → String → Run
  unfolding on_alerts answer
  on_alert_payload not_json correlation_id =
      answer alert_path "400" 400 (json (field "error" (str "Invalid JSON") end))
  on_alert_payload (refused issues) correlation_id = record {
    effects = count_request alert_path "422" ∷ observe_latency "error" ∷ [];
    reply = ok (record {
      status_code = 422;
      body = json (field "error" (str "Invalid payload") (field "issues" (str issues) end));
    });
  }
  on_alert_payload (decoded payload) correlation_id =
      on_alerts payload.group_key (normalize_payload platform.number_of platform.now_text payload)
        correlation_id

  unfoldable pub on_alert_body : Option String → String → Run
  unfolding on_alert_payload answer
  on_alert_body none correlation_id =
      answer alert_path "400" 400 (json (field "error" (str "Empty body") end))
  on_alert_body (some body) correlation_id =
      on_alert_payload (platform.alert_payload body) correlation_id

  -- `_handler`
  unfoldable pub handle_webhook : WebhookEvent → Run
  unfolding answer on_alert_body
  handle_webhook event =
      let correlation_id = correlation_id_of event in
      if event.raw_path == "/health"
      then answer "/health" "200" 200
          (json (field "status" (str "ok") (field "service" (str "junando-webhook") end)))
      else if event.raw_path == "/metrics"
      then answer "/metrics" "200" 200 (text platform.metrics_text)
      else if event.raw_path == slack_path
      then handle_interactivity event correlation_id
      else on_alert_body (truthy event.body) correlation_id
