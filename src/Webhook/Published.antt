-- ===== src/Webhook/Published.antt =====
-- What the webhook's handler publishes to the queue.
use junando.Common.{◌≤◌, String, false, some, List, [], ◌∷◌, ◌≡◌}
use junando.Common.Lists.{length}
use junando.Common.Text.{is_empty}
use junando.Domain.Alert.{NormalizedAlert, AlertmanagerPayload}
use junando.Domain.Payload.{normalize_payload}
use junando.Webhook.Effects.{WebhookEvent, decoded, Platform}
use junando.Webhook.Handler.{correlation_id_of, fitted}

module _ (platform : Platform) where
  abbrev pub alerts_of : AlertmanagerPayload → List NormalizedAlert
  alerts_of payload = normalize_payload platform.number_of platform.now_text payload

  -- The one message of a payload.
  abbrev pub message_of : AlertmanagerPayload → String → String × String × List NormalizedAlert
  message_of payload correlation_id =
      (payload.group_key, correlation_id, fitted platform correlation_id (alerts_of payload))

  -- A message that comes from a request's payload, of which an alert fires, behind a queue.
  pub record IsPublication (event : WebhookEvent)
      (messages : List (String × String × List NormalizedAlert)) : Type 0 where
    pub raw : String
    pub payload : AlertmanagerPayload
    pub posted : event.body ≡ some raw
    pub parsed : platform.alert_payload raw ≡ decoded payload
    pub queue : is_empty platform.queue_url ≡ false
    pub fires : 1 ≤ length (alerts_of payload)
    pub sole : messages ≡ message_of payload (correlation_id_of platform event) ∷ []
