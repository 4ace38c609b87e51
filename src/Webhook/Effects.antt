-- ===== src/Webhook/Effects.antt =====
-- What the webhook's handler does to the outside, what it is given, and what it answers.
use junando.Common.{ℕ, String, Bool, Option, List}
use junando.Common.Results.{Result}
use junando.Domain.Alert.{AlertType, NormalizedAlert, AlertmanagerPayload}
use junando.Domain.Cluster.{Level}
use junando.Logger.Json.{Json, Fields}

-- The parts of `APIGatewayProxyEventV2` that are read.
pub record WebhookEvent : Type 0 where
  pub raw_path : String
  pub headers : List (String × String)
  pub body : Option String
  pub is_base64_encoded : Bool

-- The body of an answer: a text, or the JSON text of an object.
pub data Body : Type 0 where
  text : String → Body
  json : Fields → Body

-- `APIGatewayProxyResultV2`, less its headers.
pub record Response : Type 0 where
  pub status_code : ℕ
  pub body : Body

-- An element of `actions` in `SlackInteractivityPayloadSchema`.
pub record SlackAction : Type 0 where
  pub action_id : Option String
  pub value : Option String

-- `SlackInteractivityPayloadSchema`, less what is not read.
pub record SlackPayload : Type 0 where
  pub user_id : Option String
  pub username : Option String
  pub actions : List SlackAction
  pub message_ts : Option String
  pub response_url : Option String

-- `RollbackButtonValueSchema`
pub record RollbackButtonValue : Type 0 where
  pub fingerprint : String
  pub service_name : String
  pub endpoint_path : String
  pub alert_type : AlertType
  pub urgency_level : Level
  pub probable_cause : Option String

-- `RollbackActionRequest`, from Slack.
pub record RollbackActionRequest : Type 0 where
  pub fingerprint : String
  pub service_name : String
  pub endpoint_path : String
  pub alert_type : AlertType
  pub urgency_level : Level
  pub probable_cause : Option String
  pub triggered_by_id : Option String
  pub triggered_by_username : Option String
  pub correlation_id : String
  pub message_ts : Option String

-- How the race of the rollback handler with its timeout ends.
pub data RollbackReply : Type 0 where
  handled : Bool → String → RollbackReply
  threw : String → RollbackReply
  timed_out : RollbackReply

-- The part of `Config` that is read.
pub record WebhookConfig : Type 0 where
  pub notifier_type : String
  pub slack_signing_secret : Option String
  pub rollback_action_enabled : Bool
  pub rollback_action_allowed_slack_user_ids : Option (List String)

-- What a text is decoded to, by `JSON.parse` and a schema.
pub data Decoded (A : Type 0) : Type 0 where
  not_json : Decoded A
  refused : String → Decoded A
  decoded : A → Decoded A

-- What the handler does, in order. Lines that are logged as information are left out, but for the event
-- of a rollback.
pub data Effect : Type 0 where
  count_request : String → String → Effect
  count_received : ℕ → Effect
  observe_latency : String → Effect
  log_warn : String → Effect
  log_info : Fields → Effect
  slack_message : String → String → Effect
  handle_rollback : RollbackActionRequest → Effect
  publish : String → String → List NormalizedAlert → Effect
  run_inline : List NormalizedAlert → String → Effect

-- The platform, the environment and what the services answer. `send_message` is the queue's reply to a
-- message with a correlation id, `json_value` is `JSON.parse`, and `rollback_ms` the time that the rollback handler took.
pub record Platform : Type 0 where
  pub queue_url : String
  pub now_ms : ℕ
  pub now_text : String
  pub random_uuid : String
  pub is_uuid : String → Bool
  pub from_base64 : String → String
  pub form_field : String → Option String
  pub parse_int : String → Option ℕ
  pub hmac_hex : String → String → String
  pub number_of : String → ℕ
  pub slack_payload : String → Decoded SlackPayload
  pub alert_payload : String → Decoded AlertmanagerPayload
  pub json_value : String → Option Json
  pub load_config : Result {0, 0} String WebhookConfig
  pub rollback_ms : ℕ
  pub rollback_reply : RollbackActionRequest → RollbackReply
  pub send_message : String → Result {0, 0} String Unit
  pub message_bytes : String → List NormalizedAlert → ℕ
  pub serialized_bytes : Fields → ℕ
  pub metrics_text : String

-- The end of a request: an answer or a throw, and the effects.
pub record Run : Type 0 where
  pub effects : List Effect
  pub reply : Result {0, 0} String Response
