-- ===== src/Webhook/Rollback.antt =====
-- The rollback button of Slack: who may press it, and what pressing it does.
use Prim.Native.String
use junando.Common.{
  String, Bool, true, false, not, Option, none, some, List, [], ◌∷◌, ◌++◌, ◌==◌, if◌then◌else◌,
  or_else,
}
use junando.Common.Lists.{any_of}
use junando.Common.Text.{is_empty}
use junando.Common.Results.{Result, ok, err}
use junando.Logger.Json.{Fields, str, obj, num, end, field}
use junando.Logger.Builder.{new_builder, set, flush, rollback, Key, Outcome, outcome_text, failed}
use junando.Webhook.Button.{parse_rollback_value}
use junando.Webhook.Effects.{
  Platform, WebhookConfig, SlackPayload, SlackAction, RollbackButtonValue, RollbackActionRequest,
  RollbackReply, handled, threw, timed_out, Effect, slack_message, handle_rollback, log_warn,
  log_info,
}

-- `if (allowed && allowed.length > 0 && !allowed.includes(...))`
unfoldable pub is_listed : Option (List String) → String → Bool
is_listed none user = true
is_listed (some []) user = true
is_listed (some (u ∷ us)) user = any_of (λ x. x == user) (u ∷ us)

-- `ok` with nothing, or the reason.
unfoldable pub is_rollback_authorized : SlackPayload → WebhookConfig → Result String (Unit {0})
unfolding is_listed
is_rollback_authorized payload config =
    if not (config.notifier_type == "slack")
    then err "Rollback actions are only available with Slack notifier"
    else if not config.rollback_action_enabled
    then err "Rollback actions are disabled"
    else if not
        (is_listed config.rollback_action_allowed_slack_user_ids (or_else payload.user_id ""))
    then err "You are not authorized to trigger rollback actions"
    else ok tt

-- `sendSlackEphemeral`: without an address it is a warning. What the request throws is caught.
unfoldable pub send_slack_ephemeral : Option String → String → List Effect
send_slack_ephemeral none text =
    log_warn "No Slack response_url available; skipping rollback result message" ∷ []
send_slack_ephemeral (some url) text =
    if is_empty url
    then log_warn "No Slack response_url available; skipping rollback result message" ∷ []
    else slack_message url text ∷ []

unfoldable pub build_rollback_action_request :
    RollbackButtonValue → SlackPayload → String → RollbackActionRequest
build_rollback_action_request parsed payload correlation_id = record {
  fingerprint = parsed.fingerprint;
  service_name = parsed.service_name;
  endpoint_path = parsed.endpoint_path;
  alert_type = parsed.alert_type;
  urgency_level = parsed.urgency_level;
  probable_cause = parsed.probable_cause;
  triggered_by_id = payload.user_id;
  triggered_by_username = payload.username;
  correlation_id = correlation_id;
  message_ts = payload.message_ts;
}

-- `RollbackActionResult`, and the outcome of the event.
pub record RollbackResult : Type 0 where
  pub succeeded : Bool
  pub message : String
  pub outcome : String

unfoldable pub result_of : RollbackReply → RollbackResult
result_of (handled succeeded message) = record {
  succeeded = succeeded;
  message = message;
  outcome = "ok";
}
result_of (threw message) = record { succeeded = false; message = message; outcome = "error" }
result_of timed_out = record {
  succeeded = false;
  message = "Rollback handler timed out.";
  outcome = "error";
}

module _ (platform : Platform) where
  rollback_event : String → RollbackResult → Fields
  rollback_event correlation_id result = flush platform.serialized_bytes platform.now_text (
      set Key.duration_ms (num platform.rollback_ms) (
        set Key.rollback
          (obj (
            field "actionId" (str "trigger_rollback") (
              field "channel" (str "slack") (
                field "outcome" (str result.outcome)
                  (field "handlerMessage" (str result.message) end)))))
          (set Key.outcome
            (str (outcome_text (if result.succeeded then Outcome.success else failed)))
            (new_builder correlation_id rollback))))

  result_text : RollbackResult → String
  result_text result =
      if result.succeeded
      then String.◌++◌ "✅ Rollback action completed: " result.message
      else String.◌++◌ "❌ Rollback action failed: " result.message

  unfoldable pub run_rollback : RollbackActionRequest → SlackPayload → List Effect
  unfolding rollback_event result_text result_of
  run_rollback request payload =
      let result = result_of (platform.rollback_reply request) in
      handle_rollback request
      ∷ log_info (rollback_event request.correlation_id result)
      ∷ send_slack_ephemeral payload.response_url (result_text result)

  unfoldable pub with_value : Option RollbackButtonValue → SlackPayload → String → List Effect
  unfolding run_rollback
  with_value none payload correlation_id =
      log_warn "Invalid rollback action value"
      ∷ send_slack_ephemeral payload.response_url "❌ Invalid rollback action value"
  with_value (some parsed) payload correlation_id =
      run_rollback (build_rollback_action_request parsed payload correlation_id) payload

  -- The warning of `parseRollbackValue`, for a value that is no JSON or that the schema refuses.
  unfoldable pub parse_warning : Option RollbackButtonValue → List Effect
  parse_warning none = log_warn "Invalid rollback button value" ∷ []
  parse_warning (some parsed) = []

  -- An absent or empty value is refused before it is parsed.
  unfoldable pub on_value : Option String → SlackPayload → String → List Effect
  unfolding with_value parse_warning
  on_value none payload correlation_id = with_value none payload correlation_id
  on_value (some value) payload correlation_id =
      if is_empty value
      then with_value none payload correlation_id
      else parse_warning (parse_rollback_value platform value)
        ++ with_value (parse_rollback_value platform value) payload correlation_id

  unfoldable pub when_authorized :
      Result String (Unit {0}) → SlackAction → SlackPayload → String → List Effect
  unfolding on_value
  when_authorized (err reason) action payload correlation_id =
      log_warn "Unauthorized rollback attempt"
      ∷ send_slack_ephemeral payload.response_url (String.◌++◌ "❌ " reason)
  when_authorized (ok _) action payload correlation_id =
      on_value action.value payload correlation_id

  unfoldable pub handle_rollback_action :
      SlackAction → SlackPayload → String → WebhookConfig → List Effect
  unfolding when_authorized
  handle_rollback_action action payload correlation_id config =
      when_authorized (is_rollback_authorized payload config) action payload correlation_id
