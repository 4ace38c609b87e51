-- ===== src/Webhook/Silent.antt =====
-- The messages among the effects of the webhook's handler, and what its Slack route makes of them.
use junando.Common.{
  String, Option, none, some, List, [], ◌∷◌, ◌++◌, ◌==◌, ◌≡◌, ◌∙◌, refl, ap, Bool-cases, inl, inr,
  or_else,
}
use junando.Common.Assoc.{lookup}
use junando.Common.Lists.{get_elem?}
use junando.Common.Text.{is_empty}
use junando.Common.Results.{Result, ok, err}
use junando.Domain.Alert.{NormalizedAlert}
use junando.Webhook.Effects.{
  WebhookEvent, SlackAction, SlackPayload, WebhookConfig, RollbackButtonValue, Decoded, not_json,
  refused, decoded, Effect, count_request, count_received, observe_latency, log_warn, log_info,
  slack_message, handle_rollback, publish, run_inline, Platform,
}
use junando.Webhook.Button.{parse_rollback_value}
use junando.Webhook.Signature.{verify_slack_signature}
use junando.Webhook.Rollback.{
  is_rollback_authorized, send_slack_ephemeral, run_rollback, with_value, parse_warning, on_value,
  when_authorized, handle_rollback_action,
}
use junando.Webhook.Handler.{
  handle_interactivity, truthy, answer, refuse, act_on, on_payload, on_secret, on_config, on_form,
  on_slack_body,
}

-- The message group, the correlation id and the alerts of the messages, in order.
abbrev pub published : List Effect → List (String × String × List NormalizedAlert)
published [] = []
published (publish group_key correlation_id alerts ∷ effects) =
    (group_key, correlation_id, alerts) ∷ published effects
published (count_request endpoint status ∷ effects) = published effects
published (count_received n ∷ effects) = published effects
published (observe_latency status ∷ effects) = published effects
published (log_warn text ∷ effects) = published effects
published (log_info event ∷ effects) = published effects
published (slack_message url text ∷ effects) = published effects
published (handle_rollback request ∷ effects) = published effects
published (run_inline alerts correlation_id ∷ effects) = published effects

pub published-append : (xs ys : List Effect) → published (xs ++ ys) ≡ published xs ++ published ys
published-append [] ys = refl
published-append (publish g c alerts ∷ xs) ys = ap (◌∷◌ (g, c, alerts)) (published-append xs ys)
published-append (count_request endpoint status ∷ xs) ys = published-append xs ys
published-append (count_received n ∷ xs) ys = published-append xs ys
published-append (observe_latency status ∷ xs) ys = published-append xs ys
published-append (log_warn text ∷ xs) ys = published-append xs ys
published-append (log_info event ∷ xs) ys = published-append xs ys
published-append (slack_message url text ∷ xs) ys = published-append xs ys
published-append (handle_rollback request ∷ xs) ys = published-append xs ys
published-append (run_inline alerts correlation_id ∷ xs) ys = published-append xs ys

send_slack_ephemeral-silent :
    (url : Option String) (text : String) → published (send_slack_ephemeral url text) ≡ []
unfolding send_slack_ephemeral
send_slack_ephemeral-silent none text = refl
send_slack_ephemeral-silent (some url) text = elim (Bool-cases (is_empty url)) [
  | inl nothing ↦ rw nothing refl
  | inr something ↦ rw something refl
]

module _ (platform : Platform) where
  with_value-silent :
      (o : Option RollbackButtonValue) (payload : SlackPayload) (correlation_id : String)
      → published (with_value platform o payload correlation_id) ≡ []
  unfolding with_value run_rollback
  with_value-silent none payload correlation_id = send_slack_ephemeral-silent payload.response_url _
  with_value-silent (some value) payload correlation_id =
      send_slack_ephemeral-silent payload.response_url _

  on_value-silent :
      (o : Option String) (payload : SlackPayload) (correlation_id : String)
      → published (on_value platform o payload correlation_id) ≡ []
  unfolding on_value
  on_value-silent none payload correlation_id = with_value-silent none payload correlation_id
  on_value-silent (some value) payload correlation_id = elim (Bool-cases (is_empty value)) [
    | inl nothing ↦ rw nothing (with_value-silent none payload correlation_id)
    | inr something ↦ rw something (parsed (parse_rollback_value platform value))
  ]
    where
      parsed :
          (o : Option RollbackButtonValue)
          → published (parse_warning platform o ++ with_value platform o payload correlation_id)
            ≡ []
      parsed none = unfold parse_warning in with_value-silent none payload correlation_id
      parsed (some v) = unfold parse_warning in with_value-silent (some v) payload correlation_id

  handle_rollback_action-silent :
      (action : SlackAction) (payload : SlackPayload) (correlation_id : String)
      (config : WebhookConfig)
      → published (handle_rollback_action platform action payload correlation_id config) ≡ []
  unfolding handle_rollback_action
  handle_rollback_action-silent action payload correlation_id config =
      of_result (is_rollback_authorized payload config)
    where
      of_result :
          (r : Result {0, 0} String Unit)
          → published (when_authorized platform r action payload correlation_id) ≡ []
      of_result (err reason) =
          unfold when_authorized in send_slack_ephemeral-silent payload.response_url _
      of_result (ok _) =
          unfold when_authorized in on_value-silent action.value payload correlation_id

  act_on-silent :
      (o : Option SlackAction) (payload : SlackPayload) (correlation_id : String)
      (config : WebhookConfig)
      → published (act_on platform o payload correlation_id config) ≡ []
  unfolding act_on
  act_on-silent none payload correlation_id config = refl
  act_on-silent (some action) payload correlation_id config =
      elim (Bool-cases (or_else action.action_id "" == "trigger_rollback")) [
        | inl pressed ↦
            rw pressed (handle_rollback_action-silent action payload correlation_id config)
        | inr other ↦ rw other refl
      ]

  on_payload-silent :
      (d : Decoded SlackPayload) (correlation_id : String) (config : WebhookConfig)
      → published (on_payload platform d correlation_id config).effects ≡ []
  unfolding on_payload answer
  on_payload-silent not_json correlation_id config = refl
  on_payload-silent (refused issues) correlation_id config = refl
  on_payload-silent (decoded payload) correlation_id config =
      published-append (act_on platform (get_elem? payload.actions 0) payload correlation_id config)
        _
      ∙ ap (λ ms. ms ++ [])
          (act_on-silent (get_elem? payload.actions 0) payload correlation_id config)

  on_secret-silent :
      (o : Option String) (event : WebhookEvent) (body text correlation_id : String)
      (config : WebhookConfig)
      → published (on_secret platform o event body text correlation_id config).effects ≡ []
  unfolding on_secret refuse
  on_secret-silent none event body text correlation_id config = refl
  on_secret-silent (some secret) event body text correlation_id config =
      elim (Bool-cases (
        verify_slack_signature platform (lookup "x-slack-signature" event.headers)
          (lookup "x-slack-request-timestamp" event.headers) body secret)) [
            | inl signed ↦
                rw signed (on_payload-silent (platform.slack_payload text) correlation_id config)
            | inr unsigned ↦ rw unsigned refl
          ]

  on_config-silent :
      (r : Result {0, 0} String WebhookConfig) (event : WebhookEvent)
      (body text correlation_id : String)
      → published (on_config platform r event body text correlation_id).effects ≡ []
  unfolding on_config refuse
  on_config-silent (err e) event body text correlation_id = refl
  on_config-silent (ok config) event body text correlation_id =
      elim (Bool-cases (config.notifier_type == "slack")) [
        | inl slack ↦ rw slack (
            on_secret-silent (truthy config.slack_signing_secret) event body text correlation_id
              config)
        | inr other ↦ rw other refl
      ]

  on_form-silent :
      (o : Option String) (event : WebhookEvent) (body correlation_id : String)
      → published (on_form platform o event body correlation_id).effects ≡ []
  unfolding on_form answer
  on_form-silent none event body correlation_id = refl
  on_form-silent (some text) event body correlation_id =
      on_config-silent platform.load_config event body text correlation_id

  pub handle_interactivity-silent :
      (event : WebhookEvent) (correlation_id : String)
      → published (handle_interactivity platform event correlation_id).effects ≡ []
  unfolding handle_interactivity
  handle_interactivity-silent event correlation_id = of_body (truthy event.body)
    where
      of_body :
          (o : Option String)
          → published (on_slack_body platform o event correlation_id).effects ≡ []
      of_body none = unfold on_slack_body answer in refl
      of_body (some raw) = unfold on_slack_body in on_form-silent _ event _ correlation_id
