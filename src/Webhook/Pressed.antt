-- ===== src/Webhook/Pressed.antt =====
-- What the webhook makes of a press of the button that Slack's adapter renders.
use junando.Common.{
  String, Bool, true, false, not, ◌&&◌, none, some, ◌≡◌, refl, arith, if◌then◌else◌, Bool-cases,
  inl, inr,
}
use junando.Common.Lists.{any_of}
use junando.Common.Text.{is_empty, slice_to}
use junando.Common.Results.{ok}
use junando.Domain.Alert.{AlertType, error, warning, success, alert_type_text}
use junando.Domain.Cluster.{
  Level, critical, high, medium, low, level_text, AlertCluster, LlmAnalysis,
}
use junando.Logger.Json.{str, obj, Fields, get_field, fields_of}
use junando.Notifier.Slack.{rollback_button_fields}
use junando.Webhook.Effects.{
  SlackAction, SlackPayload, WebhookConfig, RollbackButtonValue, Platform,
}
use junando.Webhook.Button.{
  non_empty_text, alert_type_of, urgency_level_of, check_button, parse_rollback_value,
}
use junando.Webhook.Rollback.{
  is_rollback_authorized, build_rollback_action_request, run_rollback, with_value, parse_warning,
  on_value, when_authorized, handle_rollback_action,
}
use junando.Webhook.Permission.{rolls_back, send_slack_ephemeral-rolls_back}

alert_type_of-alert_type_text :
    (t : AlertType) → alert_type_of (some (str (alert_type_text t))) ≡ some t
unfolding alert_type_of alert_type_text
alert_type_of-alert_type_text error = refl
alert_type_of-alert_type_text warning = refl
alert_type_of-alert_type_text success = refl

urgency_level_of-level_text : (l : Level) → urgency_level_of (some (str (level_text l))) ≡ some l
unfolding urgency_level_of level_text
urgency_level_of-level_text critical = refl
urgency_level_of-level_text high = refl
urgency_level_of-level_text medium = refl
urgency_level_of-level_text low = refl

-- The cluster has the texts that a rollback is asked for by.
abbrev pub has_target : AlertCluster → Bool
has_target cluster =
    not (is_empty cluster.fingerprint)
    && (not (is_empty cluster.service_name) && not (is_empty cluster.endpoint_path))

-- The button of a cluster, as it is read back.
abbrev pub pressed_value : AlertCluster → LlmAnalysis → RollbackButtonValue
pressed_value cluster analysis = record {
  fingerprint = cluster.fingerprint;
  service_name = cluster.service_name;
  endpoint_path = cluster.endpoint_path;
  alert_type = cluster.alert_type;
  urgency_level = analysis.urgency_level;
  probable_cause = some (slice_to 500 analysis.probable_cause);
}

check_button-rollback_button_fields :
    (cluster : AlertCluster) (analysis : LlmAnalysis)
    → check_button (some (obj (rollback_button_fields cluster analysis)))
      ≡ (if has_target cluster then some (pressed_value cluster analysis) else none)
unfolding check_button rollback_button_fields get_field fields_of non_empty_text
check_button-rollback_button_fields cluster analysis =
    rw
      (
        alert_type_of-alert_type_text cluster.alert_type,
        urgency_level_of-level_text analysis.urgency_level,
      )
      (ground arith)

module _ (platform : Platform) (payload : SlackPayload) (correlation_id : String) where
  on_value-refused :
      (value : String)
      → parse_rollback_value platform value ≡ none
      → any_of rolls_back (on_value platform (some value) payload correlation_id) ≡ false
  unfolding on_value with_value parse_warning any_of
  on_value-refused value refused =
      let silent = send_slack_ephemeral-rolls_back payload.response_url _ in
      elim (Bool-cases (is_empty value)) [
        | inl nothing ↦ rw nothing silent
        | inr something ↦ rw (something, refused) silent
      ]

  on_value-parsed :
      (value : String) (v : RollbackButtonValue)
      → platform.json_value "" ≡ none
      → parse_rollback_value platform value ≡ some v
      → on_value platform (some value) payload correlation_id
        ≡ run_rollback platform (build_rollback_action_request v payload correlation_id) payload
  unfolding on_value with_value parse_warning parse_rollback_value check_button
  on_value-parsed String.[] v no_json parsed =
      let gone : none ≡ some v = rw no_json at parsed in absurd (cc gone)
  on_value-parsed (String.◌∷◌ c s) v no_json parsed = rw parsed refl

  module _ (stringify : Fields → String) (cluster : AlertCluster) (analysis : LlmAnalysis) where
    -- The action that Slack sends for the button of a message.
    abbrev pub pressed : SlackAction
    pressed = record {
      action_id = some "trigger_rollback";
      value = some (stringify (rollback_button_fields cluster analysis));
    }

    -- Where `JSON.parse` refuses the empty text and reads the button's object back from its text, and the
    -- presser is authorized: a press of the button that Slack's adapter renders for a cluster and a diagnosis
    -- runs a rollback exactly if the cluster's fingerprint, service name and endpoint path are not empty, and then what
    -- the webhook does is the rollback of that fingerprint, service, endpoint, alert type and urgency, with
    -- the first 500 characters of the probable cause.
    pub handle_rollback_action-pressed :
        (config : WebhookConfig)
        → platform.json_value "" ≡ none
        → platform.json_value (stringify (rollback_button_fields cluster analysis))
          ≡ some (obj (rollback_button_fields cluster analysis))
        → is_rollback_authorized payload config ≡ ok tt
        → (any_of rolls_back (handle_rollback_action platform pressed payload correlation_id config)
            ≡ has_target cluster)
          × (has_target cluster ≡ true
              → handle_rollback_action platform pressed payload correlation_id config
                ≡ run_rollback platform
                    (build_rollback_action_request
                      (pressed_value cluster analysis)
                      payload
                      correlation_id)
                    payload)
    unfolding handle_rollback_action when_authorized
    handle_rollback_action-pressed config no_json read_back authorized =
        rw authorized (elim (Bool-cases (has_target cluster)) [
          | inl target ↦
              let runs =
                on_value-parsed _ (pressed_value cluster analysis) no_json (rw target at parsed) in
              (rw (runs, target) (unfold run_rollback any_of in refl), λ _. runs)
          | inr lacking ↦ (
            rw lacking (on_value-refused _ (rw lacking at parsed)),
            λ target. absurd (cc (lacking, target)),
          )
        ])
      where
        parsed :
            parse_rollback_value platform (stringify (rollback_button_fields cluster analysis))
            ≡ (if has_target cluster then some (pressed_value cluster analysis) else none)
        parsed =
            unfold parse_rollback_value in
            rw read_back (check_button-rollback_button_fields cluster analysis)
