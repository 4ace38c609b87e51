-- ===== src/Notifier/Slack.antt =====
-- infrastructure/notifier/slack.adapter.ts: Slack's messages and their request. A message is a JSON value; `JSON.stringify` is a parameter.
use Prim.Native.String
use junando.Common.{
  String, Bool, ◌&&◌, Option, none, some, List, [], ◌∷◌, leb, ltb, or_else, if◌then◌else◌,
}
use junando.Common.Text.{is_empty, slice_to, remove_code, to_upper_case, join}
use junando.Common.Split.{decimal}
use junando.Common.Results.{Result, ok, err}
use junando.Domain.Alert.{alert_type_text}
use junando.Domain.Cluster.{AlertCluster, LlmAnalysis, level_text}
use junando.Incident.Calls.{Thrown, error_object}
use junando.Logger.Json.{Json, str, arr, obj, Fields, field, items_of, fields_of}
use junando.Notifier.Post.{
  post, Answer, rejected, answered, Exchange, Sent, urgency_emoji, numbered, report_outcome,
}

infixr 5 ◌⊕◌
abbrev ◌⊕◌ : String → String → String
s ⊕ t = String.◌++◌ s t

-- An endpoint without a text is "unknown", one of backticks alone is not.
unfoldable pub sanitize_endpoint_path : String → String
sanitize_endpoint_path path =
    if is_empty path then "unknown" else slice_to 200 (remove_code 96 path)

unfoldable pub plain_text : String → Json
plain_text text = obj (fields_of (("type", str "plain_text") ∷ ("text", str text) ∷ []))

unfoldable pub mrkdwn : String → Json
mrkdwn text = obj (fields_of (("type", str "mrkdwn") ∷ ("text", str text) ∷ []))

unfoldable pub header : String → Json
unfolding plain_text
header text = obj (fields_of (("type", str "header") ∷ ("text", plain_text text) ∷ []))

unfoldable pub section : String → Json
unfolding mrkdwn
section text = obj (fields_of (("type", str "section") ∷ ("text", mrkdwn text) ∷ []))

abbrev divider : Json
divider = obj (fields_of (("type", str "divider") ∷ []))

-- A block with buttons.
unfoldable pub actions : List Json → Json
actions buttons =
    obj (fields_of (("type", str "actions") ∷ ("elements", arr (items_of buttons)) ∷ []))

unfoldable pub acknowledge_button : AlertCluster → Json
unfolding plain_text
acknowledge_button cluster = obj (
    fields_of (
      ("type", str "button")
      ∷ ("text", plain_text "✅ Acknowledge")
      ∷ ("style", str "primary")
      ∷ ("action_id", str "acknowledge")
      ∷ ("value", str cluster.fingerprint)
      ∷ []))

-- The object whose JSON text is the value of the rollback button.
unfoldable pub rollback_button_fields : AlertCluster → LlmAnalysis → Fields
rollback_button_fields cluster analysis = fields_of (
    ("fingerprint", str cluster.fingerprint)
    ∷ ("serviceName", str cluster.service_name)
    ∷ ("endpointPath", str cluster.endpoint_path)
    ∷ ("alertType", str (alert_type_text cluster.alert_type))
    ∷ ("urgencyLevel", str (level_text analysis.urgency_level))
    ∷ ("probableCause", str (slice_to 500 analysis.probable_cause))
    ∷ [])

unfoldable pub build_fallback_message : AlertCluster → Fields
unfolding header section actions acknowledge_button sanitize_endpoint_path
build_fallback_message cluster = fields_of (
    (
      "blocks",
      arr (
          items_of (
            header ("⚠\u{fe0f} Incident — " ⊕ cluster.service_name ⊕ " (no AI diagnosis)")
            ∷ section (
                "*"
                ⊕ decimal cluster.alert_count
                ⊕ " alerts* on `"
                ⊕ sanitize_endpoint_path cluster.endpoint_path
                ⊕ "` since "
                ⊕ cluster.first_seen_at
                ⊕ "\nLLM analysis unavailable — manual investigation required.")
            ∷ divider
            ∷ actions (acknowledge_button cluster ∷ [])
            ∷ [])),
    )
    ∷ [])

module _ (stringify : Fields → String) where
  unfoldable pub rollback_button : AlertCluster → LlmAnalysis → Json
  unfolding plain_text
  rollback_button cluster analysis = obj (
      fields_of (
        ("type", str "button")
        ∷ ("text", plain_text "⏪ Trigger Rollback")
        ∷ ("style", str "danger")
        ∷ ("action_id", str "trigger_rollback")
        ∷ ("value", str (stringify (rollback_button_fields cluster analysis)))
        ∷ (
          "confirm",
          obj (
              fields_of (
                ("title", plain_text "Confirm rollback")
                ∷ ("text", plain_text ("Roll back " ⊕ cluster.service_name ⊕ "?"))
                ∷ ("confirm", plain_text "Yes, rollback")
                ∷ ("deny", plain_text "Cancel")
                ∷ [])),
        )
        ∷ []))

  -- The buttons of a message: the one for a rollback only where the diagnosis asks for it.
  unfoldable pub buttons : AlertCluster → LlmAnalysis → List Json
  buttons cluster analysis =
      acknowledge_button cluster
      ∷ (if analysis.requires_rollback then rollback_button cluster analysis ∷ [] else [])

  unfoldable pub build_analysis_message : AlertCluster → LlmAnalysis → Fields
  unfolding buttons
  build_analysis_message cluster analysis =
      let emoji = urgency_emoji analysis.urgency_level in
      fields_of (
        (
          "blocks",
          arr (
              items_of (
                header (emoji ⊕ " Incident — " ⊕ cluster.service_name)
                ∷ obj (
                    fields_of (
                      ("type", str "section")
                      ∷ (
                        "fields",
                        arr (
                            items_of (
                              mrkdwn ("*Service*\n" ⊕ cluster.service_name)
                              ∷ mrkdwn ("*Alerts*\n" ⊕ decimal cluster.alert_count)
                              ∷ mrkdwn
                                  ("*Endpoint*\n" ⊕ sanitize_endpoint_path cluster.endpoint_path)
                              ∷ mrkdwn (
                                  "*Urgency*\n"
                                  ⊕ emoji
                                  ⊕ " "
                                  ⊕ to_upper_case (level_text analysis.urgency_level))
                              ∷ [])),
                      )
                      ∷ []))
                ∷ section ("*Probable cause*\n" ⊕ analysis.probable_cause)
                ∷ section
                    ("*Recommended steps*\n" ⊕ join "\n" (numbered analysis.recommended_steps))
                ∷ divider
                ∷ actions (buttons cluster analysis)
                ∷ [])),
        )
        ∷ [])

  unfoldable pub build_message : AlertCluster → Option LlmAnalysis → Fields
  build_message cluster none = build_fallback_message cluster
  build_message cluster (some analysis) = build_analysis_message cluster analysis

-- What Slack says about a message.
pub record SlackBody : Type 0 where
  pub accepted : Bool
  pub error : Option String

abbrev thrown_error : String → Thrown
thrown_error message = error_object "Error" message none

on_body : Result Thrown SlackBody → Result {0, 0} Thrown (Unit {0})
on_body (err e) = err e
on_body (ok body) =
    if body.accepted
    then ok tt
    else err (thrown_error ("Slack error: " ⊕ or_else body.error "undefined"))

-- The checks of an answer: its status, then its body.
unfoldable pub check_answer : Answer SlackBody → Result {0, 0} Thrown (Unit {0})
unfolding on_body
check_answer (rejected e) = err e
check_answer (answered status body) =
    if leb 200 status && ltb status 300
    then on_body body
    else err (thrown_error ("Slack API error: " ⊕ decimal status))

pub record SlackNotifier : Type 0 where
  pub bot_token : String
  pub channel : String

-- `SlackNotifier.send`. The channel that it is asked for is not read.
unfoldable pub send_slack :
    (Fields → String)
    → SlackNotifier
    → Exchange SlackBody
    → AlertCluster
    → Option LlmAnalysis
    → Option String
    → Sent
send_slack stringify notifier exchange cluster analysis channel =
    report_outcome "slack" (notifier.channel ∷ []) exchange.latency_ms
      (post "https://slack.com/api/chat.postMessage"
          (field "channel" (str notifier.channel) (build_message stringify cluster analysis))
        ∷ [])
      (check_answer exchange.answer)
