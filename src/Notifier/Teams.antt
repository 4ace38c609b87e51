-- ===== src/Notifier/Teams.antt =====
-- infrastructure/notifier/teams.adapter.ts: the cards of Microsoft Teams and their request. A URL is
-- parsed by the platform.
use Prim.Native.String
use junando.Common.{
  ℕ, String, true, ◌&&◌, Option, none, some, List, [], ◌∷◌, map, ◌==◌, leb, ltb, or_else,
  if◌then◌else◌,
}
use junando.Common.Text.{join}
use junando.Common.Split.{decimal}
use junando.Common.Results.{Result, ok, err}
use junando.Domain.Cluster.{AlertCluster, LlmAnalysis, level_text}
use junando.Incident.Calls.{Thrown, error_object, other_value}
use junando.Logger.Json.{Json, bool, str, arr, obj, Fields, items_of, fields_of}
use junando.Notifier.Sanitize.{sanitize_text}
use junando.Notifier.Post.{
  post, Answer, rejected, answered, Exchange, Sent, urgency_emoji, numbered, report_outcome,
}

infixr 5 ◌⊕◌
abbrev ◌⊕◌ : String → String → String
s ⊕ t = String.◌++◌ s t

-- `sanitizeText(s)`
abbrev pub sanitized : String → String
sanitized s = sanitize_text s 4000

abbrev text_block : String → List (String × Json) → Json
text_block text more = obj (fields_of (("type", str "TextBlock") ∷ ("text", str text) ∷ more))

abbrev wrapped : List (String × Json)
wrapped = ("wrap", bool true) ∷ []

abbrev bolder : List (String × Json)
bolder = ("weight", str "Bolder") ∷ wrapped

abbrev fact : String → String → Json
fact title value = obj (fields_of (("title", str title) ∷ ("value", str value) ∷ []))

unfoldable pub fact_set : List Json → Json
fact_set facts = obj (fields_of (("type", str "FactSet") ∷ ("facts", arr (items_of facts)) ∷ []))

-- What every card is made of, and its link.
unfoldable pub card : AlertCluster → List Json → Fields
card cluster body = fields_of (
    ("$schema", str "http://adaptivecards.io/schemas/adaptive-card.json")
    ∷ ("type", str "AdaptiveCard")
    ∷ ("version", str "1.5")
    ∷ ("body", arr (items_of body))
    ∷ (
      "actions",
      arr (
          items_of (
            obj (
              fields_of (
                ("type", str "Action.OpenUrl")
                ∷ ("title", str "View in Junando")
                ∷ ("url", str ("https://app.junando.io/clusters/" ⊕ cluster.fingerprint))
                ∷ []))
            ∷ [])),
    )
    ∷ [])

unfoldable pub build_analysis_card : AlertCluster → LlmAnalysis → Fields
unfolding card fact_set sanitize_text
build_analysis_card cluster analysis =
    let emoji = urgency_emoji analysis.urgency_level in
    let safe_name = sanitized cluster.service_name in
    card cluster (
      text_block (emoji ⊕ " Incident — " ⊕ safe_name) (("size", str "Large") ∷ bolder)
      ∷ fact_set (
          fact "Service" safe_name
          ∷ fact "Alerts" (decimal cluster.alert_count)
          ∷ fact "Endpoint" (sanitized cluster.endpoint_path)
          ∷ fact "Urgency" (emoji ⊕ " " ⊕ level_text analysis.urgency_level)
          ∷ [])
      ∷ text_block "**Probable cause**" bolder
      ∷ text_block (sanitized analysis.probable_cause) wrapped
      ∷ text_block "**Recommended steps**" bolder
      ∷ text_block (join "\n" (numbered (map sanitized analysis.recommended_steps))) wrapped
      ∷ [])

unfoldable pub build_fallback_card : AlertCluster → Fields
unfolding card fact_set sanitize_text
build_fallback_card cluster =
    let safe_name = sanitized cluster.service_name in
    card cluster (
      text_block ("⚠\u{fe0f} Incident — " ⊕ safe_name ⊕ " (no AI diagnosis)")
        (("size", str "Large") ∷ bolder)
      ∷ fact_set (fact "Service" safe_name ∷ fact "Alerts" (decimal cluster.alert_count) ∷ [])
      ∷ [])

unfoldable pub build_adaptive_card_payload : Fields → Fields
build_adaptive_card_payload content = fields_of (
    ("type", str "message")
    ∷ (
      "attachments",
      arr (
          items_of (
            obj (
              fields_of (
                ("contentType", str "application/vnd.microsoft.card.adaptive")
                ∷ ("content", obj content)
                ∷ []))
            ∷ [])),
    )
    ∷ [])

pub record TeamsNotifier : Type 0 where
  pub webhook_url : String
  pub timeout_ms : ℕ
  pub host_for_errors : String

-- The constructor; `hostname` is `new URL(...).hostname`, `none` where it throws.
unfoldable pub new_teams_notifier : (String → Option String) → String → ℕ → TeamsNotifier
new_teams_notifier hostname webhook_url timeout_ms = record {
  webhook_url = webhook_url;
  timeout_ms = timeout_ms;
  host_for_errors = or_else (hostname webhook_url) "unknown";
}

abbrev teams_error : String → Thrown
teams_error message = error_object "TeamsNotifierError" message none

-- The checks of the answer, and what the `catch` makes of an abort.
unfoldable pub check_answer : TeamsNotifier → Answer Unit → Result {0, 0} Thrown (Unit {0})
check_answer notifier (answered status _) =
    if leb 200 status && ltb status 300
    then ok tt
    else err (
        teams_error
          ("Teams webhook error " ⊕ decimal status ⊕ " (host: " ⊕ notifier.host_for_errors ⊕ ")"))
check_answer notifier (rejected (error_object name message stack)) =
    if name == "AbortError"
    then err (
        teams_error (
          "Teams webhook timed out after "
          ⊕ decimal notifier.timeout_ms
          ⊕ "ms (host: "
          ⊕ notifier.host_for_errors
          ⊕ ")"))
    else err (error_object name message stack)
check_answer notifier (rejected (other_value text)) = err (other_value text)

unfoldable pub build_card : AlertCluster → Option LlmAnalysis → Fields
build_card cluster none = build_fallback_card cluster
build_card cluster (some analysis) = build_analysis_card cluster analysis

-- `TeamsNotifier.send`
unfoldable pub send_teams :
    TeamsNotifier → Exchange Unit → AlertCluster → Option LlmAnalysis → Option String → Sent
unfolding build_card build_adaptive_card_payload
send_teams notifier exchange cluster analysis channel =
    report_outcome "teams" ("teams" ∷ []) exchange.latency_ms
      (post notifier.webhook_url (build_adaptive_card_payload (build_card cluster analysis)) ∷ [])
      (check_answer notifier exchange.answer)
