-- ===== src/Triage.antt =====
-- infrastructure/triage/: the cheap classification of a cluster before its diagnosis. What the gateway answers is a
-- parameter.
pub mod Lenient
mod Tests
use Prim.Native.String
use junando.Common.{
  ℕ, String, Option, none, some, List, [], ◌∷◌, ◌==◌, leb, ltb, ◌&&◌, or_else, if◌then◌else◌,
}
use junando.Common.Text.{trim, to_upper_case, to_lower_case}
use junando.Common.Split.{decimal}
use junando.Common.Results.{Result, ok, err}
use junando.Domain.Alert.{alert_type_text}
use junando.Domain.Cluster.{Level, critical, high, medium, low, AlertCluster}
use junando.Logger.Json.{Json, num, str, arr, obj, Fields, items_of, fields_of}

infixr 5 ◌⊕◌
abbrev ◌⊕◌ : String → String → String
s ⊕ t = String.◌++◌ s t

-- How a request ends. A body that is no JSON makes its reading throw; the text in it is absent where the
-- path to it is.
pub data Reply : Type 0 where
  rejected : Reply
  answered : ℕ → Result {0, 0} String (Option String) → Reply

-- What `classify` does.
pub data Effect : Type 0 where
  post : String → Fields → Effect
  log_warn : String → Effect

unfoldable pub is_triage_severity : String → Option Level
is_triage_severity value =
    if value == "low"
    then some low
    else if value == "medium"
    then some medium
    else if value == "high"
    then some high
    else if value == "critical"
    then some critical
    else none

level_or_default : Option Level → Level × List Effect
level_or_default (some level) = (level, [])
level_or_default none = (medium, log_warn "triage:unparseable_response — defaulting to medium" ∷ [])

-- The level that a text names behind its normalisation, or the default and a warning.
on_text : (String → String) → Result {0, 0} String (Option String) → Level × List Effect
unfolding level_or_default is_triage_severity
on_text normalize (err e) = (medium, log_warn "triage:request:error — defaulting to medium" ∷ [])
on_text normalize (ok text) = level_or_default (is_triage_severity (normalize (or_else text "")))

unfoldable pub on_reply : (String → String) → Reply → Level × List Effect
unfolding on_text
on_reply normalize rejected = (medium, log_warn "triage:request:error — defaulting to medium" ∷ [])
on_reply normalize (answered status body) =
    if leb 200 status && ltb status 300
    then on_text normalize body
    else (medium, log_warn "triage:request:failed — defaulting to medium" ∷ [])

abbrev after_post : Effect → Level × List Effect → Level × List Effect
after_post e r = (r.0, e ∷ r.1)

-- `JevTriageProvider.classify`
unfoldable pub jev_state : AlertCluster → String
jev_state cluster =
    "Alert cluster: service="
    ⊕ cluster.service_name
    ⊕ ", alertType="
    ⊕ alert_type_text cluster.alert_type
    ⊕ ", alertCount="
    ⊕ decimal cluster.alert_count
    ⊕ ", endpoint="
    ⊕ cluster.endpoint_path

abbrev severity_criteria : Json
severity_criteria = obj (
    fields_of (
      ("low", str "single low-impact alert, no user-facing impact")
      ∷ ("medium", str "moderate impact, some degradation")
      ∷ ("high", str "significant impact, many alerts or a critical endpoint")
      ∷ ("critical", str "severe outage, high alert count on a critical endpoint")
      ∷ []))

unfoldable pub jev_body : AlertCluster → Fields
unfolding jev_state
jev_body cluster = fields_of (
    ("model", str "typesafe-ai/jev")
    ∷ ("state", str (jev_state cluster))
    ∷ (
      "questions",
      obj (
          fields_of (
            (
              "severity",
              obj (
                  fields_of (
                    ("type", str "choice")
                    ∷ ("instructions", str "Classify the severity of this alert cluster.")
                    ∷ ("criteria", severity_criteria)
                    ∷ [])),
            )
            ∷ [])),
    )
    ∷ [])

unfoldable pub classify_jev : Reply → AlertCluster → Level × List Effect
unfolding on_reply jev_body
classify_jev reply cluster =
    after_post (post "https://ai-gateway.vercel.sh/v1/evaluate" (jev_body cluster))
      (on_reply (λ choice. choice) reply)

-- `VercelGatewayTriageProvider.classify`
unfoldable pub build_triage_prompt : AlertCluster → String
build_triage_prompt cluster =
    "Classify the severity of this alert cluster as exactly one word: LOW, MEDIUM, HIGH, or CRITICAL. No explanation, no punctuation, just the one word.\n\nService: "
    ⊕ cluster.service_name
    ⊕ "\nAlert type: "
    ⊕ alert_type_text cluster.alert_type
    ⊕ "\nAlert count: "
    ⊕ decimal cluster.alert_count
    ⊕ "\nEndpoint: "
    ⊕ cluster.endpoint_path

abbrev chat_message : String → String → Json
chat_message role content = obj (fields_of (("role", str role) ∷ ("content", str content) ∷ []))

unfoldable pub gateway_body : String → AlertCluster → Fields
unfolding build_triage_prompt
gateway_body model cluster = fields_of (
    ("model", str model)
    ∷ ("max_tokens", num 32)
    ∷ (
      "messages",
      arr (
          items_of (
            chat_message "system"
              "You are a strict severity classifier. Respond with exactly one word."
            ∷ chat_message "user" (build_triage_prompt cluster)
            ∷ [])),
    )
    ∷ [])

unfoldable pub normalized : String → String
normalized content = to_lower_case (to_upper_case (trim content))

unfoldable pub classify_gateway : String → Reply → AlertCluster → Level × List Effect
unfolding on_reply gateway_body normalized
classify_gateway model reply cluster =
    after_post
      (post "https://ai-gateway.vercel.sh/v1/chat/completions" (gateway_body model cluster))
      (on_reply normalized reply)

-- The providers, by what selects them.
pub data TriageProvider : Type 0 where
  jev : TriageProvider
  vercel_gateway : String → TriageProvider

unfoldable pub create_triage_provider : String → String → Result String TriageProvider
create_triage_provider provider model =
    if provider == "jev"
    then ok jev
    else if provider == "vercel-gateway"
    then ok (vercel_gateway model)
    else err ("Unknown TRIAGE_PROVIDER: \"" ⊕ provider ⊕ "\". Supported: jev, vercel-gateway")

unfoldable pub run_triage : TriageProvider → Reply → AlertCluster → Level × List Effect
run_triage jev reply cluster = classify_jev reply cluster
run_triage (vercel_gateway model) reply cluster = classify_gateway model reply cluster
