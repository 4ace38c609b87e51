-- ===== src/Config/Refine.antt =====
-- The refinement of `ConfigSchema`: what the fields ask of one another.
use Prim.Native.String
use junando.Common.{
  String, Bool, not, ◌&&◌, Option, none, some, List, [], ◌∷◌, ◌==◌, or_else, if◌then◌else◌,
}
use junando.Common.Lists.{any_of}
use junando.Common.Members.{flatten}
use junando.Config.Env.{is_missing, llm_api_key_required}
use junando.Config.Schema.{Issue, Zod, Config}

unfoldable pub when : Bool → String → String → List Issue
when condition path message =
    if condition then record { path = path; message = message } ∷ [] else []

unfoldable pub slack_issues : Config → List Issue
unfolding when
slack_issues config = flatten (
    when (is_missing config.slack_bot_token) "slackBotToken"
      "[notifierType: slack] SLACK_BOT_TOKEN is required and must start with xoxb-"
    ∷ when (is_missing config.slack_channel) "slackChannel"
        "[notifierType: slack] SLACK_CHANNEL is required and must start with #"
    ∷ when (is_missing config.slack_signing_secret) "slackSigningSecret"
        "[notifierType: slack] SLACK_SIGNING_SECRET is required (used to verify Slack interactivity callbacks)"
    ∷ [])

-- By the names of the URL's parameters.
parsed_url_issues : Option (List String) → List Issue
unfolding when
parsed_url_issues none =
    when Bool.true "teamsWebhookUrl" "[notifierType: teams] TEAMS_WEBHOOK_URL must be a valid URL"
parsed_url_issues (some names) =
    when (not (any_of (λ n. n == "api-version") names)) "teamsWebhookUrl"
      "[notifierType: teams] TEAMS_WEBHOOK_URL must include api-version= as a query parameter"

unfoldable pub teams_issues : Zod → Config → List Issue
unfolding parsed_url_issues when
teams_issues zod config =
    if is_missing config.teams_webhook_url
    then when Bool.true "teamsWebhookUrl" "[notifierType: teams] TEAMS_WEBHOOK_URL is required"
    else parsed_url_issues (zod.query_parameters (or_else config.teams_webhook_url ""))

unfoldable pub triage_issues : Config → List Issue
unfolding when
triage_issues config = flatten (
    when (is_missing config.triage_provider) "triageProvider"
      "[triageEnabled: true] TRIAGE_PROVIDER is required"
    ∷ when (not (or_else config.triage_provider "" == "jev") && is_missing config.triage_model)
        "triageModel" "[triageEnabled: true] TRIAGE_MODEL is required unless TRIAGE_PROVIDER=jev"
    ∷ when (is_missing config.triage_api_key) "triageApiKey"
        "[triageEnabled: true] TRIAGE_API_KEY is required"
    ∷ [])

unfoldable pub refine_issues : Zod → Config → List Issue
unfolding when
refine_issues zod config = flatten (
    (if config.notifier_type == "slack" then slack_issues config else [])
    ∷ (if config.notifier_type == "teams" then teams_issues zod config else [])
    ∷ when (config.dedup_store == "dynamodb" && is_missing config.dedup_table_name) "dedupTableName"
        "[dedupStore: dynamodb] DEDUP_TABLE_NAME is required"
    ∷ when (config.dedup_store == "redis" && is_missing config.redis_url) "redisUrl"
        "[dedupStore: redis] REDIS_URL is required"
    ∷ when (llm_api_key_required (some config.llm_provider) config.llm_api_key) "llmApiKey"
        (String.◌++◌ "[llmProvider: " (String.◌++◌ config.llm_provider "] LLM_API_KEY is required"))
    ∷ (if config.triage_enabled then triage_issues config else [])
    ∷ [])
