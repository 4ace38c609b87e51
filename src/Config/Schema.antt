-- ===== src/Config/Schema.antt =====
-- `ConfigSchema`, up to its refinement: the values of the fields and the issues of their checks. The library
-- that checks them is third-party code: the texts of its issues, and which issues keep it from the refinement, are parameters.
use junando.Common.{
  ℕ, String, Bool, false, not, ◌||◌, Option, none, some, List, [], ◌∷◌, ◌==◌, or_else, is_some,
  if◌then◌else◌,
}
use junando.Common.Lists.{any_of}
use junando.Common.Members.{flatten}
use junando.Common.Text.{is_empty}
use junando.Common.Split.{drop_prefix}
use junando.Common.Assoc.{lookup}
use junando.Config.Env.{
  parse_boolean_env, parse_optional_string_array, resolve_llm_model, comma_list,
}
use junando.Config.Secrets.{Variables}

-- An issue, by its field and its text.
pub record Issue : Type 0 where
  pub path : String
  pub message : String

-- The library, and the platform: `positive_int` is `Number(s)` where that is a positive whole number, and
-- `query_parameters` the names of a URL's parameters, `none` where it is no URL.
pub record Zod : Type 0 where
  pub message : String → Option String → String
  pub is_aborted : List Issue → Bool
  pub positive_int : String → Option ℕ
  pub is_url : String → Bool
  pub query_parameters : String → Option (List String)

-- `Config`. An absent provider, which the schema refuses, is the text "undefined".
pub record Config : Type 0 where
  pub llm_provider : String
  pub llm_api_key : Option String
  pub llm_model : Option String
  pub notifier_type : String
  pub slack_bot_token : Option String
  pub slack_signing_secret : Option String
  pub slack_channel : Option String
  pub rollback_action_enabled : Bool
  pub rollback_action_allowed_slack_user_ids : Option (List String)
  pub teams_webhook_url : Option String
  pub loki_url : Option String
  pub dedup_store : String
  pub dedup_table_name : Option String
  pub redis_url : Option String
  pub sqs_queue_url : Option String
  pub dedup_ttl_seconds : ℕ
  pub log_level : String
  pub node_env : String
  pub llm_fallback_models : List String
  pub llm_fallback_timeout_ms : ℕ
  pub rules_config_path : Option String
  pub triage_enabled : Bool
  pub triage_provider : Option String
  pub triage_model : Option String
  pub triage_api_key : Option String

-- `(v) => (v === '' ? undefined : v)`
unfoldable pub non_empty : Option String → Option String
non_empty none = none
non_empty (some v) = if is_empty v then none else some v

unfoldable pub fallback_models_of : Option String → List String
fallback_models_of none =
    "google/gemma-4-31b-it:free" ∷ "meta-llama/llama-3.3-70b-instruct:free"
    ∷ "mistralai/mistral-7b-instruct:free" ∷ []
fallback_models_of (some v) = if is_empty v then [] else comma_list v

module _ (zod : Zod) (env : Variables) where
  abbrev var : String → Option String
  var name = lookup name env

  -- A number that is refused has a value that nobody reads.
  number_or : Option String → ℕ → ℕ
  number_or none d = d
  number_or (some s) d = or_else (zod.positive_int s) d

  -- The values that the fields have behind their defaults and transforms.
  unfoldable pub config_of : Config
  unfolding non_empty fallback_models_of number_or
  config_of = record {
    llm_provider = or_else (var "LLM_PROVIDER") "undefined";
    llm_api_key = var "LLM_API_KEY";
    llm_model =
        non_empty
          (resolve_llm_model (var "LLM_PROVIDER") (var "LLM_MODEL") (var "BEDROCK_DEFAULT_MODEL"));
    notifier_type = or_else (var "NOTIFIER_TYPE") "slack";
    slack_bot_token = var "SLACK_BOT_TOKEN";
    slack_signing_secret = var "SLACK_SIGNING_SECRET";
    slack_channel = var "SLACK_CHANNEL";
    rollback_action_enabled = or_else (parse_boolean_env (var "ROLLBACK_ACTION_ENABLED")) false;
    rollback_action_allowed_slack_user_ids =
        parse_optional_string_array (var "ROLLBACK_ACTION_ALLOWED_SLACK_USER_IDS");
    teams_webhook_url = var "TEAMS_WEBHOOK_URL";
    loki_url = non_empty (var "LOKI_URL");
    dedup_store = or_else (var "DEDUP_STORE") "dynamodb";
    dedup_table_name = var "DEDUP_TABLE_NAME";
    redis_url = var "REDIS_URL";
    sqs_queue_url = var "SQS_QUEUE_URL";
    dedup_ttl_seconds = number_or (var "DEDUP_TTL_SECONDS") 300;
    log_level = or_else (var "LOG_LEVEL") "info";
    node_env = or_else (var "NODE_ENV") "development";
    llm_fallback_models = fallback_models_of (var "LLM_FALLBACK_MODELS");
    llm_fallback_timeout_ms = number_or (var "LLM_FALLBACK_TIMEOUT_MS") 60000;
    rules_config_path = non_empty (var "RULES_CONFIG_PATH");
    triage_enabled = or_else (parse_boolean_env (var "TRIAGE_ENABLED")) false;
    triage_provider = var "TRIAGE_PROVIDER";
    triage_model = var "TRIAGE_MODEL";
    triage_api_key = var "TRIAGE_API_KEY";
  }

  abbrev issue : String → Option String → List Issue
  issue path value = record { path = path; message = zod.message path value } ∷ []

  -- A field that may be absent, with a check of its text.
  unfoldable pub optional : String → (String → Bool) → Option String → List Issue
  optional path check none = []
  optional path check (some value) = if check value then [] else issue path (some value)

  unfoldable pub required : String → (String → Bool) → Option String → List Issue
  required path check none = issue path none
  required path check (some value) = if check value then [] else issue path (some value)

  abbrev one_of : List String → String → Bool
  one_of words value = any_of (λ w. w == value) words

  abbrev starts_with : String → String → Bool
  starts_with prefix value = is_some (drop_prefix prefix value)

  abbrev has_text : String → Bool
  has_text value = not (is_empty value)

  abbrev is_positive_int : String → Bool
  is_positive_int value = is_some (zod.positive_int value)

  abbrev providers : List String
  providers = "gemini" ∷ "claude" ∷ "openrouter" ∷ "qwen" ∷ "bedrock" ∷ "vercel-gateway" ∷ []

  -- The issues of the fields, in the order of the schema; a field that is refused counts as one.
  unfoldable pub base_issues : List Issue
  unfolding optional required
  base_issues = flatten (
      required "llmProvider" (one_of providers) (var "LLM_PROVIDER")
      ∷ optional "llmApiKey" has_text (var "LLM_API_KEY")
      ∷ optional "notifierType" (one_of ("slack" ∷ "teams" ∷ [])) (var "NOTIFIER_TYPE")
      ∷ optional "slackBotToken" (starts_with "xoxb-") (var "SLACK_BOT_TOKEN")
      ∷ optional "slackSigningSecret" has_text (var "SLACK_SIGNING_SECRET")
      ∷ optional "slackChannel" (starts_with "#") (var "SLACK_CHANNEL")
      ∷ optional "teamsWebhookUrl" zod.is_url (var "TEAMS_WEBHOOK_URL")
      ∷ optional "dedupStore" (one_of ("dynamodb" ∷ "redis" ∷ [])) (var "DEDUP_STORE")
      ∷ optional "dedupTableName" has_text (var "DEDUP_TABLE_NAME")
      ∷ optional "redisUrl" zod.is_url (var "REDIS_URL")
      ∷ optional "sqsQueueUrl" (λ s. is_empty s || zod.is_url s) (var "SQS_QUEUE_URL")
      ∷ optional "dedupTtlSeconds" is_positive_int (var "DEDUP_TTL_SECONDS")
      ∷ optional "logLevel" (one_of ("trace" ∷ "debug" ∷ "info" ∷ "warn" ∷ "error" ∷ []))
          (var "LOG_LEVEL")
      ∷ optional "nodeEnv" (one_of ("development" ∷ "test" ∷ "staging" ∷ "production" ∷ []))
          (var "NODE_ENV")
      ∷ optional "llmFallbackTimeoutMs" is_positive_int (var "LLM_FALLBACK_TIMEOUT_MS")
      ∷ optional "triageProvider" (one_of ("vercel-gateway" ∷ "jev" ∷ [])) (var "TRIAGE_PROVIDER")
      ∷ optional "triageApiKey" has_text (var "TRIAGE_API_KEY")
      ∷ [])
