-- ===== src/Worker/Setup.antt =====
-- `getUseCase` of packages/worker/src/handler.ts: what the pipeline is built from, from a configuration.
pub mod Equipped
use junando.Common.{ℕ, String, Option, none, some, ◌==◌, or_else, if◌then◌else◌}
use junando.Common.Results.{Result, ok, err, ◌>>=◌}
use junando.Domain.Rule.{RuleConfiguration}
use junando.Rules.Engine.{RuleEngine}
use junando.Notifier.Factory.{
  Environment, NotifierConfig, AppNotifier, create_notifier, create_rule_engine,
}
use junando.Llm.Gateway.{Provider, create_llm_provider, no_options}
use junando.Triage.{TriageProvider, create_triage_provider}
use junando.Config.Schema.{Config}

-- The stores of fingerprints, by what they are opened with.
pub data StoreChoice : Type 0 where
  dynamodb redis : String → StoreChoice

unfoldable pub store_of : Config → StoreChoice
store_of config =
    if config.dedup_store == "dynamodb"
    then dynamodb (or_else config.dedup_table_name "")
    else redis (or_else config.redis_url "")

-- What `ProcessIncidentUseCase` is made of.
pub record UseCase : Type 0 where
  pub dedup : StoreChoice
  pub loki_url : String
  pub llm : Provider
  pub triage : Option TriageProvider
  pub notifier : AppNotifier
  pub rule_engine : Option RuleEngine
  pub dedup_ttl_seconds : ℕ

-- What the notifier's factory reads of the configuration; `load_rules` reads and checks a file of rules.
unfoldable pub notifier_config :
    (String → Result {0, 0} String RuleConfiguration) → Config → NotifierConfig
notifier_config load_rules config = record {
  notifier_type = config.notifier_type;
  teams_webhook_url = config.teams_webhook_url;
  slack_bot_token = config.slack_bot_token;
  slack_channel_name = config.slack_channel;
  rules = elim config.rules_config_path [ none ↦ none | some path ↦ some (load_rules path) ];
}

enabled_triage : Result {0, 0} String TriageProvider → Result {0, 0} String (Option TriageProvider)
enabled_triage (ok t) = ok (some t)
enabled_triage (err e) = err e

unfoldable pub triage_of : Config → Result String (Option TriageProvider)
unfolding enabled_triage
triage_of config =
    if config.triage_enabled
    then enabled_triage (
        create_triage_provider (or_else config.triage_provider "vercel-gateway")
          (or_else config.triage_model ""))
    else ok none

-- The fallback models of the configuration are not passed on.
unfoldable pub get_use_case :
    Environment → (String → Result {0, 0} String RuleConfiguration) → Config → Result String UseCase
unfolding triage_of store_of notifier_config
get_use_case env load_rules config =
    create_llm_provider config.llm_provider config.llm_model no_options >>= λ llm.
    triage_of config >>= λ triage.
    create_notifier env (notifier_config load_rules config) >>= λ notifier.
    create_rule_engine (notifier_config load_rules config) >>= λ engine. ok (record {
      dedup = store_of config;
      loki_url = or_else config.loki_url "";
      llm = llm;
      triage = triage;
      notifier = notifier;
      rule_engine = engine;
      dedup_ttl_seconds = config.dedup_ttl_seconds;
    })
