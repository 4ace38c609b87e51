-- ===== src/Worker/Setup/Equipped.antt =====
-- What the pipeline of a sound configuration is built from.
use junando.Common.{String, false, some, [], ◌≡◌, ◌⊎◌}
use junando.Common.Text.{is_empty}
use junando.Notifier.Factory.{AppNotifier, plain, slack_notifier, teams_notifier}
use junando.Llm.Gateway.{Provider, open_router}
use junando.Config.Schema.{Config}
use junando.Worker.Setup.{StoreChoice, dynamodb, redis, UseCase}

-- The provider asks no other models when its own is rate limited.
abbrev pub HasNoFallback : Provider → Type 0
HasNoFallback (open_router provider) = provider.fallback_models ≡ []
HasNoFallback _ = Unit

-- The notifier that is built where there are no rules: that of Slack or of Teams, with the configuration's
-- secrets, never the dummy one.
abbrev pub IsConfigured : Config → AppNotifier → Type 0
IsConfigured config notifier =
    ((token : String) × (channel : String) × (config.slack_bot_token ≡ some token)
      × (config.slack_channel ≡ some channel)
      × (notifier ≡ plain (slack_notifier token channel)))
    ⊎ ((url : String) × (config.teams_webhook_url ≡ some url)
        × (notifier ≡ plain (teams_notifier url)))

abbrev pub IsOpened : Config → StoreChoice → Type 0
IsOpened config (dynamodb table) = (config.dedup_table_name ≡ some table) × (is_empty table ≡ false)
IsOpened config (redis url) = (config.redis_url ≡ some url) × (is_empty url ≡ false)

-- What the worker builds of a configuration without rules.
abbrev pub IsEquipped : Config → UseCase → Type 0
IsEquipped config u = IsConfigured config u.notifier × IsOpened config u.dedup × HasNoFallback u.llm
