-- ===== src/Notifier/Tests.antt =====
-- A registry with one channel, whose notifiers are named by texts, and a configuration with one channel.
use junando.Common.{String, none, some, List, [], ◌∷◌, ◌≡◌, refl}
use junando.Common.Lists.{any_of, keep}
use junando.Common.Results.{ok}
use junando.Common.Assoc.{lookup, insert}
use junando.Domain.Rule.{
  RuleAction, RuleCondition, route, escalate, RuleConfiguration, slack_channel,
}
use junando.Notifier.Factory.{
  Backend, slack_notifier, NotifierConfig, Environment, create_notifier, register_channels,
  resolve_factory, build_notifier_registry, register_default, register_factory, reference_rules,
  reference_actions, build_channel_notifier, collect_unresolved_channels,
}
use junando.Notifier.Factory.Resolved.{BuiltFrom, create_notifier-BuiltFrom}
use junando.Notifier.Registry.{ChannelRegistry, has_channel, register, set_default}
use junando.Notifier.Routing.{add}

abbrev one_channel : ChannelRegistry String
one_channel = record { channels = ("oncall", "slack-oncall") ∷ []; fallback = none }

abbrev some_actions : List RuleAction
some_actions = route "oncall" ∷ escalate "lead" ∷ route "oncall" ∷ []

abbrev any_condition : RuleCondition
any_condition = record {
  service_name = none;
  alert_type = none;
  severity = none;
  labels = none;
  endpoint_path = none;
  alert_count = none;
  latency_p99_ms = none;
  urgency_level = none;
  requires_rollback = none;
  impacted_services = none;
}

abbrev one_rule : RuleConfiguration
one_rule = record {
  pre_llm = [];
  post_llm =
      record {
        id = "page";
        name = none;
        condition = any_condition;
        actions = route "oncall" ∷ [];
        urgency_level = none;
        requires_rollback = none;
      }
      ∷ [];
  channels = ("oncall", slack_channel "#oncall") ∷ [];
}

abbrev slack_only : NotifierConfig
slack_only = record {
  notifier_type = "slack";
  teams_webhook_url = none;
  slack_bot_token = some "token";
  slack_channel_name = some "#alerts";
  rules = some (ok one_rule);
}

abbrev no_variables : Environment
no_variables = record { variable = λ name. none; query_parameters = λ url. none }

abbrev built_registry : ChannelRegistry Backend
built_registry = record {
  channels = ("oncall", slack_notifier "token" "#oncall") ∷ [];
  fallback = some (slack_notifier "token" "#alerts");
}

create_notifier-BuiltFrom_example :
    (n : Backend) × (lookup "oncall" built_registry.channels ≡ some n)
    × BuiltFrom no_variables slack_only one_rule.channels "oncall" n
unfolding resolve_factory lookup build_notifier_registry register_default register_factory insert
    register_channels build_channel_notifier collect_unresolved_channels keep reference_rules
    reference_actions add any_of has_channel register set_default
create_notifier-BuiltFrom_example =
    create_notifier-BuiltFrom no_variables slack_only one_rule built_registry
      (slack_notifier "token" "#alerts") "oncall" refl (unfold create_notifier in refl) refl
