-- ===== src/Notifier/Factory.antt =====
-- infrastructure/notifier/factory.ts and shared/factory-registry.ts: the notifier that a configuration asks
-- for. What a factory returns or throws is a value; URLs are parsed by the platform.
pub mod Resolved
use junando.Common.{
  String, Bool, true, false, not, ◌||◌, Option, none, some, List, [], ◌∷◌, ◌==◌, if◌then◌else◌,
  Bool-cases,
}
use junando.Common.Lists.{any_of, keep}
use junando.Common.Text.{is_empty}
use junando.Common.Assoc.{lookup, insert, has}
use junando.Common.Results.{Result, ok, err, ◌>>=◌}
use junando.Domain.Rule.{
  RuleAction, suppress, route, escalate, tag, Rule, RuleConfiguration, ChannelConfig, slack_channel,
  teams_channel,
}
use junando.Rules.Engine.{RuleEngine, rule_engine}
use junando.Notifier.Registry.{ChannelRegistry, new_registry, register, set_default, has_channel}
use junando.Notifier.Routing.{add}

-- `FactoryRegistry`
pub record FactoryRegistry (T : Type 0) : Type 0 where
  pub factories : List (String × Result {0, 0} String T)
  pub fallback : Result {0, 0} String T

module _ {T : Type 0} where
  abbrev pub new_factories : FactoryRegistry T
  new_factories = record {
    factories = [];
    fallback = err "No factory registered and no default available";
  }

  unfoldable pub register_factory : String → Result String T → FactoryRegistry T → FactoryRegistry T
  register_factory key factory registry = record registry {
    factories = insert key factory registry.factories;
  }

  unfoldable pub register_default : Result String T → FactoryRegistry T → FactoryRegistry T
  register_default factory registry = record registry { fallback = factory }

  found_or : Option (Result String T) → Result String T → Result String T
  found_or none fallback = fallback
  found_or (some factory) fallback = factory

  unfoldable pub resolve_factory : String → FactoryRegistry T → Result String T
  unfolding found_or
  resolve_factory key registry = found_or (lookup key registry.factories) registry.fallback

-- The notifiers that are built.
pub data Backend : Type 0 where
  slack_notifier : String → String → Backend
  teams_notifier : String → Backend

-- The notifier of the application: a plain one, or the routing one over it.
pub data AppNotifier : Type 0 where
  plain : Backend → AppNotifier
  routing : ChannelRegistry Backend → Backend → AppNotifier

-- The part of `Config` that the factory reads; the file of rules is given by what its parse gives.
pub record NotifierConfig : Type 0 where
  pub notifier_type : String
  pub teams_webhook_url : Option String
  pub slack_bot_token : Option String
  pub slack_channel_name : Option String
  pub rules : Option (Result {0, 0} String RuleConfiguration)

-- The platform: the environment's variables, and the names of a URL's query parameters.
pub record Environment : Type 0 where
  pub variable : String → Option String
  pub query_parameters : String → Option (List String)

-- A text that is there and not empty.
abbrev truthy : Option String → Option String
truthy none = none
truthy (some s) = if is_empty s then none else some s

teams_factory : Option String → Result String Backend
teams_factory none = err "NOTIFIER_TYPE=teams requires TEAMS_WEBHOOK_URL to be set"
teams_factory (some url) = ok (teams_notifier url)

slack_factory : Option String → Option String → Result String Backend
slack_factory (some token) (some channel) = ok (slack_notifier token channel)
slack_factory _ _ = err "NOTIFIER_TYPE=slack requires SLACK_BOT_TOKEN and SLACK_CHANNEL to be set"

unfoldable pub build_notifier_registry : NotifierConfig → FactoryRegistry Backend
unfolding teams_factory slack_factory
build_notifier_registry config = register_default (ok (slack_notifier "dummy-token" "#alerts")) (
    register_factory "slack"
      (slack_factory (truthy config.slack_bot_token) (truthy config.slack_channel_name))
      (register_factory "teams" (teams_factory (truthy config.teams_webhook_url)) new_factories))

-- The notifier of a Teams channel, by its variable and the URL's parameters.
teams_channel_notifier : Environment → String → Option String → Result String Backend
teams_channel_notifier env name none = err name
teams_channel_notifier env name (some url) = elim (env.query_parameters url) [
  | none ↦ err name
  | some names ↦
      if any_of (λ n. n == "api-version") names then ok (teams_notifier url) else err name
]

slack_channel_notifier : String → String → Option String → Result String Backend
slack_channel_notifier name channel none = err name
slack_channel_notifier name channel (some token) = ok (slack_notifier token channel)

-- Each error is the name of the channel.
unfoldable pub build_channel_notifier :
    Environment → NotifierConfig → String → ChannelConfig → Result String Backend
unfolding teams_channel_notifier slack_channel_notifier
build_channel_notifier env config name (slack_channel channel) =
    slack_channel_notifier name channel (truthy config.slack_bot_token)
build_channel_notifier env config name (teams_channel variable) =
    teams_channel_notifier env name (truthy (env.variable variable))

-- The loop over the entries of `channels:`.
unfoldable pub register_channels :
    Environment
    → NotifierConfig
    → List (String × ChannelConfig)
    → ChannelRegistry Backend
    → Result String (ChannelRegistry Backend)
register_channels env config [] registry = ok registry
register_channels env config ((name, channel_config) ∷ rest) registry =
    build_channel_notifier env config name channel_config >>= λ notifier.
    register_channels env config rest (register name notifier registry)

-- `referenced.add(action.channel)` for the actions that have a channel.
unfoldable pub reference_actions : List String → List RuleAction → List String
reference_actions referenced [] = referenced
reference_actions referenced (route channel ∷ rest) =
    reference_actions (add channel referenced) rest
reference_actions referenced (escalate channel ∷ rest) =
    reference_actions (add channel referenced) rest
reference_actions referenced (suppress ∷ rest) = reference_actions referenced rest
reference_actions referenced (tag key value ∷ rest) = reference_actions referenced rest

unfoldable pub reference_rules : List String → List Rule → List String
reference_rules referenced [] = referenced
reference_rules referenced (rule ∷ rest) =
    reference_rules (reference_actions referenced rule.actions) rest

unfoldable pub collect_unresolved_channels :
    RuleConfiguration → ChannelRegistry Backend → List String
collect_unresolved_channels rules registry =
    keep (λ channel. not (has_channel channel registry))
      (reference_rules (reference_rules [] rules.pre_llm) rules.post_llm)

-- The throw for channels that no entry defines; it names the first of them.
checked_registry : List String → ChannelRegistry Backend → Backend → Result String AppNotifier
checked_registry [] registry default_notifier = ok (routing registry default_notifier)
checked_registry (channel ∷ rest) registry default_notifier = err channel

unfoldable pub routing_notifier :
    Environment → NotifierConfig → Backend → RuleConfiguration → Result String AppNotifier
unfolding checked_registry
routing_notifier env config default_notifier rules =
    register_channels env config rules.channels (set_default default_notifier new_registry)
    >>= λ registry.
        checked_registry (collect_unresolved_channels rules registry) registry default_notifier

with_rules :
    Environment
    → NotifierConfig
    → Backend
    → Option (Result String RuleConfiguration)
    → Result String AppNotifier
unfolding routing_notifier
with_rules env config default_notifier none = ok (plain default_notifier)
with_rules env config default_notifier (some parsed) =
    parsed >>= λ rules. routing_notifier env config default_notifier rules

unfoldable pub create_notifier : Environment → NotifierConfig → Result String AppNotifier
unfolding with_rules
create_notifier env config =
    resolve_factory config.notifier_type (build_notifier_registry config) >>= λ default_notifier.
    with_rules env config default_notifier config.rules

engine_of : Option (Result String RuleConfiguration) → Result String (Option RuleEngine)
engine_of none = ok none
engine_of (some parsed) = parsed >>= λ rules. ok (some (rule_engine rules))

unfoldable pub create_rule_engine : NotifierConfig → Result String (Option RuleEngine)
unfolding engine_of
create_rule_engine config = engine_of config.rules
