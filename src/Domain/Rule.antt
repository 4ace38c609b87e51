-- ===== src/Domain/Rule.antt =====
-- packages/core/src/domain/entities/rule.ts.
use junando.Common.{ℕ, String, Bool, Option, List}
use junando.Domain.Alert.{AlertType}
use junando.Domain.Cluster.{Level}

-- `{ min?: number; max?: number }`
pub record Range : Type 0 where
  pub min : Option ℕ
  pub max : Option ℕ

-- `RuleCondition`: a field that is absent is `none`.
pub record RuleCondition : Type 0 where
  pub service_name : Option String
  pub alert_type : Option AlertType
  pub severity : Option Level
  pub labels : Option (List (String × String))
  pub endpoint_path : Option String
  pub alert_count : Option Range
  pub latency_p99_ms : Option Range
  pub urgency_level : Option Level
  pub requires_rollback : Option Bool
  pub impacted_services : Option (List String)

-- `RuleAction`
pub data RuleAction : Type 0 where
  suppress : RuleAction
  route : String → RuleAction
  escalate : String → RuleAction
  tag : String → String → RuleAction

-- `Rule`
pub record Rule : Type 0 where
  pub id : String
  pub name : Option String
  pub condition : RuleCondition
  pub actions : List RuleAction
  pub urgency_level : Option Level
  pub requires_rollback : Option Bool

-- `ChannelConfig`
pub data ChannelConfig : Type 0 where
  slack_channel : String → ChannelConfig
  teams_channel : String → ChannelConfig

-- `RuleConfiguration`: the two phases' sections are the lists of their rules.
pub record RuleConfiguration : Type 0 where
  pub pre_llm : List Rule
  pub post_llm : List Rule
  pub channels : List (String × ChannelConfig)
