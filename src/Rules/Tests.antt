-- ===== src/Rules/Tests.antt =====
-- A configuration with a rule for busy payment clusters and one that silences the rest of them.
use junando.Common.{String, true, false, none, some, List, [], ◌∷◌, ◌≡◌, ◌↔◌, refl}
use junando.Common.Lists.{any_of, every, keep}
use junando.Common.Assoc.{lookup}
use junando.Domain.Alert.{error, alert_type_severity}
use junando.Domain.Cluster.{AlertCluster, LlmAnalysis, critical, high, level_text}
use junando.Domain.Rule.{
  RuleCondition, RuleAction, suppress, route, escalate, tag, Rule, RuleConfiguration,
}
use junando.Rules.Condition.{compile_condition}
use junando.Rules.Condition.Spec.{Satisfies, compile_condition_iff, compile_condition-severity}
use junando.Rules.Actions.{dispatch_actions, is_suppress, has_channel, dispatch_actions_lem}
use junando.Rules.Engine.{
  rule_engine, evaluate_pre_llm, evaluate_post_llm, Decides, rule_engine-Decides,
}

abbrev no_condition : RuleCondition
no_condition = record {
  service_name = none;
  alert_type = none;
  severity = none;
  labels = none;
  endpoint_path = none;
  alert_count = none;
  latency_p99_ms = none;
  urgency_level = none;
  requires_rollback = none;
  impacted_services = none;
}

abbrev busy : RuleCondition
busy = record no_condition {
  service_name = some "Payments";
  alert_count = some (record { min = some 3; max = none });
}

abbrev severe : RuleCondition
severe = record no_condition { severity = some critical }

abbrev busy_actions : List RuleAction
busy_actions = route "oncall" ∷ tag "team" "pay" ∷ escalate "lead" ∷ tag "team" "core" ∷ []

abbrev a_rule : String → RuleCondition → List RuleAction → Rule
a_rule id condition actions = record {
  id = id;
  name = none;
  condition = condition;
  actions = actions;
  urgency_level = none;
  requires_rollback = none;
}

abbrev a_config : RuleConfiguration
a_config = record {
  pre_llm = a_rule "busy" busy busy_actions ∷ a_rule "rest" no_condition (suppress ∷ []) ∷ [];
  post_llm =
      a_rule "urgent" (record no_condition { urgency_level = some high }) (escalate "lead" ∷ [])
      ∷ [];
  channels = [];
}

abbrev a_cluster : AlertCluster
a_cluster = record {
  fingerprint = "fp";
  service_name = "payments";
  alert_type = error;
  endpoint_path = "/pay";
  alert_count = 3;
  representative_trace_ids = [];
  first_seen_at = "2024-01-01T00:00:00Z";
  latency_p99_ms = none;
  severity = none;
  labels = none;
}

abbrev an_analysis : LlmAnalysis
an_analysis = record {
  probable_cause = "a leak";
  impacted_services = "payments" ∷ [];
  recommended_steps = "restart" ∷ [];
  urgency_level = high;
  requires_rollback = false;
}

compile_condition_iff_example :
    (compile_condition busy a_cluster none ≡ true) ↔ Satisfies busy a_cluster none
compile_condition_iff_example = compile_condition_iff a_cluster none busy

compile_condition-severity_example : (critical ≡ critical) × (a_cluster.alert_type ≡ error)
compile_condition-severity_example =
    compile_condition-severity severe critical a_cluster none refl
      (unfold compile_condition every alert_type_severity level_text in refl)

dispatch_actions_lem_example :
    ((dispatch_actions busy_actions).suppressed ≡ any_of is_suppress busy_actions)
    × ((dispatch_actions busy_actions).actions ≡ keep has_channel busy_actions)
    × (lookup "team" (dispatch_actions busy_actions).tags ≡ some "core")
    × ((dispatch_actions busy_actions).matched_rule_id ≡ none)
dispatch_actions_lem_example = dispatch_actions_lem "team" busy_actions

rule_engine-Decides_example :
    Decides a_config.pre_llm a_cluster none (evaluate_pre_llm (rule_engine a_config) a_cluster)
    × Decides a_config.post_llm a_cluster
        (some an_analysis)
        (evaluate_post_llm (rule_engine a_config) a_cluster an_analysis)
rule_engine-Decides_example = rule_engine-Decides a_config a_cluster an_analysis
