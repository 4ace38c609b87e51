-- ===== src/Rules/Engine.antt =====
-- rule-engine.ts: the first rule that matches decides. Rules are compiled once, at construction.
use junando.Common.{
  String, List, [], ◌∷◌, ◌++◌, map, ◌≡◌, ◌⊎◌, inl, inr, refl, ap, Option, none, some, if◌then◌else◌,
  Bool-cases,
}
use junando.Common.Lists.{All}
use junando.Domain.Cluster.{AlertCluster, LlmAnalysis}
use junando.Domain.Rule.{Rule, RuleConfiguration}
use junando.Rules.Condition.{Predicate, compile_condition}
use junando.Rules.Condition.Spec.{Satisfies, compile_condition_iff}
use junando.Rules.Actions.{RuleActionResult, dispatch_actions, empty_result}

-- `CompiledRule`
pub record CompiledRule : Type 0 where
  pub id : String
  pub predicate : Predicate
  pub result : RuleActionResult

-- `RuleEngine`
pub record RuleEngine : Type 0 where
  pub pre_llm_rules : List CompiledRule
  pub post_llm_rules : List CompiledRule

compile_rule : Rule → CompiledRule
compile_rule rule = record {
  id = rule.id;
  predicate = compile_condition rule.condition;
  result = dispatch_actions rule.actions;
}

compile_section : List Rule → List CompiledRule
unfolding compile_rule
compile_section rules = map compile_rule rules

-- The constructor.
unfoldable pub rule_engine : RuleConfiguration → RuleEngine
unfolding compile_section
rule_engine config = record {
  pre_llm_rules = compile_section config.pre_llm;
  post_llm_rules = compile_section config.post_llm;
}

evaluate_rules : List CompiledRule → AlertCluster → Option LlmAnalysis → RuleActionResult
evaluate_rules [] cluster analysis = empty_result
evaluate_rules (rule ∷ rest) cluster analysis =
    if rule.predicate cluster analysis
    then record rule.result { matched_rule_id = some rule.id }
    else evaluate_rules rest cluster analysis

unfoldable pub evaluate_pre_llm : RuleEngine → AlertCluster → RuleActionResult
unfolding evaluate_rules
evaluate_pre_llm engine cluster = evaluate_rules engine.pre_llm_rules cluster none

unfoldable pub evaluate_post_llm : RuleEngine → AlertCluster → LlmAnalysis → RuleActionResult
unfolding evaluate_rules
evaluate_post_llm engine cluster analysis =
    evaluate_rules engine.post_llm_rules cluster (some analysis)

-- Where the first rule that a cluster satisfies stands.
pub record FirstMatch (rules : List Rule) (cluster : AlertCluster) (analysis : Option LlmAnalysis)
    (result : RuleActionResult) : Type 0 where
  pub before : List Rule
  pub rule : Rule
  pub after : List Rule
  pub listed : rules ≡ before ++ rule ∷ after
  pub missed : All (λ (r : Rule). ¬ Satisfies r.condition cluster analysis) before
  pub satisfied : Satisfies rule.condition cluster analysis
  pub decided : result ≡ record (dispatch_actions rule.actions) { matched_rule_id = some rule.id }

-- What a section of rules decides of a cluster.
abbrev pub Decides : List Rule → AlertCluster → Option LlmAnalysis → RuleActionResult → Type 0
Decides rules cluster analysis result =
    (All (λ (r : Rule). ¬ Satisfies r.condition cluster analysis) rules × (result ≡ empty_result))
    ⊎ FirstMatch rules cluster analysis result

module _ (cluster : AlertCluster) (analysis : Option LlmAnalysis) where
  evaluate_rules-Decides :
      (rules : List Rule)
      → Decides rules cluster analysis (evaluate_rules (compile_section rules) cluster analysis)
  unfolding evaluate_rules compile_section
  evaluate_rules-Decides [] = inl (tt, refl)
  evaluate_rules-Decides (rule ∷ rest) =
      let iff = compile_condition_iff cluster analysis rule.condition in
      elim (Bool-cases (compile_condition rule.condition cluster analysis)) [
        | inl yes_it ↦ inr (record {
          before = [];
          rule = rule;
          after = rest;
          listed = refl;
          missed = tt;
          satisfied = iff.0 yes_it;
          decided = rw yes_it;
        })
        | inr no_it ↦
            let miss : ¬ Satisfies rule.condition cluster analysis = λ s. cc (no_it, iff.1 s) in
            rw no_it (elim (evaluate_rules-Decides rest) [
              | inl (none_match, passed) ↦ inl ((miss, none_match), passed)
              | inr m ↦ inr (record {
                before = rule ∷ m.before;
                rule = m.rule;
                after = m.after;
                listed = ap (◌∷◌ rule) m.listed;
                missed = (miss, m.missed);
                satisfied = m.satisfied;
                decided = m.decided;
              })
            ])
      ]

-- The engine built from a configuration decides by the first rule, in the order of the file, whose
-- condition the cluster satisfies: the result is that of this rule's actions, with its id. Where no
-- rule is satisfied the result suppresses nothing, and has no action and no tag. Before the analysis
-- the rules are those of the first section, read without an analysis; behind it, those of the second,
-- read with it.
pub rule_engine-Decides :
    (config : RuleConfiguration) (cluster : AlertCluster) (analysis : LlmAnalysis)
    → Decides config.pre_llm cluster none (evaluate_pre_llm (rule_engine config) cluster)
      × Decides config.post_llm cluster
          (some analysis)
          (evaluate_post_llm (rule_engine config) cluster analysis)
unfolding rule_engine evaluate_pre_llm evaluate_post_llm
rule_engine-Decides config cluster analysis = (
  evaluate_rules-Decides cluster none config.pre_llm,
  evaluate_rules-Decides cluster (some analysis) config.post_llm,
)
