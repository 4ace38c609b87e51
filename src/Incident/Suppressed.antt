-- ===== src/Incident/Suppressed.antt =====
-- The costly calls of a cluster that a rule suppresses.
use junando.Common.{
  ℕ, suc, String, true, not, Option, none, some, [], ◌∷◌, ◌≡◌, ◌∙◌, refl, some_inj, ap, Bool-cases,
  inl, inr,
}
use junando.Common.Text.{is_empty}
use junando.Domain.Cluster.{AlertCluster}
use junando.Rules.Actions.{RuleActionResult}
use junando.Rules.Engine.{RuleEngine, evaluate_pre_llm}
use junando.Logger.Builder.{WideEventBuilder, Outcome}
use junando.Logger.Sampling.{should_sample}
use junando.Logger.Json.{Fields}
use junando.Incident.Calls.{Call, History, Ports}
use junando.Incident.Exec.{
  Exec, tell, Ends-same, Triple, Triple-pure, Triple-tell, Triple-ask, Triple-if, Triple-bind,
}
use junando.Incident.Process.{Settings, read_now, emit, emit_sampled, write_event}
use junando.Incident.Pipeline.{count_rule, silence, apply_result, apply_engine, process_cluster}

-- The calls of a history that a suppressed cluster is to be spared.
unfoldable pub costs : History → ℕ
costs [] = 0
costs (Call.find_by_trace_id id ∷ h) = suc (costs h)
costs (Call.classify c ∷ h) = suc (costs h)
costs (Call.analyze c spans ∷ h) = suc (costs h)
costs (Call.send c analysis channel ∷ h) = suc (costs h)
costs (Call.read_clock ∷ h) = costs h
costs (Call.is_new fp ttl ∷ h) = costs h
costs (Call.reset fp ∷ h) = costs h
costs (Call.count_new ∷ h) = costs h
costs (Call.count_duplicate ∷ h) = costs h
costs (Call.count_suppressed id ∷ h) = costs h
costs (Call.log_info event ∷ h) = costs h
costs (Call.log_warn text ∷ h) = costs h
costs (Call.log_error text ∷ h) = costs h
costs (Call.count_processed success ∷ h) = costs h

-- The history has a number of such calls.
abbrev Costs : ℕ → History → Type 0
Costs n h = costs h ≡ n

abbrev Keeps : {A : Type 0} → ℕ → Exec A → Type 0
Keeps n m = Triple (Costs n) m (λ _. Costs n) (λ _. Costs n)

module _ (settings : Settings) (ports : Ports) (n : ℕ) where
  emit_sampled-costs : (event : Fields) → Keeps n (emit_sampled settings ports event)
  unfolding emit_sampled write_event tell costs Triple
  emit_sampled-costs event h c = elim (Bool-cases (should_sample (ports.is_drawn h) event)) [
    | inl drawn ↦ rw drawn c
    | inr dropped ↦ rw dropped c
  ]

  read_now-costs : Keeps n (read_now settings ports)
  unfolding read_now costs
  read_now-costs =
      Triple-tell (Costs n) Call.read_clock ports.now (λ _. Costs n) (λ _. Costs n) (λ h c _. c)

  emit-costs :
      (b : WideEventBuilder) (outcome : Outcome) (start_ms : ℕ)
      → Keeps n (emit settings ports b outcome start_ms)
  unfolding emit Triple
  emit-costs b outcome start_ms =
      Triple-if (Costs n) settings.wide_events_enabled _ _ (λ _. Costs n) (λ _. Costs n)
        (λ _.
          Triple-bind (Costs n) (read_now settings ports) (λ _. Costs n) _ (λ _. Costs n)
            (λ _. Costs n) read_now-costs (λ now h c. emit_sampled-costs _ h c))
        (λ _. Triple-pure (Costs n) tt (λ _. Costs n) (λ _. Costs n) (λ h c. c))

  count_rule-costs : (matched : Option String) → Keeps n (count_rule settings ports matched)
  unfolding count_rule costs
  count_rule-costs none = Triple-pure (Costs n) tt (λ _. Costs n) (λ _. Costs n) (λ h c. c)
  count_rule-costs (some id) =
      Triple-if (Costs n) (is_empty id) _ _ (λ _. Costs n) (λ _. Costs n)
        (λ _. Triple-pure (Costs n) tt (λ _. Costs n) (λ _. Costs n) (λ h c. c))
        (λ _.
          Triple-tell (Costs n) (Call.count_suppressed id) (λ _. tt) (λ _. Costs n) (λ _. Costs n)
            (λ h c _. c))

  silence-costs :
      (pre : RuleActionResult) (start_ms : ℕ) (b : WideEventBuilder)
      → Keeps n (silence settings ports pre start_ms b)
  unfolding silence
  silence-costs pre start_ms b =
      Triple-bind (Costs n) _ (λ _. Costs n) _ (λ _. Costs n) (λ _. Costs n)
        (count_rule-costs pre.matched_rule_id) (λ _. emit-costs b _ start_ms)

  apply_result-costs :
      (pre : RuleActionResult) (cluster : AlertCluster) (start_ms : ℕ) (b : WideEventBuilder)
      → pre.suppressed ≡ true
      → Keeps n (apply_result settings ports pre cluster start_ms b)
  unfolding apply_result
  apply_result-costs pre cluster start_ms b quiet =
      Triple-if (Costs n) pre.suppressed _ _ (λ _. Costs n) (λ _. Costs n)
        (λ _. silence-costs pre start_ms b) (λ loud. absurd (cc (quiet, loud)))

  apply_engine-costs :
      (o : Option RuleEngine) (engine : RuleEngine) (cluster : AlertCluster) (start_ms : ℕ)
      (b : WideEventBuilder)
      → o ≡ some engine
      → (evaluate_pre_llm engine cluster).suppressed ≡ true
      → Keeps n (apply_engine settings ports o cluster start_ms b)
  unfolding apply_engine
  apply_engine-costs none engine cluster start_ms b on quiet = absurd (cc on)
  apply_engine-costs (some e) engine cluster start_ms b on quiet =
      apply_result-costs _ cluster start_ms _
        (ap (λ x. (evaluate_pre_llm x cluster).suppressed) (some_inj on) ∙ quiet)

  process_cluster-costs :
      (correlation_id : String) (engine : RuleEngine) (cluster : AlertCluster)
      → settings.rule_engine ≡ some engine
      → (evaluate_pre_llm engine cluster).suppressed ≡ true
      → Keeps n (process_cluster settings ports correlation_id cluster)
  unfolding process_cluster costs
  process_cluster-costs correlation_id engine cluster on quiet =
      let keep_it : Unit {0} → History → Type 0 = λ _. Costs n in
      Triple-bind (Costs n) _ (λ _. Costs n) _ keep_it (λ _. Costs n) read_now-costs
        (λ start_ms.
          Triple-bind (Costs n) _ (λ _. Costs n) _ keep_it (λ _. Costs n)
            (Triple-ask (Costs n) (Call.is_new cluster.fingerprint settings.dedup_ttl_seconds) _
              (λ _. Costs n) (λ _. Costs n) (λ h c _. c) (λ h c _. c))
            (λ r.
              Triple-if (Costs n) (not r.is_new) _ _ keep_it (λ _. Costs n)
                (λ _.
                  Triple-tell (Costs n) Call.count_duplicate (λ _. tt) keep_it (λ _. Costs n)
                    (λ h c _. c))
                (λ _.
                  Triple-bind (Costs n) _ keep_it _ keep_it (λ _. Costs n)
                    (Triple-tell (Costs n) Call.count_new (λ _. tt) keep_it (λ _. Costs n)
                      (λ h c _. c))
                    (λ _.
                      apply_engine-costs settings.rule_engine engine cluster start_ms _ on quiet))))

-- A cluster that the rule engine suppresses, whether it is new or a duplicate and however the ports
-- answer, makes no call of the traces, the triage, the language model or the notifier.
pub suppressed-costs :
    (settings : Settings) (ports : Ports) (correlation_id : String) (engine : RuleEngine)
    (cluster : AlertCluster) (h : History)
    → settings.rule_engine ≡ some engine
    → (evaluate_pre_llm engine cluster).suppressed ≡ true
    → costs (process_cluster settings ports correlation_id cluster h).1 ≡ costs h
unfolding Triple
suppressed-costs settings ports correlation_id engine cluster h on quiet =
    Ends-same (Costs (costs h)) _ _
      (process_cluster-costs settings ports (costs h) correlation_id engine cluster on quiet h refl)
