-- ===== src/Incident/Pipeline.antt =====
-- `ProcessIncidentUseCase.execute`: the stages of a cluster in their order, and the loop over the clusters.
use junando.Common.{
  ℕ, suc, ◌-◌, String, Bool, true, false, not, Option, none, some, List, [], ◌∷◌, ◌++◌, map, ltb,
  if◌then◌else◌,
}
use Prim.Native.String
use junando.Common.Lists.{length, get_elem?}
use junando.Common.Text.{is_empty}
use junando.Common.Results.{Result, ok, err}
use junando.Domain.Alert.{NormalizedAlert}
use junando.Domain.Cluster.{AlertCluster, LlmAnalysis, Level, low, level_text}
use junando.Clustering.{build_clusters}
use junando.Rules.Actions.{RuleActionResult}
use junando.Rules.Engine.{RuleEngine, evaluate_pre_llm, evaluate_post_llm}
use junando.Logger.Json.{str, obj, Fields, end, field}
use junando.Logger.Builder.{WideEventBuilder, new_builder, set, use_case, Key, suppressed, failed}
use junando.Incident.Calls.{Thrown, LlmResult, Call, Ports}
use junando.Incident.Exec.{Exec, pure, throw, ask, tell, try, ◌>>=◌, ◌>>◌}
use junando.Incident.Process.{
  Settings, Diagnosis, resolve_outcome, to_error_section, route_channels, escalate_channels,
  apply_tags, cluster_section, dedup_section, rule_section, llm_section, triage_skip_section,
  notify_section, read_now, emit, release_dedup_claim,
}

-- The span count, and the error count where there are errors.
positive : ℕ → Option ℕ
positive n = if ltb 0 n then some n else none

-- What the rules behind the analysis leave: the channels of their escalations, and the tagged cluster.
unfoldable pub post_rules :
    Option RuleEngine → AlertCluster → Option LlmAnalysis → List String × AlertCluster
post_rules (some engine) cluster (some analysis) =
    let result = evaluate_post_llm engine cluster analysis in
    (escalate_channels result.actions, apply_tags result.tags cluster)
post_rules _ cluster _ = ([], cluster)

-- The first builder of a cluster's event.
opening : String → AlertCluster → WideEventBuilder
unfolding cluster_section
opening correlation_id cluster = set Key.cluster (cluster_section cluster 0 none) (
    set Key.correlation_id (str correlation_id)
      (new_builder (String.◌++◌ correlation_id (String.◌++◌ ":" cluster.fingerprint)) use_case))

-- The builder with the error of the language model, where there is one.
unfoldable pub with_llm_error : Option Thrown → WideEventBuilder → WideEventBuilder
with_llm_error none builder = builder
with_llm_error (some e) builder = set Key.error (to_error_section e) builder

module _ (settings : Settings) (ports : Ports) where
  -- Each query that fails counts as an error and yields no spans.
  unfoldable pub gather_traces : List String → Exec (List Fields × ℕ)
  gather_traces [] = pure ([], 0)
  gather_traces (id ∷ rest) = do
    r ← try (ask (Call.find_by_trace_id id) (λ h. ports.find_by_trace_id h id))
    others ← gather_traces rest
    pure (elim r [ ok found ↦ (found ++ others.0, others.1) | err _ ↦ (others.0, suc others.1) ])

  is_low : Level → Bool
  is_low low = true
  is_low _ = false

  -- Whether to skip the language model. What the triage throws is not caught.
  unfoldable pub triage : AlertCluster → WideEventBuilder → Exec (Bool × WideEventBuilder)
  unfolding is_low
  triage cluster builder =
      if settings.has_triage
      then ask (Call.classify cluster) (λ h. ports.classify h cluster) >>= (λ severity. pure (
        is_low severity,
        set Key.triage (obj (field "severity" (str (level_text severity)) end)) builder,
      ))
      else pure (false, builder)

  skipped : WideEventBuilder → Diagnosis × WideEventBuilder
  unfolding triage_skip_section
  skipped builder = (
    record { analysis = none; llm_error = none; llm_degraded_reason = some "triage_low_severity" },
    set Key.llm triage_skip_section builder,
  )

  diagnosed : WideEventBuilder → Result Thrown LlmResult → Diagnosis × WideEventBuilder
  unfolding llm_section
  diagnosed builder (ok r) = (
    record { analysis = r.analysis; llm_error = none; llm_degraded_reason = r.degraded_reason },
    set Key.llm (llm_section r) builder,
  )
  diagnosed builder (err e) =
      (record { analysis = none; llm_error = some e; llm_degraded_reason = none }, builder)

  -- What the language model throws is kept, and the pipeline goes on without an analysis.
  unfoldable pub diagnose :
      Bool → AlertCluster → List Fields → WideEventBuilder → Exec (Diagnosis × WideEventBuilder)
  unfolding skipped diagnosed
  diagnose true cluster spans builder = pure (skipped builder)
  diagnose false cluster spans builder = do
    r ← try (ask (Call.analyze cluster spans) (λ h. ports.analyze h cluster spans))
    pure (diagnosed builder r)

  -- The sends one behind the other, and the channels they reached. The first that throws ends them.
  unfoldable pub send_all :
      AlertCluster → Option LlmAnalysis → List (Option String) → Exec (List String)
  send_all cluster analysis [] = pure []
  send_all cluster analysis (channel ∷ rest) = do
    r ← ask (Call.send cluster analysis channel) (λ h. ports.send h cluster analysis channel)
    others ← send_all cluster analysis rest
    pure (r.channels ++ others)

  -- The end of a cluster whose notification failed: the claim is released, and the error goes on.
  unfoldable pub fail :
      AlertCluster → List String → ℕ → ℕ → WideEventBuilder → Thrown → Exec (Unit {0})
  unfolding emit release_dedup_claim notify_section read_now
  fail cluster channels start_ms notify_start_ms builder e = do
    now ← read_now settings ports
    release_dedup_claim settings ports cluster.fingerprint
    emit settings ports
        (set Key.error (to_error_section e)
          (set Key.notify (notify_section channels "failure" (now - notify_start_ms)) builder))
        failed start_ms
    throw e

  -- The end of a cluster, by how the sends went.
  unfoldable pub settle :
      AlertCluster
      → List String
      → List String
      → ℕ
      → ℕ
      → WideEventBuilder
      → Diagnosis
      → Result Thrown (List String)
      → Exec (Unit {0})
  unfolding emit notify_section read_now
  settle cluster routes escalations start_ms notify_start_ms builder d (err e) =
      fail cluster (routes ++ escalations) start_ms notify_start_ms builder e
  settle cluster routes escalations start_ms notify_start_ms builder d (ok channels) = do
    now ← read_now settings ports
    emit settings ports
        (with_llm_error d.llm_error
          (set Key.notify (notify_section channels "success" (now - notify_start_ms)) builder))
        (resolve_outcome (record {
          llm_error = d.llm_error;
          notify_error = none;
          llm_degraded_reason = d.llm_degraded_reason;
        }))
        start_ms

  -- The first route's channel, or the default, and then the escalations.
  unfoldable pub notify :
      AlertCluster
      → Option LlmAnalysis
      → List String
      → List String
      → ℕ
      → WideEventBuilder
      → Diagnosis
      → Exec (Unit {0})
  notify cluster analysis routes escalations start_ms builder d = do
    notify_start_ms ← read_now settings ports
    r ← try (send_all cluster analysis (get_elem? routes 0 ∷ map some escalations))
    settle cluster routes escalations start_ms notify_start_ms builder d r

  -- A cluster that the first rules let through, with the channels that they chose.
  unfoldable pub investigate :
      AlertCluster → List String → List String → ℕ → WideEventBuilder → Exec (Unit {0})
  unfolding cluster_section positive
  investigate cluster routes escalations start_ms builder = do
    (spans, errors) ← gather_traces cluster.representative_trace_ids
    (skip, b) ←
        triage cluster
          (set Key.cluster (cluster_section cluster (length spans) (positive errors)) builder)
    (d, b') ← diagnose skip cluster spans b
    let post = post_rules settings.rule_engine cluster d.analysis
    notify post.1 d.analysis routes (escalations ++ post.0) start_ms b' d

  -- `if (matchedRuleId)`: an empty id counts nothing.
  unfoldable pub count_rule : Option String → Exec (Unit {0})
  count_rule none = pure tt
  count_rule (some id) = if is_empty id then pure tt else tell (Call.count_suppressed id) (λ _. tt)

  -- A cluster that a rule suppresses.
  unfoldable pub silence : RuleActionResult → ℕ → WideEventBuilder → Exec (Unit {0})
  unfolding emit
  silence pre start_ms builder = do
    count_rule pre.matched_rule_id
    emit settings ports builder suppressed start_ms

  -- A cluster whose claim is won.
  unfoldable pub apply_result :
      RuleActionResult → AlertCluster → ℕ → WideEventBuilder → Exec (Unit {0})
  apply_result pre cluster start_ms builder =
      if pre.suppressed
      then silence pre start_ms builder
      else investigate cluster (route_channels pre.actions) (escalate_channels pre.actions) start_ms
          builder

  unfoldable pub apply_engine :
      Option RuleEngine → AlertCluster → ℕ → WideEventBuilder → Exec (Unit {0})
  unfolding rule_section
  apply_engine none cluster start_ms builder = investigate cluster [] [] start_ms builder
  apply_engine (some engine) cluster start_ms builder =
      let pre = evaluate_pre_llm engine cluster in
      apply_result pre cluster start_ms (set Key.rule (rule_section pre) builder)

  unfoldable pub process_cluster : String → AlertCluster → Exec (Unit {0})
  unfolding opening dedup_section read_now
  process_cluster correlation_id cluster = do
    start_ms ← read_now settings ports
    r ←
        ask (Call.is_new cluster.fingerprint settings.dedup_ttl_seconds)
          (λ h. ports.is_new h cluster.fingerprint settings.dedup_ttl_seconds)
    if not r.is_new then tell Call.count_duplicate (λ _. tt) else do
      tell Call.count_new (λ _. tt)
      apply_engine settings.rule_engine cluster start_ms
          (set Key.dedup (dedup_section r) (opening correlation_id cluster))

  unfoldable pub process_clusters : String → List AlertCluster → Exec (Unit {0})
  process_clusters correlation_id [] = pure tt
  process_clusters correlation_id (cluster ∷ rest) = do
    process_cluster correlation_id cluster
    process_clusters correlation_id rest

  -- The error for an empty group of alerts ends the run before it starts.
  unfoldable pub run_built : Option (List AlertCluster) → String → Exec (Unit {0})
  run_built none correlation_id =
      throw (Thrown.error_object "Empty alert group — this should never happen" "Error" none)
  run_built (some clusters) correlation_id = process_clusters correlation_id clusters

  -- `execute`
  unfoldable pub execute : (String → String) → List NormalizedAlert → String → Exec (Unit {0})
  unfolding run_built
  execute sha256_hex alerts correlation_id =
      run_built (build_clusters sha256_hex alerts) correlation_id
