-- ===== src/Incident/Process.antt =====
-- `ProcessIncidentUseCase`: what happens to one cluster, stage by stage, and the loop over the clusters.
-- A stage takes the event's builder and gives it back. The queries for traces run one behind the other.
use junando.Common.{
  ℕ, ◌+◌, ◌-◌, String, Bool, Option, none, some, List, [], ◌∷◌, if◌then◌else◌, is_some,
}
use junando.Common.Text.{is_empty}
use junando.Common.Assoc.{insert}
use junando.Common.Results.{Result, ok, err}
use junando.Domain.Cluster.{AlertCluster, LlmAnalysis, level_text}
use junando.Domain.Rule.{RuleAction, route, escalate}
use junando.Rules.Actions.{RuleActionResult}
use junando.Rules.Engine.{RuleEngine}
use junando.Logger.Json.{Json, bool, num, str, arr, obj, Fields, end, field, str_items}
use junando.Logger.Builder.{
  WideEventBuilder, set, flush, Key, Outcome, outcome_text, success, degraded, failed,
}
use junando.Logger.Sampling.{should_sample}
use junando.Logger.Redaction.{redact}
use junando.Dedup.{DedupResult}
use junando.Incident.Calls.{Thrown, error_object, other_value, LlmResult, Call, History, Ports}
use junando.Incident.Exec.{Exec, pure, ask, tell, try, ◌>>=◌}

-- `Dependencies`, less the ports, with the two flags that are read from the environment.
pub record Settings : Type 0 where
  pub dedup_ttl_seconds : ℕ
  pub rule_engine : Option RuleEngine
  pub has_triage : Bool
  pub wide_events_enabled : Bool
  pub is_development : Bool

-- An optional field of an object.
abbrev opt_field : String → Option Json → Fields → Fields
opt_field key none rest = rest
opt_field key (some v) rest = field key v rest

abbrev opt_text : Option String → Option Json
opt_text none = none
opt_text (some s) = some (str s)

unfoldable pub to_error_section : Thrown → Json
to_error_section (error_object message name stack) = obj (
    field "message" (str message)
      (field "name" (str name) (opt_field "stack" (opt_text stack) end)))
to_error_section (other_value text) = obj (field "message" (str text) end)

-- `OutcomeSignals`
pub record OutcomeSignals : Type 0 where
  pub llm_error : Option Thrown
  pub notify_error : Option Thrown
  pub llm_degraded_reason : Option String

unfoldable pub resolve_outcome : OutcomeSignals → Outcome
resolve_outcome signals =
    if is_some signals.notify_error
    then failed
    else if is_some signals.llm_error
    then degraded
    else if is_some signals.llm_degraded_reason
    then degraded
    else success

-- The channels of the route actions, and of the escalate actions.
unfoldable pub route_channels : List RuleAction → List String
route_channels [] = []
route_channels (route channel ∷ rest) = channel ∷ route_channels rest
route_channels (_ ∷ rest) = route_channels rest

unfoldable pub escalate_channels : List RuleAction → List String
escalate_channels [] = []
escalate_channels (escalate channel ∷ rest) = channel ∷ escalate_channels rest
escalate_channels (_ ∷ rest) = escalate_channels rest

-- `{ ...labels, ...tags }`
unfoldable pub merge_tags : List (String × String) → List (String × String) → List (String × String)
merge_tags labels [] = labels
merge_tags labels ((key, value) ∷ rest) = merge_tags (insert key value labels) rest

abbrev labels_of : Option (List (String × String)) → List (String × String)
labels_of none = []
labels_of (some labels) = labels

-- `if (Object.keys(tags).length > 0) cluster.labels = ...`
unfoldable pub apply_tags : List (String × String) → AlertCluster → AlertCluster
apply_tags [] cluster = cluster
apply_tags (t ∷ ts) cluster = record cluster {
  labels = some (merge_tags (labels_of cluster.labels) (t ∷ ts));
}

-- What the language model's stage leaves: its analysis, what it threw, and why it is degraded.
pub record Diagnosis : Type 0 where
  pub analysis : Option LlmAnalysis
  pub llm_error : Option Thrown
  pub llm_degraded_reason : Option String

unfoldable pub cluster_section : AlertCluster → ℕ → Option ℕ → Json
cluster_section cluster span_count trace_errors = obj (
    field "fingerprint" (str cluster.fingerprint) (
      field "serviceName" (str cluster.service_name) (
        field "alertCount" (num cluster.alert_count) (
          field "spanCount" (num span_count)
            (elim trace_errors [ none ↦ end | some n ↦ field "traceErrors" (num n) end ])))))

unfoldable pub dedup_section : DedupResult → Json
dedup_section r = obj (
    field "isNew" (bool r.is_new)
      (field "ttlSeconds" (num r.ttl_seconds) (opt_field "error" (opt_text r.error) end)))

unfoldable pub rule_section : RuleActionResult → Json
rule_section r = obj (
    field "matched" (bool (is_some r.matched_rule_id)) (
      field "suppressed" (bool r.suppressed)
        (opt_field "matchedRuleId" (opt_text r.matched_rule_id) end)))

urgency_of : Option LlmAnalysis → Option Json
urgency_of none = none
urgency_of (some analysis) = some (str (level_text analysis.urgency_level))

-- `degradedReason && { degradedReason }`: an empty text is left out.
truthy_text : Option String → Option Json
truthy_text none = none
truthy_text (some s) = if is_empty s then none else some (str s)

unfoldable pub llm_section : LlmResult → Json
unfolding urgency_of truthy_text
llm_section r = obj (
    field "provider" (str r.provider) (
      field "model" (str r.model) (
        field "latencyMs" (num r.latency_ms) (
          opt_field "urgency" (urgency_of r.analysis) (
            opt_field "degradedReason" (truthy_text r.degraded_reason)
              (field "tokens" (num (r.prompt_tokens + r.completion_tokens)) end))))))

unfoldable pub triage_skip_section : Json
triage_skip_section = obj (
    field "provider" (str "triage") (
      field "model" (str "n/a") (
        field "latencyMs" (num 0)
          (field "degradedReason" (str "triage_low_severity") (field "tokens" (num 0) end)))))

unfoldable pub notify_section : List String → String → ℕ → Json
notify_section channels outcome latency_ms = obj (
    field "channels" (arr (str_items channels))
      (field "outcome" (str outcome) (field "latencyMs" (num latency_ms) end)))

module _ (settings : Settings) (ports : Ports) where
  unfoldable pub read_now : Exec ℕ
  read_now = tell Call.read_clock (ports.now)

  unfoldable pub write_event : Fields → Exec (Unit {0})
  write_event event = tell (Call.log_info (redact (settings.is_development) event)) (λ _. tt)

  -- The event that `emit` flushes.
  unfoldable pub final_event : WideEventBuilder → Outcome → ℕ → History → Fields
  final_event builder outcome duration h =
      flush (ports.serialized_bytes) (ports.timestamp h)
        (set Key.duration_ms (num duration) (set Key.outcome (str (outcome_text outcome)) builder))

  unfoldable pub emit_sampled : Fields → Exec (Unit {0})
  unfolding write_event
  emit_sampled event h =
      if should_sample (ports.is_drawn h) event then write_event event h else pure tt h

  unfoldable pub emit : WideEventBuilder → Outcome → ℕ → Exec (Unit {0})
  unfolding read_now emit_sampled final_event
  emit builder outcome start_ms =
      if settings.wide_events_enabled
      then read_now >>= (λ now h. emit_sampled (final_event builder outcome (now - start_ms) h) h)
      else pure tt

  -- A reset that throws is a warning, and nothing more.
  unfoldable pub warn_failure : String → Result {0, 0} Thrown Unit → Exec (Unit {0})
  warn_failure fingerprint (ok _) = pure tt
  warn_failure fingerprint (err _) = tell (Call.log_warn fingerprint) (λ _. tt)

  unfoldable pub release_dedup_claim : String → Exec (Unit {0})
  unfolding warn_failure
  release_dedup_claim fingerprint = do
    r ← try (ask (Call.reset fingerprint) (λ h. ports.reset h fingerprint))
    warn_failure fingerprint r
