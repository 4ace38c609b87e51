-- ===== src/Ingest/RunnerTests.antt =====
-- Two ticks of a Loki runner, over a loaded configuration of the legacy form, and of a Prometheus runner whose
-- two rules share their name.
use junando.Common.{String, Bool, not, none, List, [], ◌∷◌, ◌≡◌, refl, arith}
use junando.Common.Text.{is_empty, trim}
use junando.Common.Results.{ok}
use junando.Common.Lists.{any_of}
use junando.Domain.Alert.{error}
use junando.Logger.Json.{Json, num, str, arr, obj, Fields, items_of, fields_of, get_field}
use junando.Ingest.Mapping.{Platform, PrometheusRule}
use junando.Ingest.Runner
use junando.Ingest.Runner.{IngestRunner, ensure_unique_rule_names, unique_from}
use junando.Ingest.Runner.Overlap.{IsExclusive}
use junando.Ingest.Prometheus
use junando.Ingest.Prometheus.{PrometheusIngestRunner}
use junando.Ingest.Prometheus.Single.{IsSingle, Reachable-IsSingle}
use junando.Ingest.Schema.{loki_section, legacy_loki_section, loki_config, ingest_rule}
use junando.Ingest.Config.{
  loki_ingest_config, load_ingest_config, explicit_config, normalize_legacy_config, loki,
}
use junando.Ingest.Config.Loaded.{load_ingest_config-IsExclusive}

abbrev a_platform : Platform
a_platform = record {
  sha256_hex = λ s. s;
  to_iso_string = λ n. "";
  trace_id = λ s. none;
  parse_float = λ s. none;
}

abbrev rule_named : String → Json
rule_named name = obj (
    fields_of (
      ("name", str name)
      ∷ ("query", str "{}")
      ∷ ("service", str "api")
      ∷ ("alertType", str "http_500")
      ∷ ("severity", str "high")
      ∷ []))

abbrev loki_parts : List (String × Json)
loki_parts =
    ("intervalMs", num 30000)
    ∷ ("loki", obj (fields_of (("url", str "http://loki") ∷ ("timeoutMs", num 10000) ∷ [])))
    ∷ ("rules", arr (items_of (rule_named "errors" ∷ rule_named "logins" ∷ [])))
    ∷ []

-- A configuration without a kind, and the section that it is loaded as.
abbrev legacy : Json
legacy = obj (fields_of (("ingest", obj (fields_of loki_parts)) ∷ []))

abbrev loaded_section : Fields
loaded_section = fields_of (("kind", str "loki") ∷ loki_parts)

-- The same with the kind of another source.
abbrev misplaced : Json
misplaced = obj (fields_of (("ingest", obj (fields_of (("kind", str "sqs") ∷ loki_parts))) ∷ []))

abbrev is_some_url : String → Bool
is_some_url s = not (is_empty s)

misplaced_runs :
    load_ingest_config is_some_url (λ yaml. ok misplaced) (λ raw. "") "ingest:"
    ≡ ok (loki loaded_section)
unfolding load_ingest_config trim explicit_config normalize_legacy_config legacy_loki_section
    get_field fields_of loki_config items_of ingest_rule any_of ensure_unique_rule_names unique_from
    loki_ingest_config loki_section
misplaced_runs = refl

abbrev ticked : IngestRunner
ticked = Runner.tick (loki_ingest_config loaded_section) 60000 Runner.new_runner

-- The second tick comes while the runs of the first are out.
abbrev ticked_twice : IngestRunner
ticked_twice = Runner.tick (loki_ingest_config loaded_section) 90000 ticked

ticked_twice-Reachable :
    Runner.Reachable a_platform (loki_ingest_config loaded_section) ticked_twice
unfolding Runner.tick
ticked_twice-Reachable =
    Runner.goes_on ticked ticked_twice
      (Runner.goes_on Runner.new_runner ticked (Runner.starts Runner.new_runner refl)
        (Runner.ticks 60000 refl ticked refl))
      (Runner.ticks 90000 refl ticked_twice refl)

load_ingest_config-IsExclusive_example : IsExclusive ticked_twice
unfolding trim explicit_config normalize_legacy_config legacy_loki_section get_field fields_of
    loki_config items_of ingest_rule any_of ensure_unique_rule_names unique_from loki_ingest_config
    loki_section
load_ingest_config-IsExclusive_example =
    load_ingest_config-IsExclusive is_some_url (λ yaml. ok legacy) (λ raw. "") "ingest:"
      loaded_section a_platform ticked_twice (unfold load_ingest_config in refl)
      ticked_twice-Reachable

abbrev metric_rule : PrometheusRule
metric_rule = record {
  name = "latency";
  query = "p99";
  service = "api";
  alert_type = error;
  threshold = 5;
  comparator = none;
  window_ms = none;
}

abbrev twins : List PrometheusRule
twins = metric_rule ∷ metric_rule ∷ []

abbrev polled : PrometheusIngestRunner
polled = Prometheus.tick twins 60000 Prometheus.new_runner

polled-Reachable : Prometheus.Reachable a_platform twins polled
polled-Reachable =
    Prometheus.goes_on Prometheus.new_runner polled (Prometheus.starts Prometheus.new_runner refl)
      (Prometheus.ticks 60000 refl polled refl)

Reachable-IsSingle_example : IsSingle polled
Reachable-IsSingle_example =
    Reachable-IsSingle a_platform twins polled (omega arith) polled-Reachable
