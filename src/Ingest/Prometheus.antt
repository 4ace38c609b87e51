-- ===== src/Ingest/Prometheus.antt =====
-- packages/ingest/src/polling/prometheus-ingest-runner.ts. A run of a rule is queried, then executed, then
-- settled; ticks and runs come in any order. A rule is an object of its own, found by its place.
pub mod Places
pub mod Single
use Prim.Native.String
use junando.Common.{
  ℕ, ◌+◌, String, Bool, true, false, not, Option, none, some, List, [], ◌∷◌, ◌++◌, map, ◌≡◌,
}
use junando.Common.Lists.{keep}
use junando.Common.Split.{decimal}
use junando.Common.Assoc.{remove}
use junando.Ingest.Keyed.{Flags, insert_all, is_free}
use junando.Domain.Alert.{NormalizedAlert}
use junando.Ingest.Mapping.{
  Platform, PrometheusRule, PrometheusInstantResponse, map_metric_result_to_alerts,
}

-- A rule and its place among the rules.
pub record IndexedRule : Type 0 where
  pub index : ℕ
  pub rule : PrometheusRule

unfoldable pub indexed_from : ℕ → List PrometheusRule → List IndexedRule
indexed_from index [] = []
indexed_from index (rule ∷ rules) =
    record { index = index; rule = rule } ∷ indexed_from (index + 1) rules

unfoldable pub rule_key : IndexedRule → String
rule_key entry = String.◌++◌ entry.rule.name (String.◌++◌ "-" (decimal entry.index))

unfoldable pub correlation_id : ℕ → ℕ → String
correlation_id index now_ms =
    String.◌++◌ "prometheus-" (String.◌++◌ (decimal index) (String.◌++◌ "-" (decimal now_ms)))

-- How far a run is: its query is out, or its alerts are with the pipeline.
pub data Stage : Type 0 where
  querying : Stage
  executing : List NormalizedAlert → String → Stage

pub record RuleRun : Type 0 where
  pub entry : IndexedRule
  pub now_ms : ℕ
  pub stage : Stage

-- The runner: `inFlightKeys`, and the runs that are not settled.
pub record PrometheusIngestRunner : Type 0 where
  pub in_flight_keys : Flags
  pub runs : List RuleRun
  pub stopped : Bool

abbrev pub new_runner : PrometheusIngestRunner
new_runner = record { in_flight_keys = []; runs = []; stopped = false }

abbrev pub run_key : RuleRun → String
run_key run = rule_key run.entry

abbrev pub new_run : ℕ → IndexedRule → RuleRun
new_run now_ms entry = record { entry = entry; now_ms = now_ms; stage = querying }

-- `tick`: the rules without a run are filtered before any of them starts.
unfoldable pub tick : List PrometheusRule → ℕ → PrometheusIngestRunner → PrometheusIngestRunner
tick rules now_ms s =
    let free = keep (is_free rule_key s.in_flight_keys) (indexed_from 0 rules) in
    record s {
      in_flight_keys = insert_all rule_key free s.in_flight_keys;
      runs = s.runs ++ map (new_run now_ms) free;
    }

-- The `finally` of a run, and the runs without it.
unfoldable pub settle_run :
    List RuleRun → RuleRun → List RuleRun → PrometheusIngestRunner → PrometheusIngestRunner
settle_run before run after s = record s {
  in_flight_keys = remove (run_key run) s.in_flight_keys;
  runs = before ++ after;
}

-- What a run does with its alerts: none end it.
unfoldable pub with_alerts :
    List RuleRun
    → RuleRun
    → List RuleRun
    → List NormalizedAlert
    → PrometheusIngestRunner
    → PrometheusIngestRunner
unfolding settle_run correlation_id
with_alerts before run after [] s = settle_run before run after s
with_alerts before run after (alert ∷ alerts) s = record s {
  runs =
      before
      ++ record run {
        stage = executing (alert ∷ alerts) (correlation_id run.entry.index run.now_ms);
      }
        ∷ after;
}

-- `processRule` behind the answer of Prometheus, `none` where the query throws.
unfoldable pub answered :
    Platform
    → List RuleRun
    → RuleRun
    → List RuleRun
    → Option PrometheusInstantResponse
    → PrometheusIngestRunner
    → PrometheusIngestRunner
unfolding with_alerts
answered platform before run after none s = settle_run before run after s
answered platform before run after (some response) s =
    with_alerts before run after
      (map_metric_result_to_alerts platform run.entry.rule response run.now_ms) s

abbrev pub stop_runner : PrometheusIngestRunner → PrometheusIngestRunner
stop_runner s = record s { stopped = true }

-- What may happen next. A run that executes settles, whether the pipeline throws or not.
pub data Step (platform : Platform) (rules : List PrometheusRule) (s : PrometheusIngestRunner)
    : PrometheusIngestRunner → Type 0 where
  ticks :
      (now_ms : ℕ)
      → s.stopped ≡ false
      → (t : PrometheusIngestRunner) → t ≡ tick rules now_ms s
      → Step platform rules s t
  answers :
      (before : List RuleRun) (run : RuleRun) (after : List RuleRun)
      (reply : Option PrometheusInstantResponse)
      → s.runs ≡ before ++ run ∷ after
      → run.stage ≡ querying
      → (t : PrometheusIngestRunner) → t ≡ answered platform before run after reply s
      → Step platform rules s t
  settles :
      (before : List RuleRun) (run : RuleRun) (after : List RuleRun) (alerts : List NormalizedAlert)
      (id : String)
      → s.runs ≡ before ++ run ∷ after
      → run.stage ≡ executing alerts id
      → (t : PrometheusIngestRunner) → t ≡ settle_run before run after s
      → Step platform rules s t
  stops : (t : PrometheusIngestRunner) → t ≡ stop_runner s → Step platform rules s t

pub data Reachable (platform : Platform) (rules : List PrometheusRule)
    : PrometheusIngestRunner → Type 0 where
  starts : (s : PrometheusIngestRunner) → s ≡ new_runner → Reachable platform rules s
  goes_on :
      (s t : PrometheusIngestRunner)
      → Reachable platform rules s
      → Step platform rules s t
      → Reachable platform rules t
