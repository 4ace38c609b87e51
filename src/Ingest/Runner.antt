-- ===== src/Ingest/Runner.antt =====
-- packages/ingest/src/polling/ingest-runner.ts and the check of rule names in config/ingest-config.schema.ts.
-- A run of a rule is queried, then executed, then settled; ticks and runs come in any order.
pub mod Overlap
use junando.Common.{
  ℕ, ◌+◌, ◌-◌, ◌*◌, String, Bool, true, false, not, ◌&&◌, Option, none, some, List, [], ◌∷◌, ◌++◌,
  map, ◌≡◌, ◌==◌, if◌then◌else◌,
}
use junando.Common.Lists.{any_of, keep}
use junando.Common.Assoc.{remove}
use junando.Ingest.Keyed.{Flags, insert_all, is_free}
use junando.Domain.Alert.{NormalizedAlert}
use junando.Ingest.Mapping.{Platform, IngestRule, LokiStreamResult, map_loki_result_to_alerts}

-- `LokiIngestConfig`, less what the runner does not read.
pub record LokiIngestConfig : Type 0 where
  pub interval_ms : ℕ
  pub rules : List IngestRule

-- The loop of `ensureUniqueRuleNames`: whether it adds no issue.
unfoldable pub unique_from : List String → List IngestRule → Bool
unique_from seen [] = true
unique_from seen (rule ∷ rules) =
    let later = unique_from (rule.name ∷ seen) rules in
    if any_of (λ n. n == rule.name) seen then false else later

unfoldable pub ensure_unique_rule_names : List IngestRule → Bool
ensure_unique_rule_names rules = unique_from [] rules

-- How far a run is: its query is out, or its alerts are with the pipeline.
pub data Stage : Type 0 where
  querying : Stage
  executing : List NormalizedAlert → String → Stage

-- A promise of `processRule`.
pub record RuleRun : Type 0 where
  pub rule : IngestRule
  pub query_start_ms : ℕ
  pub now_ms : ℕ
  pub stage : Stage

-- The runner: the keys of `inFlight`, and the runs that are not settled.
pub record IngestRunner : Type 0 where
  pub in_flight : Flags
  pub runs : List RuleRun
  pub stopped : Bool

-- A runner before its first tick.
abbrev pub new_runner : IngestRunner
new_runner = record { in_flight = []; runs = []; stopped = false }

-- The keys of `inFlight`.
abbrev pub rule_name : IngestRule → String
rule_name rule = rule.name

abbrev pub run_name : RuleRun → String
run_name run = run.rule.name

abbrev pub new_run : ℕ → ℕ → IngestRule → RuleRun
new_run query_start_ms now_ms rule = record {
  rule = rule;
  query_start_ms = query_start_ms;
  now_ms = now_ms;
  stage = querying;
}

-- `tick`: the rules without a run are filtered before any of them starts.
unfoldable pub tick : LokiIngestConfig → ℕ → IngestRunner → IngestRunner
tick config now_ms s =
    let free = keep (is_free rule_name s.in_flight) config.rules in
    record s {
      in_flight = insert_all rule_name free s.in_flight;
      runs = s.runs ++ map (new_run (now_ms - config.interval_ms) now_ms) free;
    }

-- The `finally` of a run, and the runs without it.
unfoldable pub settle_run : List RuleRun → RuleRun → List RuleRun → IngestRunner → IngestRunner
settle_run before run after s = record s {
  in_flight = remove (run_name run) s.in_flight;
  runs = before ++ after;
}

-- What a run does with its alerts: none end it.
unfoldable pub with_alerts :
    List RuleRun → RuleRun → List RuleRun → List NormalizedAlert → IngestRunner → IngestRunner
unfolding settle_run
with_alerts before run after [] s = settle_run before run after s
with_alerts before run after (alert ∷ alerts) s = record s {
  runs = before ++ record run { stage = executing (alert ∷ alerts) run.rule.name } ∷ after;
}

-- `processRule` behind Loki's answer, `none` where the query throws.
unfoldable pub answered :
    Platform
    → List RuleRun
    → RuleRun
    → List RuleRun
    → Option (List LokiStreamResult)
    → IngestRunner
    → IngestRunner
unfolding with_alerts
answered platform before run after none s = settle_run before run after s
answered platform before run after (some streams) s =
    with_alerts before run after
      (map_loki_result_to_alerts platform run.rule streams run.query_start_ms run.now_ms) s

abbrev pub stop_runner : IngestRunner → IngestRunner
stop_runner s = record s { stopped = true }

-- What may happen next. A run that executes settles, whether the pipeline throws or not.
pub data Step (platform : Platform) (config : LokiIngestConfig) (s : IngestRunner)
    : IngestRunner → Type 0 where
  ticks :
      (now_ms : ℕ)
      → s.stopped ≡ false
      → (t : IngestRunner) → t ≡ tick config now_ms s
      → Step platform config s t
  answers :
      (before : List RuleRun) (run : RuleRun) (after : List RuleRun)
      (reply : Option (List LokiStreamResult))
      → s.runs ≡ before ++ run ∷ after
      → run.stage ≡ querying
      → (t : IngestRunner) → t ≡ answered platform before run after reply s
      → Step platform config s t
  settles :
      (before : List RuleRun) (run : RuleRun) (after : List RuleRun) (alerts : List NormalizedAlert)
      (id : String)
      → s.runs ≡ before ++ run ∷ after
      → run.stage ≡ executing alerts id
      → (t : IngestRunner) → t ≡ settle_run before run after s
      → Step platform config s t
  stops : (t : IngestRunner) → t ≡ stop_runner s → Step platform config s t

pub data Reachable (platform : Platform) (config : LokiIngestConfig) : IngestRunner → Type 0 where
  starts : (s : IngestRunner) → s ≡ new_runner → Reachable platform config s
  goes_on :
      (s t : IngestRunner)
      → Reachable platform config s
      → Step platform config s t
      → Reachable platform config t
