-- ===== src/Ingest/Prometheus/Single.antt =====
-- When two runs of one rule overlap.
use mathlib.Core.Path.{subst}
use junando.Common.{
  ℕ, ◌+◌, ◌≤◌, String, Option, none, some, List, [], ◌∷◌, ◌++◌, map, ◌≡◌, refl, sym, ap, arith,
}
use junando.Common.Lists.{keep, length}
use junando.Common.Split.Decimals.{pow10}
use junando.Common.Assoc.{lookup}
use junando.Domain.Alert.{NormalizedAlert}
use junando.Ingest.Keyed.{
  keyed, is_keyed, is_free, IsExclusive, start-IsExclusive, settle-IsExclusive, advance-IsExclusive,
}
use junando.Ingest.Mapping.{Platform, PrometheusRule, PrometheusInstantResponse}
use junando.Ingest.Prometheus.{
  IndexedRule, indexed_from, rule_key, run_key, RuleRun, PrometheusIngestRunner, new_run, tick,
  settle_run, with_alerts, answered, Step, ticks, answers, settles, stops, Reachable, starts,
  goes_on,
}
use junando.Ingest.Prometheus.Places.{keyed-bound}

-- For every key, the runs are none or one, as the key is in flight or not.
abbrev pub IsSingle : PrometheusIngestRunner → Type 0
IsSingle s = IsExclusive run_key s.runs s.in_flight_keys

runs_keyed-new :
    (c : String) (now_ms : ℕ) (entries : List IndexedRule)
    → keyed run_key c (map (new_run now_ms) entries) ≡ keyed rule_key c entries
runs_keyed-new c now_ms [] = refl
runs_keyed-new c now_ms (entry ∷ entries) =
    ap (◌+◌ (is_keyed rule_key c entry)) (runs_keyed-new c now_ms entries)

tick-IsSingle :
    (rules : List PrometheusRule) (now_ms : ℕ) (s : PrometheusIngestRunner)
    → length rules ≤ pow10 20
    → IsSingle s
    → IsSingle (tick rules now_ms s)
unfolding tick
tick-IsSingle rules now_ms s bounded h =
    let all = indexed_from 0 rules in
    start-IsExclusive rule_key run_key all _ s.runs s.in_flight_keys
      (λ c. keyed-bound c 0 rules (omega (arith, bounded)))
      (λ c. runs_keyed-new c now_ms (keep (is_free rule_key s.in_flight_keys) all)) h

settle_run-IsSingle :
    (before : List RuleRun) (run : RuleRun) (after : List RuleRun) (s : PrometheusIngestRunner)
    → s.runs ≡ before ++ run ∷ after
    → IsSingle s
    → IsSingle (settle_run before run after s)
unfolding settle_run
settle_run-IsSingle before run after s here h =
    settle-IsExclusive run_key before run after s.in_flight_keys
      (subst (λ rs. IsExclusive run_key rs s.in_flight_keys) here h)

module _ (platform : Platform) (rules : List PrometheusRule) where
  with_alerts-IsSingle :
      (before : List RuleRun) (run : RuleRun) (after : List RuleRun) (alerts : List NormalizedAlert)
      (s : PrometheusIngestRunner)
      → s.runs ≡ before ++ run ∷ after
      → IsSingle s
      → IsSingle (with_alerts before run after alerts s)
  unfolding with_alerts
  with_alerts-IsSingle before run after [] s here h = settle_run-IsSingle before run after s here h
  with_alerts-IsSingle before run after (a ∷ alerts) s here h =
      advance-IsExclusive run_key before run _ after s.in_flight_keys refl
        (subst (λ rs. IsExclusive run_key rs s.in_flight_keys) here h)

  answered-IsSingle :
      (before : List RuleRun) (run : RuleRun) (after : List RuleRun)
      (reply : Option PrometheusInstantResponse) (s : PrometheusIngestRunner)
      → s.runs ≡ before ++ run ∷ after
      → IsSingle s
      → IsSingle (answered platform before run after reply s)
  unfolding answered
  answered-IsSingle before run after none s here h = settle_run-IsSingle before run after s here h
  answered-IsSingle before run after (some response) s here h =
      with_alerts-IsSingle before run after _ s here h

  Step-IsSingle :
      (s t : PrometheusIngestRunner)
      → length rules ≤ pow10 20
      → IsSingle s
      → Step platform rules s t
      → IsSingle t
  Step-IsSingle s t bounded h (ticks now_ms running _ e) =
      subst IsSingle (sym e) (tick-IsSingle rules now_ms s bounded h)
  Step-IsSingle s t bounded h (answers before run after reply here stage _ e) =
      subst IsSingle (sym e) (answered-IsSingle before run after reply s here h)
  Step-IsSingle s t bounded h (settles before run after alerts id here stage _ e) =
      subst IsSingle (sym e) (settle_run-IsSingle before run after s here h)
  Step-IsSingle s t bounded h (stops _ e) = subst IsSingle (sym e) h

  -- In every state that a Prometheus runner of at most 10 ^ 20 rules comes to, there is at most one run of the
  -- rule of each key, and there is one exactly while the key is in flight; the rules may share their names.
  pub Reachable-IsSingle :
      (s : PrometheusIngestRunner)
      → length rules ≤ pow10 20
      → Reachable platform rules s
      → IsSingle s
  unfolding lookup
  Reachable-IsSingle s bounded (starts _ e) = subst IsSingle (sym e) (λ c. refl)
  Reachable-IsSingle t bounded (goes_on s _ r step) =
      Step-IsSingle s t bounded (Reachable-IsSingle s bounded r) step
