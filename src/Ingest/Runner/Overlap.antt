-- ===== src/Ingest/Runner/Overlap.antt =====
-- When runs of rules of one name overlap.
use mathlib.Core.Path.{subst}
use junando.Common.{
  ℕ, ◌+◌, ◌-◌, ◌≤◌, String, true, false, Option, none, some, List, [], ◌∷◌, ◌++◌, map, ◌≡◌, refl,
  sym, ap, arith, ◌==◌, if◌then◌else◌, Bool-cases, inl, inr, eq_iff,
}
use junando.Common.Lists.{any_of, keep}
use junando.Common.Assoc.{lookup}
use junando.Domain.Alert.{NormalizedAlert}
use junando.Ingest.Keyed
use junando.Ingest.Keyed.{
  keyed, is_keyed, is_free, start-IsExclusive, settle-IsExclusive, advance-IsExclusive,
}
use junando.Ingest.Mapping.{Platform, IngestRule, LokiStreamResult}
use junando.Ingest.Runner.{
  LokiIngestConfig, unique_from, ensure_unique_rule_names, RuleRun, IngestRunner, rule_name,
  run_name, new_run, tick, settle_run, with_alerts, answered, Step, ticks, answers, settles, stops,
  Reachable, starts, goes_on,
}

-- For every name, the runs are none or one, as the key is not in flight or is.
abbrev pub IsExclusive : IngestRunner → Type 0
IsExclusive s = Keyed.IsExclusive run_name s.runs s.in_flight

-- What a name behind `seen` counts at most.
unique_from-bound :
    (c : String) (seen : List String) (rules : List IngestRule)
    → unique_from seen rules ≡ true
    → keyed rule_name c rules ≤ (if any_of (λ n. n == c) seen then 0 else 1)
unfolding unique_from any_of
unique_from-bound c seen [] h = omega arith
unique_from-bound c seen (rule ∷ rules) h = elim (Bool-cases (any_of (λ n. n == rule.name) seen)) [
  | inl again ↦ absurd (cc (rw (unique_from, again) at h))
  | inr fresh ↦
      let later = unique_from-bound c (rule.name ∷ seen) rules (rw (unique_from, fresh) at h) in
      elim (Bool-cases (rule.name == c)) [
        | inl same ↦
            let unseen : any_of (λ n. n == c) seen ≡ false =
              subst (λ (m : String). any_of (λ n. n == m) seen ≡ false)
                ((eq_iff rule.name c).0 same) fresh in
            rw (same, unseen) (omega (arith, rw same at later))
        | inr other ↦
            let bound : keyed rule_name c rules ≤ (if any_of (λ n. n == c) seen then 0 else 1) =
              rw other at later in
            rw other (omega (arith, bound))
      ]
]

runs_named-new :
    (c : String) (start now : ℕ) (rules : List IngestRule)
    → keyed run_name c (map (new_run start now) rules) ≡ keyed rule_name c rules
runs_named-new c start now [] = refl
runs_named-new c start now (rule ∷ rules) =
    ap (◌+◌ (is_keyed rule_name c rule)) (runs_named-new c start now rules)

tick-IsExclusive :
    (config : LokiIngestConfig) (now_ms : ℕ) (s : IngestRunner)
    → ensure_unique_rule_names config.rules ≡ true
    → IsExclusive s
    → IsExclusive (tick config now_ms s)
unfolding tick ensure_unique_rule_names any_of
tick-IsExclusive config now_ms s unique h =
    start-IsExclusive rule_name run_name config.rules _ s.runs s.in_flight
      (λ c. unique_from-bound c [] config.rules unique)
      (λ c.
        runs_named-new c (now_ms - config.interval_ms) now_ms
          (keep (is_free rule_name s.in_flight) config.rules))
      h

settle_run-IsExclusive :
    (before : List RuleRun) (run : RuleRun) (after : List RuleRun) (s : IngestRunner)
    → s.runs ≡ before ++ run ∷ after
    → IsExclusive s
    → IsExclusive (settle_run before run after s)
unfolding settle_run
settle_run-IsExclusive before run after s here h =
    settle-IsExclusive run_name before run after s.in_flight
      (subst (λ rs. Keyed.IsExclusive run_name rs s.in_flight) here h)

module _ (platform : Platform) (config : LokiIngestConfig) where
  with_alerts-IsExclusive :
      (before : List RuleRun) (run : RuleRun) (after : List RuleRun) (alerts : List NormalizedAlert)
      (s : IngestRunner)
      → s.runs ≡ before ++ run ∷ after
      → IsExclusive s
      → IsExclusive (with_alerts before run after alerts s)
  unfolding with_alerts
  with_alerts-IsExclusive before run after [] s here h =
      settle_run-IsExclusive before run after s here h
  with_alerts-IsExclusive before run after (a ∷ alerts) s here h =
      advance-IsExclusive run_name before run _ after s.in_flight refl
        (subst (λ rs. Keyed.IsExclusive run_name rs s.in_flight) here h)

  answered-IsExclusive :
      (before : List RuleRun) (run : RuleRun) (after : List RuleRun)
      (reply : Option (List LokiStreamResult)) (s : IngestRunner)
      → s.runs ≡ before ++ run ∷ after
      → IsExclusive s
      → IsExclusive (answered platform before run after reply s)
  unfolding answered
  answered-IsExclusive before run after none s here h =
      settle_run-IsExclusive before run after s here h
  answered-IsExclusive before run after (some streams) s here h =
      with_alerts-IsExclusive before run after _ s here h

  Step-IsExclusive :
      (s t : IngestRunner)
      → ensure_unique_rule_names config.rules ≡ true
      → IsExclusive s
      → Step platform config s t
      → IsExclusive t
  Step-IsExclusive s t unique h (ticks now_ms running _ e) =
      subst IsExclusive (sym e) (tick-IsExclusive config now_ms s unique h)
  Step-IsExclusive s t unique h (answers before run after reply here stage _ e) =
      subst IsExclusive (sym e) (answered-IsExclusive before run after reply s here h)
  Step-IsExclusive s t unique h (settles before run after alerts id here stage _ e) =
      subst IsExclusive (sym e) (settle_run-IsExclusive before run after s here h)
  Step-IsExclusive s t unique h (stops _ e) = subst IsExclusive (sym e) h

  -- In every state that a runner comes to, whose configuration has passed the check of its rules' names, there
  -- is at most one run of the rules of each name, and there is one exactly while the name is in flight.
  pub Reachable-IsExclusive :
      (s : IngestRunner)
      → ensure_unique_rule_names config.rules ≡ true
      → Reachable platform config s
      → IsExclusive s
  unfolding lookup
  Reachable-IsExclusive s unique (starts _ e) = subst IsExclusive (sym e) (λ c. refl)
  Reachable-IsExclusive t unique (goes_on s _ r step) =
      Step-IsExclusive s t unique (Reachable-IsExclusive s unique r) step
