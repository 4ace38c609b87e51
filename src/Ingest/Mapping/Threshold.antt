-- ===== src/Ingest/Mapping/Threshold.antt =====
-- Which series of Prometheus become alerts.
use junando.Common.{
  ℕ, ◌≤◌, ◌<◌, true, false, some, some_inj, List, [], ◌∷◌, ◌==◌, ◌≡◌, ◌⊎◌, inl, inr, refl, sym, ◌∙◌,
  arith, or_else, Bool-cases, Option-cases, eq_iff,
}
use junando.Domain.Alert.{NormalizedAlert}
use junando.Ingest.Mapping.{
  Platform, PrometheusRule, PrometheusInstantResult, PrometheusInstantResponse, Comparator, above,
  below, at_least, at_most, evaluate, alert_of_series, alert_if, push_alert, alerts_of_series,
  map_metric_result_to_alerts,
}

-- The value stands to the threshold as the comparator says.
abbrev pub Satisfies : ℕ → Comparator → ℕ → Type 0
Satisfies value above threshold = threshold < value
Satisfies value below threshold = value < threshold
Satisfies value at_least threshold = threshold ≤ value
Satisfies value at_most threshold = value ≤ threshold

evaluate-true :
    (value : ℕ) (c : Comparator) (threshold : ℕ)
    → evaluate value c threshold ≡ true
    → Satisfies value c threshold
unfolding evaluate
evaluate-true value above threshold h = ground arith
evaluate-true value below threshold h = ground arith
evaluate-true value at_least threshold h = ground arith
evaluate-true value at_most threshold h = ground arith

evaluate-false :
    (value : ℕ) (c : Comparator) (threshold : ℕ)
    → evaluate value c threshold ≡ false
    → ¬ Satisfies value c threshold
unfolding evaluate
evaluate-false value above threshold h s = ground arith
evaluate-false value below threshold h s = ground arith
evaluate-false value at_least threshold h s = ground arith
evaluate-false value at_most threshold h s = ground arith

module _ (platform : Platform) (rule : PrometheusRule) (now_ms : ℕ) where
  -- The value of a series is a number that passes the rule's threshold.
  abbrev pub Passes : PrometheusInstantResult → Type 0
  Passes series =
      (value : ℕ) × (platform.parse_float series.value ≡ some value)
      × Satisfies value (or_else rule.comparator above) rule.threshold

  -- The alerts are those of the series that pass, one each, in order.
  pub data AreSelected : List PrometheusInstantResult → List NormalizedAlert → Type 0 where
    ends : AreSelected [] []
    takes :
        (series : PrometheusInstantResult) (rest : List PrometheusInstantResult)
        (alerts : List NormalizedAlert) (passes : Passes series)
        → AreSelected rest alerts
        → AreSelected
            (series ∷ rest)
            (alert_of_series platform rule now_ms passes.0 series ∷ alerts)
    skips :
        (series : PrometheusInstantResult) (rest : List PrometheusInstantResult)
        (alerts : List NormalizedAlert)
        → ¬ Passes series
        → AreSelected rest alerts
        → AreSelected (series ∷ rest) alerts

  failed :
      (s : PrometheusInstantResult) (value : ℕ)
      → platform.parse_float s.value ≡ some value
      → evaluate value (or_else rule.comparator above) rule.threshold ≡ false
      → ¬ Passes s
  failed s value read bad (v, read_too, satisfied) =
      let same : v ≡ value = some_inj (sym read_too ∙ read) in
      evaluate-false value (or_else rule.comparator above) rule.threshold bad (rw same at satisfied)

  alerts_of_series-AreSelected :
      (series : List PrometheusInstantResult)
      → AreSelected series (alerts_of_series platform rule now_ms series)
  unfolding alerts_of_series alert_if push_alert
  alerts_of_series-AreSelected [] = ends
  alerts_of_series-AreSelected (s ∷ rest) = elim (Option-cases (platform.parse_float s.value)) [
    | inl unread ↦ rw unread (
        skips s rest _ (λ passes. absurd (cc (unread, passes.1)))
          (alerts_of_series-AreSelected rest))
    | inr (value, read) ↦
        elim (Bool-cases (evaluate value (or_else rule.comparator above) rule.threshold)) [
          | inl good ↦
              rw (read, good)
                (takes s rest _ (value, read, evaluate-true _ _ _ good)
                  (alerts_of_series-AreSelected rest))
          | inr bad ↦
              rw (read, bad)
                (skips s rest _ (failed s value read bad) (alerts_of_series-AreSelected rest))
        ]
  ]

  -- The alerts of a vector are those of the series whose value is a number that passes the threshold, one
  -- each and in order; of another result there are none.
  pub map_metric_result_to_alerts-AreSelected :
      (response : PrometheusInstantResponse)
      → ((response.result_type ≡ "vector")
          × AreSelected response.result (map_metric_result_to_alerts platform rule response now_ms))
        ⊎ (¬ (response.result_type ≡ "vector")
            × (map_metric_result_to_alerts platform rule response now_ms ≡ []))
  unfolding map_metric_result_to_alerts
  map_metric_result_to_alerts-AreSelected response =
      elim (Bool-cases (response.result_type == "vector")) [
        | inl vector ↦
            rw vector (inl ((eq_iff _ _).0 vector, alerts_of_series-AreSelected response.result))
        | inr other ↦ rw other (inr ((λ e. absurd (cc (other, (eq_iff _ _).1 e))), refl))
      ]
