-- ===== src/Ingest/Mapping/Windows.antt =====
-- The windows of a rule, and the fingerprints that polls of Loki give to streams.
use native.Mathlib.Nat.{div-eq_of_lt-le, suc-mul}
use junando.Common.{
  ℕ, suc, ◌+◌, ◌*◌, ◌≤◌, ◌<◌, List, [], ◌∷◌, map, ◌≡◌, ◌∙◌, refl, sym, ap, arith, or_else,
}
use junando.Domain.Alert.{NormalizedAlert}
use junando.Ingest.Mapping.{
  Platform, IngestRule, LokiStreamResult, ceil_bucket, alert_of_stream, map_loki_result_to_alerts,
  default_window_ms,
}

-- The time lies in the `k`th window of this length, whose end belongs to it.
abbrev pub FallsIn : ℕ → ℕ → ℕ → Type 0
FallsIn window k now_ms = (k * window < now_ms) × (now_ms ≤ k * window + window)

ceil_bucket-end :
    (window k now_ms : ℕ) → FallsIn window k now_ms → ceil_bucket window now_ms ≡ suc k * window
unfolding ceil_bucket
ceil_bucket-end window k now_ms h =
    ap (λ n. n * window)
      (div-eq_of_lt-le window (omega (arith, h.0, h.1, suc-mul k window))
        (omega (arith, h.0, h.1, suc-mul k window, suc-mul (suc k) window)))

module _ (platform : Platform) where
  -- Two polls in one window of a rule give each stream the same fingerprint, whatever starts their queries
  -- have.
  pub map_loki_result_to_alerts-fingerprint :
      (rule : IngestRule) (streams : List LokiStreamResult) (start start' now_ms now_ms' k : ℕ)
      → FallsIn (or_else rule.window_ms default_window_ms) k now_ms
      → FallsIn (or_else rule.window_ms default_window_ms) k now_ms'
      → map
          (λ (a : NormalizedAlert). a.fingerprint)
          (map_loki_result_to_alerts platform rule streams start now_ms)
        ≡ map
            (λ (a : NormalizedAlert). a.fingerprint)
            (map_loki_result_to_alerts platform rule streams start' now_ms')
  unfolding map_loki_result_to_alerts
  map_loki_result_to_alerts-fingerprint rule [] start start' now_ms now_ms' k h h' = refl
  map_loki_result_to_alerts-fingerprint rule (s ∷ streams) start start' now_ms now_ms' k h h' =
      let same : ceil_bucket (or_else rule.window_ms default_window_ms) now_ms
          ≡ ceil_bucket (or_else rule.window_ms default_window_ms) now_ms' =
        ceil_bucket-end _ k now_ms h ∙ sym (ceil_bucket-end _ k now_ms' h') in
      rw same (
        ap (◌∷◌ (alert_of_stream platform rule start' now_ms' s).fingerprint)
          (map_loki_result_to_alerts-fingerprint rule streams start start' now_ms now_ms' k h h'))
