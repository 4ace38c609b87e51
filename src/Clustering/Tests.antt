-- ===== src/Clustering/Tests.antt =====
-- Three alerts of two services, and what clustering makes of them.
use junando.Common.{
  ℕ, String, Option, none, some, List, [], ◌∷◌, ◌≡◌, refl, arith, ◌==◌, ◌<◌, ◌≤◌, ◌*◌, ◌⊎◌, leb,
  ltb,
}
use junando.Common.Lists.{length, keep, Any}
use junando.Domain.Alert.{NormalizedAlert, error, firing}
use junando.Domain.Cluster.{AlertCluster}
use junando.Fingerprint.{from_alert}
use junando.Clustering.{
  build_cluster, build_clusters, sample_trace_ids, latency_p99, latency_or_zero,
}
use junando.Clustering.Build.{build_clusters_total, counted, find_cluster, HasDistinctFingerprints}
use junando.Clustering.Sample.{sample_trace_ids_lem, traced, IsSample}
use junando.Clustering.Percentile.{latency_p99_lem}
use junando.Clustering.Sorting.{count}
use junando.Common.Time.{get_time}

abbrev an_alert : String → Option String → String → Option ℕ → NormalizedAlert
an_alert service trace started latency = record {
  fingerprint = "";
  alert_name = "HighErrorRate";
  status = firing;
  service_name = service;
  alert_type = error;
  endpoint_path = "/pay";
  trace_id = trace;
  starts_at = started;
  latency_ms = latency;
  labels = [];
  annotations = [];
}

abbrev three_alerts : List NormalizedAlert
three_alerts =
    an_alert "payments" (some "t1") "2024-01-01T00:00:02Z" (some 40)
    ∷ an_alert "orders" none "2024-01-01T00:00:01Z" none
    ∷ an_alert "payments" (some "t2") "2024-01-01T00:00:00Z" (some 900)
    ∷ []

-- A digest that keeps its text, for the tests.
abbrev same_text : String → String
same_text s = s

build_clusters_total_example :
    (clusters : List AlertCluster) × (build_clusters same_text three_alerts ≡ some clusters)
    × (counted clusters ≡ 3)
    × HasDistinctFingerprints clusters
    × ((fp : String)
        → find_cluster fp clusters
          ≡ build_cluster fp (keep (λ a. from_alert same_text a == fp) three_alerts))
build_clusters_total_example = build_clusters_total same_text three_alerts

sample_trace_ids_lem_example :
    ((traced three_alerts ≡ []) × (sample_trace_ids three_alerts ≡ []))
    ⊎ IsSample three_alerts (sample_trace_ids three_alerts)
sample_trace_ids_lem_example = sample_trace_ids_lem three_alerts

latency_p99_lem_example :
    Any (λ a. latency_or_zero a ≡ latency_p99 three_alerts) three_alerts
    × (99 * length three_alerts
        < 100 * count (λ a. leb (latency_or_zero a) (latency_p99 three_alerts)) three_alerts)
    × (100 * count (λ a. ltb (latency_or_zero a) (latency_p99 three_alerts)) three_alerts
        ≤ 99 * length three_alerts)
latency_p99_lem_example = latency_p99_lem three_alerts (omega arith)

sample_test : sample_trace_ids three_alerts ≡ "t2" ∷ []
unfolding sample_trace_ids keep get_time
sample_test = refl

p99_test : latency_p99 three_alerts ≡ 900
unfolding latency_p99
p99_test = refl
