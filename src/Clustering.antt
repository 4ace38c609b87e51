-- ===== src/Clustering.antt =====
-- packages/core/src/domain/services/clustering.service.ts. `none` is the error that `buildCluster`
-- throws on an empty group. Numbers are whole, so `Math.floor(n * 0.99)` is `99 * n / 100`.
pub mod Groups
pub mod Sorting
pub mod Sample
pub mod Percentile
pub mod Build
mod Tests
use mathlib.Core.List.{foldl}
use junando.Common.{
  ℕ, zero, suc, ◌-◌, ◌*◌, ◌/◌, min, String, Bool, true, false, not, ◌&&◌, Option, none, some, List,
  [], ◌∷◌, ◌++◌, map, ◌==◌, ltb, leb, if◌then◌else◌, or_else,
}
use junando.Common.Lists.{length, get_elem?, keep}
use junando.Common.Text.{is_empty}
use junando.Common.Time.{get_time}
use junando.Common.Assoc.{lookup, insert}
use junando.Domain.Alert.{NormalizedAlert}
use junando.Domain.Cluster.{AlertCluster}
use junando.Fingerprint.{from_alert}

module _ {ℓ} {A : Type ℓ} (key : A → ℕ) where
  insert_by : A → List A → List A
  insert_by x [] = x ∷ []
  insert_by x (y ∷ ys) = if leb (key x) (key y) then x ∷ y ∷ ys else y ∷ insert_by x ys

  -- `[...xs].sort((a, b) => key(a) - key(b))`, a stable sort.
  unfoldable pub sort_by : List A → List A
  unfolding insert_by
  sort_by [] = []
  sort_by (x ∷ xs) = insert_by x (sort_by xs)

abbrev pub latency_or_zero : NormalizedAlert → ℕ
latency_or_zero a = or_else a.latency_ms 0

abbrev pub started_ms : NormalizedAlert → ℕ
started_ms a = get_time a.starts_at

-- The body of the loop of `buildClusters`.
add_to_group :
    (NormalizedAlert → String)
    → List (String × List NormalizedAlert)
    → NormalizedAlert
    → List (String × List NormalizedAlert)
add_to_group fp groups alert =
    insert (fp alert) (or_else (lookup (fp alert) groups) [] ++ alert ∷ []) groups

unfoldable pub group_alerts :
    (NormalizedAlert → String) → List NormalizedAlert → List (String × List NormalizedAlert)
unfolding add_to_group
group_alerts fp = foldl (add_to_group fp) []

-- An alert that has a non-empty trace id, with it.
pub has_trace : NormalizedAlert → Bool
has_trace a = not (is_empty (or_else a.trace_id ""))

pub trace_of : NormalizedAlert → String
trace_of a = or_else a.trace_id ""

slower : NormalizedAlert → NormalizedAlert → NormalizedAlert
slower max a = if ltb (latency_or_zero max) (latency_or_zero a) then a else max

-- `withTraces.reduce((max, a) => …, first)`
slowest_from : NormalizedAlert → List NormalizedAlert → NormalizedAlert
slowest_from max [] = max
slowest_from max (a ∷ rest) = slowest_from (slower max a) rest

two_traces : NormalizedAlert → NormalizedAlert → List String
two_traces first slowest =
    if trace_of slowest == trace_of first
    then trace_of first ∷ []
    else trace_of first ∷ trace_of slowest ∷ []

sample_from : List NormalizedAlert → List NormalizedAlert → List String
sample_from with_traces [] = []
sample_from with_traces (first ∷ _) = two_traces first (slowest_from first with_traces)

unfoldable pub sample_trace_ids : List NormalizedAlert → List String
unfolding has_trace trace_of slower slowest_from two_traces sample_from sort_by
sample_trace_ids alerts =
    let with_traces = keep has_trace alerts in
    sample_from with_traces (sort_by started_ms with_traces)

p99_index : ℕ → ℕ
p99_index n = min (99 * n / 100) (n - 1)

unfoldable pub latency_p99 : List NormalizedAlert → ℕ
unfolding p99_index sort_by
latency_p99 alerts =
    let sorted = sort_by (λ n. n) (map latency_or_zero alerts) in
    or_else (get_elem? sorted (p99_index (length sorted))) 0

cluster_of : String → List NormalizedAlert → NormalizedAlert → AlertCluster
cluster_of fp alerts first = record {
  fingerprint = fp;
  service_name = first.service_name;
  alert_type = first.alert_type;
  endpoint_path = first.endpoint_path;
  alert_count = length alerts;
  representative_trace_ids = sample_trace_ids alerts;
  first_seen_at = first.starts_at;
  latency_p99_ms = some (latency_p99 alerts);
  severity = none;
  labels = none;
}

unfoldable pub build_cluster : String → List NormalizedAlert → Option AlertCluster
unfolding cluster_of sort_by
build_cluster fp alerts = elim (sort_by started_ms alerts) [
  | [] ↦ none
  | first ∷ rest ↦ some (cluster_of fp alerts first)
]

build_all : List (String × List NormalizedAlert) → Option (List AlertCluster)
build_all [] = some []
build_all ((fp, group) ∷ rest) = elim (build_cluster fp group) [
  | none ↦ none
  | some cluster ↦ elim (build_all rest) [ none ↦ none | some clusters ↦ some (cluster ∷ clusters) ]
]

unfoldable pub build_clusters :
    (String → String) → List NormalizedAlert → Option (List AlertCluster)
unfolding build_all
build_clusters sha256_hex alerts = build_all (group_alerts (from_alert sha256_hex) alerts)
