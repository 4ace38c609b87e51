-- ===== src/Clustering/Build.antt =====
-- Building the clusters from the groups, and the error on an empty group.
use junando.Common.{
  ℕ, ◌+◌, ◌<◌, ◌≤◌, String, false, List, [], ◌∷◌, ◌≡◌, ◌∙◌, sym, refl, Option, none, some, arith,
  ◌==◌, eq_iff, if◌then◌else◌, Bool-cases, inl, inr, ap,
}
use junando.Common.Lists.{length, keep, All, Any}
use junando.Common.Assoc.{lookup}
use junando.Domain.Alert.{NormalizedAlert}
use junando.Domain.Cluster.{AlertCluster}
use junando.Fingerprint.{from_alert}
use junando.Clustering.{
  build_cluster, build_clusters, build_all, cluster_of, group_alerts, sort_by, started_ms,
  sample_trace_ids, latency_p99,
}
use junando.Clustering.Sorting.{
  length-sort_by, All-of-sort_by, Any-of-sort_by, IsSorted-sort_by, IsSorted,
}
use junando.Clustering.Groups.{
  Groups, total, pushed, AllNonEmpty, HasDistinctKeys, Absent, group_alerts-lookup,
  group_alerts-IsSound,
}

-- The cluster of one group: its alerts are counted, and its service, type, endpoint and start are
-- those of an alert of the group that no other started before.
pub record IsClusterOf (fp : String) (alerts : List NormalizedAlert) (c : AlertCluster)
    : Type 0 where
  pub first : NormalizedAlert
  pub first_listed : Any (λ a. a ≡ first) alerts
  pub earliest : All (λ a. started_ms first ≤ started_ms a) alerts
  pub fingerprint : c.fingerprint ≡ fp
  pub service_name : c.service_name ≡ first.service_name
  pub alert_type : c.alert_type ≡ first.alert_type
  pub endpoint_path : c.endpoint_path ≡ first.endpoint_path
  pub first_seen_at : c.first_seen_at ≡ first.starts_at
  pub alert_count : c.alert_count ≡ length alerts
  pub traces : c.representative_trace_ids ≡ sample_trace_ids alerts
  pub latency : c.latency_p99_ms ≡ some (latency_p99 alerts)

build_sorted :
    (fp : String) (alerts sorted : List NormalizedAlert)
    → sort_by started_ms alerts ≡ sorted
    → 0 < length sorted
    → (c : AlertCluster) × (build_cluster fp alerts ≡ some c) × IsClusterOf fp alerts c
unfolding build_cluster cluster_of
build_sorted fp alerts [] e h = elim h [ ]
build_sorted fp alerts (first ∷ rest) e h =
    let sorted_up = IsSorted-sort_by started_ms alerts in
    let up : IsSorted started_ms (first ∷ rest) = rw e at sorted_up in
    let from_first : All (λ b. started_ms first ≤ started_ms b) (sort_by started_ms alerts) =
      rw e (omega arith, up.0) in
    let at_first : Any (λ a. a ≡ first) (sort_by started_ms alerts) = rw e (inl refl) in
    (
      cluster_of fp alerts first,
      rw (e, build_cluster),
      record {
        first = first;
        first_listed = Any-of-sort_by started_ms (λ a. a ≡ first) alerts at_first;
        earliest = All-of-sort_by started_ms _ alerts from_first;
        fingerprint = refl;
        service_name = refl;
        alert_type = refl;
        endpoint_path = refl;
        first_seen_at = refl;
        alert_count = refl;
        traces = refl;
        latency = refl;
      },
    )

-- A group with an alert has a cluster.
pub build_cluster_total :
    (fp : String) (alerts : List NormalizedAlert)
    → 0 < length alerts
    → (c : AlertCluster) × (build_cluster fp alerts ≡ some c) × IsClusterOf fp alerts c
build_cluster_total fp alerts h =
    build_sorted fp alerts (sort_by started_ms alerts) refl
      (omega (arith, length-sort_by started_ms alerts))

abbrev pub counted : List AlertCluster → ℕ
counted [] = 0
counted (c ∷ rest) = c.alert_count + counted rest

-- No two clusters of the list have one fingerprint.
abbrev pub HasDistinctFingerprints : List AlertCluster → Type 0
HasDistinctFingerprints [] = Unit
HasDistinctFingerprints (c ∷ rest) =
    All (λ d. (d.fingerprint == c.fingerprint) ≡ false) rest × HasDistinctFingerprints rest

-- The cluster of a fingerprint.
abbrev pub find_cluster : String → List AlertCluster → Option AlertCluster
find_cluster fp [] = none
find_cluster fp (c ∷ rest) = if c.fingerprint == fp then some c else find_cluster fp rest

-- The clusters stand in the order of the groups, one for each.
abbrev Built : Groups → List AlertCluster → Type 0
Built [] clusters = clusters ≡ []
Built ((fp, group) ∷ rest) clusters =
    (c : AlertCluster) × (cs : List AlertCluster) × (clusters ≡ c ∷ cs)
    × (build_cluster fp group ≡ some c)
    × IsClusterOf fp group c
    × Built rest cs

build_all_total :
    (groups : Groups)
    → AllNonEmpty groups
    → (clusters : List AlertCluster) × (build_all groups ≡ some clusters) × Built groups clusters
unfolding build_all
build_all_total [] h = ([], refl, refl)
build_all_total ((fp, group) ∷ rest) h =
    let (c, built, is) = build_cluster_total fp group h.0 in
    let (cs, others, shape) = build_all_total rest h.1 in
    (c ∷ cs, rw (built, others, build_all), (c, cs, refl, built, is, shape))

counted-Built :
    (groups : Groups) (clusters : List AlertCluster)
    → Built groups clusters
    → counted clusters ≡ total groups
counted-Built [] clusters h = rw h
counted-Built ((fp, group) ∷ rest) clusters (c, cs, same, _, is, shape) =
    rw same (omega (arith, is.alert_count, counted-Built rest cs shape))

Absent-Built :
    (fp : String) (groups : Groups) (clusters : List AlertCluster)
    → Built groups clusters
    → Absent fp groups
    → All (λ d. (d.fingerprint == fp) ≡ false) clusters
Absent-Built fp [] clusters h k = rw h tt
Absent-Built fp ((key, group) ∷ rest) clusters (c, cs, same, _, is, shape) k =
    rw same (rw is.fingerprint k.0, Absent-Built fp rest cs shape k.1)

HasDistinctFingerprints-Built :
    (groups : Groups) (clusters : List AlertCluster)
    → Built groups clusters
    → HasDistinctKeys groups
    → HasDistinctFingerprints clusters
HasDistinctFingerprints-Built [] clusters h k = rw h tt
HasDistinctFingerprints-Built ((key, group) ∷ rest) clusters (c, cs, same, _, is, shape) k =
    rw same (
      rw is.fingerprint (Absent-Built key rest cs shape k.0),
      HasDistinctFingerprints-Built rest cs shape k.1,
    )

abbrev built_from : String → Option (List NormalizedAlert) → Option AlertCluster
built_from fp none = none
built_from fp (some group) = build_cluster fp group

find_cluster-Built :
    (fp : String) (groups : Groups) (clusters : List AlertCluster)
    → Built groups clusters
    → find_cluster fp clusters ≡ built_from fp (lookup fp groups)
unfolding lookup
find_cluster-Built fp [] clusters h = rw h
find_cluster-Built fp ((key, group) ∷ rest) clusters (c, cs, same, built, is, shape) =
    elim (Bool-cases (key == fp)) [
      | inl e ↦ rw same (simp (is.fingerprint, e) (rw (← (eq_iff key fp).0 e) (sym built)))
      | inr e ↦ rw same (simp (is.fingerprint, e) (find_cluster-Built fp rest cs shape))
    ]

built_from-pushed :
    (fp : String) (alerts : List NormalizedAlert)
    → built_from fp (pushed none alerts) ≡ build_cluster fp alerts
unfolding build_cluster
built_from-pushed fp [] = refl
built_from-pushed fp (a ∷ rest) = refl

module _ (sha256_hex : String → String) (alerts : List NormalizedAlert) where
  -- Clustering never throws; every alert is counted in exactly one cluster, in the sense that the
  -- clusters' alert counts add up to the number of alerts; no two clusters have one fingerprint; and
  -- the cluster of a fingerprint is the one built from all the alerts that have this fingerprint, in
  -- their order, where there is one.
  pub build_clusters_total :
      (clusters : List AlertCluster) × (build_clusters sha256_hex alerts ≡ some clusters)
      × (counted clusters ≡ length alerts)
      × HasDistinctFingerprints clusters
      × ((fp : String)
          → find_cluster fp clusters
            ≡ build_cluster fp (keep (λ a. from_alert sha256_hex a == fp) alerts))
  unfolding build_clusters
  build_clusters_total =
      let groups = group_alerts (from_alert sha256_hex) alerts in
      let (full, distinct, count) = group_alerts-IsSound (from_alert sha256_hex) alerts in
      let (clusters, built, shape) = build_all_total groups full in
      (
        clusters,
        built,
        counted-Built groups clusters shape ∙ count,
        HasDistinctFingerprints-Built groups clusters shape distinct,
        λ fp.
            find_cluster-Built fp groups clusters shape
            ∙ ap (built_from fp) (group_alerts-lookup (from_alert sha256_hex) fp alerts)
            ∙ built_from-pushed fp _,
      )
