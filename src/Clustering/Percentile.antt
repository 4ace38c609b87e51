-- ===== src/Clustering/Percentile.antt =====
-- `latencyP99Ms`: which alert's latency a group reports.
use junando.Common.{
  ℕ, ◌*◌, ◌/◌, ◌≤◌, ◌<◌, Bool, List, map, ◌≡◌, some, refl, arith, ◌∙◌, leb, ltb, eqb, eqb_iff,
}
use junando.Common.Lists.{length, get_elem?, Any, Any-map}
use junando.Domain.Alert.{NormalizedAlert}
use junando.Clustering.{latency_p99, latency_or_zero, sort_by, p99_index}
use junando.Clustering.Sorting.{
  count, count-map, count-sort_by, length-sort_by, length-map, IsSorted-sort_by, count-le_sorted,
  count-lt_sorted, get_elem?_total, Any-of_count, count-eq-pos,
}

p99_index-lt : (n : ℕ) → 0 < n → p99_index n < n
unfolding p99_index
p99_index-lt n h = omega arith

-- The index that the code computes, before its bound, is already inside the list.
p99_index-eq : (n : ℕ) → 0 < n → p99_index n ≡ 99 * n / 100
unfolding p99_index
p99_index-eq n h = omega arith

module _ (alerts : List NormalizedAlert) where
  abbrev sorted : List ℕ
  sorted = sort_by (λ n. n) (map latency_or_zero alerts)

  length-sorted : length sorted ≡ length alerts
  length-sorted =
      length-sort_by (λ n. n) (map latency_or_zero alerts) ∙ length-map latency_or_zero alerts

  -- The latency at the chosen index is found.
  p99-get_elem? :
      0 < length alerts → get_elem? sorted (p99_index (length sorted)) ≡ some (latency_p99 alerts)
  unfolding latency_p99
  p99-get_elem? h =
      let inside : p99_index (length sorted) < length sorted =
        p99_index-lt _ (omega (arith, length-sorted)) in
      let (v, found) = get_elem?_total sorted (p99_index (length sorted)) inside in rw found

  count-sorted : (p : ℕ → Bool) → count p sorted ≡ count (λ a. p (latency_or_zero a)) alerts
  count-sorted p = count-sort_by (λ n. n) p _ ∙ count-map p latency_or_zero alerts

  -- The latency that a group with an alert reports is the latency of one of its alerts, counting an
  -- alert without one as 0. More than 99 of 100 alerts have at most this latency, and at most 99 of 100
  -- have less.
  pub latency_p99_lem :
      0 < length alerts
      → Any (λ a. latency_or_zero a ≡ latency_p99 alerts) alerts
        × (99 * length alerts
            < 100 * count (λ a. leb (latency_or_zero a) (latency_p99 alerts)) alerts)
        × (100 * count (λ a. ltb (latency_or_zero a) (latency_p99 alerts)) alerts
            ≤ 99 * length alerts)
  latency_p99_lem h =
      let v = latency_p99 alerts in
      let found = p99-get_elem? h in
      let sorted_up = IsSorted-sort_by (λ n. n) (map latency_or_zero alerts) in
      let index = p99_index-eq (length sorted) (omega (arith, length-sorted)) in
      (
        Any-map (λ a e. (eqb_iff _ _).0 e) alerts
            (Any-of_count (λ a. eqb (latency_or_zero a) v) alerts
              (omega (
                arith,
                count-sorted (λ n. eqb n v),
                count-eq-pos (λ n. eqb n v) sorted _ v found ((eqb_iff v v).1 refl),
              ))),
        omega (
          arith,
          length-sorted,
          index,
          count-sorted (λ n. leb n v),
          count-le_sorted sorted _ v sorted_up found,
        ),
        omega (
          arith,
          length-sorted,
          index,
          count-sorted (λ n. ltb n v),
          count-lt_sorted sorted _ v sorted_up found,
        ),
      )
