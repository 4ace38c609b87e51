-- ===== src/Clustering/Sample.antt =====
-- The representative traces of a group.
use junando.Common.{
  not, or_else, ◌≤◌, String, Bool, true, false, List, [], ◌∷◌, ◌≡◌, ◌⊎◌, inl, inr, ◌==◌, ap, refl,
  sym, ◌∙◌, arith, ltb, if◌then◌else◌, Bool-cases,
}
use junando.Common.Lists.{length, keep, All, Any, Any-map, Any-keep}
use junando.Common.Text.{is_empty}
use junando.Domain.Alert.{NormalizedAlert}
use junando.Clustering.{
  sample_trace_ids, sample_from, two_traces, slowest_from, slower, has_trace, trace_of, sort_by,
  started_ms, latency_or_zero,
}
use junando.Clustering.Sorting.{
  length-sort_by, IsSorted, All-of-sort_by, Any-of-sort_by, IsSorted-sort_by,
}

not-eq-true : (b : Bool) → not b ≡ true → b ≡ false
not-eq-true true h = cc
not-eq-true false h = refl

slower-le :
    (max a : NormalizedAlert)
    → (latency_or_zero max ≤ latency_or_zero (slower max a))
      × (latency_or_zero a ≤ latency_or_zero (slower max a))
      × ((slower max a ≡ max) ⊎ (slower max a ≡ a))
unfolding slower
slower-le max a = elim (Bool-cases (ltb (latency_or_zero max) (latency_or_zero a))) [
  | inl e ↦ (ground arith, ground arith, inr (rw e))
  | inr e ↦ (ground arith, ground arith, inl (rw e))
]

slowest_from-le :
    (max : NormalizedAlert) (xs : List NormalizedAlert)
    → (latency_or_zero max ≤ latency_or_zero (slowest_from max xs))
      × All (λ b. latency_or_zero b ≤ latency_or_zero (slowest_from max xs)) xs
      × ((slowest_from max xs ≡ max) ⊎ Any (λ a. a ≡ slowest_from max xs) xs)
unfolding slowest_from
slowest_from-le max [] = (omega arith, tt, inl refl)
slowest_from-le max (a ∷ rest) =
    let (up, all, place) = slowest_from-le (slower max a) rest in
    let (left, right, which) = slower-le max a in
    (
      omega arith,
      (omega arith, all),
      elim place [
        | inl same ↦ elim which [
          | inl old ↦ inl (same ∙ old)
          | inr new ↦ inr (inl (sym (same ∙ new)))
        ]
        | inr later ↦ inr (inr later)
      ],
    )

abbrev pub traced : List NormalizedAlert → List NormalizedAlert
traced alerts = keep has_trace alerts

-- What the two representatives of a group are.
pub record IsSample (alerts : List NormalizedAlert) (traces : List String) : Type 0 where
  pub first : NormalizedAlert
  pub slowest : NormalizedAlert
  pub first_listed : Any (λ a. a ≡ first) (traced alerts)
  pub slowest_listed : Any (λ a. a ≡ slowest) (traced alerts)
  pub earliest : All (λ a. started_ms first ≤ started_ms a) (traced alerts)
  pub longest : All (λ a. latency_or_zero a ≤ latency_or_zero slowest) (traced alerts)
  pub sampled : traces ≡ (
      if trace_of slowest == trace_of first
      then trace_of first ∷ []
      else trace_of first ∷ trace_of slowest ∷ [])

sample_from-IsSample :
    (alerts sorted : List NormalizedAlert)
    → sort_by started_ms (traced alerts) ≡ sorted
    → ((sorted ≡ []) × (sample_from (traced alerts) sorted ≡ []))
      ⊎ IsSample alerts (sample_from (traced alerts) sorted)
unfolding sample_from two_traces
sample_from-IsSample alerts [] e = inl (refl, refl)
sample_from-IsSample alerts (first ∷ rest) e =
    let (_, longest, place) = slowest_from-le first (traced alerts) in
    let sorted_up = IsSorted-sort_by started_ms (traced alerts) in
    let up : IsSorted started_ms (first ∷ rest) = rw e at sorted_up in
    let from_first : All (λ b. started_ms first ≤ started_ms b)
        (sort_by started_ms (traced alerts)) =
      rw e (omega arith, up.0) in
    let at_first : Any (λ a. a ≡ first) (sort_by started_ms (traced alerts)) = rw e (inl refl) in
    let first_in = Any-of-sort_by started_ms (λ a. a ≡ first) (traced alerts) at_first in
    let slowest_in : Any (λ a. a ≡ slowest_from first (traced alerts)) (traced alerts) =
      elim place [
        | inl same ↦ Any-map (λ a h. h ∙ sym same) (traced alerts) first_in
        | inr later ↦ later
      ] in
    inr (record {
      first = first;
      slowest = slowest_from first (traced alerts);
      first_listed = first_in;
      slowest_listed = slowest_in;
      earliest = All-of-sort_by started_ms _ (traced alerts) from_first;
      longest = longest;
      sampled = refl;
    })

sorted_nil : (xs : List NormalizedAlert) → sort_by started_ms xs ≡ [] → xs ≡ []
sorted_nil [] h = refl
sorted_nil (x ∷ xs) h = absurd (omega (arith, length-sort_by started_ms (x ∷ xs), ap length h))

-- Either no alert of the group has a trace id and none is sampled, or the sample holds the trace id of
-- an alert that started first among those with a trace id, and behind it that of an alert of greatest
-- latency among them, unless this is the same id.
pub sample_trace_ids_lem :
    (alerts : List NormalizedAlert)
    → ((traced alerts ≡ []) × (sample_trace_ids alerts ≡ []))
      ⊎ IsSample alerts (sample_trace_ids alerts)
unfolding sample_trace_ids
sample_trace_ids_lem alerts =
    elim (sample_from-IsSample alerts (sort_by started_ms (traced alerts)) refl) [
      | inl (none_sorted, no_sample) ↦ inl (sorted_nil (traced alerts) none_sorted, no_sample)
      | inr sample ↦ inr sample
    ]

Any-has_trace :
    (s : NormalizedAlert) (alerts : List NormalizedAlert)
    → Any (λ a. (a ≡ s) × (has_trace a ≡ true)) alerts
    → is_empty (trace_of s) ≡ false
unfolding has_trace trace_of
Any-has_trace s [] h = absurd h
Any-has_trace s (a ∷ rest) (inl (same, traced_a)) =
    rw (← same) (not-eq-true (is_empty (or_else a.trace_id "")) traced_a)
Any-has_trace s (a ∷ rest) (inr later) = Any-has_trace s rest later

two-bounds :
    (b : Bool) (s t : String)
    → is_empty s ≡ false
    → is_empty t ≡ false
    → (length (if b then s ∷ [] else s ∷ t ∷ []) ≤ 2)
      × All (λ r. is_empty r ≡ false) (if b then s ∷ [] else s ∷ t ∷ [])
two-bounds true s t p q = (omega arith, (p, tt))
two-bounds false s t p q = (omega arith, (p, (q, tt)))

-- At most two trace ids are kept, as the cluster's schema demands, and none is empty.
pub sample_trace_ids-bounds :
    (alerts : List NormalizedAlert)
    → (length (sample_trace_ids alerts) ≤ 2)
      × All (λ t. is_empty t ≡ false) (sample_trace_ids alerts)
sample_trace_ids-bounds alerts = elim (sample_trace_ids_lem alerts) [
  | inl (_, nothing) ↦ rw nothing (omega arith, tt)
  | inr sample ↦ rw sample.sampled (
      two-bounds _ (trace_of sample.first) (trace_of sample.slowest)
        (Any-has_trace sample.first alerts (Any-keep _ has_trace alerts sample.first_listed))
        (Any-has_trace sample.slowest alerts (Any-keep _ has_trace alerts sample.slowest_listed)))
]
