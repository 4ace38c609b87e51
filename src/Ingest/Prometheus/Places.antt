-- ===== src/Ingest/Prometheus/Places.antt =====
-- The keys of a Prometheus runner's rules are different.
use mathlib.Core.Path.{subst}
use junando.Common.{
  ℕ, ◌+◌, ◌≤◌, ◌<◌, String, List, [], ◌∷◌, ◌≡◌, refl, arith, ◌==◌, Bool-cases, inl, inr, eq_iff,
}
use junando.Common.Lists.{length}
use junando.Common.Split.Decimals.{pow10, dashed_inj}
use junando.Ingest.Mapping.{PrometheusRule}
use junando.Ingest.Keyed.{keyed}
use junando.Ingest.Prometheus.{IndexedRule, indexed_from, rule_key}

-- A key of an earlier place is no key of later ones.
keyed-later :
    (entry : IndexedRule) (index : ℕ) (rules : List PrometheusRule)
    → entry.index < index
    → index + length rules ≤ pow10 20
    → keyed rule_key (rule_key entry) (indexed_from index rules) ≡ 0
unfolding indexed_from
keyed-later entry index [] earlier bound = refl
keyed-later entry index (rule ∷ rules) earlier bound =
    let head : IndexedRule = record { index = index; rule = rule } in
    let rest =
      keyed-later entry (index + 1) rules (omega (arith, earlier)) (omega (arith, bound)) in
    elim (Bool-cases (rule_key head == rule_key entry)) [
      | inl same ↦
          let one : index ≡ entry.index =
            unfold rule_key in
            dashed_inj rule.name entry.rule.name index entry.index (omega (arith, bound))
              (omega (arith, bound, earlier)) ((eq_iff _ _).0 same) in
          absurd (omega (arith, one, earlier))
      | inr other ↦ rw (other, rest) refl
    ]

pub keyed-bound :
    (c : String) (index : ℕ) (rules : List PrometheusRule)
    → index + length rules ≤ pow10 20
    → keyed rule_key c (indexed_from index rules) ≤ 1
unfolding indexed_from
keyed-bound c index [] bound = omega arith
keyed-bound c index (rule ∷ rules) bound =
    let head : IndexedRule = record { index = index; rule = rule } in
    elim (Bool-cases (rule_key head == c)) [
      | inl same ↦
          let later = keyed-later head (index + 1) rules (omega arith) (omega (arith, bound)) in
          let gone : keyed rule_key c (indexed_from (index + 1) rules) ≡ 0 =
            subst (λ (m : String). keyed rule_key m (indexed_from (index + 1) rules) ≡ 0)
              ((eq_iff _ c).0 same) later in
          rw same (omega (arith, gone))
      | inr other ↦ rw other (omega (arith, keyed-bound c (index + 1) rules (omega (arith, bound))))
    ]
