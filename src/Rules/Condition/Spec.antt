-- ===== src/Rules/Condition/Spec.antt =====
-- What a compiled condition decides, as a relation.
use mathlib.Core.Bool.{and-eq-true_iff}
use mathlib.Core.Path.{subst}
use junando.Common.{
  ℕ, ◌≤◌, String, Bool, true, false, ◌&&◌, List, [], ◌∷◌, ◌++◌, ◌≡◌, ◌↔◌, refl, sym, ap, some_inj,
  Option, none, some, arith, ◌==◌, eq_iff, if◌then◌else◌, inl, inr, Bool-cases,
}
use junando.Common.Lists.{every, any_of, All, Any}
use junando.Common.Text.{to_lower_case}
use junando.Common.Assoc.{lookup}
use junando.Domain.Alert.{alert_type_text, alert_type_severity, AlertType, error, warning, success}
use junando.Domain.Cluster.{
  AlertCluster, LlmAnalysis, Level, level_text, critical, high, medium, low,
}
use junando.Domain.Rule.{Range, RuleCondition}
use junando.Rules.Condition.{
  Predicate, compile_condition, matcher_lists, service_name_matcher, alert_type_matcher,
  severity_matcher, labels_matcher, endpoint_path_matcher, alert_count_matcher, latency_matcher,
  urgency_matcher, rollback_matcher, impacted_matcher, concat, matcher, in_range, labels_match,
  latency_in_range, with_analysis, bool_eq, includes, below, above, is_value,
}

-- A field that is absent asks nothing.
abbrev pub Asks : {A : Type 0} → Option A → (A → Type 0) → Type 0
Asks none P = Unit
Asks (some a) P = P a

-- The two values are there and related.
abbrev pub Holds : {A : Type 0} → Option A → (A → Type 0) → Type 0
Holds none P = ⊥
Holds (some a) P = P a

abbrev pub InRange : ℕ → Range → Type 0
InRange n range = Asks range.min (λ min. min ≤ n) × Asks range.max (λ max. n ≤ max)

-- What a condition says of a cluster and its analysis.
pub record Satisfies (c : RuleCondition) (cluster : AlertCluster) (analysis : Option LlmAnalysis)
    : Type 0 where
  pub service_name : Asks c.service_name (λ v. to_lower_case cluster.service_name ≡ to_lower_case v)
  pub alert_type : Asks c.alert_type (λ v. cluster.alert_type ≡ v)
  pub severity : Asks c.severity (λ v. alert_type_severity cluster.alert_type ≡ level_text v)
  pub labels :
      Asks c.labels
        (λ v. Holds cluster.labels (λ labels. All (λ e. lookup e.0 labels ≡ some e.1) v))
  pub endpoint_path : Asks c.endpoint_path (λ v. cluster.endpoint_path ≡ v)
  pub alert_count : Asks c.alert_count (InRange cluster.alert_count)
  pub latency_p99_ms : Asks c.latency_p99_ms (λ v. Holds cluster.latency_p99_ms (λ n. InRange n v))
  pub urgency_level : Asks c.urgency_level (λ v. Holds analysis (λ a. a.urgency_level ≡ v))
  pub requires_rollback :
      Asks c.requires_rollback (λ v. Holds analysis (λ a. a.requires_rollback ≡ v))
  pub impacted_services :
      Asks c.impacted_services
        (λ v. Holds analysis (λ a. Any (λ t. Any (λ s. s ≡ t) a.impacted_services) v))

pub alert_type_text_iff :
    (a b : AlertType) → ((alert_type_text a == alert_type_text b) ≡ true) ↔ (a ≡ b)
unfolding alert_type_text
alert_type_text_iff error error = ((λ _. refl), λ _. refl)
alert_type_text_iff warning warning = ((λ _. refl), λ _. refl)
alert_type_text_iff success success = ((λ _. refl), λ _. refl)
alert_type_text_iff error _ = ((λ h. cc), λ h. cc)
alert_type_text_iff warning _ = ((λ h. cc), λ h. cc)
alert_type_text_iff success _ = ((λ h. cc), λ h. cc)

pub level_text_iff : (a b : Level) → ((level_text a == level_text b) ≡ true) ↔ (a ≡ b)
unfolding level_text
level_text_iff critical critical = ((λ _. refl), λ _. refl)
level_text_iff high high = ((λ _. refl), λ _. refl)
level_text_iff medium medium = ((λ _. refl), λ _. refl)
level_text_iff low low = ((λ _. refl), λ _. refl)
level_text_iff critical _ = ((λ h. cc), λ h. cc)
level_text_iff high _ = ((λ h. cc), λ h. cc)
level_text_iff medium _ = ((λ h. cc), λ h. cc)
level_text_iff low _ = ((λ h. cc), λ h. cc)

module _ {ℓ} {A : Type ℓ} (p : A → Bool) (P : A → Type 0)
    (decides : (x : A) → (p x ≡ true) ↔ P x) where
  every_iff : (xs : List A) → (every p xs ≡ true) ↔ All P xs
  unfolding every
  every_iff [] = ((λ _. tt), λ _. refl)
  every_iff (x ∷ xs) = (
    (λ h.
        let (now, later) = (and-eq-true_iff _ _).0 h in
        ((decides x).0 now, (every_iff xs).0 later)),
    λ h. (and-eq-true_iff _ _).1 ((decides x).1 h.0, (every_iff xs).1 h.1),
  )

  any_of_iff : (xs : List A) → (any_of p xs ≡ true) ↔ Any P xs
  unfolding any_of
  any_of_iff [] = ((λ h. cc), λ h. absurd h)
  any_of_iff (x ∷ xs) = elim (Bool-cases (p x)) [
    | inl e ↦ ((λ _. inl ((decides x).0 e)), λ _. rw e)
    | inr e ↦ (
      (λ h. inr ((any_of_iff xs).0 (rw e at h))),
      elim [ inl h ↦ cc (e, (decides x).1 h) | inr h ↦ rw e ((any_of_iff xs).1 h) ],
    )
  ]

in_range_iff : (n : ℕ) (range : Range) → (in_range n range ≡ true) ↔ InRange n range
unfolding in_range
in_range_iff n range = go range.min range.max
  where
    go :
        (min max : Option ℕ)
        → ((if below n min then false else if above n max then false else true) ≡ true)
          ↔ (Asks min (λ m. m ≤ n) × Asks max (λ m. n ≤ m))
    go none none = ((λ _. (tt, tt)), λ _. refl)
    go none (some max) = ((λ h. (tt, ground arith)), λ h. ground arith)
    go (some min) none = ((λ h. (ground arith, tt)), λ h. ground arith)
    go (some min) (some max) = ((λ h. (ground arith, ground arith)), λ h. ground arith)

latency_in_range_iff :
    (latency : Option ℕ) (range : Range)
    → (latency_in_range latency range ≡ true) ↔ Holds latency (λ n. InRange n range)
unfolding latency_in_range
latency_in_range_iff none range = ((λ h. cc), λ h. absurd h)
latency_in_range_iff (some n) range = in_range_iff n range

is_value_iff : (o : Option String) (v : String) → (is_value o v ≡ true) ↔ (o ≡ some v)
unfolding is_value
is_value_iff none v = ((λ h. cc), λ h. cc)
is_value_iff (some s) v = ((λ h. ap some ((eq_iff s v).0 h)), λ h. (eq_iff s v).1 (some_inj h))

labels_match_iff :
    (expected : List (String × String)) (labels : Option (List (String × String)))
    → (labels_match expected labels ≡ true)
      ↔ Holds labels (λ found. All (λ e. lookup e.0 found ≡ some e.1) expected)
unfolding labels_match
labels_match_iff expected none = ((λ h. cc), λ h. absurd h)
labels_match_iff expected (some labels) =
    every_iff _ _ (λ e. is_value_iff (lookup e.0 labels) e.1) expected

with_analysis_iff :
    (p : LlmAnalysis → Bool) (P : LlmAnalysis → Type 0) (analysis : Option LlmAnalysis)
    → ((a : LlmAnalysis) → (p a ≡ true) ↔ P a)
    → (with_analysis p analysis ≡ true) ↔ Holds analysis P
unfolding with_analysis
with_analysis_iff p P none d = ((λ h. cc), λ h. absurd h)
with_analysis_iff p P (some a) d = d a

bool_eq_iff : (a b : Bool) → (bool_eq a b ≡ true) ↔ (a ≡ b)
unfolding bool_eq
bool_eq_iff true b = ((λ h. sym h), λ h. sym h)
bool_eq_iff false true = ((λ h. cc), λ h. cc)
bool_eq_iff false false = ((λ _. refl), λ _. refl)

impacted_iff :
    (services targets : List String)
    → (any_of (includes services) targets ≡ true) ↔ Any (λ t. Any (λ s. s ≡ t) services) targets
unfolding includes
impacted_iff services targets =
    any_of_iff _ _ (λ t. any_of_iff _ _ (λ s. eq_iff s t) services) targets

module _ (cluster : AlertCluster) (analysis : Option LlmAnalysis) where
  abbrev passes : Predicate → Bool
  passes p = p cluster analysis

  every-append :
      (xs ys : List Predicate) → every passes (xs ++ ys) ≡ every passes xs && every passes ys
  unfolding every
  every-append [] ys = refl
  every-append (x ∷ xs) ys = ground (arith, every-append xs ys)

  every-concat :
      (lists : List (List Predicate))
      → (every passes (concat lists) ≡ true) ↔ All (λ ps. every passes ps ≡ true) lists
  unfolding concat every
  every-concat [] = ((λ _. tt), λ _. refl)
  every-concat (ps ∷ rest) = (
    (λ h.
        let (now, later) = (and-eq-true_iff _ _).0 (rw (← every-append ps (concat rest)) h) in
        (now, (every-concat rest).0 later)),
    λ h.
        rw (every-append ps (concat rest))
          ((and-eq-true_iff _ _).1 (h.0, (every-concat rest).1 h.1)),
  )

  every-matcher :
      {A : Type 0} (o : Option A) (factory : A → Predicate) (P : A → Type 0)
      → ((v : A) → (factory v cluster analysis ≡ true) ↔ P v)
      → (every passes (matcher o factory) ≡ true) ↔ Asks o P
  unfolding every
  every-matcher none factory P d = ((λ _. tt), λ _. refl)
  every-matcher (some v) factory P d =
      ((λ h. (d v).0 ((and-eq-true_iff _ _).0 h).0), λ h. (and-eq-true_iff _ _).1 ((d v).1 h, refl))

  -- A compiled condition is true of exactly the clusters and analyses that satisfy each of its fields.
  pub compile_condition_iff :
      (c : RuleCondition)
      → (compile_condition c cluster analysis ≡ true) ↔ Satisfies c cluster analysis
  unfolding compile_condition
  compile_condition_iff c =
      let service_name_iff =
        every-matcher c.service_name service_name_matcher
          (λ v. to_lower_case cluster.service_name ≡ to_lower_case v) (λ v. eq_iff _ _) in
      let alert_type_iff =
        every-matcher c.alert_type alert_type_matcher (λ v. cluster.alert_type ≡ v)
          (λ v. alert_type_text_iff cluster.alert_type v) in
      let severity_iff =
        every-matcher c.severity severity_matcher
          (λ v. alert_type_severity cluster.alert_type ≡ level_text v) (λ v. eq_iff _ _) in
      let labels_iff =
        every-matcher c.labels labels_matcher
          (λ v. Holds cluster.labels (λ labels. All (λ e. lookup e.0 labels ≡ some e.1) v))
          (λ v. labels_match_iff v cluster.labels) in
      let endpoint_path_iff =
        every-matcher c.endpoint_path endpoint_path_matcher (λ v. cluster.endpoint_path ≡ v)
          (λ v. eq_iff _ _) in
      let alert_count_iff =
        every-matcher c.alert_count alert_count_matcher (λ v. InRange cluster.alert_count v)
          (λ v. in_range_iff cluster.alert_count v) in
      let latency_p99_ms_iff =
        every-matcher c.latency_p99_ms latency_matcher
          (λ v. Holds cluster.latency_p99_ms (λ n. InRange n v))
          (λ v. latency_in_range_iff cluster.latency_p99_ms v) in
      let urgency_level_iff =
        every-matcher c.urgency_level urgency_matcher
          (λ v. Holds analysis (λ a. a.urgency_level ≡ v))
          (λ v. with_analysis_iff _ _ analysis (λ a. level_text_iff a.urgency_level v)) in
      let requires_rollback_iff =
        every-matcher c.requires_rollback rollback_matcher
          (λ v. Holds analysis (λ a. a.requires_rollback ≡ v))
          (λ v. with_analysis_iff _ _ analysis (λ a. bool_eq_iff a.requires_rollback v)) in
      let impacted_services_iff =
        every-matcher c.impacted_services impacted_matcher
          (λ v. Holds analysis (λ a. Any (λ t. Any (λ s. s ≡ t) a.impacted_services) v))
          (λ v. with_analysis_iff _ _ analysis (λ a. impacted_iff a.impacted_services v)) in
      let parts = every-concat (matcher_lists c) in
      (
        (λ h.
            let p = parts.0 h in
            record {
              service_name = service_name_iff.0 (p.0);
              alert_type = alert_type_iff.0 (p.1.0);
              severity = severity_iff.0 (p.1.1.0);
              labels = labels_iff.0 (p.1.1.1.0);
              endpoint_path = endpoint_path_iff.0 (p.1.1.1.1.0);
              alert_count = alert_count_iff.0 (p.1.1.1.1.1.0);
              latency_p99_ms = latency_p99_ms_iff.0 (p.1.1.1.1.1.1.0);
              urgency_level = urgency_level_iff.0 (p.1.1.1.1.1.1.1.0);
              requires_rollback = requires_rollback_iff.0 (p.1.1.1.1.1.1.1.1.0);
              impacted_services = impacted_services_iff.0 (p.1.1.1.1.1.1.1.1.1.0);
            }),
        λ s. parts.1 (
          service_name_iff.1 s.service_name,
          (
            alert_type_iff.1 s.alert_type,
            (
              severity_iff.1 s.severity,
              (
                labels_iff.1 s.labels,
                (
                  endpoint_path_iff.1 s.endpoint_path,
                  (
                    alert_count_iff.1 s.alert_count,
                    (
                      latency_p99_ms_iff.1 s.latency_p99_ms,
                      (
                        urgency_level_iff.1 s.urgency_level,
                        (
                          requires_rollback_iff.1 s.requires_rollback,
                          (impacted_services_iff.1 s.impacted_services, tt),
                        ),
                      ),
                    ),
                  ),
                ),
              ),
            ),
          ),
        ),
      )

severity_text_eq :
    (t : AlertType) (l : Level)
    → alert_type_severity t ≡ level_text l
    → (l ≡ critical) × (t ≡ error)
unfolding alert_type_severity level_text
severity_text_eq error critical e = (refl, refl)
severity_text_eq error high e = cc ((eq_iff "critical" "high").1 e)
severity_text_eq error medium e = cc ((eq_iff "critical" "medium").1 e)
severity_text_eq error low e = cc ((eq_iff "critical" "low").1 e)
severity_text_eq warning critical e = cc ((eq_iff "warning" "critical").1 e)
severity_text_eq warning high e = cc ((eq_iff "warning" "high").1 e)
severity_text_eq warning medium e = cc ((eq_iff "warning" "medium").1 e)
severity_text_eq warning low e = cc ((eq_iff "warning" "low").1 e)
severity_text_eq success critical e = cc ((eq_iff "info" "critical").1 e)
severity_text_eq success high e = cc ((eq_iff "info" "high").1 e)
severity_text_eq success medium e = cc ((eq_iff "info" "medium").1 e)
severity_text_eq success low e = cc ((eq_iff "info" "low").1 e)

-- A condition with a severity matches only if this severity is `critical` and the cluster's alert type
-- is the error type: a condition with severity `high`, `medium` or `low` matches no cluster at all.
pub compile_condition-severity :
    (c : RuleCondition) (l : Level) (cluster : AlertCluster) (analysis : Option LlmAnalysis)
    → c.severity ≡ some l
    → compile_condition c cluster analysis ≡ true
    → (l ≡ critical) × (cluster.alert_type ≡ error)
compile_condition-severity c l cluster analysis e h =
    let asked = ((compile_condition_iff cluster analysis c).0 h).severity in
    severity_text_eq cluster.alert_type l
      (subst (λ o. Asks o (λ v. alert_type_severity cluster.alert_type ≡ level_text v)) e asked)
