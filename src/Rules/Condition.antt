-- ===== src/Rules/Condition.antt =====
-- condition-evaluator.ts: a condition is compiled to a predicate, the conjunction of one matcher for
-- each field that is present.
pub mod Spec
use junando.Common.{
  ℕ, ◌≤◌, String, Bool, true, false, not, ◌&&◌, List, [], ◌∷◌, ◌++◌, ◌≡◌, ◌↔◌, refl, Option, none,
  some, arith, ◌==◌, eq_iff, ltb, if◌then◌else◌, inl, inr, ◌⊎◌,
}
use junando.Common.Lists.{every, any_of, All, Any}
use junando.Common.Text.{to_lower_case}
use junando.Common.Assoc.{lookup}
use junando.Domain.Alert.{AlertType, alert_type_text, alert_type_severity}
use junando.Domain.Cluster.{AlertCluster, LlmAnalysis, Level, level_text}
use junando.Domain.Rule.{Range, RuleCondition}

abbrev pub Predicate : Type 0
Predicate = AlertCluster → Option LlmAnalysis → Bool

abbrev below : ℕ → Option ℕ → Bool
below n none = false
below n (some min) = ltb n min

abbrev above : ℕ → Option ℕ → Bool
above n none = false
above n (some max) = ltb max n

-- The two early returns of the range matchers.
in_range : ℕ → Range → Bool
in_range n range = if below n range.min then false else if above n range.max then false else true

is_value : Option String → String → Bool
is_value none value = false
is_value (some found) value = found == value

labels_match : List (String × String) → Option (List (String × String)) → Bool
unfolding is_value
labels_match expected none = false
labels_match expected (some labels) = every (λ e. is_value (lookup e.0 labels) e.1) expected

bool_eq : Bool → Bool → Bool
bool_eq true b = b
bool_eq false b = not b

-- `analysis.impacted_services.includes(t)`
includes : List String → String → Bool
includes services t = any_of (λ s. s == t) services

latency_in_range : Option ℕ → Range → Bool
unfolding in_range
latency_in_range none range = false
latency_in_range (some n) range = in_range n range

-- A matcher that needs the analysis fails without one.
with_analysis : (LlmAnalysis → Bool) → Option LlmAnalysis → Bool
with_analysis p none = false
with_analysis p (some analysis) = p analysis

abbrev matcher {ℓ} : {A : Type ℓ} → Option A → (A → Predicate) → List Predicate
matcher none factory = []
matcher (some value) factory = factory value ∷ []

concat {ℓ} : {A : Type ℓ} → List (List A) → List A
concat [] = []
concat (xs ∷ rest) = xs ++ concat rest

-- The entries of `MATCHER_MAP`.
service_name_matcher : String → Predicate
service_name_matcher value cluster analysis =
    to_lower_case cluster.service_name == to_lower_case value

alert_type_matcher : AlertType → Predicate
alert_type_matcher value cluster analysis =
    alert_type_text cluster.alert_type == alert_type_text value

severity_matcher : Level → Predicate
severity_matcher value cluster analysis = alert_type_severity cluster.alert_type == level_text value

endpoint_path_matcher : String → Predicate
endpoint_path_matcher value cluster analysis = cluster.endpoint_path == value

alert_count_matcher : Range → Predicate
unfolding in_range
alert_count_matcher value cluster analysis = in_range cluster.alert_count value

latency_matcher : Range → Predicate
unfolding latency_in_range
latency_matcher value cluster analysis = latency_in_range cluster.latency_p99_ms value

labels_matcher : List (String × String) → Predicate
unfolding labels_match
labels_matcher value cluster analysis = labels_match value cluster.labels

urgency_matcher : Level → Predicate
unfolding with_analysis
urgency_matcher value cluster analysis =
    with_analysis (λ a. level_text a.urgency_level == level_text value) analysis

rollback_matcher : Bool → Predicate
unfolding with_analysis bool_eq
rollback_matcher value cluster analysis =
    with_analysis (λ a. bool_eq a.requires_rollback value) analysis

impacted_matcher : List String → Predicate
unfolding with_analysis includes
impacted_matcher value cluster analysis =
    with_analysis (λ a. any_of (includes a.impacted_services) value) analysis

-- The loop of `compileCondition` over the fields of a condition.
matcher_lists : RuleCondition → List (List Predicate)
matcher_lists condition =
    matcher condition.service_name service_name_matcher
    ∷ matcher condition.alert_type alert_type_matcher
    ∷ matcher condition.severity severity_matcher
    ∷ matcher condition.labels labels_matcher
    ∷ matcher condition.endpoint_path endpoint_path_matcher
    ∷ matcher condition.alert_count alert_count_matcher
    ∷ matcher condition.latency_p99_ms latency_matcher
    ∷ matcher condition.urgency_level urgency_matcher
    ∷ matcher condition.requires_rollback rollback_matcher
    ∷ matcher condition.impacted_services impacted_matcher
    ∷ []

-- With no matcher at all the answer is true, which is what `every` gives on the empty list.
unfoldable pub compile_condition : RuleCondition → Predicate
unfolding matcher_lists concat service_name_matcher alert_type_matcher severity_matcher
    labels_matcher endpoint_path_matcher alert_count_matcher latency_matcher urgency_matcher
    rollback_matcher impacted_matcher
compile_condition condition cluster analysis =
    every (λ (p : Predicate). p cluster analysis) (concat (matcher_lists condition))
