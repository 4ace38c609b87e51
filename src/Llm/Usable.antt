-- ===== src/Llm/Usable.antt =====
-- infrastructure/llm/shared.ts: which analyses `parseAnalysis` returns, and where it throws.
use junando.Common.{
  String, some_inj, true, false, ◌≤◌, Option, none, some, [], ◌∷◌, ◌≡◌, inl, inr, refl, sym, arith,
  Bool-cases, Option-cases,
}
use junando.Common.Lists.{length}
use junando.Common.Text.{is_empty}
use junando.Common.Results.{ok, err, bind-ok, ok_inj, result-cases}
use junando.Domain.Cluster.{Level, LlmAnalysis}
use junando.Llm.Shared.{
  RawAnalysis, JsonParser, level_of, has_lengths, with_level, check_analysis, whole_analysis,
  text_field, list_field, braces, texts_or, checked, partial_analysis, first_or_partial,
  parse_analysis,
}

-- What the schema asks of an analysis.
pub record IsUsable (a : LlmAnalysis) : Type 0 where
  pub says_why : is_empty a.probable_cause ≡ false
  pub names_services : 1 ≤ length a.impacted_services
  pub has_steps : 1 ≤ length a.recommended_steps
  pub few_steps : length a.recommended_steps ≤ 5

has_lengths-IsUsable :
    (raw : RawAnalysis) (level : Level) → has_lengths raw ≡ true → IsUsable (with_level raw level)
unfolding has_lengths with_level
has_lengths-IsUsable raw level h = record {
  says_why = ground arith;
  names_services = ground arith;
  has_steps = ground arith;
  few_steps = ground arith;
}

check_analysis-IsUsable :
    (raw : RawAnalysis) {a : LlmAnalysis} → check_analysis raw ≡ some a → IsUsable a
unfolding check_analysis
check_analysis-IsUsable raw {a} h = elim (Option-cases (level_of raw.urgency_level)) [
  | inl unknown ↦ absurd (cc (rw (check_analysis, unknown) at h))
  | inr (level, known) ↦ elim (Bool-cases (has_lengths raw)) [
    | inl fits ↦
        let same : with_level raw level ≡ a = some_inj (rw (check_analysis, known, fits) at h) in
        rw (sym same) (has_lengths-IsUsable raw level fits)
    | inr misfit ↦ absurd (cc (rw (check_analysis, known, misfit) at h))
  ]
]

check_analysis-stepless :
    (raw : RawAnalysis) → raw.recommended_steps ≡ [] → check_analysis raw ≡ none
unfolding check_analysis has_lengths
check_analysis-stepless raw h = elim (Option-cases (level_of raw.urgency_level)) [
  | inl unknown ↦ ground arith
  | inr (level, known) ↦ rw h (ground arith)
]

module _ (json : JsonParser) where
  checked-IsUsable :
      (raw : RawAnalysis) {a : LlmAnalysis} → checked json raw ≡ ok (some a) → IsUsable a
  unfolding checked
  checked-IsUsable raw {a} h = elim (Option-cases (check_analysis raw)) [
    | inl refused ↦ absurd (cc (rw (checked, refused) at h))
    | inr (b, fits) ↦
        let same : b ≡ a = some_inj (ok_inj (rw (checked, fits) at h)) in
        check_analysis-IsUsable raw (rw (sym same) fits)
  ]

  partial_analysis-IsUsable :
      (raw : String) (cause urgency : Option String) {a : LlmAnalysis}
      → partial_analysis json raw cause urgency ≡ ok (some a)
      → IsUsable a
  unfolding partial_analysis
  partial_analysis-IsUsable raw (some cause) (some urgency) h =
      let (steps, _, with_steps) =
        bind-ok (texts_or json (list_field "recommended_steps" raw) []) _ h in
      let (services, _, with_services) =
        bind-ok (texts_or json (list_field "impacted_services" raw) ("unknown-service" ∷ [])) _
          with_steps in
      checked-IsUsable _ with_services
  partial_analysis-IsUsable raw (some cause) none h = absurd (cc h)
  partial_analysis-IsUsable raw none urgency h = absurd (cc h)

  whole_analysis-IsUsable :
      (slice : Option String) {a : LlmAnalysis} → whole_analysis json slice ≡ some a → IsUsable a
  unfolding whole_analysis
  whole_analysis-IsUsable none h = absurd (cc h)
  whole_analysis-IsUsable (some slice) {a} h = elim (Option-cases (json.object slice)) [
    | inl thrown ↦ absurd (cc (rw (whole_analysis, thrown) at h))
    | inr (raw, read) ↦ check_analysis-IsUsable raw (rw (whole_analysis, read) at h)
  ]

  -- Any analysis that `parseAnalysis` returns, of whatever text and whichever stage found it, meets the
  -- schema: it says a cause, names a service, and has one to five steps.
  pub parse_analysis-IsUsable :
      (raw : String) (a : LlmAnalysis) → parse_analysis json raw ≡ ok (some a) → IsUsable a
  unfolding parse_analysis first_or_partial
  parse_analysis-IsUsable raw a h = elim (Option-cases (whole_analysis json (braces raw))) [
    | inl nothing ↦
        partial_analysis-IsUsable raw (text_field "probable_cause" raw)
          (text_field "urgency_level" raw) (rw nothing at h)
    | inr (b, found) ↦
        let same : b ≡ a = some_inj (ok_inj (rw found at h)) in
        whole_analysis-IsUsable (braces raw) (rw (sym same) found)
  ]

  checked-stepless :
      (raw : RawAnalysis) → raw.recommended_steps ≡ [] → checked json raw ≡ err "schema"
  unfolding checked
  checked-stepless raw h = rw (checked, check_analysis-stepless raw h) refl

  -- A text with a cause and an urgency, and with no analysis in braces and no list of steps, makes
  -- `parseAnalysis` throw: it does not return null.
  pub parse_analysis-throws :
      (raw cause urgency : String)
      → whole_analysis json (braces raw) ≡ none
      → text_field "probable_cause" raw ≡ some cause
      → text_field "urgency_level" raw ≡ some urgency
      → list_field "recommended_steps" raw ≡ none
      → (e : String) × (parse_analysis json raw ≡ err e)
  unfolding parse_analysis first_or_partial partial_analysis
  parse_analysis-throws raw cause urgency no_whole has_cause has_urgency no_steps =
      elim (result-cases
        (texts_or json (list_field "impacted_services" raw) ("unknown-service" ∷ []))) [
          | inl (services, read) ↦ (
            "schema",
            rw (no_whole, has_cause, has_urgency, no_steps, read) (checked-stepless _ refl),
          )
          | inr (e, thrown) ↦ (e, rw (no_whole, has_cause, has_urgency, no_steps, thrown) refl)
        ]
