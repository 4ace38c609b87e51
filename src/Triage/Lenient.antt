-- ===== src/Triage/Lenient.antt =====
-- When a classification is the level that the gateway names, and when it is the default.
use junando.Common.{
  String, none, some, List, [], ◌∷◌, ◌≡◌, ◌≢◌, ◌≤◌, ◌<◌, ◌⊎◌, ◌∙◌, refl, sym, ap, arith, ◌==◌, ◌&&◌,
  eq_iff, leb, ltb, leb→le, ltb→lt, or_else, Bool-cases, inl, inr,
}
use junando.Common.Lists.{length}
use junando.Common.Results.{ok, err}
use junando.Domain.Cluster.{Level, critical, high, medium, low, level_text, AlertCluster}
use junando.Triage.{
  Reply, rejected, answered, Effect, post, log_warn, is_triage_severity, on_reply, normalized,
  classify_jev, classify_gateway, TriageProvider, jev, vercel_gateway, run_triage,
}

-- What a provider makes of a text before it looks for a level in it.
abbrev pub normalization : TriageProvider → String → String
normalization jev text = text
normalization (vercel_gateway model) text = normalized text

-- The reply has a status of success and its text, normalised, is the level's name.
abbrev pub IsAnswer : (String → String) → Reply → Level → Type 0
IsAnswer normalize (answered status (ok text)) level =
    (200 ≤ status) × (status < 300) × (normalize (or_else text "") ≡ level_text level)
IsAnswer normalize _ level = ⊥

abbrev pub warnings : List Effect → List String
warnings [] = []
warnings (log_warn text ∷ rest) = text ∷ warnings rest
warnings (post url body ∷ rest) = warnings rest

-- The level is the answer's, or there is no answer and it is the default, with a warning.
abbrev pub IsLenient : (String → String) → Reply → Level × List Effect → Type 0
IsLenient normalize reply result =
    (IsAnswer normalize reply result.0 × (warnings result.1 ≡ []))
    ⊎ (((level : Level) → ¬ IsAnswer normalize reply level)
        × (result.0 ≡ medium)
        × (length (warnings result.1) ≡ 1))

is_triage_severity-level_text : (level : Level) → is_triage_severity (level_text level) ≡ some level
unfolding is_triage_severity level_text
is_triage_severity-level_text low = refl
is_triage_severity-level_text medium = refl
is_triage_severity-level_text high = refl
is_triage_severity-level_text critical = refl

is_triage_severity-cases :
    (value : String)
    → ((level : Level) × (is_triage_severity value ≡ some level) × (value ≡ level_text level))
      ⊎ (is_triage_severity value ≡ none)
unfolding is_triage_severity level_text
is_triage_severity-cases value = elim (Bool-cases (value == "low")) [
  | inl is_low ↦ inl (low, rw is_low refl, (eq_iff _ _).0 is_low)
  | inr not_low ↦ elim (Bool-cases (value == "medium")) [
    | inl is_medium ↦ inl (medium, rw (not_low, is_medium) refl, (eq_iff _ _).0 is_medium)
    | inr not_medium ↦ elim (Bool-cases (value == "high")) [
      | inl is_high ↦ inl (high, rw (not_low, not_medium, is_high) refl, (eq_iff _ _).0 is_high)
      | inr not_high ↦ elim (Bool-cases (value == "critical")) [
        | inl is_critical ↦ inl (
          critical,
          rw (not_low, not_medium, not_high, is_critical) refl,
          (eq_iff _ _).0 is_critical,
        )
        | inr not_critical ↦ inr (rw (not_low, not_medium, not_high, not_critical) refl)
      ]
    ]
  ]
]

unnamed :
    (value : String) (level : Level) → is_triage_severity value ≡ none → value ≢ level_text level
unnamed value level none_named same =
    let gone : none ≡ some level =
      sym none_named ∙ ap is_triage_severity same ∙ is_triage_severity-level_text level in
    absurd (cc gone)

on_reply-IsLenient :
    (normalize : String → String) (reply : Reply)
    → IsLenient normalize reply (on_reply normalize reply)
unfolding on_reply
on_reply-IsLenient normalize rejected = inr (λ level h. h, refl, refl)
on_reply-IsLenient normalize (answered status (err e)) =
    elim (Bool-cases (leb 200 status && ltb status 300)) [
      | inl fine ↦ rw fine (inr (λ level h. h, refl, refl))
      | inr bad ↦ rw bad (inr (λ level h. h, refl, refl))
    ]
on_reply-IsLenient normalize (answered status (ok text)) =
    elim (Bool-cases (leb 200 status && ltb status 300)) [
      | inl fine ↦ elim (is_triage_severity-cases (normalize (or_else text ""))) [
        | inl (level, named_it, same) ↦
            rw (fine, named_it)
              (inl
                ((leb→le 200 status (ground arith), ltb→lt status 300 (ground arith), same), refl))
        | inr nothing ↦
            rw (fine, nothing)
              (inr (λ level h. let (l, u, same) = h in unnamed _ level nothing same, refl, refl))
      ]
      | inr bad ↦ rw bad (inr (λ level h. let (l, u, same) = h in ground arith, refl, refl))
    ]

-- A triage provider always answers with a level. It is the level that the text of a successful reply names
-- behind its normalisation, and nothing is warned of; or no reply names a level, and it is medium, with one
-- warning.
pub run_triage-IsLenient :
    (provider : TriageProvider) (reply : Reply) (cluster : AlertCluster)
    → IsLenient (normalization provider) reply (run_triage provider reply cluster)
unfolding run_triage classify_jev classify_gateway
run_triage-IsLenient jev reply cluster = on_reply-IsLenient (λ text. text) reply
run_triage-IsLenient (vercel_gateway model) reply cluster = on_reply-IsLenient normalized reply
