-- ===== src/Ingest/Config/Loaded.antt =====
-- What a loaded configuration gives the runner of Loki.
use junando.Common.{
  String, Bool, true, Option, none, some, some_inj, ◌≡◌, sym, ap, ◌∙◌, ◌==◌, Bool-cases, inl, inr,
}
use junando.Common.Text.{is_empty, trim}
use junando.Common.Results.{Result, ok, err, ok_inj}
use junando.Logger.Json.{Json, null, bool, num, str, arr, obj, Fields, get_field}
use junando.Ingest.Mapping.{Platform}
use junando.Ingest.Runner.{ensure_unique_rule_names, IngestRunner, Reachable}
use junando.Ingest.Runner.Overlap.{IsExclusive, Reachable-IsExclusive}
use junando.Ingest.Schema.{kind_of}
use junando.Ingest.Config.{
  unique_loki, wrap, by_kind, explicit_config, loki_ingest_config, IngestConfig, loki, sqs,
  prometheus, explicit_or_error, load_parsed, normalize_legacy_config, load_ingest_config,
}

-- The names of a section's rules are different.
abbrev HasUniqueNames : Fields → Type 0
HasUniqueNames section = ensure_unique_rule_names (loki_ingest_config section).rules ≡ true

unique_loki-some :
    (o : Option Fields) (section : Fields) → unique_loki o ≡ some section → HasUniqueNames section
unfolding unique_loki
unique_loki-some none section h = absurd (cc h)
unique_loki-some (some found) section h =
    elim (Bool-cases (ensure_unique_rule_names (loki_ingest_config found).rules)) [
      | inl unique ↦
          let same : found ≡ section = some_inj (rw unique at h) in
          sym (ap (λ f. ensure_unique_rule_names (loki_ingest_config f).rules) same) ∙ unique
      | inr repeated ↦ let gone : none ≡ some section = rw repeated at h in absurd (cc gone)
    ]

wrap-loki :
    (o : Option Fields) (section : Fields) → wrap loki o ≡ some (loki section) → o ≡ some section
unfolding wrap
wrap-loki none section h = absurd (cc h)
wrap-loki (some found) section h = cc

wrap-other :
    (kind : Fields → IngestConfig) (o : Option Fields) (section : Fields)
    → ((f : Fields) → ¬ (kind f ≡ loki section))
    → ¬ (wrap kind o ≡ some (loki section))
unfolding wrap
wrap-other kind none section other h = absurd (cc h)
wrap-other kind (some found) section other h = other found (some_inj h)

module _ (is_url : String → Bool) where
  by_kind-loki :
      (kind : Option String) (v : Option Json) (section : Fields)
      → by_kind is_url kind v ≡ some (loki section)
      → HasUniqueNames section
  unfolding by_kind
  by_kind-loki none v section h = absurd (cc h)
  by_kind-loki (some kind) v section h = elim (Bool-cases (kind == "loki")) [
    | inl is_loki ↦ unique_loki-some _ section (wrap-loki _ section (rw is_loki at h))
    | inr not_loki ↦ elim (Bool-cases (kind == "sqs")) [
      | inl is_sqs ↦
          absurd (wrap-other sqs _ section (λ f e. absurd (cc e)) (rw (not_loki, is_sqs) at h))
      | inr not_sqs ↦ elim (Bool-cases (kind == "prometheus")) [
        | inl is_prometheus ↦ absurd (
            wrap-other prometheus _ section (λ f e. absurd (cc e))
              (rw (not_loki, not_sqs, is_prometheus) at h))
        | inr unknown ↦
            let gone : none ≡ some (loki section) = rw (not_loki, not_sqs, unknown) at h in
            absurd (cc gone)
      ]
    ]
  ]

  explicit_config-loki :
      (raw : Json) (section : Fields)
      → explicit_config is_url raw ≡ some (loki section)
      → HasUniqueNames section
  unfolding explicit_config
  explicit_config-loki null section h = absurd (cc h)
  explicit_config-loki (bool b) section h = absurd (cc h)
  explicit_config-loki (num n) section h = absurd (cc h)
  explicit_config-loki (str s) section h = absurd (cc h)
  explicit_config-loki (arr vs) section h = absurd (cc h)
  explicit_config-loki (obj o) section h =
      by_kind-loki (kind_of "kind" (get_field "ingest" o)) (get_field "ingest" o) section h

  explicit_or_error-ok :
      (message : String) (o : Option IngestConfig) (config : IngestConfig)
      → explicit_or_error is_url message o ≡ ok config
      → o ≡ some config
  unfolding explicit_or_error
  explicit_or_error-ok message none config h = absurd (cc h)
  explicit_or_error-ok message (some found) config h = ap some (ok_inj h)

  load_parsed-loki :
      (issues : Json → String) (r : Result {0, 0} String Json) (section : Fields)
      → load_parsed is_url issues r ≡ ok (loki section)
      → HasUniqueNames section
  unfolding load_parsed
  load_parsed-loki issues (err message) section h = absurd (cc h)
  load_parsed-loki issues (ok raw) section h =
      explicit_config-loki (normalize_legacy_config is_url raw) section (
        explicit_or_error-ok _ (explicit_config is_url (normalize_legacy_config is_url raw))
          (loki section) h)

  load_ingest_config_unique :
      (parse_yaml : String → Result {0, 0} String Json) (issues : Json → String) (yaml : String)
      (section : Fields)
      → load_ingest_config is_url parse_yaml issues yaml ≡ ok (loki section)
      → HasUniqueNames section
  unfolding load_ingest_config
  load_ingest_config_unique parse_yaml issues yaml section h =
      elim (Bool-cases (is_empty (trim yaml))) [
        | inl blank ↦ absurd (cc (rw blank at h))
        | inr full ↦ load_parsed-loki issues (parse_yaml yaml) section (rw full at h)
      ]

  -- In every state that a Loki runner comes to whose configuration is one that loadIngestConfig returns, in its explicit
  -- or in its legacy form, there is at most one run of the rules of each name, and there is one
  -- exactly while the name is in flight.
  pub load_ingest_config-IsExclusive :
      (parse_yaml : String → Result {0, 0} String Json) (issues : Json → String) (yaml : String)
      (section : Fields) (platform : Platform) (s : IngestRunner)
      → load_ingest_config is_url parse_yaml issues yaml ≡ ok (loki section)
      → Reachable platform (loki_ingest_config section) s
      → IsExclusive s
  load_ingest_config-IsExclusive parse_yaml issues yaml section platform s loaded reached =
      Reachable-IsExclusive platform (loki_ingest_config section) s
        (load_ingest_config_unique parse_yaml issues yaml section loaded) reached
