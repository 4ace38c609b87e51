-- ===== src/Ingest/Config.antt =====
-- `loadIngestConfig` of packages/ingest/src/config/ingest-config.schema.ts. The parse of YAML and the texts of the
-- schema's issues are parameters, and a configuration is the object that the schema gives.
pub mod Loaded
use Prim.Native.String
use junando.Common.{
  ℕ, String, Bool, not, ◌&&◌, ◌||◌, Option, none, some, List, [], ◌∷◌, ◌==◌, leb, or_else,
  if◌then◌else◌,
}
use junando.Common.Lists.{any_of}
use junando.Common.Text.{is_empty, trim}
use junando.Common.Results.{Result, ok, err}
use junando.Domain.Alert.{AlertType, error, warning, success}
use junando.Logger.Json.{
  Json, null, bool, num, str, arr, obj, Items, nil, cons, Fields, end, field, get_field, put_field,
  spread,
}
use junando.Ingest.Mapping.{IngestRule}
use junando.Ingest.Runner.{LokiIngestConfig, ensure_unique_rule_names}
use junando.Ingest.Schema.{
  kind_of, loki_section, legacy_loki_section, sqs_section, prometheus_section,
}

-- What the runner of Loki reads of a section; a field that is not there is not reached.
text_at : String → Fields → String
text_at k o = elim (get_field k o) [ some (str s) ↦ s | _ ↦ "" ]

number_at : String → Fields → Option ℕ
number_at k o = elim (get_field k o) [ some (num n) ↦ some n | _ ↦ none ]

endpoint_at : Fields → Option String
endpoint_at o = elim (get_field "endpointPath" o) [ some (str s) ↦ some s | _ ↦ none ]

alert_type_at : Fields → AlertType
unfolding text_at
alert_type_at o =
    if text_at "alertType" o == "http_500"
    then error
    else if text_at "alertType" o == "latency_spike"
    then warning
    else success

unfoldable pub rule_of : Json → List IngestRule → List IngestRule
unfolding text_at number_at endpoint_at alert_type_at
rule_of (obj o) rest =
    record {
      name = text_at "name" o;
      query = text_at "query" o;
      service = text_at "service" o;
      alert_type = alert_type_at o;
      endpoint_path = endpoint_at o;
      window_ms = number_at "windowMs" o;
    }
    ∷ rest
rule_of _ rest = rest

unfoldable pub rules_of : Items → List IngestRule
unfolding rule_of
rules_of nil = []
rules_of (cons v vs) = rule_of v (rules_of vs)

rules_at : Option Json → List IngestRule
unfolding rules_of
rules_at (some (arr vs)) = rules_of vs
rules_at _ = []

unfoldable pub loki_ingest_config : Fields → LokiIngestConfig
unfolding rules_at number_at
loki_ingest_config section = record {
  interval_ms = or_else (number_at "intervalMs" section) 0;
  rules = rules_at (get_field "rules" section);
}

-- `IngestConfig`, by the kind of its section.
pub data IngestConfig : Type 0 where
  loki sqs prometheus : Fields → IngestConfig

section_of : Option (Option Json) → Option Fields
section_of (some (some (obj o))) = some o
section_of _ = none

-- The refinement of a section of Loki.
unique_loki : Option Fields → Option Fields
unique_loki none = none
unique_loki (some section) =
    if ensure_unique_rule_names (loki_ingest_config section).rules then some section else none

wrap : (Fields → IngestConfig) → Option Fields → Option IngestConfig
wrap kind none = none
wrap kind (some section) = some (kind section)

module _ (is_url : String → Bool) where
  by_kind : Option String → Option Json → Option IngestConfig
  unfolding section_of unique_loki wrap
  by_kind none v = none
  by_kind (some kind) v =
      if kind == "loki"
      then wrap loki (unique_loki (section_of (loki_section is_url v)))
      else if kind == "sqs"
      then wrap sqs (section_of (sqs_section is_url v))
      else if kind == "prometheus"
      then wrap prometheus (section_of (prometheus_section is_url v))
      else none

  -- `ExplicitIngestConfigSchema`
  unfoldable pub explicit_config : Json → Option IngestConfig
  unfolding by_kind kind_of
  explicit_config (obj o) = by_kind (kind_of "kind" (get_field "ingest" o)) (get_field "ingest" o)
  explicit_config _ = none

  -- `LegacyLokiIngestConfigSchema`
  unfoldable pub legacy_section : Json → Option Fields
  unfolding section_of unique_loki
  legacy_section (obj o) =
      unique_loki (section_of (legacy_loki_section is_url (get_field "ingest" o)))
  legacy_section _ = none

  with_kind : Json → Option Fields → Json
  with_kind raw none = raw
  with_kind raw (some section) = obj (field "ingest" (obj (field "kind" (str "loki") section)) end)

  unfoldable pub normalize_legacy_config : Json → Json
  unfolding with_kind legacy_section
  normalize_legacy_config raw = with_kind raw (legacy_section raw)

  explicit_or_error : String → Option IngestConfig → Result {0, 0} String IngestConfig
  explicit_or_error message none = err (String.◌++◌ "Invalid ingest config: " message)
  explicit_or_error message (some config) = ok config

  load_parsed : (Json → String) → Result {0, 0} String Json → Result {0, 0} String IngestConfig
  unfolding explicit_or_error
  load_parsed issues (err message) = err (String.◌++◌ "Failed to parse YAML config: " message)
  load_parsed issues (ok raw) =
      explicit_or_error (issues (normalize_legacy_config raw))
        (explicit_config (normalize_legacy_config raw))

  unfoldable pub load_ingest_config :
      (String → Result {0, 0} String Json)
      → (Json → String)
      → String
      → Result {0, 0} String IngestConfig
  unfolding load_parsed
  load_ingest_config parse_yaml issues yaml =
      if is_empty (trim yaml)
      then err "Config YAML is empty. Provide a valid INGEST_CONFIG_PATH."
      else load_parsed issues (parse_yaml yaml)
