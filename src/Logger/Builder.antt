-- ===== src/Logger/Builder.antt =====
-- wide-event-builder.ts: the event that the stages of the pipeline fill in.
pub mod Limits
use junando.Common.{
  ℕ, ◌*◌, ◌≤◌, String, Bool, true, false, ◌||◌, Option, none, some, List, [], ◌∷◌, ◌≡◌, refl, arith,
  ◌==◌, eq_iff, leb, ltb, if◌then◌else◌, Bool-cases, inl, inr,
}
use junando.Common.Text.{text_length, slice_to, text_length-slice_to-le}
use junando.Logger.Json.{
  Json, bool, str, Fields, end, field, get_field, put_field, spread, map_strings_fields,
  AllShortFields, AllShortFields-map_strings, get_field-put_field,
}

-- The `component` of an event.
pub data Component : Type 0 where
  webhook worker use_case llm notifier dedup traces ingest rollback : Component

abbrev pub component_text : Component → String
component_text webhook = "webhook"
component_text worker = "worker"
component_text use_case = "useCase"
component_text llm = "llm"
component_text notifier = "notifier"
component_text dedup = "dedup"
component_text traces = "traces"
component_text ingest = "ingest"
component_text rollback = "rollback"

-- `SettableKey`, the keys of a wide event that the builder does not own.
pub data Key : Type 0 where
  correlation_id version outcome cluster dedup rule llm triage notify rollback duration_ms error :
      Key

unfoldable pub key_text : Key → String
key_text Key.correlation_id = "correlationId"
key_text Key.version = "version"
key_text Key.outcome = "outcome"
key_text Key.cluster = "cluster"
key_text Key.dedup = "dedup"
key_text Key.rule = "rule"
key_text Key.llm = "llm"
key_text Key.triage = "triage"
key_text Key.notify = "notify"
key_text Key.rollback = "rollback"
key_text Key.duration_ms = "durationMs"
key_text Key.error = "error"

-- `Outcome`
pub data Outcome : Type 0 where
  success suppressed degraded failed accepted empty parse_error : Outcome

unfoldable pub outcome_text : Outcome → String
outcome_text success = "success"
outcome_text suppressed = "suppressed"
outcome_text degraded = "degraded"
outcome_text failed = "error"
outcome_text accepted = "accepted"
outcome_text empty = "empty"
outcome_text parse_error = "parse_error"

-- `WideEventBuilder`
pub record WideEventBuilder : Type 0 where
  pub request_id : String
  pub component : Component
  pub fields : Fields

-- The constructor.
abbrev pub new_builder : String → Component → WideEventBuilder
new_builder request_id component = record {
  request_id = request_id;
  component = component;
  fields = end;
}

unfoldable pub set : Key → Json → WideEventBuilder → WideEventBuilder
set key value b = record b { fields = put_field (key_text key) value b.fields }

is_owned : String → Bool
is_owned key =
    key == "requestId" || (key == "component" || (key == "timestamp" || key == "_truncated"))

-- What is left of an object without the keys that the builder owns.
without_owned : Fields → Fields
unfolding is_owned
without_owned end = end
without_owned (field key value rest) =
    let others = without_owned rest in if is_owned key then others else field key value others

unfoldable pub merge : Fields → WideEventBuilder → WideEventBuilder
unfolding without_owned
merge object b = record b { fields = spread b.fields (without_owned object) }

abbrev pub max_event_bytes : ℕ
max_event_bytes = 256 * 1024

abbrev pub oversized_string_cap : ℕ
oversized_string_cap = 1024

cut_string : ℕ → String → String
cut_string cap s = if ltb cap (text_length s) then slice_to cap s else s

unfoldable pub shrink_strings : Fields → Fields
unfolding cut_string
shrink_strings event = map_strings_fields (cut_string oversized_string_cap) event

-- The event that `flush` puts together, before the size guard.
assembled : String → WideEventBuilder → Fields
assembled timestamp b =
    spread
      (field "requestId" (str b.request_id) (
        field "component" (str (component_text b.component))
          (field "timestamp" (str timestamp) end)))
      b.fields

-- `serialized_bytes` is the length in bytes of the platform's `JSON.stringify`.
module _ (serialized_bytes : Fields → ℕ) where
  enforce_size_limit : Fields → Fields
  enforce_size_limit event =
      if leb (serialized_bytes event) max_event_bytes
      then event
      else put_field "_truncated" (bool true) (shrink_strings event)

  unfoldable pub flush : String → WideEventBuilder → Fields
  unfolding enforce_size_limit assembled
  flush timestamp b = enforce_size_limit (assembled timestamp b)
