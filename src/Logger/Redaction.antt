-- ===== src/Logger/Redaction.antt =====
-- redaction.ts: only the fields of the wide event's schema survive, with their texts cut.
pub mod Laws
use junando.Common.{
  ℕ, ◌+◌, ◌≤◌, String, Bool, true, false, ◌&&◌, ◌||◌, not, Option, none, some, List, [], ◌∷◌, ◌≡◌,
  ◌≢◌, refl, arith, ◌==◌, eq_iff, ltb, if◌then◌else◌, Bool-cases, inl, inr,
}
use junando.Common.Lists.{any_of}
use junando.Common.Text.{text_length, slice_to, text_length-slice_to-le, text_length-append}
use Prim.Native.String
use junando.Logger.Json.{
  Json, null, bool, num, str, arr, obj, Fields, end, field, get_field, map_strings,
  map_strings_fields, AllShort, AllShortFields, AllShort-map_strings,
}

abbrev pub redacted : String
redacted = "[REDACTED]"

abbrev pub max_string_chars : ℕ
max_string_chars = 1000

abbrev pub truncation_suffix : String
truncation_suffix = "...[truncated]"

-- `SAFE_FIELDS`
abbrev pub safe_fields : List String
safe_fields =
    "requestId" ∷ "correlationId" ∷ "timestamp" ∷ "component" ∷ "version" ∷ "outcome" ∷ "cluster"
    ∷ "dedup" ∷ "rule" ∷ "llm" ∷ "triage" ∷ "notify" ∷ "rollback" ∷ "durationMs" ∷ "error" ∷ []

-- `SAFE_FIELDS.has(key)`
unfoldable pub is_safe : String → Bool
unfolding any_of
is_safe key = any_of (λ s. s == key) safe_fields

truncate_string : String → String
truncate_string value =
    if ltb max_string_chars (text_length value)
    then String.◌++◌ (slice_to max_string_chars value) truncation_suffix
    else value

unfoldable pub redact_value : Json → Json
unfolding truncate_string
redact_value value = map_strings truncate_string value

-- `typeof error[key] === 'string'`, and then the safe copy gets the field.
copy_text : String → Fields → Fields → Fields
unfolding truncate_string
copy_text key error rest = elim (get_field key error) [
  | some v ↦ elim v [ str s ↦ field key (str (truncate_string s)) rest | _ ↦ rest ]
  | none ↦ rest
]

-- `development` says that NODE_ENV is development.
redact_error : Bool → Fields → Fields
unfolding copy_text
redact_error development error =
    copy_text "message" error
      (copy_text "name" error (if development then copy_text "stack" error end else end))

redact_entry : Bool → String → Json → Json
unfolding redact_value redact_error
redact_entry development key value =
    if not (is_safe key)
    then str redacted
    else if key == "error"
    then elim value [
      | obj error ↦ obj (redact_error development error)
      | other ↦ redact_value other
    ]
    else redact_value value

unfoldable pub redact : Bool → Fields → Fields
unfolding redact_entry
redact development end = end
redact development (field key value rest) =
    field key (redact_entry development key value) (redact development rest)
