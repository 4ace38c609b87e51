-- ===== src/Logger/Redaction/Laws.antt =====
-- What redaction lets through.
use mathlib.Core.Option
use junando.Common.{
  ◌≤◌, String, Bool, true, false, Option, none, some, ◌≡◌, ◌≢◌, ◌∙◌, refl, arith, ◌==◌, eq_iff, ltb,
  Bool-cases, inl, inr,
}
use junando.Common.Text.{text_length, slice_to, text_length-slice_to-le, text_length-append}
use junando.Logger.Json.{
  Json, null, str, obj, Fields, end, field, get_field, AllShort, AllShortFields,
  AllShort-map_strings,
}
use junando.Logger.Redaction.{
  max_string_chars, truncation_suffix, is_safe, truncate_string, redact_value, copy_text,
  redact_error, redact_entry, redact,
}

truncate_string-short : (s : String) → text_length (truncate_string s) ≤ 1014
unfolding truncate_string
truncate_string-short s = elim (Bool-cases (ltb max_string_chars (text_length s))) [
  | inl long ↦ rw long (
      omega (
        arith,
        text_length-append (slice_to max_string_chars s) truncation_suffix,
        text_length-slice_to-le max_string_chars s,
      ))
  | inr fits ↦ rw fits (ground arith)
]

redact_value-short : (v : Json) → AllShort 1014 (redact_value v)
unfolding redact_value
redact_value-short v = AllShort-map_strings truncate_string 1014 truncate_string-short v

copy_text-short :
    (key : String) (error rest : Fields)
    → AllShortFields 1014 rest
    → AllShortFields 1014 (copy_text key error rest)
unfolding copy_text AllShort
copy_text-short key error rest h = go (get_field key error)
  where
    go :
        (o : Option Json)
        → AllShortFields 1014 (elim o [
          | some v ↦ elim v [ str s ↦ field key (str (truncate_string s)) rest | _ ↦ rest ]
          | none ↦ rest
        ])
    go none = h
    go (some null) = h
    go (some (str s)) = (truncate_string-short s, h)
    go (some _) = h

redact_error-short : (d : Bool) (error : Fields) → AllShortFields 1014 (redact_error d error)
unfolding redact_error AllShort
redact_error-short true error =
    copy_text-short "message" error _
      (copy_text-short "name" error _ (copy_text-short "stack" error end tt))
redact_error-short false error =
    copy_text-short "message" error _ (copy_text-short "name" error end tt)

redact_entry-short : (d : Bool) (key : String) (v : Json) → AllShort 1014 (redact_entry d key v)
unfolding redact_entry AllShort
redact_entry-short d key v = elim (Bool-cases (is_safe key)) [
  | inr unsafe ↦ rw unsafe (omega arith)
  | inl safe ↦ rw safe (elim (Bool-cases (key == "error")) [
    | inr other ↦ rw other (redact_value-short v)
    | inl same ↦ rw same (go v)
  ])
]
  where
    go :
        (w : Json)
        → AllShort 1014
            (elim w [ obj error ↦ obj (redact_error d error) | other ↦ redact_value other ])
    go null = redact_value-short null
    go (obj error) = redact_error-short d error
    go w = redact_value-short w

-- No text of a redacted event is longer than the limit and the suffix of a cut text together.
pub redact-AllShort : (d : Bool) (event : Fields) → AllShortFields 1014 (redact d event)
unfolding redact AllShort
redact-AllShort d end = tt
redact-AllShort d (field key v rest) = (redact_entry-short d key v, redact-AllShort d rest)

get_field-redact :
    (d : Bool) (k : String) (event : Fields)
    → get_field k (redact d event) ≡ Option.map (redact_entry d k) (get_field k event)
unfolding redact get_field
get_field-redact d k end = refl
get_field-redact d k (field key v rest) = elim (Bool-cases (key == k)) [
  | inl same ↦ rw same (rw ((eq_iff key k).0 same) refl)
  | inr other ↦ rw other (get_field-redact d k rest)
]

get_field-copy_text :
    (k key : String) (error rest : Fields)
    → key ≢ k
    → get_field k (copy_text key error rest) ≡ get_field k rest
unfolding copy_text get_field
get_field-copy_text k key error rest ne = go (get_field key error)
  where
    go :
        (o : Option Json)
        → get_field k (elim o [
          | some v ↦ elim v [ str s ↦ field key (str (truncate_string s)) rest | _ ↦ rest ]
          | none ↦ rest
        ])
          ≡ get_field k rest
    go none = refl
    go (some null) = refl
    go (some (str s)) = ground (arith, eq_iff key k)
    go (some _) = refl

-- Outside development the error section of a redacted event has no field but its message and its name:
-- in particular no stack.
pub redact_error_keys :
    (k : String) (event error : Fields)
    → get_field "error" event ≡ some (obj error)
    → "message" ≢ k
    → "name" ≢ k
    → (kept : Fields) × (get_field "error" (redact false event) ≡ some (obj kept))
      × (get_field k kept ≡ none)
unfolding redact_entry redact_error is_safe get_field
redact_error_keys k event error found not_message not_name = (
  redact_error false error,
  get_field-redact false "error" event ∙ rw found refl,
  get_field-copy_text k "message" error _ not_message
      ∙ get_field-copy_text k "name" error end not_name
      ∙ refl,
)
