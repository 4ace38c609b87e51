-- ===== src/Logger/Builder/Limits.antt =====
-- The size guard of a flushed event.
use junando.Common.{
  ℕ, ◌≤◌, String, true, some, ◌≡◌, ◌⊎◌, arith, leb, ltb, Bool-cases, inl, inr, leb→le,
}
use junando.Common.Text.{text_length, text_length-slice_to-le}
use junando.Logger.Json.{
  bool, Fields, get_field, get_field-put_field, AllShort, AllShortFields,
  AllShortFields-map_strings, AllShortFields-put_field,
}
use junando.Logger.Builder.{
  WideEventBuilder, flush, assembled, enforce_size_limit, shrink_strings, cut_string,
  oversized_string_cap, max_event_bytes,
}

cut_string-short : (s : String) → text_length (cut_string oversized_string_cap s) ≤ 1024
unfolding cut_string
cut_string-short s = elim (Bool-cases (ltb oversized_string_cap (text_length s))) [
  | inl long ↦ rw long (text_length-slice_to-le oversized_string_cap s)
  | inr fits ↦ rw fits (ground arith)
]

shrink_strings-short : (event : Fields) → AllShortFields 1024 (shrink_strings event)
unfolding shrink_strings
shrink_strings-short event =
    AllShortFields-map_strings (cut_string oversized_string_cap) 1024 cut_string-short event

-- A flushed event within the size limit is the one that was built; any other is marked as truncated,
-- and each text in it is at most 1024 units long.
enforce_size_limit-bound :
    (serialized_bytes : Fields → ℕ) (event : Fields)
    → ((serialized_bytes event ≤ max_event_bytes)
        × (enforce_size_limit serialized_bytes event ≡ event))
      ⊎ ((get_field "_truncated" (enforce_size_limit serialized_bytes event) ≡ some (bool true))
          × AllShortFields 1024 (enforce_size_limit serialized_bytes event))
unfolding enforce_size_limit
enforce_size_limit-bound serialized_bytes event =
    elim (Bool-cases (leb (serialized_bytes event) max_event_bytes)) [
      | inl fits ↦ inl (leb→le _ _ fits, rw fits)
      | inr over ↦ rw over (
          inr (
            get_field-put_field "_truncated" "_truncated" (bool true) _,
            AllShortFields-put_field 1024 "_truncated" (bool true) _ (unfold AllShort in tt)
                (shrink_strings-short event),
          ))
    ]

-- Every flushed event is small enough for the limit, or it is marked as truncated and no text in it is
-- longer than 1024 units.
pub flush-bound :
    (serialized_bytes : Fields → ℕ) (timestamp : String) (b : WideEventBuilder)
    → (serialized_bytes (flush serialized_bytes timestamp b) ≤ max_event_bytes)
      ⊎ ((get_field "_truncated" (flush serialized_bytes timestamp b) ≡ some (bool true))
          × AllShortFields 1024 (flush serialized_bytes timestamp b))
unfolding flush
flush-bound serialized_bytes timestamp b =
    elim (enforce_size_limit-bound serialized_bytes (assembled timestamp b)) [
      | inl (fits, same) ↦ inl (rw same fits)
      | inr marked ↦ inr marked
    ]
