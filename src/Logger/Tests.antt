-- ===== src/Logger/Tests.antt =====
-- An event with an error that carries its stack, and a field that the schema does not know.
use junando.Common.{ℕ, String, true, false, some, ◌≡◌, ◌≢◌, ◌⊎◌, ◌≤◌, eq_iff, ◌==◌}
use junando.Logger.Json.{str, num, obj, bool, Fields, end, field, get_field, AllShortFields}
use junando.Logger.Builder.{
  WideEventBuilder, new_builder, set, flush, Key, use_case, max_event_bytes,
}
use junando.Logger.Builder.Limits.{flush-bound}
use junando.Logger.Redaction.{redact}
use junando.Logger.Redaction.Laws.{redact-AllShort}

abbrev an_error : Fields
an_error = field "message" (str "boom") (field "stack" (str "at main") end)

abbrev an_event : Fields
an_event = field "password" (str "secret") (field "error" (obj an_error) end)

-- A measure that finds every event too large.
abbrev too_large : Fields → ℕ
too_large event = 300000

abbrev a_builder : WideEventBuilder
a_builder = set Key.duration_ms (num 12) (new_builder "run:fp" use_case)

flush-bound_example :
    (too_large (flush too_large "2024-01-01T00:00:00Z" a_builder) ≤ max_event_bytes)
    ⊎ ((get_field "_truncated" (flush too_large "2024-01-01T00:00:00Z" a_builder)
          ≡ some (bool true))
        × AllShortFields 1024 (flush too_large "2024-01-01T00:00:00Z" a_builder))
flush-bound_example = flush-bound too_large "2024-01-01T00:00:00Z" a_builder

redact-AllShort_example : AllShortFields 1014 (redact false an_event)
redact-AllShort_example = redact-AllShort false an_event

distinct : (s t : String) → (s == t) ≡ false → s ≢ t
distinct s t differ same = cc (differ, (eq_iff s t).1 same)
