-- ===== src/Logger/Sampling.antt =====
-- sampling.ts: which events are written.
use junando.Common.{ℕ, Bool, true, false, Option, none, some, ◌==◌, ltb, if◌then◌else◌}
use junando.Logger.Json.{Json, null, num, str, Fields, get_field}
use junando.Logger.Builder.{outcome_text, degraded}

abbrev pub slow_event_threshold_ms : ℕ
slow_event_threshold_ms = 10000

-- `event.error != null`
has_error : Option Json → Bool
has_error none = false
has_error (some null) = false
has_error (some _) = true

is_slow : Option Json → Bool
is_slow (some (num n)) = ltb slow_event_threshold_ms n
is_slow _ = false

is_degraded : Option Json → Bool
is_degraded (some (str s)) = s == outcome_text degraded
is_degraded _ = false

-- `drawn` says whether `Math.random()` came out below the rate of the normal events.
unfoldable pub should_sample : Bool → Fields → Bool
unfolding has_error is_slow is_degraded
should_sample drawn event =
    if has_error (get_field "error" event)
    then true
    else if is_slow (get_field "durationMs" event)
    then true
    else if is_degraded (get_field "outcome" event)
    then true
    else drawn
