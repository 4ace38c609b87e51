-- ===== src/Webhook/Button.antt =====
-- The value of the rollback button of Slack, as packages/webhook/src/handler.ts reads it.
use junando.Common.{String, Option, none, some, ◌==◌, if◌then◌else◌}
use junando.Common.Text.{is_empty}
use junando.Domain.Alert.{AlertType, error, warning, success}
use junando.Domain.Cluster.{Level, critical, high, medium, low}
use junando.Logger.Json.{Json, str, obj, get_field}
use junando.Webhook.Effects.{RollbackButtonValue, Platform}

-- `z.string().min(1)`
unfoldable pub non_empty_text : Option Json → Option String
non_empty_text (some (str s)) = if is_empty s then none else some s
non_empty_text _ = none

-- `z.string().optional()`: the outer `none` is a refusal.
unfoldable pub optional_text_of : Option Json → Option (Option String)
optional_text_of none = some none
optional_text_of (some (str s)) = some (some s)
optional_text_of _ = none

-- `z.nativeEnum(AlertType)`
unfoldable pub alert_type_of : Option Json → Option AlertType
alert_type_of (some (str s)) =
    if s == "http_500"
    then some error
    else if s == "latency_spike"
    then some warning
    else if s == "recovery"
    then some success
    else none
alert_type_of _ = none

-- `z.enum(URGENCY_LEVELS)`
unfoldable pub urgency_level_of : Option Json → Option Level
urgency_level_of (some (str s)) =
    if s == "low"
    then some low
    else if s == "medium"
    then some medium
    else if s == "high"
    then some high
    else if s == "critical"
    then some critical
    else none
urgency_level_of _ = none

button_value :
    Option String
    → Option String
    → Option String
    → Option AlertType
    → Option Level
    → Option (Option String)
    → Option RollbackButtonValue
button_value (some fingerprint) (some service) (some path) (some type) (some level) (some cause) =
    some (record {
      fingerprint = fingerprint;
      service_name = service;
      endpoint_path = path;
      alert_type = type;
      urgency_level = level;
      probable_cause = cause;
    })
button_value _ _ _ _ _ _ = none

-- `RollbackButtonValueSchema.parse`, of what `JSON.parse` makes of the text.
unfoldable pub check_button : Option Json → Option RollbackButtonValue
unfolding non_empty_text optional_text_of alert_type_of urgency_level_of button_value
check_button (some (obj o)) =
    button_value (non_empty_text (get_field "fingerprint" o))
      (non_empty_text (get_field "serviceName" o)) (non_empty_text (get_field "endpointPath" o))
      (alert_type_of (get_field "alertType" o)) (urgency_level_of (get_field "urgencyLevel" o))
      (optional_text_of (get_field "probableCause" o))
check_button _ = none

-- `parseRollbackValue` of a text that is not empty.
unfoldable pub parse_rollback_value : Platform → String → Option RollbackButtonValue
unfolding check_button
parse_rollback_value platform value = check_button (platform.json_value value)
