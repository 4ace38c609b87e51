-- ===== src/Worker/Handler.antt =====
-- packages/worker/src/handler.ts: the loop over the messages of the queue, and the routes of the function's
-- address. The parse of JSON, the schema's check and the variables of the environment are parameters.
pub mod Batch
use junando.Common.{
  ℕ, String, Bool, true, false, Option, none, some, List, [], ◌∷◌, ◌==◌, if◌then◌else◌,
}
use junando.Common.Results.{Result, ok, err}
use junando.Domain.Alert.{NormalizedAlert}
use junando.Incident.Calls.{Thrown, Call, History, Ports}
use junando.Incident.Exec.{Exec, pure, throw, tell, try, ◌>>=◌, ◌>>◌}
use junando.Incident.Process.{Settings}
use junando.Incident.Pipeline.{execute}
use junando.Worker.Fields.{CsvColumnMapping, Column, index, is_csv_body, default_csv_column_mapping}
use junando.Worker.Csv.{Calendar, parse_csv_body}

-- `SQSMessageSchema`
pub record SqsMessage : Type 0 where
  pub correlation_id : String
  pub alerts : List NormalizedAlert

-- A record of the queue's event.
pub record SqsRecord : Type 0 where
  pub message_id : String
  pub body : String

-- The columns that the environment sets, as natural numbers: one that is unset is `none`, and so are the
-- last two columns where they are no number.
pub record CsvEnvironment : Type 0 where
  pub service_col : Option ℕ
  pub message_col : Option ℕ
  pub severity_col : Option ℕ
  pub timestamp_col : Option ℕ
  pub fingerprint_col : Option ℕ
  pub endpoint_col : Option ℕ
  pub extra_labels : Option String

column_or : Option ℕ → ℕ → Column
column_or none i = index i
column_or (some i) d = index i

optional_index : Option ℕ → Option Column
optional_index none = none
optional_index (some i) = some (index i)

unfoldable pub mapping_of : CsvEnvironment → CsvColumnMapping
unfolding column_or optional_index
mapping_of env = record {
  service_col = column_or env.service_col 0;
  message_col = column_or env.message_col 1;
  severity_col = column_or env.severity_col 2;
  timestamp_col = column_or env.timestamp_col 3;
  fingerprint_col = optional_index env.fingerprint_col;
  endpoint_col = optional_index env.endpoint_col;
  extra_labels = env.extra_labels;
}

-- What the platform and the schema make of a body that is not CSV: `JSON.parse` throws, the schema
-- refuses, or there is a message. And the identifier that `randomUUID` draws for a CSV body.
pub data JsonReply : Type 0 where
  parse_failed : JsonReply
  refused : JsonReply
  accepted : SqsMessage → JsonReply

pub record Platform : Type 0 where
  pub calendar : Calendar
  pub environment : CsvEnvironment
  pub json_message : String → JsonReply
  pub random_uuid : History → String
  pub sha256_hex : String → String

-- A record's message, or why there is none.
csv_message : Option (List NormalizedAlert) → String → Result String SqsMessage
csv_message none uuid = err "CSV parse returned no valid alerts"
csv_message (some alerts) uuid = ok (record { correlation_id = uuid; alerts = alerts })

message_of_json : JsonReply → Result String SqsMessage
message_of_json parse_failed = err "Failed to parse SQS message body"
message_of_json refused = err "Invalid SQS message body"
message_of_json (accepted message) = ok message

unfoldable pub parse_record : Platform → History → SqsRecord → Result String SqsMessage
unfolding csv_message message_of_json
parse_record platform h record_ =
    if is_csv_body record_.body
    then csv_message
        (parse_csv_body (platform.calendar) record_.body (mapping_of platform.environment))
        (platform.random_uuid h)
    else message_of_json (platform.json_message record_.body)

module _ (settings : Settings) (ports : Ports) (platform : Platform) where
  -- Counts the outcome, and lets a throw go on.
  unfoldable pub count_outcome : Result {0, 0} Thrown Unit → Exec (Unit {0})
  count_outcome (ok _) = tell (Call.count_processed true) (λ _. tt)
  count_outcome (err e) = tell (Call.count_processed false) (λ _. tt) >>= λ _. throw e

  unfoldable pub run_message : SqsMessage → Exec (Unit {0})
  run_message message = do
    r ← try (execute settings ports (platform.sha256_hex) message.alerts message.correlation_id)
    count_outcome r

  -- A record without a message is logged and passed over.
  unfoldable pub handle_parsed : Result String SqsMessage → Exec (Unit {0})
  handle_parsed (err why) = tell (Call.log_error why) (λ _. tt)
  handle_parsed (ok message) = run_message message

  unfoldable pub handle_record : SqsRecord → Exec (Unit {0})
  handle_record record_ h = handle_parsed (parse_record platform h record_) h

  unfoldable pub handle_records : List SqsRecord → Exec (Unit {0})
  handle_records [] = pure tt
  handle_records (record_ ∷ rest) = do handle_record record_; handle_records rest

-- What the function's address answers.
pub record HttpReply : Type 0 where
  pub status_code : ℕ
  pub content_type : Option String
  pub body : String

-- `metrics_text` is what the registry of the metrics prints.
unfoldable pub handle_http_request : String → String → HttpReply
handle_http_request metrics_text raw_path =
    if raw_path == "/metrics"
    then record { status_code = 200; content_type = some "text/plain"; body = metrics_text }
    else if raw_path == "/health"
    then record {
      status_code = 200;
      content_type = none;
      body = "{\"status\":\"ok\",\"service\":\"junando-worker\"}";
    }
    else record { status_code = 404; content_type = none; body = "{\"error\":\"Not Found\"}" }
