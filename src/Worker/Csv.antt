-- ===== src/Worker/Csv.antt =====
-- packages/worker/src/adapters/csv-input.adapter.ts: a CSV body as alerts. The platform's dates and the schema's
-- test of a date and time are parameters.
pub mod Accepted
use Prim.Native.Char.{Char, code}
use Prim.Native.String
use junando.Common.{
  ℕ, suc, ◌+◌, ◌*◌, ◌%◌, ◌≤◌, String, Bool, true, false, not, ◌&&◌, ◌||◌, Option, none, some, List,
  [], ◌∷◌, ◌==◌, leb, ltb, eqb, if◌then◌else◌, or_else,
}
use junando.Common.Lists.{length, get_elem?}
use junando.Common.Text.{trim, is_empty, to_lower_case, slice_to, text_length}
use junando.Common.Split.{
  includes_code, starts_with_code, split, is_digit_char, all_digits, digits_value, hex_padded,
}
use junando.Common.Assoc.{lookup, insert}
use junando.Domain.Alert.{AlertType, error, warning, success, NormalizedAlert, firing}
use junando.Worker.Fields.{
  newline, parse_row, Column, CsvColumnMapping, get_column_value, map_severity_to_alert_type,
  generate_fingerprint, is_iso_text, parse_extra_labels,
}

-- The platform's clock and calendar: `toISOString` of a time in milliseconds, `Date.parse`, the time now,
-- and zod's test of a date and time.
pub record Calendar : Type 0 where
  pub to_iso_string : ℕ → String
  pub date_parse : String → Option ℕ
  pub now : ℕ
  pub is_datetime : String → Bool

-- A row's texts, by the columns of the mapping.
pub record Row : Type 0 where
  pub service : String
  pub message : String
  pub severity : String
  pub timestamp : String
  pub fingerprint : String
  pub endpoint : String

-- `s || t`
abbrev or_text : String → String → String
or_text s t = if is_empty s then t else s

optional_column : List String → List String → Option Column → String → String
optional_column headers values none fallback = fallback
optional_column headers values (some col) fallback =
    or_text (get_column_value headers values col) fallback

unfoldable pub read_row : CsvColumnMapping → List String → List String → Row
unfolding optional_column
read_row mapping headers values =
    let service = get_column_value headers values mapping.service_col in
    let message = get_column_value headers values mapping.message_col in
    record {
      service = service;
      message = message;
      severity = get_column_value headers values mapping.severity_col;
      timestamp = get_column_value headers values mapping.timestamp_col;
      fingerprint =
          optional_column headers values mapping.fingerprint_col
            (generate_fingerprint service message);
      endpoint = optional_column headers values mapping.endpoint_col "/";
    }

-- `!service || !message || !severity || !timestamp`
is_incomplete : Row → Bool
is_incomplete row =
    is_empty row.service
    || (is_empty row.message || (is_empty row.severity || is_empty row.timestamp))

module _ (calendar : Calendar) where
  unfoldable pub normalize_timestamp : String → String
  normalize_timestamp value =
      let trimmed = trim value in
      if is_iso_text trimmed
      then trimmed
      else if all_digits trimmed && eqb (text_length trimmed) 10
      then calendar.to_iso_string (digits_value 0 trimmed * 1000)
      else if all_digits trimmed && eqb (text_length trimmed) 13
      then calendar.to_iso_string (digits_value 0 trimmed)
      else calendar.to_iso_string (or_else (calendar.date_parse trimmed) calendar.now)

  -- The alert that a row is turned into, before the schema.
  unfoldable pub alert_of : CsvColumnMapping → Row → AlertType → NormalizedAlert
  alert_of mapping row alert_type = record {
    fingerprint = row.fingerprint;
    alert_name = slice_to 200 row.message;
    status = firing;
    service_name = trim row.service;
    alert_type = alert_type;
    endpoint_path = or_text (trim row.endpoint) "/";
    trace_id = none;
    starts_at = normalize_timestamp row.timestamp;
    latency_ms = none;
    labels = parse_extra_labels mapping.extra_labels;
    annotations = ("source", "csv-adapter") ∷ [];
  }

  -- What `NormalizedAlertSchema` asks beyond the types: the form of the start.
  unfoldable pub validated : NormalizedAlert → Option NormalizedAlert
  validated alert = if calendar.is_datetime alert.starts_at then some alert else none

  -- One turn of the loop; `none` where the row is skipped.
  unfoldable pub alert_of_row : CsvColumnMapping → Row → Option NormalizedAlert
  unfolding is_incomplete alert_of validated
  alert_of_row mapping row =
      if is_incomplete row then none else elim (map_severity_to_alert_type row.severity) [
        | none ↦ none
        | some alert_type ↦ validated (alert_of mapping row alert_type)
      ]

  -- The push of the loop, where there is an alert.
  abbrev pub push_alert : Option NormalizedAlert → List NormalizedAlert → List NormalizedAlert
  push_alert none alerts = alerts
  push_alert (some alert) alerts = alert ∷ alerts

  unfoldable pub alerts_of_rows :
      CsvColumnMapping → List String → List String → List NormalizedAlert
  unfolding alert_of_row read_row
  alerts_of_rows mapping headers [] = []
  alerts_of_rows mapping headers (line ∷ rest) =
      push_alert (alert_of_row mapping (read_row mapping headers (parse_row line)))
        (alerts_of_rows mapping headers rest)

  -- `null` for a body without alerts.
  non_empty : List NormalizedAlert → Option (List NormalizedAlert)
  non_empty [] = none
  non_empty (alert ∷ alerts) = some (alert ∷ alerts)

  -- The alerts of the message; its correlation id is a fresh one.
  parse_lines : CsvColumnMapping → List String → Option (List NormalizedAlert)
  unfolding alerts_of_rows non_empty
  parse_lines mapping [] = none
  parse_lines mapping (header ∷ []) = none
  parse_lines mapping (header ∷ row ∷ rows) =
      non_empty (alerts_of_rows mapping (parse_row header) (row ∷ rows))

  unfoldable pub parse_csv_body : String → CsvColumnMapping → Option (List NormalizedAlert)
  unfolding parse_lines
  parse_csv_body body mapping = parse_lines mapping (split newline (trim body))
