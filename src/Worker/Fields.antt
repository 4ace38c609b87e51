-- ===== src/Worker/Fields.antt =====
-- packages/worker/src/adapters/csv-input.adapter.ts: the fields of a CSV row, its columns, and what is read
-- from single fields. A column index is a natural number.
pub mod Rows
pub mod Hash
use Prim.Native.Char.{Char, code}
use Prim.Native.String
use junando.Common.{
  ℕ, suc, ◌+◌, ◌*◌, ◌%◌, ◌≤◌, String, Bool, true, false, not, ◌&&◌, ◌||◌, Option, none, some, List,
  [], ◌∷◌, ◌==◌, leb, ltb, eqb, if◌then◌else◌, or_else,
}
use junando.Common.Lists.{length, get_elem?}
use junando.Common.Text.{trim, is_empty, to_lower_case, slice_to, text_length}
use junando.Common.Split.{
  includes_code, starts_with_code, split, is_digit_char, all_digits, digits_value, hex_padded,
}
use junando.Common.Assoc.{lookup, insert}
use junando.Domain.Alert.{AlertType, error, warning, success, NormalizedAlert, firing}

abbrev pub comma : ℕ
comma = 44

abbrev pub quote : ℕ
quote = 34

abbrev pub newline : ℕ
newline = 10

unfoldable pub is_csv_body : String → Bool
is_csv_body body =
    let trimmed = trim body in
    if is_empty trimmed
    then false
    else if starts_with_code 123 trimmed || starts_with_code 91 trimmed
    then false
    else includes_code comma trimmed
      && (includes_code newline trimmed || leb 3 (length (split comma trimmed)))

-- What a character of a row does.
pub data Piece : Type 0 where
  toggles closes stays : Piece

piece_of : Bool → Char → Piece
piece_of in_quotes c =
    if eqb (code c) quote
    then toggles
    else if eqb (code c) comma && not in_quotes
    then closes
    else stays

-- The loop of `parseRow` from a field's text so far.
unfoldable pub row_from : String → Bool → String → List String
unfolding piece_of
row_from current in_quotes String.[] = trim current ∷ []
row_from current in_quotes (String.◌∷◌ c s) = elim (piece_of in_quotes c) [
  | toggles ↦ row_from current (not in_quotes) s
  | closes ↦ trim current ∷ row_from String.[] in_quotes s
  | stays ↦ row_from (String.◌++◌ current (String.◌∷◌ c String.[])) in_quotes s
]

unfoldable pub parse_row : String → List String
unfolding row_from
parse_row line = row_from String.[] false line

-- A column by its index or by the name in the header.
pub data Column : Type 0 where
  index : ℕ → Column
  named : String → Column

-- `CsvColumnMapping`
pub record CsvColumnMapping : Type 0 where
  pub service_col : Column
  pub message_col : Column
  pub severity_col : Column
  pub timestamp_col : Column
  pub fingerprint_col : Option Column
  pub endpoint_col : Option Column
  pub extra_labels : Option String

-- `DEFAULT_CSV_COLUMN_MAPPING`
abbrev pub default_csv_column_mapping : CsvColumnMapping
default_csv_column_mapping = record {
  service_col = index 0;
  message_col = index 1;
  severity_col = index 2;
  timestamp_col = index 3;
  fingerprint_col = none;
  endpoint_col = none;
  extra_labels = none;
}

-- `headers.indexOf(name)`, together with the value at that index.
value_under : String → List String → List String → Option String
value_under name [] values = none
value_under name (header ∷ headers) [] = none
value_under name (header ∷ headers) (value ∷ values) =
    let later = value_under name headers values in if header == name then some value else later

unfoldable pub get_column_value : List String → List String → Column → String
unfolding value_under
get_column_value headers values (index i) = or_else (get_elem? values i) ""
get_column_value headers values (named name) = or_else (value_under name headers values) ""

-- `SEVERITY_TO_ALERT_TYPE`
abbrev severity_to_alert_type : List (String × AlertType)
severity_to_alert_type =
    ("error", error)
    ∷ ("critical", error)
    ∷ ("high", error)
    ∷ ("warning", warning)
    ∷ ("warn", warning)
    ∷ ("latency", warning)
    ∷ ("success", success)
    ∷ ("recovery", success)
    ∷ ("resolved", success)
    ∷ ("info", success)
    ∷ []

unfoldable pub map_severity_to_alert_type : String → Option AlertType
map_severity_to_alert_type severity = lookup (trim (to_lower_case severity)) severity_to_alert_type

-- The loop of `generateFingerprint`: unsigned 32-bit numbers.
unfoldable pub hash_from : ℕ → String → ℕ
hash_from hash String.[] = hash
hash_from hash (String.◌∷◌ c s) = hash_from ((code c * 31 + hash) % 4294967296) s

unfoldable pub generate_fingerprint : String → String → String
unfolding hash_from
generate_fingerprint service message =
    let raw = String.◌++◌ service (String.◌++◌ ":" message) in
    String.◌++◌ "csv-" (hex_padded 8 (hash_from 0 raw))

-- `/\d{4}-\d{2}-\d{2}T/` at the front of a text; a `d` of the pattern stands for a digit.
matches_front : String → String → Bool
matches_front String.[] s = true
matches_front (String.◌∷◌ p ps) String.[] = false
matches_front (String.◌∷◌ p ps) (String.◌∷◌ c s) =
    (if eqb (code p) 100 then is_digit_char c else eqb (code c) (code p)) && matches_front ps s

matches_anywhere : String → String → Bool
unfolding matches_front
matches_anywhere pattern String.[] = matches_front pattern String.[]
matches_anywhere pattern (String.◌∷◌ c s) =
    matches_front pattern (String.◌∷◌ c s) || matches_anywhere pattern s

unfoldable pub is_iso_text : String → Bool
unfolding matches_anywhere
is_iso_text s = matches_anywhere "dddd-dd-ddT" s

-- `[k, v]` of a pair that is split at its equals signs.
unfoldable pub add_label : List (String × String) → List String → List (String × String)
add_label labels [] = labels
add_label labels (k ∷ []) = if is_empty (trim k) then labels else insert (trim k) "" labels
add_label labels (k ∷ v ∷ others) =
    if is_empty (trim k) then labels else insert (trim k) (trim v) labels

unfoldable pub add_labels : List (String × String) → List String → List (String × String)
unfolding add_label
add_labels labels [] = labels
add_labels labels (pair ∷ rest) = add_labels (add_label labels (split 61 pair)) rest

unfoldable pub parse_extra_labels : Option String → List (String × String)
unfolding add_labels
parse_extra_labels none = []
parse_extra_labels (some extra) = if is_empty extra then [] else add_labels [] (split comma extra)
