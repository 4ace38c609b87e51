-- ===== src/Worker/Csv/Accepted.antt =====
-- What holds of the alerts that a CSV body is turned into.
use junando.Common.{
  ◌≤◌, ◌<◌, String, true, false, Option, none, some, List, [], ◌∷◌, ◌≡◌, refl, arith, some_inj,
  Bool-cases, Option-cases, inl, inr,
}
use junando.Common.Lists.{length, All, Any, All-map}
use junando.Common.Text.{trim, is_empty}
use junando.Common.Split.{split}
use junando.Domain.Alert.{NormalizedAlert, firing, AlertType}
use junando.Worker.Fields.{CsvColumnMapping, parse_row, map_severity_to_alert_type, newline}
use junando.Worker.Csv.{
  Calendar, Row, alert_of, alert_of_row, alerts_of_rows, read_row, parse_lines, parse_csv_body,
  non_empty, validated, is_incomplete, or_text,
}

-- What the pipeline may rely on: the alert fires, starts at a date and time, and has a path.
pub record IsAccepted (calendar : Calendar) (alert : NormalizedAlert) : Type 0 where
  pub status : alert.status ≡ firing
  pub starts_at : calendar.is_datetime alert.starts_at ≡ true
  pub endpoint_path : is_empty alert.endpoint_path ≡ false
  pub named_source : alert.annotations ≡ ("source", "csv-adapter") ∷ []

or_text-slash : (s : String) → is_empty (or_text s "/") ≡ false
or_text-slash s = elim (Bool-cases (is_empty s)) [
  | inl nothing ↦ rw nothing
  | inr something ↦ rw something something
]

module _ (calendar : Calendar) (mapping : CsvColumnMapping) where
  validated-IsAccepted :
      (row : Row) (t : AlertType) (alert : NormalizedAlert)
      → validated calendar (alert_of calendar mapping row t) ≡ some alert
      → IsAccepted calendar alert
  unfolding validated alert_of
  validated-IsAccepted row t alert h =
      elim (Bool-cases (calendar.is_datetime (alert_of calendar mapping row t).starts_at)) [
        | inl dated ↦
            let same : some (alert_of calendar mapping row t) ≡ some alert = rw dated at h in
            rw (← some_inj same) (record {
              status = refl;
              starts_at = dated;
              endpoint_path = or_text-slash _;
              named_source = refl;
            })
        | inr undated ↦ let gone : none ≡ some alert = rw undated at h in absurd (cc gone)
      ]

  alert_of_row-IsAccepted :
      (row : Row) (alert : NormalizedAlert)
      → alert_of_row calendar mapping row ≡ some alert
      → IsAccepted calendar alert
  unfolding alert_of_row
  alert_of_row-IsAccepted row alert h = elim (Bool-cases (is_incomplete row)) [
    | inl incomplete ↦ let gone : none ≡ some alert = rw incomplete at h in absurd (cc gone)
    | inr complete ↦ elim (Option-cases (map_severity_to_alert_type row.severity)) [
      | inl unknown ↦ let gone : none ≡ some alert = rw (complete, unknown) at h in absurd (cc gone)
      | inr (t, known) ↦ validated-IsAccepted row t alert (rw (complete, known) at h)
    ]
  ]

  abbrev pub of_line : List String → String → Option NormalizedAlert
  of_line headers line = alert_of_row calendar mapping (read_row mapping headers (parse_row line))

  -- The alerts are exactly those of the lines, and each is accepted.
  pub record AreAlertsOf (headers lines : List String) (alerts : List NormalizedAlert)
      : Type 0 where
    pub accepted : All (IsAccepted calendar) alerts
    pub from_lines : All (λ a. Any (λ line. of_line headers line ≡ some a) lines) alerts
    pub complete :
        All
          (λ line. (a : NormalizedAlert) → of_line headers line ≡ some a → Any (λ b. b ≡ a) alerts)
          lines
    pub bounded : length alerts ≤ length lines

  alerts_of_rows-AreAlertsOf :
      (headers lines : List String)
      → AreAlertsOf headers lines (alerts_of_rows calendar mapping headers lines)
  unfolding alerts_of_rows
  alerts_of_rows-AreAlertsOf headers [] = record {
    accepted = tt;
    from_lines = tt;
    complete = tt;
    bounded = omega arith;
  }
  alerts_of_rows-AreAlertsOf headers (line ∷ lines) =
      let later = alerts_of_rows-AreAlertsOf headers lines in
      let weaker =
        All-map (λ a h. inr h) (alerts_of_rows calendar mapping headers lines) later.from_lines in
      elim (Option-cases (of_line headers line)) [
        | inl skipped ↦ rw skipped (record {
          accepted = later.accepted;
          from_lines = weaker;
          complete = ((λ a h. absurd (cc (skipped, h))), later.complete);
          bounded = omega (arith, later.bounded);
        })
        | inr (alert, found) ↦ rw found (record {
          accepted = (
            alert_of_row-IsAccepted (read_row mapping headers (parse_row line)) alert found,
            later.accepted,
          );
          from_lines = (inl found, weaker);
          complete = (
            (λ a h. inl (some_inj (cc (found, h)))),
            All-map (λ l h a e. inr (h a e)) lines later.complete,
          );
          bounded = omega (arith, later.bounded);
        })
      ]

  -- A body that is accepted has a header and rows, and its alerts are those of the rows.
  pub parse_csv_body-AreAlertsOf :
      (body : String) (alerts : List NormalizedAlert)
      → parse_csv_body calendar body mapping ≡ some alerts
      → (header : String) × (rows : List String) × (split newline (trim body) ≡ header ∷ rows)
        × (0 < length alerts)
        × AreAlertsOf (parse_row header) rows alerts
  unfolding parse_csv_body parse_lines non_empty
  parse_csv_body-AreAlertsOf body alerts h = from_lines_lem (split newline (trim body)) refl h
    where
      non_empty_lem :
          (found : List NormalizedAlert)
          → non_empty calendar found ≡ some alerts
          → (found ≡ alerts) × (0 < length alerts)
      non_empty_lem [] e = absurd (cc e)
      non_empty_lem (a ∷ as_) e =
          let same : a ∷ as_ ≡ alerts = some_inj e in (same, rw (← same) (omega arith))

      from_lines_lem :
          (lines : List String)
          → split newline (trim body) ≡ lines
          → parse_lines calendar mapping lines ≡ some alerts
          → (header : String) × (rows : List String) × (split newline (trim body) ≡ header ∷ rows)
            × (0 < length alerts)
            × AreAlertsOf (parse_row header) rows alerts
      from_lines_lem [] same e = absurd (cc e)
      from_lines_lem (header ∷ []) same e = absurd (cc e)
      from_lines_lem (header ∷ row ∷ rows) same e =
          let (found, positive) = non_empty_lem _ e in
          (
            header,
            row ∷ rows,
            same,
            positive,
            rw (← found) (alerts_of_rows-AreAlertsOf (parse_row header) (row ∷ rows)),
          )
