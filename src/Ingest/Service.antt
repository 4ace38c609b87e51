-- ===== src/Ingest/Service.antt =====
-- packages/ingest/src/services/ingest-service.ts: one alert, handed to a processor. The schema's check and the
-- processor are parameters.
use junando.Common.{String, Bool, true, false, Option, none, some, or_else, ◌≡◌, refl}
use junando.Common.Results.{Result, ok, err}
use junando.Domain.Alert.{NormalizedAlert}
use junando.Incident.Calls.{Thrown, error_object, other_value}

-- `PipelineOptions`: a toggle that is omitted is `none`, and one that is there may be undefined.
pub record PipelineOptions : Type 0 where
  pub enable_llm_analysis : Option (Option Bool)
  pub enable_notifications : Option (Option Bool)
  pub enable_traceability_indexing : Option (Option Bool)

-- The options that the processor is given. An undefined toggle is `none`.
pub record ResolvedPipelineOptions : Type 0 where
  pub enable_llm_analysis : Option Bool
  pub enable_notifications : Option Bool
  pub enable_traceability_indexing : Option Bool

-- The stages of `IncidentResult`.
pub record Stages : Type 0 where
  pub llm_analysis : Bool
  pub notifications : Bool
  pub traceability_indexing : Bool

-- `IncidentResult`
pub record IncidentResult : Type 0 where
  pub alert : NormalizedAlert
  pub stages : Stages
  pub status : String
  pub error : Option Thrown

abbrev all_false_stages : Stages
all_false_stages = record {
  llm_analysis = false;
  notifications = false;
  traceability_indexing = false;
}

abbrev no_pipeline_options : PipelineOptions
no_pipeline_options = record {
  enable_llm_analysis = none;
  enable_notifications = none;
  enable_traceability_indexing = none;
}

-- `{ ...DEFAULT_OPTIONS, ...options }`
unfoldable pub resolve_options : Option PipelineOptions → ResolvedPipelineOptions
resolve_options given =
    let options = or_else given no_pipeline_options in
    record {
      enable_llm_analysis = or_else options.enable_llm_analysis (some true);
      enable_notifications = or_else options.enable_notifications (some true);
      enable_traceability_indexing = or_else options.enable_traceability_indexing (some true);
    }

unfoldable pub failed_result : NormalizedAlert → Thrown → IncidentResult
failed_result alert error = record {
  alert = alert;
  stages = all_false_stages;
  status = "error";
  error = some error;
}

-- What is thrown, as an error.
unfoldable pub as_error : Thrown → Thrown
as_error (error_object name message stack) = error_object name message stack
as_error (other_value text) = error_object "Error" text none

caught : NormalizedAlert → Result Thrown IncidentResult → IncidentResult
unfolding failed_result as_error
caught alert (ok result) = result
caught alert (err e) = failed_result alert (as_error e)

module _ (check : NormalizedAlert → Result Thrown NormalizedAlert)
    (processor : NormalizedAlert → ResolvedPipelineOptions → Result Thrown IncidentResult) where
  delegated :
      NormalizedAlert → Result Thrown NormalizedAlert → ResolvedPipelineOptions → IncidentResult
  unfolding caught
  delegated alert (err error) options = failed_result alert error
  delegated alert (ok parsed_alert) options = caught parsed_alert (processor parsed_alert options)

  -- `process`
  unfoldable pub process_alert : NormalizedAlert → Option PipelineOptions → IncidentResult
  unfolding delegated resolve_options
  process_alert alert options = delegated alert (check alert) (resolve_options options)

-- An undefined toggle takes the place of the default.
undefined_runs :
    (resolve_options
      (some (record no_pipeline_options { enable_llm_analysis = some none }))).enable_llm_analysis
    ≡ none
unfolding resolve_options
undefined_runs = refl
