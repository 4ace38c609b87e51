-- ===== src/Incident/Calls.antt =====
-- The ports of domain/ports/index.ts that the pipeline calls, and the record of its calls.
-- What a port answers is a parameter: any function of the calls made before.
use junando.Common.{ℕ, String, Bool, Option, List}
use junando.Common.Results.{Result}
use junando.Domain.Cluster.{AlertCluster, LlmAnalysis, Level}
use junando.Logger.Json.{Fields}
use junando.Dedup.{DedupResult}

-- What a call may throw: an `Error`, or another value with its text.
pub data Thrown : Type 0 where
  error_object : String → String → Option String → Thrown
  other_value : String → Thrown

-- `LLMResult`
pub record LlmResult : Type 0 where
  pub analysis : Option LlmAnalysis
  pub degraded_reason : Option String
  pub provider : String
  pub model : String
  pub latency_ms : ℕ
  pub prompt_tokens : ℕ
  pub completion_tokens : ℕ

-- `NotifyResult`. Its outcome is always success: a send that fails throws.
pub record NotifyResult : Type 0 where
  pub latency_ms : ℕ
  pub channels : List String

-- A call that the pipeline makes to the outside, with its arguments.
pub data Call : Type 0 where
  read_clock : Call
  is_new : String → ℕ → Call
  reset : String → Call
  count_new : Call
  count_duplicate : Call
  count_suppressed : String → Call
  find_by_trace_id : String → Call
  classify : AlertCluster → Call
  analyze : AlertCluster → List Fields → Call
  send : AlertCluster → Option LlmAnalysis → Option String → Call
  log_info : Fields → Call
  log_warn : String → Call
  log_error : String → Call
  count_processed : Bool → Call

-- The calls made so far, the latest first.
abbrev pub History : Type 0
History = List Call

-- What the outside answers to a call, behind the calls made before it. `is_drawn` says whether
-- `Math.random()` comes out below the sampling rate, and `timestamp` is the clock as a text.
pub record Ports : Type 0 where
  pub now : History → ℕ
  pub timestamp : History → String
  pub is_drawn : History → Bool
  pub serialized_bytes : Fields → ℕ
  pub is_new : History → String → ℕ → Result Thrown DedupResult
  pub reset : History → String → Result {0, 0} Thrown Unit
  pub find_by_trace_id : History → String → Result Thrown (List Fields)
  pub classify : History → AlertCluster → Result Thrown Level
  pub analyze : History → AlertCluster → List Fields → Result Thrown LlmResult
  pub send :
      History → AlertCluster → Option LlmAnalysis → Option String → Result Thrown NotifyResult
