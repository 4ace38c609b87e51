-- ===== src/Llm/Providers.antt =====
-- infrastructure/llm/: the providers of Claude, Bedrock and the mock. The vendors' calls are parameters: what
-- they return or throw.
use Prim.Native.String
use junando.Common.{
  ℕ, String, Bool, Option, none, some, List, [], ◌∷◌, ◌++◌, ◌==◌, or_else, if◌then◌else◌,
}
use junando.Common.Assoc.{lookup}
use junando.Common.Results.{Result, ok, err, ◌>>=◌}
use junando.Domain.Alert.{alert_type_text}
use junando.Domain.Cluster.{high, AlertCluster, LlmAnalysis}
use junando.Incident.Calls.{Thrown, error_object, other_value, LlmResult}
use junando.Llm.Shared.{JsonParser, parse_llm_text}
use junando.Llm.OpenRouter.{Usage}

-- A vendor's message: its blocks, each with its text, if it is one of text, and its usage.
pub record VendorMessage : Type 0 where
  pub blocks : List (Option String)
  pub usage : Option Usage

-- `blocks.find(...)?.text ?? ''`
unfoldable pub first_text : List (Option String) → String
first_text [] = ""
first_text (none ∷ rest) = first_text rest
first_text (some text ∷ rest) = text

unfoldable pub prompt_tokens_of : Option Usage → ℕ
prompt_tokens_of none = 0
prompt_tokens_of (some u) = or_else u.prompt_tokens 0

unfoldable pub completion_tokens_of : Option Usage → ℕ
completion_tokens_of none = 0
completion_tokens_of (some u) = or_else u.completion_tokens 0

-- What `parseLlmText` throws, as an error.
unfoldable pub parse_error : String → Thrown
parse_error e =
    if e == "JSON" then error_object "SyntaxError" e none else error_object "ZodError" e none

parsed :
    Result {0, 0} String (Option LlmAnalysis × Option String)
    → Result Thrown (Option LlmAnalysis × Option String)
unfolding parse_error
parsed (ok p) = ok p
parsed (err e) = err (parse_error e)

-- The result of a model's text.
unfoldable pub read_diagnosis :
    JsonParser → String → String → ℕ → Option Usage → String → Result Thrown LlmResult
unfolding parsed prompt_tokens_of completion_tokens_of
read_diagnosis json provider model latency_ms usage text =
    parsed (parse_llm_text json text) >>= λ p. ok (record {
      analysis = p.0;
      degraded_reason = p.1;
      provider = provider;
      model = model;
      latency_ms = latency_ms;
      prompt_tokens = prompt_tokens_of usage;
      completion_tokens = completion_tokens_of usage;
    })

-- A result without an analysis, for a reason.
unfoldable pub degraded : String → String → ℕ → String → LlmResult
degraded provider model latency_ms reason = record {
  analysis = none;
  degraded_reason = some reason;
  provider = provider;
  model = model;
  latency_ms = latency_ms;
  prompt_tokens = 0;
  completion_tokens = 0;
}

-- A call of a vendor: how it ends, and how long it takes.
pub record Called : Type 0 where
  pub reply : Result Thrown VendorMessage
  pub latency_ms : ℕ

unfoldable pub analyze_claude : JsonParser → String → Called → Result Thrown LlmResult
unfolding first_text
analyze_claude json model called = called.reply >>= λ message.
    read_diagnosis json "claude" model called.latency_ms message.usage (first_text message.blocks)

abbrev pub bedrock_availability_errors : List (String × String)
bedrock_availability_errors =
    ("ThrottlingException", "provider_unavailable")
    ∷ ("ServiceUnavailableException", "provider_unavailable")
    ∷ ("InternalServerException", "provider_unavailable")
    ∷ ("ModelTimeoutException", "timeout")
    ∷ ("AbortError", "timeout")
    ∷ []

unfoldable pub classify_bedrock_error : Thrown → Option String
classify_bedrock_error (error_object name message stack) = lookup name bedrock_availability_errors
classify_bedrock_error (other_value text) = none

recover : (String → LlmResult) → Thrown → Option String → Result Thrown LlmResult
recover degrade error none = err error
recover degrade error (some reason) = ok (degrade reason)

catch_bedrock : String → ℕ → Result Thrown LlmResult → Result Thrown LlmResult
unfolding recover classify_bedrock_error degraded
catch_bedrock model latency_ms (ok r) = ok r
catch_bedrock model latency_ms (err e) =
    recover (degraded "bedrock" model latency_ms) e (classify_bedrock_error e)

-- The `try` holds the reading of the text as well as the call.
unfoldable pub analyze_bedrock : JsonParser → String → Called → Result Thrown LlmResult
unfolding catch_bedrock first_text
analyze_bedrock json model called = catch_bedrock model called.latency_ms (
    called.reply >>= λ message.
    read_diagnosis json "bedrock" model called.latency_ms message.usage (first_text message.blocks))

-- `MockLLMProvider`: the clusters it was called with.
unfoldable pub analyze_mock : AlertCluster → List AlertCluster → LlmResult × List AlertCluster
analyze_mock cluster call_log = (
  record {
    analysis = some (record {
      probable_cause = String.◌++◌ "Mock: " (
          String.◌++◌ (alert_type_text cluster.alert_type)
            (String.◌++◌ " on " cluster.service_name));
      impacted_services = cluster.service_name ∷ [];
      recommended_steps = "Check the logs" ∷ "Verify the deployment" ∷ [];
      urgency_level = high;
      requires_rollback = Bool.false;
    });
    degraded_reason = none;
    provider = "mock";
    model = "mock";
    latency_ms = 0;
    prompt_tokens = 0;
    completion_tokens = 0;
  },
  call_log ++ cluster ∷ [],
)
