-- ===== src/Llm/Gemini.antt =====
-- infrastructure/llm/gemini.provider.ts. The vendor's call and the circuit breaker around it are parameters.
use junando.Common.{ℕ, String, Bool, ◌||◌, Option, none, some, ◌==◌, or_else, if◌then◌else◌}
use junando.Common.Results.{Result, ok, err, ◌>>=◌}
use junando.Incident.Calls.{Thrown, LlmResult}
use junando.Llm.Shared.{JsonParser}
use junando.Llm.OpenRouter.{Usage}
use junando.Llm.Providers.{read_diagnosis, degraded}

-- What is read of an object that is thrown: its code, and whether it is an abort of the vendor's library or a timeout of
-- a request.
pub record ErrorLike : Type 0 where
  pub code : Option String
  pub is_abort_error : Bool
  pub is_fetch_timeout : Bool

-- A throw; `object` and `cause` are there where it and its cause are objects.
pub record GeminiError : Type 0 where
  pub thrown : Thrown
  pub object : Option ErrorLike
  pub cause : Option ErrorLike

unfoldable pub has_timeout_code : ErrorLike → Bool
has_timeout_code error =
    (or_else error.code "" == "ETIMEDOUT") || (or_else error.code "" == "UND_ERR_CONNECT_TIMEOUT")

cause_timed_out : Option ErrorLike → Bool
unfolding has_timeout_code
cause_timed_out none = Bool.false
cause_timed_out (some cause) = has_timeout_code cause || cause.is_fetch_timeout

classify_object : ErrorLike → Option ErrorLike → Option String
unfolding cause_timed_out has_timeout_code
classify_object error cause =
    if or_else error.code "" == "EOPENBREAKER"
    then some "circuit_breaker_open"
    else if has_timeout_code error
    then some "timeout"
    else if error.is_abort_error
    then some "timeout"
    else if error.is_fetch_timeout
    then some "timeout"
    else if cause_timed_out cause
    then some "timeout"
    else none

classify_like : Option ErrorLike → Option ErrorLike → Option String
unfolding classify_object
classify_like none cause = none
classify_like (some error) cause = classify_object error cause

unfoldable pub classify_gemini_availability_error : GeminiError → Option String
unfolding classify_like
classify_gemini_availability_error error = classify_like error.object error.cause

-- A response: its text and its usage.
pub record GeminiResponse : Type 0 where
  pub text : String
  pub usage : Option Usage

-- How a call through the breaker ends: the breaker or the vendor throws, or there is a response.
pub record Fired : Type 0 where
  pub reply : Result GeminiError GeminiResponse
  pub latency_ms : ℕ

plain_error : Thrown → GeminiError
plain_error e = record {
  thrown = e;
  object =
      some (record { code = none; is_abort_error = Bool.false; is_fetch_timeout = Bool.false });
  cause = none;
}

as_gemini : Result Thrown LlmResult → Result GeminiError LlmResult
unfolding plain_error
as_gemini (ok r) = ok r
as_gemini (err e) = err (plain_error e)

-- `analyzeRaw`, behind the vendor's call. What the parse throws has no code and no cause.
unfoldable pub analyze_raw : JsonParser → String → Fired → Result GeminiError LlmResult
unfolding as_gemini
analyze_raw json model fired = fired.reply >>= λ response.
    as_gemini (read_diagnosis json "gemini" model fired.latency_ms response.usage response.text)

recover : String → ℕ → GeminiError → Option String → Result Thrown LlmResult
recover model latency_ms error none = err error.thrown
recover model latency_ms error (some reason) = ok (degraded "gemini" model latency_ms reason)

analyze_with_breaker : String → ℕ → Result GeminiError LlmResult → Result Thrown LlmResult
unfolding recover classify_gemini_availability_error
analyze_with_breaker model latency_ms (ok r) = ok r
analyze_with_breaker model latency_ms (err error) =
    recover model latency_ms error (classify_gemini_availability_error error)

unfoldable pub analyze_gemini : JsonParser → String → Fired → Result Thrown LlmResult
unfolding analyze_with_breaker analyze_raw
analyze_gemini json model fired =
    analyze_with_breaker model fired.latency_ms (analyze_raw json model fired)
