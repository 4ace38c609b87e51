-- ===== src/Llm/Gateway.antt =====
-- infrastructure/llm/vercel-gateway.provider.ts and factory.ts.
use Prim.Native.String
use junando.Common.{
  ℕ, String, Option, none, some, List, [], ◌∷◌, map, leb, ltb, eqb, ◌&&◌, or_else, if◌then◌else◌,
}
use junando.Common.Text.{is_empty, join}
use junando.Common.Split.{decimal}
use junando.Common.Assoc.{lookup}
use junando.Common.Results.{Result, ok, err}
use junando.Incident.Calls.{Thrown, error_object, LlmResult}
use junando.Llm.Shared.{JsonParser}
use junando.Llm.OpenRouter.{
  Effect, count_inference, observe_duration, Usage, Completion, text_of, OpenRouterProvider,
  new_provider,
}
use junando.Llm.Providers.{read_diagnosis}

-- The constructor wants a model.
unfoldable pub new_vercel_gateway : String → Result String String
new_vercel_gateway model =
    if is_empty model
    then err "VercelGatewayProvider requires an explicit model (e.g. \"typesafeai/jev\")"
    else ok model

-- How the request ends. A body that is read as JSON and that the schema refuses is `none`.
pub data GatewayReply : Type 0 where
  rejected : Thrown → GatewayReply
  answered : ℕ → Result Thrown (Option Completion) → GatewayReply

usage_in : Option Completion → Option Usage
usage_in none = none
usage_in (some completion) = completion.usage

measured_reply : String → ℕ → Result Thrown LlmResult → Result Thrown LlmResult × List Effect
measured_reply model latency_ms (err e) = (err e, [])
measured_reply model latency_ms (ok r) =
    (ok r, count_inference "success" ∷ observe_duration model latency_ms ∷ [])

on_body :
    JsonParser
    → String
    → ℕ
    → ℕ
    → Result Thrown (Option Completion)
    → Result Thrown LlmResult × List Effect
unfolding usage_in measured_reply
on_body json model latency_ms status (err e) = (err e, [])
on_body json model latency_ms status (ok completion) =
    if leb 200 status && ltb status 300
    then measured_reply model latency_ms (
        read_diagnosis json "vercel-gateway" model latency_ms (usage_in completion)
          (text_of completion))
    else (
      err (
          error_object "Error" (String.◌++◌ "Vercel AI Gateway request failed: " (decimal status))
            none),
      count_inference (if eqb status 429 then "rate_limited" else "error") ∷ [],
    )

-- `VercelGatewayProvider.analyze`: the body is read before the status is looked at.
unfoldable pub analyze_gateway :
    JsonParser → String → ℕ → GatewayReply → Result Thrown LlmResult × List Effect
unfolding on_body
analyze_gateway json model latency_ms (rejected e) = (err e, [])
analyze_gateway json model latency_ms (answered status body) =
    on_body json model latency_ms status body

-- The providers that are built, with their models. Keys are left out.
pub data Provider : Type 0 where
  gemini : String → Provider
  claude : String → Provider
  open_router : OpenRouterProvider → Provider
  bedrock : String → Provider
  vercel_gateway : String → Provider

-- `FallbackOptions`
pub record FallbackOptions : Type 0 where
  pub fallback_models : Option (List String)
  pub fallback_timeout_ms : Option ℕ

abbrev pub no_options : FallbackOptions
no_options = record { fallback_models = none; fallback_timeout_ms = none }

open_router_of : String → Option String → FallbackOptions → Result {0, 0} String Provider
open_router_of name model options = ok (
    open_router (
      new_provider (or_else model "qwen/qwen-2.5-72b-instruct") (or_else options.fallback_models [])
        (or_else options.fallback_timeout_ms 60000) name))

gateway_of : Result String String → Result {0, 0} String Provider
gateway_of (ok model) = ok (vercel_gateway model)
gateway_of (err e) = err e

-- `LLM_PROVIDER_REGISTRY`
unfoldable pub llm_provider_registry :
    Option String → FallbackOptions → List (String × Result {0, 0} String Provider)
unfolding open_router_of gateway_of new_vercel_gateway
llm_provider_registry model options =
    ("gemini", ok (gemini (or_else model "gemini-2.0-flash")))
    ∷ ("claude", ok (claude (or_else model "claude-haiku-4-5")))
    ∷ ("openrouter", open_router_of "openrouter" model options)
    ∷ ("qwen", open_router_of "qwen" model options)
    ∷ ("bedrock", ok (bedrock (or_else model "us.amazon.nova-lite-v1:0")))
    ∷ ("vercel-gateway", gateway_of (new_vercel_gateway (or_else model "")))
    ∷ []

unknown : String → List (String × Result {0, 0} String Provider) → String
unknown provider registry = String.◌++◌ "Unknown LLM_PROVIDER: \"" (
    String.◌++◌ provider
      (String.◌++◌ "\". Supported: " (join ", " (map (λ entry. entry.0) registry))))

found :
    String
    → List (String × Result {0, 0} String Provider)
    → Option (Result {0, 0} String Provider)
    → Result String Provider
unfolding unknown
found provider registry none = err (unknown provider registry)
found provider registry (some factory) = factory

unfoldable pub create_llm_provider :
    String → Option String → FallbackOptions → Result String Provider
unfolding found llm_provider_registry
create_llm_provider provider model options =
    let registry = llm_provider_registry model options in
    found provider registry (lookup provider registry)
