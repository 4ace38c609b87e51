-- ===== src/Llm/OpenRouter.antt =====
-- infrastructure/llm/openrouter.provider.ts: the primary model, tried again once where it is rate limited, then
-- the other models until a deadline.
use junando.Common.{
  ℕ, zero, suc, ◌+◌, ◌-◌, ◌*◌, String, Bool, not, ◌&&◌, Option, none, some, List, [], ◌∷◌, ◌++◌,
  ◌==◌, eqb, leb, ltb, if◌then◌else◌, or_else,
}
use junando.Common.Lists.{keep}
use junando.Common.Results.{Result, ok, err}
use junando.Domain.Cluster.{LlmAnalysis}
use junando.Incident.Calls.{LlmResult}
use junando.Llm.Shared.{JsonParser, parse_llm_text}

-- What `analyze` does outside of the process. A duration is in milliseconds.
pub data Effect : Type 0 where
  request : String → String → Effect
  wait : ℕ → Effect
  count_inference : String → Effect
  observe_duration : String → ℕ → Effect

-- The effects so far, in their order.
abbrev pub Trace : Type 0
Trace = List Effect

pub record Usage : Type 0 where
  pub prompt_tokens : Option ℕ
  pub completion_tokens : Option ℕ

-- An answer that meets `OpenRouterResponseSchema`: the content of its first choice, and its usage.
pub record Completion : Type 0 where
  pub content : Option String
  pub usage : Option Usage

-- A response whose body is JSON. `retry_after` is in seconds, 0 where there is none.
pub record Reply : Type 0 where
  pub status : ℕ
  pub retry_after : ℕ
  pub completion : Option Completion

-- `fetch` and `res.json()` behind the effects so far, `none` where one of them rejects, and `Date.now()`.
pub record Network : Type 0 where
  pub reply : Trace → Option Reply
  pub now : Trace → ℕ
  pub json : JsonParser

pub record OpenRouterProvider : Type 0 where
  pub model : String
  pub fallback_models : List String
  pub fallback_timeout_ms : ℕ
  pub provider_name : String

unfoldable pub new_provider : String → List String → ℕ → String → OpenRouterProvider
new_provider model fallback_models fallback_timeout_ms provider_name = record {
  model = model;
  fallback_models = keep (λ m. not (m == model)) fallback_models;
  fallback_timeout_ms = fallback_timeout_ms;
  provider_name = provider_name;
}

abbrev pub Outcome : Type 0
Outcome = Result String LlmResult × Trace

-- `res.ok`
abbrev pub is_ok : Reply → Bool
is_ok reply = leb 200 reply.status && ltb reply.status 300

abbrev pub is_limited : Reply → Bool
is_limited reply = eqb reply.status 429

-- The pause before the second try, at most 30 seconds.
unfoldable pub wait_ms : Reply → ℕ
wait_ms reply =
    if ltb 0 reply.retry_after
    then if ltb (reply.retry_after * 1000) 30000 then reply.retry_after * 1000 else 30000
    else 5000

unfoldable pub text_of : Option Completion → String
text_of none = ""
text_of (some c) = or_else c.content ""

no_usage : Usage
no_usage = record { prompt_tokens = none; completion_tokens = none }

usage_of : Option Completion → Usage
unfolding no_usage
usage_of none = no_usage
usage_of (some c) = or_else c.usage no_usage

module _ (provider : OpenRouterProvider) (network : Network) where
  -- The result of a good reply of a model; `parseLlmText` may throw.
  unfoldable pub result_of :
      String
      → ℕ
      → Option Completion
      → Result String (Option LlmAnalysis × Option String)
      → Result String LlmResult
  unfolding usage_of
  result_of model latency_ms completion (err e) = err e
  result_of model latency_ms completion (ok (analysis, reason)) =
      let usage = usage_of completion in
      ok (record {
        analysis = analysis;
        degraded_reason = reason;
        provider = provider.provider_name;
        model = model;
        latency_ms = latency_ms;
        prompt_tokens = or_else usage.prompt_tokens 0;
        completion_tokens = or_else usage.completion_tokens 0;
      })

  -- The end of a model's good reply, behind some effects.
  unfoldable pub read_reply : String → ℕ → Reply → Result String LlmResult
  unfolding result_of text_of
  read_reply model latency_ms reply =
      result_of model latency_ms reply.completion
        (parse_llm_text network.json (text_of reply.completion))

  -- The metrics of the primary model's answer, which a throw leaves out.
  unfoldable pub measured : ℕ → Result String LlmResult → Trace → Outcome
  measured latency_ms (err e) trace = (err e, trace)
  measured latency_ms (ok r) trace =
      (ok r, trace ++ count_inference "success" ∷ observe_duration provider.model latency_ms ∷ [])

  module _ (prompt : String) (started : ℕ) where
    -- What follows the reply to a request of the chain: `next` is the rest of the chain.
    unfoldable pub on_fallback : String → Outcome → Trace → Option Reply → Outcome
    on_fallback model next trace none = (err "fetch", trace)
    on_fallback model next trace (some reply) =
        if is_ok reply
        then (read_reply model (network.now trace - started) reply, trace)
        else if is_limited reply
        then next
        else (err "OpenRouter API failed", trace)

    -- `analyzeFallback`
    unfoldable pub analyze_fallback : ℕ → List String → Trace → Outcome
    unfolding on_fallback
    analyze_fallback deadline [] trace = (err "OpenRouter API exhausted all models", trace)
    analyze_fallback deadline (model ∷ models) trace =
        let asked = trace ++ request model prompt ∷ [] in
        let next = analyze_fallback deadline models asked in
        if leb deadline (network.now trace)
        then (err "OpenRouter fallback chain timed out", trace)
        else on_fallback model next asked (network.reply asked)

    -- The primary model is rate limited for the second time.
    unfoldable pub on_exhausted : List String → Trace → Outcome
    on_exhausted [] trace =
        (err "OpenRouter API failed", trace ++ count_inference "rate_limited" ∷ [])
    on_exhausted (m ∷ models) trace =
        analyze_fallback (network.now trace + provider.fallback_timeout_ms) (m ∷ models) trace

    -- What follows a reply of the primary model: `limited` is what follows the status 429.
    unfoldable pub on_primary : (Reply → Outcome) → Trace → Option Reply → Outcome
    on_primary limited trace none = (err "fetch", trace)
    on_primary limited trace (some reply) =
        let latency_ms = network.now trace - started in
        if is_ok reply
        then measured latency_ms (read_reply provider.model latency_ms reply) trace
        else if is_limited reply
        then limited reply
        else (err "OpenRouter API failed", trace ++ count_inference "error" ∷ [])

    -- The loop over the attempts, by the number of those left.
    unfoldable pub attempts : ℕ → Trace → Outcome
    unfolding on_primary
    attempts zero trace = (err "OpenRouter API failed after retry", trace)
    attempts (suc left) trace =
        let asked = trace ++ request provider.model prompt ∷ [] in
        on_primary
          (λ reply.
            let retried = attempts left (asked ++ wait (wait_ms reply) ∷ []) in
            if eqb left 1 then retried else on_exhausted provider.fallback_models asked)
          asked (network.reply asked)

  unfoldable pub analyze : String → Outcome
  unfolding attempts
  analyze prompt = attempts prompt (network.now []) 2 []
