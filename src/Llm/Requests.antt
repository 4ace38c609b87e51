-- ===== src/Llm/Requests.antt =====
-- infrastructure/llm/openrouter.provider.ts: which models a diagnosis asks, and which one its result names.
use mathlib.Core.List.{append-nil, append_assoc}
use mathlib.Core.Path.{subst}
use junando.Common.{
  ℕ, String, Option, none, some, List, [], ◌∷◌, ◌++◌, leb, ◌≡◌, ◌∙◌, inl, inr, refl, sym, ap,
  Bool-cases,
}
use junando.Common.Results.{Result, ok, err}
use junando.Incident.Calls.{LlmResult}
use junando.Domain.Cluster.{LlmAnalysis}
use junando.Llm.OpenRouter.{
  request, wait, count_inference, observe_duration, Trace, Reply, Network, OpenRouterProvider,
  Outcome, is_ok, is_limited, wait_ms, result_of, read_reply, measured, analyze_fallback,
  on_fallback, on_exhausted, on_primary, attempts, analyze,
}

-- The models asked, in their order.
abbrev pub models_of : Trace → List String
models_of [] = []
models_of (request model prompt ∷ trace) = model ∷ models_of trace
models_of (wait ms ∷ trace) = models_of trace
models_of (count_inference status ∷ trace) = models_of trace
models_of (observe_duration model ms ∷ trace) = models_of trace

models_of-append : (t u : Trace) → models_of (t ++ u) ≡ models_of t ++ models_of u
models_of-append [] u = refl
models_of-append (request model prompt ∷ t) u = ap (◌∷◌ model) (models_of-append t u)
models_of-append (wait ms ∷ t) u = models_of-append t u
models_of-append (count_inference status ∷ t) u = models_of-append t u
models_of-append (observe_duration model ms ∷ t) u = models_of-append t u

-- A result names the last model that was asked.
abbrev pub IsNamed : Result String LlmResult → List String → Type 0
IsNamed (err e) asked = Unit
IsNamed (ok r) asked = (before : List String) × (asked ≡ before ++ r.model ∷ [])

-- The models were asked in the order of a plan, which may be cut short, and a result names the last of them.
pub record Follows (plan : List String) (outcome : Outcome) : Type 0 where
  pub unasked : List String
  pub in_order : models_of outcome.1 ++ unasked ≡ plan
  pub named : IsNamed outcome.0 (models_of outcome.1)

Follows-plan : {p q : List String} (o : Outcome) → p ≡ q → Follows p o → Follows q o
Follows-plan o same h = subst (λ (plan : List String). Follows plan o) same h

abbrev IsFrom : String → Result String LlmResult → Type 0
IsFrom model (err e) = Unit
IsFrom model (ok r) = r.model ≡ model

IsFrom-IsNamed :
    (model : String) (r : Result String LlmResult) (before : List String)
    → IsFrom model r
    → IsNamed r (before ++ model ∷ [])
IsFrom-IsNamed model (err e) before h = tt
IsFrom-IsNamed model (ok r) before h = (before, ap (λ (m : String). before ++ m ∷ []) (sym h))

module _ (provider : OpenRouterProvider) (network : Network) where
  result_of-IsFrom :
      (model : String) (latency_ms : ℕ) (reply : Reply)
      (parsed : Result String (Option LlmAnalysis × Option String))
      → IsFrom model (result_of provider network model latency_ms reply.completion parsed)
  unfolding result_of
  result_of-IsFrom model latency_ms reply (err e) = tt
  result_of-IsFrom model latency_ms reply (ok parsed) = refl

  read_reply-IsFrom :
      (model : String) (latency_ms : ℕ) (reply : Reply)
      → IsFrom model (read_reply provider network model latency_ms reply)
  unfolding read_reply
  read_reply-IsFrom model latency_ms reply = result_of-IsFrom model latency_ms reply _

  module _ (prompt : String) (started : ℕ) where
    asked-models :
        (model : String) (trace : Trace)
        → models_of (trace ++ request model prompt ∷ []) ≡ models_of trace ++ model ∷ []
    asked-models model trace = models_of-append trace (request model prompt ∷ [])

    asked-plan :
        (model : String) (trace : Trace) (models : List String)
        → models_of (trace ++ request model prompt ∷ []) ++ models
          ≡ models_of trace ++ model ∷ models
    asked-plan model trace models =
        ap (λ (ms : List String). ms ++ models) (asked-models model trace)
        ∙ append_assoc (models_of trace) (model ∷ []) models

    on_fallback-Follows :
        (model : String) (next : Outcome) (trace : Trace) (reply : Option Reply)
        (plan : List String) (rest : List String)
        → models_of (trace ++ request model prompt ∷ []) ++ rest ≡ plan
        → Follows plan next
        → Follows plan (
            on_fallback provider network prompt started model next
              (trace ++ request model prompt ∷ [])
              reply)
    unfolding on_fallback
    on_fallback-Follows model next trace none plan rest in_order h = record {
      unasked = rest;
      in_order = in_order;
      named = tt;
    }
    on_fallback-Follows model next trace (some reply) plan rest in_order h =
        elim (Bool-cases (is_ok reply)) [
          | inl good ↦ rw good (record {
            unasked = rest;
            in_order = in_order;
            named =
                rw (asked-models model trace)
                  (IsFrom-IsNamed model _ (models_of trace) (read_reply-IsFrom model _ reply));
          })
          | inr bad ↦ elim (Bool-cases (is_limited reply)) [
            | inl limited ↦ rw (bad, limited) h
            | inr other ↦
                rw (bad, other) (record { unasked = rest; in_order = in_order; named = tt })
          ]
        ]

    analyze_fallback-Follows :
        (deadline : ℕ) (models : List String) (trace : Trace)
        → Follows
            (models_of trace ++ models)
            (analyze_fallback provider network prompt started deadline models trace)
    unfolding analyze_fallback
    analyze_fallback-Follows deadline [] trace = record {
      unasked = [];
      in_order = refl;
      named = tt;
    }
    analyze_fallback-Follows deadline (model ∷ models) trace =
        elim (Bool-cases (leb deadline (network.now trace))) [
          | inl late ↦ rw late (record { unasked = model ∷ models; in_order = refl; named = tt })
          | inr early ↦ rw early (
              on_fallback-Follows model next trace (network.reply asked)
                (models_of trace ++ model ∷ models) models plan
                (Follows-plan next plan (analyze_fallback-Follows deadline models asked)))
        ]
      where
        asked : Trace
        asked = trace ++ request model prompt ∷ []

        next : Outcome
        next = analyze_fallback provider network prompt started deadline models asked

        plan : models_of asked ++ models ≡ models_of trace ++ model ∷ models
        plan = asked-plan model trace models

    on_exhausted-Follows :
        (models : List String) (trace : Trace)
        → Follows
            (models_of trace ++ models)
            (on_exhausted provider network prompt started models trace)
    unfolding on_exhausted
    on_exhausted-Follows [] trace = record {
      unasked = [];
      in_order =
          append-nil (models_of (trace ++ count_inference "rate_limited" ∷ []))
          ∙ models_of-append trace (count_inference "rate_limited" ∷ []);
      named = tt;
    }
    on_exhausted-Follows (m ∷ models) trace = analyze_fallback-Follows _ (m ∷ models) trace

    measured-Follows :
        (latency_ms : ℕ) (r : Result String LlmResult) (trace : Trace) (plan rest : List String)
        → models_of trace ++ rest ≡ plan
        → IsNamed r (models_of trace)
        → Follows plan (measured provider network latency_ms r trace)
    unfolding measured
    measured-Follows latency_ms (err e) trace plan rest in_order named = record {
      unasked = rest;
      in_order = in_order;
      named = tt;
    }
    measured-Follows latency_ms (ok r) trace plan rest in_order named =
        let silent : models_of
              (trace ++ count_inference "success" ∷ observe_duration provider.model latency_ms ∷ [])
            ≡ models_of trace =
          models_of-append trace _ ∙ append-nil (models_of trace) in
        record { unasked = rest; in_order = rw silent in_order; named = rw silent named }

    on_primary-Follows :
        (limited : Reply → Outcome) (trace : Trace) (reply : Option Reply) (plan rest : List String)
        → models_of (trace ++ request provider.model prompt ∷ []) ++ rest ≡ plan
        → ((r : Reply) → Follows plan (limited r))
        → Follows plan (
            on_primary provider network prompt started limited
              (trace ++ request provider.model prompt ∷ [])
              reply)
    unfolding on_primary
    on_primary-Follows limited trace none plan rest in_order h = record {
      unasked = rest;
      in_order = in_order;
      named = tt;
    }
    on_primary-Follows limited trace (some reply) plan rest in_order h =
        elim (Bool-cases (is_ok reply)) [
          | inl good ↦ rw good (
              measured-Follows _ _ _ plan rest in_order (
                rw (asked-models provider.model trace) (
                  IsFrom-IsNamed provider.model _ (models_of trace)
                    (read_reply-IsFrom provider.model _ reply))))
          | inr bad ↦ elim (Bool-cases (is_limited reply)) [
            | inl again ↦ rw (bad, again) (h reply)
            | inr other ↦
                rw (bad, other)
                  (record {
                    unasked = rest;
                    in_order =
                        ap (λ (ms : List String). ms ++ rest)
                          (models_of-append (trace ++ request provider.model prompt ∷ [])
                              (count_inference "error" ∷ [])
                            ∙ append-nil _)
                        ∙ in_order;
                    named = tt;
                  })
          ]
        ]

    second-Follows :
        (trace : Trace)
        → Follows
            (models_of trace ++ provider.model ∷ provider.fallback_models)
            (attempts provider network prompt started 1 trace)
    unfolding attempts
    second-Follows trace =
        on_primary-Follows _ trace (network.reply (trace ++ request provider.model prompt ∷ [])) _
          provider.fallback_models (asked-plan provider.model trace provider.fallback_models)
          (λ reply.
            Follows-plan
              (on_exhausted provider network prompt started provider.fallback_models
                (trace ++ request provider.model prompt ∷ []))
              (asked-plan provider.model trace provider.fallback_models)
              (on_exhausted-Follows provider.fallback_models
                (trace ++ request provider.model prompt ∷ [])))

  -- A diagnosis asks the primary model, the same model again, and then the fallback models in their order; it
  -- may stop behind any of them, and a result names the last model that was asked.
  pub analyze-Follows :
      (prompt : String)
      → Follows
          (provider.model ∷ provider.model ∷ provider.fallback_models)
          (analyze provider network prompt)
  unfolding analyze attempts
  analyze-Follows prompt =
      on_primary-Follows prompt _ _ [] (network.reply (request provider.model prompt ∷ [])) _
        (provider.model ∷ provider.fallback_models) refl
        (λ reply.
          second-Follows prompt _ (request provider.model prompt ∷ wait (wait_ms reply) ∷ []))
