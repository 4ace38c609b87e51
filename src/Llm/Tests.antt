-- ===== src/Llm/Tests.antt =====
-- A model that is rate limited twice, a fallback that answers, and answers that lack braces or steps.
use junando.Common.{false, String, none, some, refl, [], ◌∷◌, ◌≡◌, if◌then◌else◌, leb}
use junando.Common.Text.{is_space}
use junando.Common.Lists.{length}
use junando.Common.Results.{err}
use junando.Domain.Cluster.{LlmAnalysis, high}
use junando.Llm.Shared.{
  RawAnalysis, JsonParser, parse_analysis, braces, text_field, list_field, whole_analysis,
  check_analysis, level_of, has_lengths, with_level,
}
use junando.Llm.Usable.{IsUsable, parse_analysis-IsUsable, parse_analysis-throws}
use junando.Llm.OpenRouter.{Network, OpenRouterProvider, new_provider, analyze}
use junando.Llm.Requests.{Follows, models_of, analyze-Follows}

abbrev some_analysis : RawAnalysis
some_analysis = record {
  probable_cause = "pool";
  impacted_services = "api" ∷ [];
  recommended_steps = "restart" ∷ [];
  urgency_level = "high";
  requires_rollback = false;
}

abbrev some_json : JsonParser
some_json = record { object = λ s. some some_analysis; texts = λ s. none }

abbrev no_json : JsonParser
no_json = record { object = λ s. none; texts = λ s. none }

abbrev an_analysis : LlmAnalysis
an_analysis = record {
  probable_cause = "pool";
  impacted_services = "api" ∷ [];
  recommended_steps = "restart" ∷ [];
  urgency_level = high;
  requires_rollback = false;
}

parse_analysis-IsUsable_example : IsUsable an_analysis
unfolding braces check_analysis level_of has_lengths with_level
parse_analysis-IsUsable_example =
    parse_analysis-IsUsable some_json "Sure: {}." an_analysis (unfold parse_analysis in refl)

abbrev stepless : String
stepless = "\"probable_cause\": \"pool\", \"urgency_level\": \"high\""

parse_analysis-throws_example : (e : String) × (parse_analysis no_json stepless ≡ err e)
unfolding whole_analysis braces text_field list_field is_space
parse_analysis-throws_example =
    parse_analysis-throws no_json stepless "pool" "high" refl refl refl refl

abbrev two_models : OpenRouterProvider
two_models = new_provider "a" ("a" ∷ "b" ∷ []) 60000 "openrouter"

-- The third request is answered.
abbrev busy_network : Network
busy_network = record {
  reply = λ trace.
      if leb 3 (length (models_of trace))
      then some (record { status = 200; retry_after = 0; completion = none })
      else some (record { status = 429; retry_after = 0; completion = none });
  now = λ trace. 0;
  json = no_json;
}

analyze-Follows_example :
    Follows
      (two_models.model ∷ two_models.model ∷ two_models.fallback_models)
      (analyze two_models busy_network "why")
analyze-Follows_example = analyze-Follows two_models busy_network "why"
