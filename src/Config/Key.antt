-- ===== src/Config/Key.antt =====
-- The message about the language model's key.
use Prim.Native.Char.{code}
use Prim.Native.String
use text.Mathlib.TextLemmas.{cons-append}
use junando.Common.{
  eqb, String, true, false, none, some, List, [], ◌∷◌, map, ◌≡◌, refl, sym, ap, ◌∙◌, or_else,
  is_some, Bool-cases, inl, inr, Option,
}
use junando.Common.Lists.{any_of, any_of-append}
use junando.Common.Split.{drop_prefix}
use junando.Common.Assoc.{lookup}
use junando.Common.Results.{ok, err}
use junando.Config.Env.{llm_api_key_required}
use junando.Config.Secrets.{Variables}
use junando.Config.Schema.{Issue, Zod, config_of}
use junando.Config.Load.{
  issues, issue_text, about_key, key_message, with_key_check, outcome_of, read_config,
}
use junando.Config.Loaded.{read_config-IsSound}

drop_prefix-append :
    (p s t : String)
    → is_some (drop_prefix p s) ≡ true
    → is_some (drop_prefix p (String.◌++◌ s t)) ≡ true
unfolding drop_prefix
drop_prefix-append String.[] s t h = refl
drop_prefix-append (String.◌∷◌ c p) String.[] t h = absurd (cc h)
drop_prefix-append (String.◌∷◌ c p) (String.◌∷◌ d s) t h =
    elim (Bool-cases (eqb (code c) (code d))) [
      | inl same ↦ rw (cons-append, same) (drop_prefix-append p s t (rw same at h))
      | inr other ↦ let gone : false ≡ true = rw other at h in absurd (cc gone)
    ]

module _ (zod : Zod) (env : Variables) where
  about_key-key_message : about_key zod env (key_message zod env) ≡ true
  unfolding key_message
  about_key-key_message =
      drop_prefix-append "llmApiKey" "llmApiKey: [llmProvider: " _ (unfold drop_prefix in refl)

  with_key_check-about :
      (messages : List String)
      → llm_api_key_required (lookup "LLM_PROVIDER" env) (lookup "LLM_API_KEY" env) ≡ true
      → any_of (about_key zod env) (with_key_check zod env messages) ≡ true
  unfolding with_key_check
  with_key_check-about messages required = elim (Bool-cases (any_of (about_key zod env) messages)) [
    | inl found ↦ rw found found
    | inr missing ↦
        rw (missing, required)
          (any_of-append (about_key zod env) messages _
            ∙ rw missing (unfold any_of in rw about_key-key_message refl))
  ]

  key_required-default :
      (provider key : Option String)
      → llm_api_key_required (some (or_else provider "undefined")) key
        ≡ llm_api_key_required provider key
  unfolding llm_api_key_required
  key_required-default none key = refl
  key_required-default (some provider) key = refl

  -- Where the schema's refinement runs behind fields without an issue: if the variables name a provider other
  -- than Bedrock, or none, and give no key or an empty one, the configuration is refused, and one of the
  -- messages begins with the key's field, whatever else is wrong.
  pub read_config-key :
      zod.is_aborted [] ≡ false
      → llm_api_key_required (lookup "LLM_PROVIDER" env) (lookup "LLM_API_KEY" env) ≡ true
      → (messages : List String) × (read_config zod env ≡ err messages)
        × (any_of (about_key zod env) messages ≡ true)
  unfolding read_config
  read_config-key runs required = of_issues (issues zod env) refl
    where
      of_issues :
          (is : List Issue)
          → issues zod env ≡ is
          → (messages : List String) × (outcome_of zod env is ≡ err messages)
            × (any_of (about_key zod env) messages ≡ true)
      of_issues [] same =
          let loaded : read_config zod env ≡ ok (config_of zod env) =
            unfold outcome_of in ap (outcome_of zod env) same in
          let sound = read_config-IsSound zod env (config_of zod env) runs loaded in
          let given : llm_api_key_required (lookup "LLM_PROVIDER" env) (lookup "LLM_API_KEY" env)
              ≡ false =
            sym (key_required-default (lookup "LLM_PROVIDER" env) (lookup "LLM_API_KEY" env))
            ∙ (unfold config_of in sound.key) in
          absurd (cc (given, required))
      of_issues (i ∷ is) same =
          unfold outcome_of in
          (_, refl, with_key_check-about (map (issue_text zod env) (i ∷ is)) required)
