-- ===== src/Config/Words.antt =====
-- The words that the fields of `ConfigSchema` take.
use junando.Common.{
  String, Bool, true, Option, none, some, List, [], ◌∷◌, ◌≡◌, ◌⊎◌, refl, ◌==◌, or_else, Bool-cases,
  inl, inr,
}
use junando.Common.Lists.{any_of, Any}
use junando.Common.Members.{Any-any_of, flatten-nil}
use junando.Common.Assoc.{lookup}
use junando.Config.Secrets.{Variables}
use junando.Config.Schema.{Zod, Config, config_of, base_issues, optional, required}

-- The fields whose words later code looks at.
pub record HasWords (config : Config) : Type 0 where
  pub provider :
      Any
        (λ w. w ≡ config.llm_provider)
        ("gemini" ∷ "claude" ∷ "openrouter" ∷ "qwen" ∷ "bedrock" ∷ "vercel-gateway" ∷ [])
  pub notifier : Any (λ w. w ≡ config.notifier_type) ("slack" ∷ "teams" ∷ [])
  pub store : Any (λ w. w ≡ config.dedup_store) ("dynamodb" ∷ "redis" ∷ [])
  pub triage :
      (config.triage_provider ≡ none)
      ⊎ ((s : String) × (config.triage_provider ≡ some s)
          × Any (λ w. w ≡ s) ("vercel-gateway" ∷ "jev" ∷ []))

module _ (zod : Zod) (env : Variables) where
  optional-nil :
      (path : String) (check : String → Bool) (o : Option String)
      → optional zod env path check o ≡ []
      → (o ≡ none) ⊎ ((s : String) × (o ≡ some s) × (check s ≡ true))
  unfolding optional
  optional-nil path check none h = inl refl
  optional-nil path check (some s) h = elim (Bool-cases (check s)) [
    | inl fine ↦ inr (s, refl, fine)
    | inr bad ↦ absurd (cc (rw bad at h))
  ]

  required-nil :
      (path : String) (check : String → Bool) (o : Option String)
      → required zod env path check o ≡ []
      → (s : String) × (o ≡ some s) × (check s ≡ true)
  unfolding required
  required-nil path check none h = absurd (cc h)
  required-nil path check (some s) h = elim (Bool-cases (check s)) [
    | inl fine ↦ (s, refl, fine)
    | inr bad ↦ absurd (cc (rw bad at h))
  ]

  -- A field with a default is one of the words, of which the default is one.
  default-Any :
      (path d : String) (words : List String) (o : Option String)
      → Any (λ w. w ≡ d) words
      → optional zod env path (λ v. any_of (λ w. w == v) words) o ≡ []
      → Any (λ w. w ≡ or_else o d) words
  default-Any path d words o default_in h = elim (optional-nil path _ o h) [
    | inl absent ↦ rw absent default_in
    | inr (s, present, fine) ↦ rw present (Any-any_of s words fine)
  ]

  triage-words :
      (o : Option String)
      → optional zod env "triageProvider"
          (λ v. any_of (λ w. w == v) ("vercel-gateway" ∷ "jev" ∷ []))
          o
        ≡ []
      → (o ≡ none)
        ⊎ ((s : String) × (o ≡ some s) × Any (λ w. w ≡ s) ("vercel-gateway" ∷ "jev" ∷ []))
  triage-words o h =
      elim (optional-nil _ (λ v. any_of (λ w. w == v) ("vercel-gateway" ∷ "jev" ∷ [])) o h) [
        | inl absent ↦ inl absent
        | inr (s, present, fine) ↦ inr (s, present, Any-any_of s _ fine)
      ]

  pub base_issues-nil : base_issues zod env ≡ [] → HasWords (config_of zod env)
  unfolding base_issues config_of
  base_issues-nil h =
      let all = flatten-nil _ h in
      let (provider, present, known) =
        required-nil "llmProvider"
          (λ v.
            any_of (λ w. w == v)
              ("gemini" ∷ "claude" ∷ "openrouter" ∷ "qwen" ∷ "bedrock" ∷ "vercel-gateway" ∷ []))
          (lookup "LLM_PROVIDER" env) all.0 in
      record {
        provider = rw present (Any-any_of provider _ known);
        notifier =
            default-Any "notifierType" "slack" ("slack" ∷ "teams" ∷ []) (lookup "NOTIFIER_TYPE" env)
              (inl refl) all.1.1.0;
        store =
            default-Any "dedupStore" "dynamodb" ("dynamodb" ∷ "redis" ∷ [])
              (lookup "DEDUP_STORE" env) (inl refl) all.1.1.1.1.1.1.1.0;
        triage = triage-words (lookup "TRIAGE_PROVIDER" env) all.1.1.1.1.1.1.1.1.1.1.1.1.1.1.1.0;
      }
