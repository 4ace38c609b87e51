-- ===== src/Config/Loaded.antt =====
-- What holds of a configuration that is loaded.
use junando.Common.{
  String, Bool, true, false, Option, none, some, List, [], ◌∷◌, ◌≡◌, ◌⊎◌, refl, sym, ◌==◌, eq_iff,
  Bool-cases, inl, inr,
}
use junando.Common.Lists.{Any}
use junando.Common.Members.{append-nil, flatten-nil}
use junando.Common.Text.{is_empty}
use junando.Common.Results.{ok, ok_inj}
use junando.Config.Env.{is_missing, llm_api_key_required}
use junando.Config.Secrets.{Variables}
use junando.Config.Schema.{Issue, Zod, Config, config_of, base_issues}
use junando.Config.Refine.{when, slack_issues, teams_issues, triage_issues, refine_issues}
use junando.Config.Words.{HasWords, base_issues-nil}
use junando.Config.Load.{issues, outcome_of, read_config}

-- A text that is there and not empty.
abbrev pub Given : Option String → Type 0
Given o = (s : String) × (o ≡ some s) × (is_empty s ≡ false)

given : (o : Option String) → is_missing o ≡ false → Given o
given none h = absurd (cc h)
given (some s) h = (s, refl, h)

when-nil : (c : Bool) (path message : String) → when c path message ≡ [] → c ≡ false
unfolding when
when-nil true path message h = absurd (cc h)
when-nil false path message h = refl

-- What the fields' checks and the refinement leave.
pub record IsSound (config : Config) : Type 0 where
  pub provider :
      Any
        (λ w. w ≡ config.llm_provider)
        ("gemini" ∷ "claude" ∷ "openrouter" ∷ "qwen" ∷ "bedrock" ∷ "vercel-gateway" ∷ [])
  pub key : llm_api_key_required (some config.llm_provider) config.llm_api_key ≡ false
  pub notifier :
      ((config.notifier_type ≡ "slack")
        × Given config.slack_bot_token
        × Given config.slack_channel
        × Given config.slack_signing_secret)
      ⊎ ((config.notifier_type ≡ "teams") × Given config.teams_webhook_url)
  pub store :
      ((config.dedup_store ≡ "dynamodb") × Given config.dedup_table_name)
      ⊎ ((config.dedup_store ≡ "redis") × Given config.redis_url)
  pub triage :
      (config.triage_enabled ≡ false)
      ⊎ (((config.triage_provider ≡ some "jev")
            ⊎ ((config.triage_provider ≡ some "vercel-gateway") × Given config.triage_model))
          × Given config.triage_api_key)

missing-when :
    (o : Option String) (path message : String) → when (is_missing o) path message ≡ [] → Given o
missing-when o path message h = given o (when-nil (is_missing o) path message h)

slack_issues-nil :
    (config : Config)
    → slack_issues config ≡ []
    → Given config.slack_bot_token × Given config.slack_channel × Given config.slack_signing_secret
unfolding slack_issues
slack_issues-nil config h =
    let all = flatten-nil _ h in
    (
      missing-when config.slack_bot_token _ _ all.0,
      missing-when config.slack_channel _ _ all.1.0,
      missing-when config.slack_signing_secret _ _ all.1.1.0,
    )

teams_issues-nil :
    (zod : Zod) (config : Config) → teams_issues zod config ≡ [] → Given config.teams_webhook_url
unfolding teams_issues when
teams_issues-nil zod config h = elim (Bool-cases (is_missing config.teams_webhook_url)) [
  | inl missing ↦ absurd (cc (rw missing at h))
  | inr there ↦ given config.teams_webhook_url there
]

triage_issues-nil :
    (config : Config)
    → triage_issues config ≡ []
    → ((config.triage_provider ≡ none)
        ⊎ ((s : String) × (config.triage_provider ≡ some s)
            × Any (λ w. w ≡ s) ("vercel-gateway" ∷ "jev" ∷ [])))
    → ((config.triage_provider ≡ some "jev")
        ⊎ ((config.triage_provider ≡ some "vercel-gateway") × Given config.triage_model))
      × Given config.triage_api_key
unfolding triage_issues
triage_issues-nil config h words =
    let all = flatten-nil _ h in
    let (p, present, full) = missing-when config.triage_provider _ _ all.0 in
    let model = when-nil _ _ _ all.1.0 in
    let key = missing-when config.triage_api_key _ _ all.1.1.0 in
    elim words [
      | inl absent ↦ absurd (cc (absent, present))
      | inr (s, named, inl gateway) ↦
          let it : config.triage_provider ≡ some "vercel-gateway" = rw gateway (named) in
          (inr (it, given config.triage_model (rw it at model)), key)
      | inr (s, named, inr (inl jev)) ↦ (inl (rw jev named), key)
      | inr (s, named, inr (inr none_left)) ↦ absurd none_left
    ]

module _ (zod : Zod) (env : Variables) where
  pub outcome_of-ok :
      (is : List Issue) (config : Config)
      → outcome_of zod env is ≡ ok config
      → (is ≡ []) × (config ≡ config_of zod env)
  unfolding outcome_of
  outcome_of-ok [] config h = (refl, sym (ok_inj h))
  outcome_of-ok (i ∷ is) config h = absurd (cc h)

  issues-nil :
      zod.is_aborted [] ≡ false
      → issues zod env ≡ []
      → (base_issues zod env ≡ []) × (refine_issues zod (config_of zod env) ≡ [])
  unfolding issues
  issues-nil runs h = elim (Bool-cases (zod.is_aborted (base_issues zod env))) [
    | inl aborted ↦
        let none_left : base_issues zod env ≡ [] = rw aborted at h in
        absurd (cc (aborted, none_left, runs))
    | inr refined ↦ append-nil _ _ (rw refined at h)
  ]

  refine_issues-IsSound :
      (config : Config) → HasWords config → refine_issues zod config ≡ [] → IsSound config
  unfolding refine_issues triage_issues
  refine_issues-IsSound config words h =
      let all = flatten-nil _ h in
      record {
        provider = words.provider;
        key = when-nil _ _ _ all.1.1.1.1.0;
        notifier = elim words.notifier [
          | inl slack ↦ inl (
              let (token, channel, secret) =
                slack_issues-nil config (rw ((eq_iff _ _).1 (sym slack)) at all.0) in
              (sym slack, token, channel, secret))
          | inr (inl teams) ↦
              inr (
                sym teams,
                teams_issues-nil zod config (rw ((eq_iff _ _).1 (sym teams)) at all.1.0),
              )
          | inr (inr nothing) ↦ absurd nothing
        ];
        store = elim words.store [
          | inl dynamo ↦
              let it : (config.dedup_store == "dynamodb") ≡ true = (eq_iff _ _).1 (sym dynamo) in
              let need = when-nil _ _ _ all.1.1.0 in
              inl (sym dynamo, given config.dedup_table_name (rw it at need))
          | inr (inl redis) ↦
              let it : (config.dedup_store == "redis") ≡ true = (eq_iff _ _).1 (sym redis) in
              let need = when-nil _ _ _ all.1.1.1.0 in
              inr (sym redis, given config.redis_url (rw it at need))
          | inr (inr nothing) ↦ absurd nothing
        ];
        triage = elim (Bool-cases config.triage_enabled) [
          | inl enabled ↦
              inr (triage_issues-nil config (rw enabled at all.1.1.1.1.1.0) words.triage)
          | inr disabled ↦ inl disabled
        ];
      }

  -- Where the schema's refinement runs behind fields without an issue: a configuration that is read from the
  -- variables has a known provider, with a key unless that is Bedrock; the notifier's secrets are there, those of
  -- Slack or the URL of Teams; so are the table or the URL of its store; and with triage enabled, a
  -- known triage provider, with its key, and with a model unless it is jev.
  pub read_config-IsSound :
      (config : Config)
      → zod.is_aborted [] ≡ false
      → read_config zod env ≡ ok config
      → IsSound config
  unfolding read_config
  read_config-IsSound config runs loaded =
      let (no_issues, same) = outcome_of-ok (issues zod env) config loaded in
      let (base, refined) = issues-nil runs no_issues in
      rw same (refine_issues-IsSound (config_of zod env) (base_issues-nil zod env base) refined)
