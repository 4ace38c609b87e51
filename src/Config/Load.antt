-- ===== src/Config/Load.antt =====
-- `loadConfig`: the secrets, the schema, and the texts of what is wrong.
use Prim.Native.String
use junando.Common.{
  String, Bool, not, ◌&&◌, List, [], ◌∷◌, ◌++◌, map, or_else, is_some, if◌then◌else◌,
}
use junando.Common.Lists.{any_of}
use junando.Common.Text.{join}
use junando.Common.Split.{drop_prefix}
use junando.Common.Assoc.{lookup}
use junando.Common.Results.{Result, ok, err}
use junando.Config.Env.{llm_api_key_required}
use junando.Config.Secrets.{Variables, Pages, load_secrets_from_ssm}
use junando.Config.Schema.{Issue, Zod, Config, config_of, base_issues}
use junando.Config.Refine.{refine_issues}

infixr 5 ◌⊕◌
abbrev ◌⊕◌ : String → String → String
s ⊕ t = String.◌++◌ s t

module _ (zod : Zod) (env : Variables) where
  -- `safeParse`: the refinement runs unless the issues of the fields abort it.
  unfoldable pub issues : List Issue
  issues =
      let base = base_issues zod env in
      if zod.is_aborted base then base else base ++ refine_issues zod (config_of zod env)

  abbrev pub issue_text : Issue → String
  issue_text issue = issue.path ⊕ ": " ⊕ issue.message

  abbrev pub about_key : String → Bool
  about_key message = is_some (drop_prefix "llmApiKey" message)

  unfoldable pub key_message : String
  key_message =
      "llmApiKey: [llmProvider: "
      ⊕ or_else (lookup "LLM_PROVIDER" env) "(unset)"
      ⊕ "] LLM_API_KEY is required"

  -- The check of the key is repeated for the raw variables, where no message is about it.
  unfoldable pub with_key_check : List String → List String
  unfolding key_message
  with_key_check messages =
      if not (any_of about_key messages)
        && llm_api_key_required (lookup "LLM_PROVIDER" env) (lookup "LLM_API_KEY" env)
      then messages ++ key_message ∷ []
      else messages

  unfoldable pub outcome_of : List Issue → Result (List String) Config
  unfolding with_key_check
  outcome_of [] = ok (config_of zod env)
  outcome_of (i ∷ is) = err (with_key_check (map issue_text (i ∷ is)))

  -- The configuration, or the messages.
  unfoldable pub read_config : Result (List String) Config
  unfolding outcome_of issues
  read_config = outcome_of issues

thrown : Result (List String) Config → Result String Config
thrown (ok config) = ok config
thrown (err messages) = err ("Invalid configuration:\n  - " ⊕ join "\n  - " messages)

unfoldable pub load_config : Zod → Pages → Variables → Result String Config
unfolding thrown read_config
load_config zod pages env = thrown (read_config zod (load_secrets_from_ssm pages env))
