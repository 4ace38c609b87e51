-- ===== src/Config/Tests.antt =====
-- Variables that a configuration is read from, with and without a key.
use junando.Common.{
  String, true, Bool, not, Option, none, some, List, [], ◌∷◌, ◌≡◌, refl, is_some, if◌then◌else◌,
}
use junando.Common.Lists.{any_of, length, keep}
use junando.Common.Text.{is_empty}
use junando.Common.Split.{all_digits, digits_value}
use junando.Common.Assoc.{lookup}
use junando.Common.Results.{Result, err}
use junando.Domain.Rule.{RuleConfiguration}
use junando.Notifier.Factory.{Environment}
use junando.Config.Env.{llm_api_key_required}
use junando.Config.Secrets.{Variables}
use junando.Config.Schema.{Zod}
use junando.Config.Load.{about_key, read_config}
use junando.Config.Key.{read_config-key}

abbrev some_zod : Zod
some_zod = record {
  message = λ path value. "Invalid input";
  is_aborted = λ is. is_some (junando.Common.Lists.get_elem? is 0);
  positive_int = λ s. if all_digits s then some (digits_value 0 s) else none;
  is_url = λ s. not (is_empty s);
  query_parameters = λ s. none;
}

abbrev keyless : Variables
keyless =
    ("LLM_PROVIDER", "gemini")
    ∷ ("SLACK_BOT_TOKEN", "xoxb-1")
    ∷ ("SLACK_CHANNEL", "#ops")
    ∷ ("SLACK_SIGNING_SECRET", "s")
    ∷ ("DEDUP_TABLE_NAME", "alerts")
    ∷ []

abbrev with_key : Variables
with_key = ("LLM_API_KEY", "k") ∷ keyless

read_config-key_example :
    (messages : List String) × (read_config some_zod keyless ≡ err messages)
    × (any_of (about_key some_zod keyless) messages ≡ true)
read_config-key_example =
    read_config-key some_zod keyless refl (unfold llm_api_key_required lookup in refl)

abbrev no_urls : Environment
no_urls = record { variable = λ s. none; query_parameters = λ s. none }

abbrev no_files : String → Result {0, 0} String RuleConfiguration
no_files path = err "ENOENT"
