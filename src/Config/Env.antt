-- ===== src/Config/Env.antt =====
-- The readers of single variables.
use junando.Common.{
  String, Bool, not, ◌&&◌, ◌||◌, Option, none, some, List, map, ◌==◌, if◌then◌else◌,
}
use junando.Common.Lists.{keep}
use junando.Common.Text.{is_empty, trim, to_lower_case}
use junando.Common.Split.{split}

-- A variable that is not there, or empty.
abbrev pub is_missing : Option String → Bool
is_missing none = Bool.true
is_missing (some s) = is_empty s

unfoldable pub is_true_text : String → Bool
is_true_text normalized = (normalized == "true") || (normalized == "1")

unfoldable pub parse_boolean_env : Option String → Option Bool
unfolding is_true_text
parse_boolean_env none = none
parse_boolean_env (some value) =
    if is_empty value then none else some (is_true_text (to_lower_case (trim value)))

-- `llmProvider !== 'bedrock' && !llmApiKey`; an absent provider is `none`.
unfoldable pub llm_api_key_required : Option String → Option String → Bool
llm_api_key_required none api_key = is_missing api_key
llm_api_key_required (some provider) api_key = not (provider == "bedrock") && is_missing api_key

bedrock_model : Option String → Option String → Option String
bedrock_model none bedrock_default = none
bedrock_model (some provider) bedrock_default =
    if provider == "bedrock" then bedrock_default else none

unfoldable pub resolve_llm_model : Option String → Option String → Option String → Option String
unfolding bedrock_model
resolve_llm_model provider model bedrock_default =
    if is_missing model then bedrock_model provider bedrock_default else model

-- The texts between commas, without white space around them and without the empty ones.
unfoldable pub comma_list : String → List String
comma_list value = keep (λ s. not (is_empty s)) (map trim (split 44 value))

unfoldable pub parse_optional_string_array : Option String → Option (List String)
unfolding comma_list
parse_optional_string_array none = none
parse_optional_string_array (some value) = if is_empty value then none else some (comma_list value)
