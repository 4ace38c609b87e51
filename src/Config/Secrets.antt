-- ===== src/Config/Secrets.antt =====
-- The secrets of the parameter store, as variables. The store's answers are a finite exchange.
use Prim.Native.String
use junando.Common.{String, Option, none, some, List, [], ◌∷◌, ◌||◌, ◌≡◌, refl, if◌then◌else◌}
use junando.Common.Text.{is_empty, to_upper_case}
use junando.Common.Split.{remove_first, replace_code}
use junando.Common.Assoc.{lookup, insert}

-- `process.env`
abbrev pub Variables : Type 0
Variables = List (String × String)

-- A parameter, by its name and its value.
abbrev pub Parameter : Type 0
Parameter = Option String × Option String

-- What the requests for the pages answer, up to the one that fails or has no token of a next one.
pub data Pages : Type 0 where
  failed : Pages
  last_page : List Parameter → Pages
  page : List Parameter → Pages → Pages

-- /junando/llm-provider is LLM_PROVIDER.
unfoldable pub variable_name : String → String → String
variable_name prefix name =
    to_upper_case (replace_code 45 "_" (remove_first (String.◌++◌ prefix "/") name))

unfoldable pub apply_parameter : String → Parameter → Variables → Variables
unfolding variable_name
apply_parameter prefix (some name, some value) env =
    if is_empty name || is_empty value then env else insert (variable_name prefix name) value env
apply_parameter prefix _ env = env

unfoldable pub apply_parameters : String → List Parameter → Variables → Variables
unfolding apply_parameter
apply_parameters prefix [] env = env
apply_parameters prefix (p ∷ ps) env = apply_parameters prefix ps (apply_parameter prefix p env)

-- A failure is logged, and what was read before it stays.
unfoldable pub apply_pages : String → Pages → Variables → Variables
unfolding apply_parameters
apply_pages prefix failed env = env
apply_pages prefix (last_page ps) env = apply_parameters prefix ps env
apply_pages prefix (page ps rest) env = apply_pages prefix rest (apply_parameters prefix ps env)

with_prefix : Option String → Pages → Variables → Variables
with_prefix none pages env = env
with_prefix (some prefix) pages env = if is_empty prefix then env else apply_pages prefix pages env

unfoldable pub load_secrets_from_ssm : Pages → Variables → Variables
unfolding with_prefix apply_pages
load_secrets_from_ssm pages env = with_prefix (lookup "SSM_PREFIX" env) pages env

name_runs : variable_name "/junando" "/junando/llm-api-key" ≡ "LLM_API_KEY"
unfolding variable_name replace_code to_upper_case remove_first
name_runs = refl
