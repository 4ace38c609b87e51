-- ===== src/Llm/Shared.antt =====
-- infrastructure/llm/shared.ts: a model's raw text as a diagnosis. `JSON.parse` is a parameter.
use Prim.Native.Char.{Char, code}
use Prim.Native.String
use junando.Common.{
  ℕ, String, Bool, false, not, ◌&&◌, Option, none, some, List, [], ◌∷◌, ◌==◌, eqb, leb,
  if◌then◌else◌,
}
use junando.Common.Lists.{length}
use junando.Common.Text.{is_empty, trim, is_space}
use junando.Common.Results.{Result, ok, err, ◌>>=◌}
use junando.Domain.Cluster.{Level, critical, high, medium, low, LlmAnalysis}

-- An object with the fields of the schema, before its check.
pub record RawAnalysis : Type 0 where
  pub probable_cause : String
  pub impacted_services : List String
  pub recommended_steps : List String
  pub urgency_level : String
  pub requires_rollback : Bool

-- `JSON.parse` of an object with such fields, and of an array of texts; `none` where it throws, or where the
-- value has another shape, which the schema refuses.
pub record JsonParser : Type 0 where
  pub object : String → Option RawAnalysis
  pub texts : String → Option (List String)

unfoldable pub level_of : String → Option Level
level_of s =
    if s == "low"
    then some low
    else if s == "medium"
    then some medium
    else if s == "high"
    then some high
    else if s == "critical"
    then some critical
    else none

-- The lengths that `LLMAnalysisSchema` asks for.
unfoldable pub has_lengths : RawAnalysis → Bool
has_lengths raw =
    not (is_empty raw.probable_cause)
    && (leb 1 (length raw.impacted_services)
        && (leb 1 (length raw.recommended_steps) && leb (length raw.recommended_steps) 5))

unfoldable pub with_level : RawAnalysis → Level → LlmAnalysis
with_level raw level = record {
  probable_cause = raw.probable_cause;
  impacted_services = raw.impacted_services;
  recommended_steps = raw.recommended_steps;
  urgency_level = level;
  requires_rollback = raw.requires_rollback;
}

-- `LLMAnalysisSchema.parse`
unfoldable pub check_analysis : RawAnalysis → Option LlmAnalysis
check_analysis raw = elim (level_of raw.urgency_level) [
  | none ↦ none
  | some level ↦ if has_lengths raw then some (with_level raw level) else none
]

-- The rest of a text from its first such character on.
from_first : ℕ → String → Option String
from_first k String.[] = none
from_first k (String.◌∷◌ c s) = if eqb (code c) k then some (String.◌∷◌ c s) else from_first k s

cons_option : Char → Option String → Option String
cons_option c none = none
cons_option c (some s) = some (String.◌∷◌ c s)

-- A text up to its last such character, with it.
to_last : ℕ → String → Option String
to_last k String.[] = none
to_last k (String.◌∷◌ c s) = elim (to_last k s) [
  | some t ↦ some (String.◌∷◌ c t)
  | none ↦ if eqb (code c) k then some (String.◌∷◌ c String.[]) else none
]

braces_in : Option String → Option String
braces_in none = none
braces_in (some s) = to_last 125 s

-- `raw.slice(raw.indexOf('{'), raw.lastIndexOf('}') + 1)`, where there are both in this order.
unfoldable pub braces : String → Option String
unfolding from_first to_last braces_in
braces raw = braces_in (from_first 123 raw)

-- What is left of a text behind a prefix.
after_prefix : String → String → Option String
after_prefix String.[] s = some s
after_prefix (String.◌∷◌ p ps) String.[] = none
after_prefix (String.◌∷◌ p ps) (String.◌∷◌ c s) =
    if eqb (code p) (code c) then after_prefix ps s else none

skip_spaces : String → String
skip_spaces String.[] = String.[]
skip_spaces (String.◌∷◌ c s) = if is_space c then skip_spaces s else String.◌∷◌ c s

-- The text up to a character; `none` where the text ends before it.
up_to : ℕ → String → Option String
up_to k String.[] = none
up_to k (String.◌∷◌ c s) = if eqb (code c) k then some String.[] else cons_option c (up_to k s)

non_empty : Option String → Option String
non_empty none = none
non_empty (some s) = if is_empty s then none else some s

bind : Option String → (String → Option String) → Option String
bind none f = none
bind (some s) f = f s

-- `"key"\s*:\s*`, at the front of a text.
after_key : String → String → Option String
unfolding after_prefix skip_spaces bind
after_key key s =
    bind (after_prefix (String.◌++◌ "\"" (String.◌++◌ key "\"")) s)
      (λ t. bind (after_prefix ":" (skip_spaces t)) (λ u. some (skip_spaces u)))

-- The first place of a text at which a pattern matches, with what it captures.
first_match : (String → Option String) → String → Option String
first_match pattern String.[] = pattern String.[]
first_match pattern (String.◌∷◌ c s) = elim (pattern (String.◌∷◌ c s)) [
  | some found ↦ some found
  | none ↦ first_match pattern s
]

-- `/"key"\s*:\s*"([^"]+)"/`
unfoldable pub text_field : String → String → Option String
unfolding first_match after_key up_to cons_option bind non_empty
text_field key raw =
    first_match
      (λ s. bind (after_key key s) (λ t. bind (after_prefix "\"" t) (λ u. non_empty (up_to 34 u))))
      raw

-- `/"key"\s*:\s*\[([^\]]+)\]/`
unfoldable pub list_field : String → String → Option String
unfolding first_match after_key up_to cons_option bind non_empty
list_field key raw =
    first_match
      (λ s. bind (after_key key s) (λ t. bind (after_prefix "[" t) (λ u. non_empty (up_to 93 u))))
      raw

either_word : Option String → Option String → Option String
either_word (some s) other = some "true"
either_word none (some s) = some "false"
either_word none none = none

-- `/"key"\s*:\s*(true|false)/`
unfoldable pub word_field : String → String → Option String
unfolding first_match after_key bind either_word
word_field key raw =
    first_match
      (λ s.
        bind (after_key key s) (λ t. either_word (after_prefix "true" t) (after_prefix "false" t)))
      raw

module _ (json : JsonParser) where
  -- The array in brackets, or a default; `JSON.parse` may throw.
  unfoldable pub texts_or : Option String → List String → Result String (List String)
  texts_or none default_texts = ok default_texts
  texts_or (some inner) default_texts =
      elim (json.texts (String.◌++◌ "[" (String.◌++◌ inner "]"))) [
        | none ↦ err "JSON"
        | some texts ↦ ok texts
      ]

  unfoldable pub checked : RawAnalysis → Result String (Option LlmAnalysis)
  checked raw = elim (check_analysis raw) [ none ↦ err "schema" | some a ↦ ok (some a) ]

  unfoldable pub is_true : Option String → Bool
  is_true none = false
  is_true (some s) = s == "true"

  -- The second stage, from the fields that the patterns find. What it throws goes on.
  unfoldable pub partial_analysis :
      String → Option String → Option String → Result String (Option LlmAnalysis)
  unfolding texts_or checked is_true
  partial_analysis raw (some cause) (some urgency) =
      texts_or (list_field "recommended_steps" raw) [] >>= λ steps.
      texts_or (list_field "impacted_services" raw) ("unknown-service" ∷ []) >>= λ services.
      checked (record {
        probable_cause = cause;
        impacted_services = services;
        recommended_steps = steps;
        urgency_level = urgency;
        requires_rollback = is_true (word_field "requires_rollback" raw);
      })
  partial_analysis raw _ _ = ok none

  -- The first stage; `none` where it throws, or where there are no braces.
  unfoldable pub whole_analysis : Option String → Option LlmAnalysis
  whole_analysis none = none
  whole_analysis (some slice) = elim (json.object slice) [
    | none ↦ none
    | some raw ↦ check_analysis raw
  ]

  unfoldable pub first_or_partial : String → Option LlmAnalysis → Result String (Option LlmAnalysis)
  unfolding partial_analysis
  first_or_partial raw (some analysis) = ok (some analysis)
  first_or_partial raw none =
      partial_analysis raw (text_field "probable_cause" raw) (text_field "urgency_level" raw)

  unfoldable pub parse_analysis : String → Result String (Option LlmAnalysis)
  unfolding whole_analysis first_or_partial
  parse_analysis raw = first_or_partial raw (whole_analysis (braces raw))

  -- `ParsedAnalysis`: the analysis, and why there is none.
  reason_for : Option LlmAnalysis → Option LlmAnalysis × Option String
  reason_for (some analysis) = (some analysis, none)
  reason_for none = (none, some "unparseable_response")

  unfoldable pub parse_llm_text : String → Result String (Option LlmAnalysis × Option String)
  unfolding reason_for
  parse_llm_text raw =
      if is_empty (trim raw)
      then ok (none, some "empty_response")
      else parse_analysis raw >>= λ analysis. ok (reason_for analysis)
