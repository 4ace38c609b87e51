-- ===== src/Ingest/Schema.antt =====
-- The schemas of packages/ingest/src/config/ingest-config.schema.ts, as functions from a value to the value that
-- they give. A value of YAML is a JSON value.
use junando.Common.{
  ℕ, String, Bool, not, ◌&&◌, Option, none, some, List, [], ◌∷◌, ◌==◌, leb, if◌then◌else◌,
}
use junando.Common.Lists.{any_of}
use junando.Common.Text.{is_empty}
use junando.Logger.Json.{Json, num, str, arr, obj, Items, nil, cons, Fields, end, field, get_field}

-- A check of a value that may be absent: a refusal, or the value that it becomes, if any.
abbrev pub Check : Type 0
Check = Option Json → Option (Option Json)

text_where : (String → Bool) → Check
text_where p (some (str s)) = if p s then some (some (str s)) else none
text_where p _ = none

number_where : (ℕ → Bool) → Check
number_where p (some (num n)) = if p n then some (some (num n)) else none
number_where p _ = none

when_present : Check → Check
when_present check none = some none
when_present check (some v) = check (some v)

default_number : ℕ → Check → Check
default_number d check none = some (some (num d))
default_number d check (some v) = check (some v)

default_text : String → Check → Check
default_text d check none = some (some (str d))
default_text d check (some v) = check (some v)

with_field : String → Option (Option Json) → Option Fields → Option Fields
with_field k none rest = none
with_field k (some v) none = none
with_field k (some none) (some o) = some o
with_field k (some (some v)) (some o) = some (field k v o)

-- The fields of the schema, in its order; others are dropped.
checked_fields : List (String × Check) → Fields → Option Fields
unfolding with_field
checked_fields [] o = some end
checked_fields ((k, check) ∷ rest) o = with_field k (check (get_field k o)) (checked_fields rest o)

as_object : Option Fields → Option (Option Json)
as_object none = none
as_object (some o) = some (some (obj o))

object : List (String × Check) → Check
unfolding checked_fields as_object
object fields (some (obj o)) = as_object (checked_fields fields o)
object fields _ = none

with_item : Option (Option Json) → Option Items → Option Items
with_item (some (some v)) (some vs) = some (cons v vs)
with_item _ _ = none

checked_items : Check → Items → Option Items
unfolding with_item
checked_items check nil = some nil
checked_items check (cons v vs) = with_item (check (some v)) (checked_items check vs)

as_array : Option Items → Option (Option Json)
as_array none = none
as_array (some vs) = some (some (arr vs))

-- `z.array(...).min(1)`
array_min1 : Check → Check
unfolding checked_items as_array
array_min1 check (some (arr (cons v vs))) = as_array (checked_items check (cons v vs))
array_min1 check _ = none

abbrev any_text : Check
any_text = text_where (λ s. Bool.true)

abbrev text_min1 : Check
text_min1 = text_where (λ s. not (is_empty s))

abbrev one_of_texts : List String → Check
one_of_texts words = text_where (λ s. any_of (λ w. w == s) words)

abbrev positive_number : Check
positive_number = number_where (λ n. leb 1 n)

abbrev between : ℕ → ℕ → Check
between low high = number_where (λ n. leb low n && leb n high)

abbrev alert_type : Check
alert_type = one_of_texts ("http_500" ∷ "latency_spike" ∷ "recovery" ∷ [])

-- `z.discriminatedUnion`, by the text under a key.
unfoldable pub kind_of : String → Option Json → Option String
kind_of k (some (obj o)) = elim (get_field k o) [ some (str s) ↦ some s | _ ↦ none ]
kind_of k _ = none

unfoldable pub ingest_rule : Check
unfolding object when_present text_where number_where
ingest_rule = object (
    ("name", text_min1)
    ∷ ("query", text_min1)
    ∷ ("service", text_min1)
    ∷ ("alertType", alert_type)
    ∷ ("severity", text_min1)
    ∷ ("endpointPath", when_present any_text)
    ∷ ("windowMs", when_present positive_number)
    ∷ [])

unfoldable pub prometheus_rule : Check
unfolding object when_present text_where number_where default_text
prometheus_rule = object (
    ("name", text_min1)
    ∷ ("query", text_min1)
    ∷ ("service", text_min1)
    ∷ ("alertType", alert_type)
    ∷ ("severity", text_min1)
    ∷ ("threshold", number_where (λ n. Bool.true))
    ∷ ("comparator", default_text ">" (one_of_texts (">" ∷ "<" ∷ ">=" ∷ "<=" ∷ [])))
    ∷ ("windowMs", when_present positive_number)
    ∷ [])

auth_of : Option String → Check
unfolding object text_where
auth_of none v = none
auth_of (some kind) v =
    if kind == "bearer"
    then object (("type", any_text) ∷ ("tokenEnv", text_min1) ∷ []) v
    else if kind == "basic"
    then object (("type", any_text) ∷ ("userEnv", text_min1) ∷ ("passEnv", text_min1) ∷ []) v
    else none

unfoldable pub loki_auth : Check
unfolding auth_of kind_of
loki_auth v = auth_of (kind_of "type" v) v

module _ (is_url : String → Bool) where
  -- An empty URL becomes an absent one, which is refused.
  abbrev url : Check
  url = text_where (λ s. not (is_empty s) && is_url s)

  unfoldable pub loki_config : Check
  unfolding object when_present text_where number_where default_number
  loki_config = object (
      ("url", url)
      ∷ ("timeoutMs", default_number 10000 positive_number)
      ∷ ("auth", when_present loki_auth)
      ∷ [])

  unfoldable pub sqs_runtime : Check
  unfolding object when_present text_where number_where default_number
  sqs_runtime = object (
      ("queueUrl", text_where is_url)
      ∷ ("endpointUrl", when_present (text_where is_url))
      ∷ ("waitTimeSeconds", default_number 20 (between 1 20))
      ∷ ("visibilityTimeoutSeconds", default_number 60 positive_number)
      ∷ ("batchSize", default_number 10 (between 1 10))
      ∷ ("maxInFlight", default_number 20 positive_number)
      ∷ [])

  unfoldable pub opensearch_target : Check
  unfolding object text_where
  opensearch_target =
      object
        (("endpoint", text_where is_url) ∷ ("indexName", text_min1) ∷ ("region", text_min1) ∷ [])

  abbrev loki_fields : List (String × Check)
  loki_fields =
      ("intervalMs", default_number 30000 positive_number)
      ∷ ("loki", loki_config)
      ∷ ("rules", array_min1 ingest_rule)
      ∷ []

  unfoldable pub loki_section : Check
  unfolding object number_where default_number array_min1 text_where
  loki_section = object (("kind", one_of_texts ("loki" ∷ [])) ∷ loki_fields)

  unfoldable pub legacy_loki_section : Check
  unfolding object number_where default_number array_min1
  legacy_loki_section = object loki_fields

  unfoldable pub sqs_section : Check
  unfolding object when_present text_where
  sqs_section = object (
      ("kind", one_of_texts ("sqs" ∷ []))
      ∷ ("sqs", sqs_runtime)
      ∷ ("opensearch", when_present opensearch_target)
      ∷ ("mapper", object (("kind", text_min1) ∷ []))
      ∷ [])

  unfoldable pub prometheus_section : Check
  unfolding object when_present text_where number_where array_min1
  prometheus_section = object (
      ("kind", one_of_texts ("prometheus" ∷ []))
      ∷ ("endpoint", text_where is_url)
      ∷ ("tokenEnv", when_present text_min1)
      ∷ ("intervalMs", positive_number)
      ∷ ("rules", array_min1 prometheus_rule)
      ∷ [])
