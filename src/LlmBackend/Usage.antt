-- ===== src/LlmBackend/Usage.antt =====
-- `extract_usage`: the token counts of a response, in the shape of LangChain or of a provider. An
-- object of the client library stands for its model_dump.
use tee_gateway.Prelude.{Bool, true, false, Option, none, some, if◌then◌else◌}
use tee_gateway.Prelude.Int.{ℤ, pos, ◌+ℤ◌}
use tee_gateway.Prelude.Result.{Result, ok, ◌>>=◌}
use tee_gateway.Prelude.Text.{codes}
use tee_gateway.Prelude.Json.{Json, null, int, obj, Fields, get, truthy, int_of, PyError}
use tee_gateway.LlmBackend.Attachments.{get_default, or_json}

pub record TokenUsage : Type 0 where
  pub prompt_tokens : ℤ
  pub completion_tokens : ℤ
  pub total_tokens : ℤ
  pub reasoning_tokens : ℤ

-- The two attributes of a response that are read; null where one is missing.
pub record LlmResponse : Type 0 where
  pub usage_metadata : Json
  pub response_metadata : Json

abbrev pub as_mapping : Json → Option Fields
as_mapping (obj fs) = some fs
as_mapping _ = none

abbrev pub metadata_of : LlmResponse → Option Fields
metadata_of response = elim (as_mapping response.usage_metadata) [
  | some metadata ↦ some metadata
  | none ↦ elim (as_mapping response.response_metadata) [
    | none ↦ none
    | some fs ↦ as_mapping (or_json (get (codes "token_usage") fs) (get (codes "usage") fs))
  ]
]

abbrev pub is_none : Json → Bool
is_none null = true
is_none _ = false

-- int(value or 0)
abbrev pub int_or_zero : Json → Result PyError ℤ
int_or_zero value = int_of (or_json value (int (pos 0)))

-- for details_key in ("output_token_details", "output_tokens_details")
abbrev pub output_details : Fields → Option Fields
output_details metadata = elim (as_mapping (get (codes "output_token_details") metadata)) [
  | some details ↦ some details
  | none ↦ as_mapping (get (codes "output_tokens_details") metadata)
]

abbrev pub first_reasoning : Fields → Result PyError ℤ
first_reasoning metadata = elim (output_details metadata) [
  | none ↦ ok (pos 0)
  | some details ↦ int_or_zero (
      get_default (codes "reasoning") details
        (get_default (codes "reasoning_tokens") details (int (pos 0))))
]

abbrev pub second_reasoning : Fields → Result PyError ℤ
second_reasoning metadata = elim (as_mapping (get (codes "completion_tokens_details") metadata)) [
  | none ↦ ok (pos 0)
  | some details ↦ int_or_zero (get_default (codes "reasoning_tokens") details (int (pos 0)))
]

-- if reasoning_tokens == 0
abbrev pub or_second : Fields → ℤ → Result PyError ℤ
or_second metadata reasoning =
    if truthy (int reasoning) then ok reasoning else second_reasoning metadata

unfoldable pub usage_of : Fields → Result PyError (Option TokenUsage)
usage_of metadata =
    let input =
      get_default (codes "input_tokens") metadata (get (codes "prompt_tokens") metadata) in
    let output =
      get_default (codes "output_tokens") metadata (get (codes "completion_tokens") metadata) in
    let total_tokens = get (codes "total_tokens") metadata in
    let counts = (do
      prompt ← int_or_zero input
      completion ← int_or_zero output
      total ← if is_none total_tokens then ok (prompt +ℤ completion) else int_of total_tokens
      first ← first_reasoning metadata
      reasoning ← or_second metadata first
      ok (
          some (record {
            prompt_tokens = prompt;
            completion_tokens = completion;
            total_tokens = total;
            reasoning_tokens = reasoning;
          }))) in
    if is_none input
    then if is_none output then if is_none total_tokens then ok none else counts else counts
    else counts

unfoldable pub extract_usage : LlmResponse → Result PyError (Option TokenUsage)
unfolding usage_of
extract_usage response = elim (metadata_of response) [
  | none ↦ ok none
  | some metadata ↦ usage_of metadata
]
