-- ===== src/LlmBackend/Shapes.antt =====
-- The two shapes of token usage give the same counts.
use tee_gateway.Prelude.{zero, suc, ◌≡◌, refl, some}
use tee_gateway.Prelude.Int.{ℤ, pos, negsuc}
use tee_gateway.Prelude.Result.{ok}
use tee_gateway.Prelude.Text.{codes, find_key}
use tee_gateway.Prelude.Json.{null, int, obj, Fields, field, no_fields, int_of}
use tee_gateway.LlmBackend.Usage.{
  LlmResponse, TokenUsage, second_reasoning, int_or_zero, or_second, extract_usage, usage_of,
}

-- int(n or 0) is n.
int_or_zero-int : (n : ℤ) → int_or_zero (int n) ≡ ok n
unfolding int_of
int_or_zero-int (pos zero) = refl
int_or_zero-int (pos (suc n)) = refl
int_or_zero-int (negsuc n) = refl

or_second-int :
    (metadata : Fields) (n : ℤ)
    → second_reasoning metadata ≡ ok (pos 0)
    → or_second metadata n ≡ ok n
or_second-int metadata (pos zero) h = h
or_second-int metadata (pos (suc n)) h = refl
or_second-int metadata (negsuc n) h = refl

-- usage_metadata as LangChain fills it, and token_usage as an OpenAI-compatible provider does.
abbrev pub langchain_shape : ℤ → ℤ → ℤ → ℤ → LlmResponse
langchain_shape prompt completion total reasoning = record {
  usage_metadata = obj (
      field (codes "input_tokens") (int prompt) (
        field (codes "output_tokens") (int completion) (
          field (codes "total_tokens") (int total) (
            field (codes "output_token_details")
              (obj (field (codes "reasoning") (int reasoning) no_fields)) no_fields))));
  response_metadata = null;
}

abbrev pub provider_shape : ℤ → ℤ → ℤ → ℤ → LlmResponse
provider_shape prompt completion total reasoning = record {
  usage_metadata = null;
  response_metadata = obj (
      field (codes "token_usage")
        (obj (
          field (codes "prompt_tokens") (int prompt) (
            field (codes "completion_tokens") (int completion) (
              field (codes "total_tokens") (int total) (
                field (codes "completion_tokens_details")
                  (obj (field (codes "reasoning_tokens") (int reasoning) no_fields)) no_fields)))))
        no_fields);
}

abbrev pub counted : ℤ → ℤ → ℤ → ℤ → TokenUsage
counted prompt completion total reasoning = record {
  prompt_tokens = prompt;
  completion_tokens = completion;
  total_tokens = total;
  reasoning_tokens = reasoning;
}

-- Whatever the four counts are, the usage that LangChain reports and the usage that a provider
-- leaves in its raw metadata are read as the same four counts.
pub extract_usage-shapes :
    (prompt completion total reasoning : ℤ)
    → (extract_usage (langchain_shape prompt completion total reasoning)
        ≡ ok (some (counted prompt completion total reasoning)))
      × (extract_usage (provider_shape prompt completion total reasoning)
          ≡ ok (some (counted prompt completion total reasoning)))
unfolding extract_usage usage_of find_key int_of
extract_usage-shapes prompt completion total reasoning = (
  rw
      (
        int_or_zero-int prompt,
        int_or_zero-int completion,
        int_or_zero-int reasoning,
        or_second-int _ reasoning refl,
      )
      refl,
  rw (int_or_zero-int prompt, int_or_zero-int completion, int_or_zero-int reasoning) refl,
)
