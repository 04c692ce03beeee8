-- ===== src/WebSearch/Tests.antt =====
-- Searches at concrete requests.
use tee_gateway.Prelude.{
  ℕ, suc, ◌+◌, ◌≤◌, ◌≡◌, ◌≢◌, ◌⊎◌, refl, max, List, [], ◌∷◌, length, take, true, false, Option,
  none, some, arith,
}
use tee_gateway.Prelude.Int.{negsuc}
use tee_gateway.Prelude.Result.{ok, err}
use tee_gateway.Prelude.Text.{Text, codes, strip, lstrip, rstrip, find_key}
use tee_gateway.Prelude.Json.{
  Json, null, int, float, str, arr, obj, Fields, field, no_fields, element, no_elements, infinite,
  overflow_error, attribute_error,
}
use tee_gateway.Attestation.{hex}
use tee_gateway.WebSearch.Format.{
  Source, block_of, header, footer, unusable_text, render, format_results, max_total_chars,
}
use tee_gateway.WebSearch.{
  WebSearchOutcome, Payload, ExaReply, replied, clamp_int, execute_web_search_call,
}
use tee_gateway.WebSearch.Controller.{SearchResponse, create_web_search}
use tee_gateway.WebSearch.Bounds.{sources, numbered, IsCut, format_results-bounds}
use tee_gateway.WebSearch.Laws.{
  IsFailure, IsAnswered, clamp_int-cases, execute_web_search_call-cases,
  execute_web_search_call_escapes,
}
use tee_gateway.WebSearch.Signed.{IsSigned, create_web_search-IsSigned}

abbrev a_result : Json
a_result =
    obj (field (codes "url") (str (codes "u")) (field (codes "title") (str (codes "t")) no_fields))

abbrev results : List Json
results = null ∷ a_result ∷ []

format_results-bounds_example :
    ((sources results ≡ [])
      × (format_results (codes "q") results ≡ (unusable_text (codes "q"), [])))
    ⊎ ((s : Source) × (rest : List Source) × (n : ℕ) × (sources results ≡ s ∷ rest)
        × (format_results (codes "q") results ≡ render (codes "q") (numbered 0 (s ∷ take n rest)))
        × IsCut 0 (length (header (codes "q"))) (s ∷ rest) (suc n)
        × (length (format_results (codes "q") results).0
            ≤ max (length (header (codes "q")) + (length (block_of 1 s) + 2)) max_total_chars
              + length footer))
format_results-bounds_example = format_results-bounds (codes "q") results

clamp_int-cases_instance :
    ((n : ℕ) × (clamp_int (str (codes " 99 ")) 6 1 10 ≡ ok n)
      × (1 ≤ n)
      × (n ≤ 10)
      × (str (codes " 99 ") ≢ float infinite))
    ⊎ ((str (codes " 99 ") ≡ float infinite)
        × (clamp_int (str (codes " 99 ")) 6 1 10 ≡ err overflow_error))
clamp_int-cases_instance = clamp_int-cases (str (codes " 99 ")) 6 1 10 (omega arith) (omega arith)

clamps : clamp_int (str (codes " 9_9 ")) 6 1 10 ≡ ok 10
unfolding clamp_int strip lstrip rstrip
clamps = refl

clamps_negative : clamp_int (int (negsuc 4)) 6 1 10 ≡ ok 1
unfolding clamp_int
clamps_negative = refl

abbrev answer_body : Fields
answer_body = field (codes "results") (arr (element a_result no_elements)) no_fields

abbrev toy_exa : Payload → ExaReply
toy_exa payload = replied 200 (some (obj answer_body)) [] []

abbrev toy_str : Json → Text
toy_str json = codes "json"

abbrev toy_cutoff : ℕ → Text
toy_cutoff days = codes "2026"

abbrev the_args : Fields
the_args = field (codes "query") (str (codes "q")) no_fields

abbrev the_outcome : WebSearchOutcome
the_outcome = record {
  content = (format_results (codes "q") (a_result ∷ [])).0;
  citations = (format_results (codes "q") (a_result ∷ [])).1;
  billable = true;
  is_error = false;
  reported_cost_usd = none;
}

the_run : execute_web_search_call toy_str (some toy_exa) toy_cutoff the_args ≡ ok the_outcome
unfolding execute_web_search_call find_key strip lstrip rstrip
the_run = refl

execute_web_search_call-cases_example :
    IsFailure the_outcome
    ⊎ ((exa : Payload → ExaReply) × (◌≡◌ {A = Option (Payload → ExaReply)}
          (some toy_exa)
          (some exa))
        × IsAnswered toy_str toy_cutoff exa the_outcome)
execute_web_search_call-cases_example =
    execute_web_search_call-cases toy_str toy_cutoff (some toy_exa) the_args the_outcome the_run

abbrev infinite_args : Fields
infinite_args =
    field (codes "query") (str (codes "q")) (field (codes "num_results") (float infinite) no_fields)

abbrev odd_exa : Payload → ExaReply
odd_exa payload = replied 200 (some (str (codes "x"))) [] []

execute_web_search_call_escapes_example :
    (execute_web_search_call toy_str none toy_cutoff infinite_args ≡ err overflow_error)
    × (execute_web_search_call toy_str (some odd_exa) toy_cutoff the_args ≡ err attribute_error)
unfolding find_key strip lstrip rstrip clamp_int
execute_web_search_call_escapes_example =
    execute_web_search_call_escapes toy_str toy_cutoff none odd_exa infinite_args the_args
      (codes "q") (codes "q") 6 0 (str (codes "x")) [] [] refl refl refl refl refl (λ payload. refl)
      (λ fs e. cc e)

abbrev toy_hash : List ℕ → List ℕ
toy_hash bytes = bytes

abbrev toy_dumps : Json → List ℕ
toy_dumps json = codes "J"

abbrev toy_utf8 : Text → List ℕ
toy_utf8 text = text

abbrev toy_sign : List ℕ → Text
toy_sign bytes = codes "sig"

abbrev signed_response : SearchResponse
signed_response = record {
  query = codes "q";
  content = the_outcome.content;
  citations = the_outcome.citations;
  tee_signature = codes "sig";
  tee_request_hash = hex (codes "J");
  tee_output_hash = hex the_outcome.content;
  tee_timestamp = 5;
  tee_id = codes "id";
  opengradient = none;
}

create_web_search-IsSigned_example :
    (fs : Fields) × (exa : Payload → ExaReply) × (◌≡◌ {A = Option Json}
      (some (obj the_args))
      (some (obj fs)))
    × (◌≡◌ {A = Option (Payload → ExaReply)} (some toy_exa) (some exa))
    × IsSigned toy_str
        (some toy_exa)
        toy_cutoff
        toy_hash
        toy_dumps
        toy_utf8
        toy_sign
        (codes "id")
        none
        5
        fs
        signed_response
unfolding create_web_search find_key strip lstrip rstrip
create_web_search-IsSigned_example =
    create_web_search-IsSigned toy_str (some toy_exa) toy_cutoff toy_hash toy_dumps toy_utf8
      toy_sign (codes "id") none 5 (some (obj the_args)) signed_response refl
