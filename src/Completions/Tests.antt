-- ===== src/Completions/Tests.antt =====
-- One completion, with a provider that answers with two blocks.
use tee_gateway.Prelude.{ℕ, ◌≡◌, ◌⊎◌, refl, List, [], ◌∷◌, length, Bool, false, Option, none, some}
use tee_gateway.Prelude.Int.{pos}
use tee_gateway.Prelude.Result.{Result, ok}
use tee_gateway.Prelude.Text.{Text, codes, find_key, lower, strip, lstrip, rstrip}
use tee_gateway.Prelude.Json.{
  Json, int, str, arr, obj, element, no_elements, Fields, field, no_fields, PyError, int_of,
}
use tee_gateway.Ohttp.Bytes.{be_bytes, length-be_bytes}
use tee_gateway.Attestation.{hex}
use tee_gateway.Attestation.Laws.{Collision}
use tee_gateway.Errors.{PyException, other}
use tee_gateway.LlmBackend.Shapes.{langchain_shape, counted}
use tee_gateway.LlmBackend.Usage.{extract_usage}
use tee_gateway.Registry.{get_model_config}
use tee_gateway.Completions.{
  RequestDict, ProviderCall, Raised, Invoked, CompletionResponse, CompletionAnswer, unsupported,
  from_dict, provider_call, response_content, create_completion,
}
use tee_gateway.Completions.Laws.{IsSigned, completions_bind}

abbrev toy_float : Json → Result PyError ℕ
toy_float v = ok 1

abbrev toy_str : Json → Text
toy_str json = codes "json"

abbrev toy_dumps : RequestDict ℕ → List ℕ
toy_dumps signed = signed.temperature ∷ []

abbrev toy_utf8 : Text → List ℕ
toy_utf8 text = text

abbrev toy_hash : List ℕ → List ℕ
toy_hash bytes = be_bytes 32 (length bytes)

abbrev toy_sign : List ℕ → Text
toy_sign bytes = codes "sig"

abbrev toy_exception : Raised → PyException
toy_exception raised = record {
  status_code = other;
  status = other;
  code = other;
  response_status = other;
  is_http_error = false;
  is_timeout_exception = false;
  is_timeout_error = false;
  is_transport_error = false;
  is_connection_error = false;
  module_name = codes "builtins";
  type_name = codes "ValueError";
  text = [];
}

abbrev two_blocks : Invoked
two_blocks = record {
  content = arr (
      element (obj (field (codes "text") (str (codes "he")) no_fields))
        (element (str (codes "llo")) no_elements));
  usage = langchain_shape (pos 7) (pos 3) (pos 10) (pos 0);
}

abbrev toy_model : ProviderCall ℕ → Result PyException (Bool → Result PyException Invoked)
toy_model call = ok (λ non_streaming. ok two_blocks)

abbrev toy_completion : Option Json → CompletionAnswer
toy_completion body =
    create_completion toy_float 0 toy_str toy_dumps toy_utf8 toy_exception toy_model toy_hash
      toy_sign none 5 body

abbrev toy_request : Fields
toy_request =
    field (codes "model") (str (codes "gpt-5"))
      (field (codes "prompt") (str (codes "hi")) no_fields)

abbrev toy_response : CompletionResponse
toy_response = record {
  model = str (codes "gpt-5");
  text = codes "hello";
  usage = some (counted (pos 7) (pos 3) (pos 10) (pos 0));
  tee_signature = codes "sig";
  tee_request_hash = hex (be_bytes 32 1);
  tee_output_hash = hex (be_bytes 32 5);
  tee_timestamp = 5;
  opengradient = none;
}

abbrev toy_dict : RequestDict ℕ
toy_dict = record {
  model = str (codes "gpt-5");
  prompt = str (codes "hi");
  temperature = 1;
  max_tokens = some (int (pos 16));
  stop = none;
  web_search = false;
}

toy-IsSigned :
    IsSigned toy_float 0 toy_str toy_dumps toy_utf8 toy_exception toy_model toy_hash toy_sign none 5
      (from_dict toy_request)
      (be_bytes 32 96)
      toy_response
unfolding create_completion find_key extract_usage int_of lower strip lstrip rstrip response_content
    get_model_config tee_gateway.Registry.Lookup.model_lookup
    tee_gateway.Pricing.compute_session_cost tee_gateway.Registry.Model.image_tier
toy-IsSigned = record {
  dict = toy_dict;
  invoke = λ non_streaming. ok two_blocks;
  non_streaming = false;
  response = two_blocks;
  dict_of = refl;
  asked = refl;
  forced = refl;
  answered = refl;
  shown = refl;
  measured = refl;
  hashed = refl;
  signed = refl;
  timed = refl;
  priced = refl;
}

completions_bind_example :
    ((provider_call toy_float 0 (from_dict toy_request)
        ≡ provider_call toy_float 0 (from_dict toy_request))
      × (toy_utf8 toy_response.text ≡ toy_utf8 toy_response.text)
      × (toy_response.tee_timestamp ≡ toy_response.tee_timestamp)
      × (◌≡◌ {A = ℕ} 5 5))
    ⊎ Collision toy_hash
completions_bind_example =
    completions_bind toy_float 0 toy_str toy_dumps toy_utf8 toy_exception toy_hash toy_sign
      (λ bytes. length-be_bytes 32 (length bytes)) toy_model toy_model none none 5 5
      (from_dict toy_request) (from_dict toy_request) toy_response toy_response (be_bytes 32 96)
      toy-IsSigned toy-IsSigned (λ same. refl)

not_json : toy_completion none ≡ unsupported
unfolding create_completion
not_json = refl
