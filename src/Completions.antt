-- ===== src/Completions.antt =====
-- tee_gateway/controllers/completions_controller.py: the handler of POST /v1/completions, and the
-- request of tee_gateway/models/create_completion_request.py that it reads.
mod Laws
mod Tests
use tee_gateway.Prelude.{
  ℕ, List, [], ◌∷◌, ◌++◌, Bool, true, false, Option, none, some, ◌==◌, if◌then◌else◌,
}
use tee_gateway.Prelude.Int.{pos}
use tee_gateway.Prelude.Result.{Result, ok, err, ◌>>=◌}
use tee_gateway.Prelude.Text.{Text, codes, text_eq}
use tee_gateway.Prelude.Json.{
  Json, null, bool, int, str, arr, obj, elements, Fields, truthy, PyError, type_error,
  attribute_error,
}
use tee_gateway.Attestation.{TeeError, compute_tee_msg_hash}
use tee_gateway.Errors.{PyException, ErrorPayload, error_response}
use tee_gateway.PriceFeed.{Feed}
use tee_gateway.Pricing.{SessionCost, Usage, counted, compute_session_cost}
use tee_gateway.Registry.{get_model_config}
use tee_gateway.LlmBackend.Attachments.{get_default, or_json}
use tee_gateway.LlmBackend.Usage.{LlmResponse, TokenUsage, extract_usage}

-- The fields that the handler reads; the prompt and the numbers are as they were sent.
pub record CreateCompletionRequest : Type 0 where
  pub model : Json
  pub prompt : Json
  pub max_tokens : Json
  pub stop : Json
  pub temperature : Json
  pub web_search : Json

-- from_dict of an object, with the defaults of the constructor.
abbrev pub from_dict : Fields → CreateCompletionRequest
from_dict body = record {
  model = get_default (codes "model") body null;
  prompt = get_default (codes "prompt") body null;
  max_tokens = get_default (codes "max_tokens") body (int (pos 16));
  stop = get_default (codes "stop") body null;
  temperature = get_default (codes "temperature") body (int (pos 1));
  web_search = get_default (codes "web_search") body (bool false);
}

-- request_dict: a key that is left out is none, and web_search stands for a key with the value true.
pub record RequestDict (F : Type 0) : Type 0 where
  pub model : Json
  pub prompt : Json
  pub temperature : F
  pub max_tokens : Option Json
  pub stop : Option Json
  pub web_search : Bool

-- What the provider is asked: the model, the temperature, the limit and the prompt.
pub record ProviderCall (F : Type 0) : Type 0 where
  pub model : Json
  pub temperature : F
  pub max_tokens : Json
  pub prompt : Json

-- The exceptions of the gateway's own code.
pub data Raised : Type 0 where
  builtin : PyError → Raised
  tee : TeeError → Raised
  unknown_model : Raised

-- The answer of model.invoke.
pub record Invoked : Type 0 where
  pub content : Json
  pub usage : LlmResponse

-- The response, without its random id and its constant parts.
pub record CompletionResponse : Type 0 where
  pub model : Json
  pub text : Text
  pub usage : Option TokenUsage
  pub tee_signature : Text
  pub tee_request_hash : Text
  pub tee_output_hash : Text
  pub tee_timestamp : ℕ
  pub opengradient : Option SessionCost

pub data CompletionAnswer : Type 0 where
  unsupported : CompletionAnswer
  failed : ErrorPayload × ℕ → CompletionAnswer
  completed : CompletionResponse → CompletionAnswer

abbrev pub unless_null : Json → Option Json
unless_null null = none
unless_null v = some v

abbrev pub when_true : Json → Option Json
when_true v = if truthy v then some v else none

abbrev pub lift {ℓ} :
    {E : Type 0} {A : Type ℓ} → (E → PyException) → Result E A → Result PyException A
lift raise (ok a) = ok a
lift raise (err e) = err (raise e)

-- compute_session_cost(body.model, usage), where there is a usage; of a model that is no text there
-- is no configuration, and so no cost.
abbrev pub completion_cost : Option Feed → ℕ → Json → Option TokenUsage → Option SessionCost
completion_cost feed now (str model) (some usage) =
    compute_session_cost feed now model
      (record {
        prompt_tokens = counted usage.prompt_tokens;
        completion_tokens = counted usage.completion_tokens;
        reasoning_tokens = counted usage.reasoning_tokens;
      })
      (pos 0) none (pos 0)
completion_cost feed now _ _ = none

-- output_content.encode("utf-8") needs a text.
abbrev pub text_only : Json → Result PyError Text
text_only (str s) = ok s
text_only _ = err attribute_error

-- non_streaming_invoke_kwargs: whether stream=False is passed. A model without a configuration
-- raises.
unfoldable pub forces_non_streaming : Json → Result Raised Bool
forces_non_streaming (str model) = elim (get_model_config model) [
  | err e ↦ err unknown_model
  | ok cfg ↦ ok (text_eq (codes cfg.provider) (codes "x-ai"))
]
forces_non_streaming _ = err (builtin attribute_error)

module _ (py_str : Json → Text) where
  -- One item of a list of blocks, as "".join takes it.
  abbrev pub item_text : Json → Result PyError Text
  item_text (obj fs) = text_item (get_default (codes "text") fs (str []))
    where
      text_item : Json → Result PyError Text
      text_item (str s) = ok s
      text_item _ = err type_error
  item_text (str s) = ok s
  item_text other = ok (py_str other)

  unfoldable pub join_blocks : List Json → Result PyError Text
  join_blocks [] = ok []
  join_blocks (item ∷ items) =
      item_text item >>= λ front. join_blocks items >>= λ back. ok (front ++ back)

  unfoldable pub response_content : Json → Result PyError Json
  unfolding join_blocks
  response_content (arr vs) = join_blocks (elements vs) >>= λ text. ok (str text)
  response_content content = ok (or_json content (str []))

-- float(), 0.0, json.dumps with sorted keys and UTF-8.
module _ {F : Type 0} (float_of : Json → Result PyError F) (zero_float : F) where
  abbrev pub temperature_of : Json → Result PyError F
  temperature_of null = ok zero_float
  temperature_of v = float_of v

  unfoldable pub request_dict : CreateCompletionRequest → Result PyError (RequestDict F)
  request_dict body = temperature_of body.temperature >>= λ temperature. ok (record {
    model = body.model;
    prompt = body.prompt;
    temperature = temperature;
    max_tokens = unless_null body.max_tokens;
    stop = when_true body.stop;
    web_search = truthy body.web_search;
  })

  unfoldable pub provider_call : CreateCompletionRequest → Result PyError (ProviderCall F)
  provider_call body = temperature_of body.temperature >>= λ temperature. ok (record {
    model = body.model;
    temperature = temperature;
    max_tokens = or_json body.max_tokens (int (pos 4096));
    prompt = body.prompt;
  })

  -- The exceptions as objects; get_chat_model_cached, which may raise, with model.invoke of what it
  -- returns; the enclave, the price feed and the clock.
  module _ (py_str : Json → Text) (dumps_sorted : RequestDict F → List ℕ) (utf8 : Text → List ℕ)
      (exception_of : Raised → PyException)
      (chat_model : ProviderCall F → Result PyException (Bool → Result PyException Invoked))
      (keccak : List ℕ → List ℕ) (sign : List ℕ → Text) (feed : Option Feed) (now : ℕ) where
    abbrev pub or_raise {ℓ} : {A : Type ℓ} → Result PyError A → Result PyException A
    or_raise = lift (λ e. exception_of (builtin e))

    -- Behind model.invoke.
    unfoldable pub sign_completion :
        CreateCompletionRequest → RequestDict F → Invoked → Result PyException CompletionResponse
    unfolding response_content compute_tee_msg_hash
    sign_completion body signed response =
        or_raise (response_content py_str response.content) >>= λ content.
        or_raise (extract_usage response.usage) >>= λ usage.
        or_raise (text_only content) >>= λ text.
        lift (λ e. exception_of (tee e))
          (compute_tee_msg_hash keccak (dumps_sorted signed) (utf8 text) now)
        >>= λ hashes. ok (record {
          model = body.model;
          text = text;
          usage = usage;
          tee_signature = sign hashes.0;
          tee_request_hash = hashes.1;
          tee_output_hash = hashes.2;
          tee_timestamp = now;
          opengradient = completion_cost feed now body.model usage;
        })

    -- The body of the try.
    unfoldable pub try_completion : CreateCompletionRequest → Result PyException CompletionResponse
    unfolding request_dict provider_call forces_non_streaming sign_completion
    try_completion body = or_raise (request_dict body) >>= λ signed.
        or_raise (provider_call body) >>= λ call. chat_model call >>= λ invoke.
        lift exception_of (forces_non_streaming body.model) >>= λ non_streaming.
        invoke non_streaming >>= λ response. sign_completion body signed response

    -- The body of a request that is JSON; a body that is no object has no attribute `model`.
    unfoldable pub create_completion : Option Json → CompletionAnswer
    unfolding try_completion error_response
    create_completion none = unsupported
    create_completion (some (obj body)) = elim (try_completion (from_dict body)) [
      | ok response ↦ completed response
      | err exc ↦ failed (error_response exc (codes "Request processing failed"))
    ]
    create_completion (some _) = failed (
        error_response (exception_of (builtin attribute_error)) (codes "Request processing failed"))
