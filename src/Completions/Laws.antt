-- ===== src/Completions/Laws.antt =====
-- What a completion's answers are, and what the signature commits to.
use tee_gateway.Prelude.{
  ℕ, ◌≡◌, ◌⊎◌, inl, inr, refl, sym, ap, ◌∙◌, List, length, Bool, Option, none, some, arith,
}
use tee_gateway.Prelude.Result.{Result, ok, err, ◌>>=◌}
use tee_gateway.Prelude.Int.{pos}
use tee_gateway.LlmBackend.Attachments.{or_json}
use tee_gateway.Prelude.Text.{Text}
use tee_gateway.Prelude.Json.{Json, null, bool, int, float, str, arr, obj, PyError}
use tee_gateway.Attestation.{compute_tee_msg_hash}
use tee_gateway.Attestation.Laws.{Collision, compute_tee_msg_hash-binds}
use tee_gateway.Errors.{PyException}
use tee_gateway.PriceFeed.{Feed}
use tee_gateway.LlmBackend.Usage.{extract_usage}
use tee_gateway.Completions.{
  CreateCompletionRequest, RequestDict, ProviderCall, Raised, Invoked, CompletionResponse,
  completion_cost, forces_non_streaming, response_content, request_dict, provider_call,
  temperature_of, unless_null,
}

-- A chain that ends well went well at its first step, and so did what `lift` passes on.
bind-eq_ok {ℓ κ μ} :
    {E : Type κ} {A : Type ℓ} {B : Type μ} (r : Result E A) (f : A → Result E B) {b : B}
    → (r >>= f) ≡ ok b
    → (a : A) × (r ≡ ok a) × (f a ≡ ok b)
bind-eq_ok (ok a) f h = (a, refl, h)
bind-eq_ok (err e) f h = absurd (ground (arith, h))

ok_injective : {E : Type 0} {A : Type 0} {a b : A} → ◌≡◌ {A = Result E A} (ok a) (ok b) → a ≡ b
ok_injective h = ground (arith, h)

abbrev limit_of : Option Json → Json
limit_of none = int (pos 4096)
limit_of (some v) = or_json v (int (pos 4096))

limit_signed : (v : Json) → or_json v (int (pos 4096)) ≡ limit_of (unless_null v)
limit_signed null = refl
limit_signed (bool b) = refl
limit_signed (int n) = refl
limit_signed (float x) = refl
limit_signed (str s) = refl
limit_signed (arr vs) = refl
limit_signed (obj fs) = refl

-- What the provider is asked, by what is signed.
abbrev pub call_of : {F : Type 0} → RequestDict F → ProviderCall F
call_of signed = record {
  model = signed.model;
  temperature = signed.temperature;
  max_tokens = limit_of signed.max_tokens;
  prompt = signed.prompt;
}

module _ {F : Type 0} (float_of : Json → Result PyError F) (zero_float : F) where
  provider_call-call_of :
      (body : CreateCompletionRequest) {signed : RequestDict F}
      → request_dict float_of zero_float body ≡ ok signed
      → provider_call float_of zero_float body ≡ ok (call_of signed)
  unfolding request_dict provider_call
  provider_call-call_of body h =
      let (t, e, built) = bind-eq_ok (temperature_of float_of zero_float body.temperature) _ h in
      rw (e, limit_signed body.max_tokens) (ap (λ d. ok (call_of d)) (ok_injective built))

  module _ (py_str : Json → Text) (dumps_sorted : RequestDict F → List ℕ) (utf8 : Text → List ℕ)
      (exception_of : Raised → PyException)
      (chat_model : ProviderCall F → Result PyException (Bool → Result PyException Invoked))
      (keccak : List ℕ → List ℕ) (sign : List ℕ → Text) (feed : Option Feed) (now : ℕ) where
    -- The text and the usage are those of the answer to the call that the signed dict fixes; the
    -- signature is of the hash of that dict, the text and the time, whose parts are shown; the cost
    -- is that of the usage.
    pub record IsSigned (body : CreateCompletionRequest) (hash : List ℕ) (r : CompletionResponse)
        : Type 0 where
      pub dict : RequestDict F
      pub invoke : Bool → Result PyException Invoked
      pub non_streaming : Bool
      pub response : Invoked
      pub dict_of : request_dict float_of zero_float body ≡ ok dict
      pub asked : chat_model (call_of dict) ≡ ok invoke
      pub forced : forces_non_streaming body.model ≡ ok non_streaming
      pub answered : invoke non_streaming ≡ ok response
      pub shown : response_content py_str response.content ≡ ok (str r.text)
      pub measured : extract_usage response.usage ≡ ok r.usage
      pub hashed :
          compute_tee_msg_hash keccak (dumps_sorted dict) (utf8 r.text) r.tee_timestamp
          ≡ ok (hash, r.tee_request_hash, r.tee_output_hash)
      pub signed : r.tee_signature ≡ sign hash
      pub timed : r.tee_timestamp ≡ now
      pub priced : r.opengradient ≡ completion_cost feed now body.model r.usage

  module _ (py_str : Json → Text) (dumps_sorted : RequestDict F → List ℕ) (utf8 : Text → List ℕ)
      (exception_of : Raised → PyException) (keccak : List ℕ → List ℕ) (sign : List ℕ → Text) where
    -- Two answers under one message hash, each at its own time, with its own price feed and its own
    -- provider: their requests put the same call to the provider, and they have texts with the same
    -- bytes and the same time, where json.dumps tells their request dicts apart and keccak has hashes
    -- of 32 bytes; or two byte strings with one keccak hash are shown.
    pub completions_bind :
        (length-keccak : (bytes : List ℕ) → length (keccak bytes) ≡ 32)
        → (chat_model chat_model' : ProviderCall F
            → Result PyException (Bool → Result PyException Invoked))
          (feed feed' : Option Feed) (now now' : ℕ) (body body' : CreateCompletionRequest)
          (r r' : CompletionResponse) (hash : List ℕ)
        → (s : IsSigned py_str dumps_sorted utf8 exception_of chat_model keccak sign feed now body
            hash r)
          (s' : IsSigned py_str dumps_sorted utf8 exception_of chat_model' keccak sign feed' now'
            body' hash r')
        → (dumps_sorted s.dict ≡ dumps_sorted s'.dict → s.dict ≡ s'.dict)
        → ((provider_call float_of zero_float body ≡ provider_call float_of zero_float body')
            × (utf8 r.text ≡ utf8 r'.text)
            × (r.tee_timestamp ≡ r'.tee_timestamp)
            × (now ≡ now'))
          ⊎ Collision keccak
    completions_bind length-keccak chat_model chat_model' feed feed' now now' body body' r r' hash s
          s' told_apart =
        elim (compute_tee_msg_hash-binds keccak length-keccak (dumps_sorted s.dict)
          (dumps_sorted s'.dict) (utf8 r.text) (utf8 r'.text) r.tee_timestamp r'.tee_timestamp
          s.hashed s'.hashed) [
            | inr collision ↦ inr collision
            | inl (requests, texts, times) ↦ inl (
              provider_call-call_of body s.dict_of
                  ∙ ap (λ d. ok (call_of d)) (told_apart requests)
                  ∙ sym (provider_call-call_of body' s'.dict_of),
              texts,
              times,
              sym s.timed ∙ times ∙ s'.timed,
            )
          ]
