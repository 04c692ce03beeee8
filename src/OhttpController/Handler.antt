-- ===== src/OhttpController/Handler.antt =====
-- `create_anonymous_chat_completion`: the handler of POST /v1/ohttp, branch by branch. The random
-- nonce of a response and Python's repr are arguments.
use tee_gateway.Prelude.{
  ℕ, List, [], ◌∷◌, ◌++◌, length, Bool, false, Option, none, some, String, ltb, if◌then◌else◌,
}
use tee_gateway.Prelude.Int.{pos}
use tee_gateway.Prelude.Result.{Result, ok, err}
use tee_gateway.Prelude.Text.{Text, codes, text_mem, find_key, remove_key}
use tee_gateway.Prelude.Json.{Json, str, int, arr, obj, field, no_fields, fields, object_of}
use tee_gateway.Ohttp.Crypto.{Hpke, Aead, Kdf}
use tee_gateway.Ohttp.Request.{DecapsulatedRequest, decapsulate_request}
use tee_gateway.Ohttp.Response.{encapsulate_response}
use tee_gateway.BodyPreread.{max_paid_request_bytes}
use tee_gateway.OhttpController.Context.{
  Codec, CostContext, set_inner_cost_context, set_inner_response_cost_context,
}
use tee_gateway.OhttpController.Headers.{
  Header, Response, content_type_of, is_streaming, build_outer_response, forwarded,
}
use tee_gateway.OhttpController.Streaming.{Streamed, join, build_streaming_response}
use tee_gateway.OhttpController.Subrequest.{
  Environ, InnerResponse, sub_env, captured_status, captured_headers,
}

pub record OuterRequest : Type 0 where
  pub content_length : Option ℕ
  pub body : List ℕ
  pub environ : Environ
  pub context : Option CostContext

-- An error dict with its status, a response, a stream, or an exception that leaves the handler;
-- with the cost context that is left.
pub data Outcome : Type 0 where
  error : ℕ → String → Option CostContext → Outcome
  responded : Response → Option CostContext → Outcome
  streaming : ℕ → List Header → Streamed → Outcome
  escaped : Option CostContext → Outcome

abbrev pub identifying_fields : List Text
identifying_fields =
    codes "user" ∷ codes "metadata" ∷ codes "x-request-id" ∷ codes "request_id" ∷ []

-- {k: v for k, v in payload.items() if k not in _IDENTIFYING_FIELDS}
unfoldable pub scrub : List (Text × Json) → List (Text × Json)
scrub [] = []
scrub (entry ∷ payload) =
    let rest = scrub payload in if text_mem entry.0 identifying_fields then rest else entry ∷ rest

abbrev pub inner_endpoint_paths : List (Text × Text)
inner_endpoint_paths =
    (codes "chat.completions", codes "/v1/chat/completions")
    ∷ (codes "web_search", codes "/v1/web_search")
    ∷ []

-- chat_body.pop("endpoint", "chat.completions")
abbrev pub endpoint_of : List (Text × Json) → Json
endpoint_of payload = elim (find_key (codes "endpoint") payload) [
  | none ↦ str (codes "chat.completions")
  | some value ↦ value
]

-- _INNER_ENDPOINT_PATHS.get(endpoint): the error is the TypeError of a value without a hash.
abbrev pub inner_path : Json → Result (Unit {0}) (Option Text)
inner_path (str name) = ok (find_key name inner_endpoint_paths)
inner_path (arr vs) = err tt
inner_path (obj fs) = err tt
inner_path _ = ok none

-- declared_length is not None and declared_length > _MAX_ENCAPSULATED_REQUEST_BYTES
abbrev pub declared_too_large : OuterRequest → Bool
declared_too_large request = elim request.content_length [
  | none ↦ false
  | some declared ↦ ltb max_paid_request_bytes declared
]

module _ (suite : Hpke) (kdf : Kdf) (aead : Aead) (codec : Codec) (repr : Json → Text)
    (inner_wsgi : Environ → InnerResponse) (nonce : List ℕ) where
  open suite use {PrivateKey}

  unfoldable pub sealed_json_response : DecapsulatedRequest → ℕ → Json → Response
  sealed_json_response decap status body_obj = record {
    status = 200;
    headers = [];
    content_type = codes "message/ohttp-res";
    body = encapsulate_response kdf aead nonce decap.response_key decap.enc (
        codec.dumps (
          obj
            (field (codes "status") (int (pos status)) (field (codes "body") body_obj no_fields))));
  }

  unfoldable pub sealed_error : DecapsulatedRequest → ℕ → Text → Option CostContext → Outcome
  unfolding sealed_json_response
  sealed_error decap status message context =
      let body = obj (field (codes "error") (str message) no_fields) in
      responded (sealed_json_response decap status body)
        (set_inner_cost_context none (some body) (some status) context)

  -- What the answer of the inner request becomes.
  unfoldable pub relay_inner : DecapsulatedRequest → InnerResponse → Option CostContext → Outcome
  relay_inner decap inner context =
      let status = captured_status inner in
      let headers = captured_headers inner in
      let body = join inner.chunks in
      if is_streaming status headers
      then streaming status (forwarded headers) (
          build_streaming_response aead codec kdf nonce decap status inner.chunks inner.raises
            context)
      else if inner.raises
      then escaped context
      else responded
          (build_outer_response codec kdf aead nonce decap status headers body
            (content_type_of headers))
          (set_inner_response_cost_context codec body status context)

  -- From the decoded payload on, without its endpoint.
  unfoldable pub dispatch : OuterRequest → DecapsulatedRequest → Text → List (Text × Json) → Outcome
  unfolding relay_inner
  dispatch request decap path payload =
      let chat_body = obj (object_of (scrub payload)) in
      let context = set_inner_cost_context (some chat_body) none none request.context in
      relay_inner decap (inner_wsgi (sub_env path (codec.dumps chat_body) request.environ)) context

  unfoldable pub route : OuterRequest → DecapsulatedRequest → List (Text × Json) → Outcome
  unfolding dispatch sealed_error
  route request decap payload =
      let endpoint = endpoint_of payload in
      elim (inner_path endpoint) [
        | err raised ↦ escaped request.context
        | ok none ↦
            sealed_error decap 400 (codes "unknown inner endpoint " ++ repr endpoint)
              request.context
        | ok (some path) ↦ dispatch request decap path (remove_key (codes "endpoint") payload)
      ]

  -- json.loads(decap.plaintext.decode("utf-8"))
  unfoldable pub read_payload : OuterRequest → DecapsulatedRequest → Outcome
  unfolding route
  read_payload request decap = elim (codec.decode_utf8 decap.plaintext) [
    | none ↦ error 400 "inner payload is not valid JSON" request.context
    | some decoded ↦ elim (codec.loads decoded) [
      | none ↦ error 400 "inner payload is not valid JSON" request.context
      | some (obj fs) ↦ route request decap (fields fs)
      | some other ↦ error 400 "inner payload must be a JSON object" request.context
    ]
  ]

  unfoldable pub create_anonymous_chat_completion : Option PrivateKey → OuterRequest → Outcome
  unfolding read_payload
  create_anonymous_chat_completion hpke_private_key request =
      if declared_too_large request
      then error 413 "encapsulated request too large" request.context
      else if ltb 0 (length request.body)
      then if ltb max_paid_request_bytes (length request.body)
        then error 413 "encapsulated request too large" request.context
        else elim hpke_private_key [
          | none ↦ error 503 "anonymous inference not initialized" request.context
          | some key ↦ elim (decapsulate_request suite key request.body) [
            | err message ↦ error 400 "malformed encapsulated request" request.context
            | ok decap ↦ read_payload request decap
          ]
        ]
      else error 400 "empty body" request.context
