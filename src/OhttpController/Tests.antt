-- ===== src/OhttpController/Tests.antt =====
-- The controller at concrete requests, with the toy cryptography and a codec that knows one text.
use tee_gateway.Prelude.{
  ℕ, ◌<◌, ◌≤◌, ◌≡◌, ◌⊎◌, refl, List, [], ◌∷◌, ◌++◌, length, Bool, true, false, Option, none, some,
  if◌then◌else◌, arith,
}
use tee_gateway.Prelude.Result.{ok, err}
use tee_gateway.Prelude.Text.{
  Text, codes, text_eq, text_mem, find_key, strip, starts_with, lower, before,
}
use tee_gateway.Prelude.Json.{Json, str, obj, Fields, field, no_fields, fields, object_of}
use tee_gateway.Ohttp.Bytes.{be_bytes}
use tee_gateway.Ohttp.Request.{DecapsulatedRequest, decapsulate_request}
use tee_gateway.Ohttp.Client.{client_encapsulate, decrypt_single_shot, decrypt_chunked_stream}
use tee_gateway.Ohttp.Exchange.{delivered}
use tee_gateway.Ohttp.Toy.{toy_hpke, toy_aead, toy_kdf, toy_enc, with_tag}
use tee_gateway.BodyPreread.{max_paid_request_bytes}
use tee_gateway.Decimal.{of_nat}
use tee_gateway.Pricing.{SessionCost}
use tee_gateway.OhttpController.Context.{
  set_inner_cost_context, Codec, CostContext, parse_final_sse_json, session_cost_calculator,
  split_lines, cost_of, set_inner_response_cost_context,
}
use tee_gateway.OhttpController.Headers.{
  forwarded, Response, is_streaming, billing_frame_magic, build_billing_frame,
  should_forward_header,
}
use tee_gateway.OhttpController.Streaming.{
  Streamed, join, shown, build_streaming_response, upstream_raised,
}
use tee_gateway.OhttpController.Streaming.Frames.{solid}
use tee_gateway.OhttpController.Streaming.Delivery.{
  front, delivered as delivered_chunks, build_streaming_response-cut,
  build_streaming_response-delivers,
}
use tee_gateway.OhttpController.Streaming.Billing.{run, frame_of, build_streaming_response-bills}
use tee_gateway.OhttpController.Subrequest.{Environ, text, stream, InnerResponse, captured_status}
use tee_gateway.OhttpController.Handler.{
  OuterRequest, responded, escaped, identifying_fields, endpoint_of, inner_path, declared_too_large,
  route, create_anonymous_chat_completion, relay_inner,
}
use tee_gateway.OhttpController.Privacy.{route-forwards}
use tee_gateway.OhttpController.Answers.{
  IsSealedOrPlain, relay_inner-IsSealedOrPlain, route_unknown,
  create_anonymous_chat_completion-IsGuarded, single_shot_bills, exchange,
}

abbrev a_cost : SessionCost
a_cost = record { cost_opg = 70; cost_usd = of_nat 7; opg_price_usd = of_nat 2 }

-- An object with a cost, and a payload with a user.
abbrev cost_fields : Fields
cost_fields = field (codes "opengradient") (str (codes "7")) no_fields

abbrev payload_fields : Fields
payload_fields =
    field (codes "user") (str (codes "u")) (field (codes "model") (str (codes "m")) no_fields)

abbrev toy_loads : Text → Option Json
toy_loads s =
    if text_eq s (codes "C")
    then some (obj cost_fields)
    else if text_eq s (codes "P")
    then some (obj payload_fields)
    else none

abbrev toy_validate : Json → Option SessionCost
toy_validate (str s) = some a_cost
toy_validate _ = none

abbrev toy_codec : Codec
toy_codec = record {
  decode_utf8 = λ bytes. some bytes;
  decode_replace = λ bytes. bytes;
  loads = toy_loads;
  dumps = λ json. codes "J";
  model_validate = toy_validate;
  opg_text = λ cost. codes "70";
  usd_text = λ cost. codes "7";
  price_text = λ cost. codes "2";
}

abbrev toy_repr : Json → Text
toy_repr json = codes "repr"

abbrev toy_nonce : List ℕ
toy_nonce = be_bytes 32 3

abbrev secrets : DecapsulatedRequest
secrets = delivered toy_hpke tt toy_enc (codes "P")

abbrev fresh_context : CostContext
fresh_context = record {
  inner_request_json = none;
  inner_response_json = none;
  inner_status_code = none;
}

-- An event, an empty chunk, an event with the cost, and the end mark.
abbrev events : List (List ℕ)
events =
    (codes "data: x" ++ (10 ∷ [])) ∷ [] ∷ (codes "data: C" ++ (10 ∷ [])) ∷ codes "data: [DONE]" ∷ []

abbrev streamed : Bool → Option CostContext → Streamed
streamed raises context =
    build_streaming_response toy_aead toy_codec toy_kdf toy_nonce secrets 200 events raises context

build_streaming_response-cut_example :
    ((streamed true none).raised ≡ some upstream_raised)
    × ((streamed true none).closed ≡ true)
    × (decrypt_chunked_stream toy_kdf toy_aead secrets.response_key_chunked secrets.enc
          (join (streamed true none).yielded)
        ≡ record {
          items = front (solid events);
          raised = some "stream ended without AAD=final chunk";
        })
build_streaming_response-cut_example =
    build_streaming_response-cut toy_codec toy_kdf toy_aead toy_nonce refl secrets 200 events
      (omega arith) (omega arith) none

abbrev a_frame : List ℕ
a_frame = billing_frame_magic ++ (be_bytes 4 1 ++ codes "J")

build_streaming_response-delivers_example :
    (begun : List (List ℕ)) × (end : List ℕ) × ((streamed false none).yielded
      ≡ begun ++ (shown a_frame ++ (end ∷ [])))
    × ((streamed false none).raised ≡ none)
    × ((streamed false none).closed ≡ true)
    × (decrypt_chunked_stream toy_kdf toy_aead secrets.response_key_chunked secrets.enc
          (join begun ++ end)
        ≡ record { items = delivered_chunks (solid events); raised = none })
unfolding build_billing_frame parse_final_sse_json cost_of strip find_key starts_with
build_streaming_response-delivers_example =
    build_streaming_response-delivers toy_codec toy_kdf toy_aead toy_nonce refl secrets 200 events
      (omega arith) (omega arith) none a_frame refl

abbrev billed : Bool → Streamed
billed raises = run toy_codec toy_kdf toy_aead toy_nonce secrets 200 events fresh_context raises

build_streaming_response-bills_example :
    (session_cost_calculator toy_codec (billed true).context
      ≡ session_cost_calculator toy_codec (billed false).context)
    × (begun : List (List ℕ)) × (end : List ℕ) × ((billed true).yielded ≡ begun)
    × (decrypt_chunked_stream toy_kdf toy_aead secrets.response_key_chunked secrets.enc
          (join begun ++ end)
        ≡ record { items = delivered_chunks (solid events); raised = none })
    × (((session_cost_calculator toy_codec (billed false).context ≡ none)
          × ((billed false).yielded ≡ begun ++ (end ∷ [])))
        ⊎ ((cost : SessionCost) × (session_cost_calculator toy_codec (billed false).context
              ≡ some cost.cost_opg)
            × ((billed false).yielded
                ≡ begun
                  ++ (frame_of toy_codec toy_kdf toy_aead toy_nonce secrets 200 events fresh_context
                        cost
                      ∷ end
                      ∷ []))))
build_streaming_response-bills_example =
    build_streaming_response-bills toy_codec toy_kdf toy_aead toy_nonce secrets 200 events
      fresh_context refl (omega arith) (omega arith) refl (λ cost. omega arith)

abbrev outer_environ : Environ
outer_environ =
    (codes "HTTP_X_PAYMENT", text (codes "secret"))
    ∷ (codes "wsgi.url_scheme", text (codes "https"))
    ∷ []

abbrev inner_ok : InnerResponse
inner_ok = record {
  started = some (200, []);
  chunks = codes "ab" ∷ [] ∷ codes "c" ∷ [];
  raises = false;
}

abbrev toy_wsgi : Environ → InnerResponse
toy_wsgi environ = inner_ok

relay_inner-IsSealedOrPlain_example :
    (r : Response) × (relay_inner toy_hpke toy_kdf toy_aead toy_codec toy_repr toy_wsgi toy_nonce
        secrets inner_ok none
      ≡ responded r (set_inner_response_cost_context toy_codec (codes "abc") 200 none))
    × (r.status ≡ captured_status inner_ok)
    × IsSealedOrPlain toy_codec toy_kdf toy_aead secrets 200 [] (codes "abc") r
unfolding is_streaming strip lower starts_with before
relay_inner-IsSealedOrPlain_example =
    relay_inner-IsSealedOrPlain toy_hpke toy_kdf toy_aead toy_codec toy_repr toy_wsgi toy_nonce
      secrets inner_ok none refl refl refl

abbrev the_request : OuterRequest
the_request = record {
  content_length = none;
  body = 1 ∷ 0 ∷ 32 ∷ 0 ∷ 1 ∷ 0 ∷ 3 ∷ (toy_enc ++ with_tag (codes "P"));
  environ = outer_environ;
  context = some fresh_context;
}

abbrev unknown_payload : List (Text × Json)
unknown_payload = (codes "endpoint", str (codes "x")) ∷ []

route_unknown_example :
    ((r : Response) × (context : Option CostContext) × (route toy_hpke toy_kdf toy_aead toy_codec
          toy_repr toy_wsgi toy_nonce the_request secrets unknown_payload
        ≡ responded r context)
      × (r.status ≡ 200)
      × (r.headers ≡ [])
      × (decrypt_single_shot toy_kdf toy_aead secrets.response_key secrets.enc r.body
          ≡ some (codes "J"))
      × (session_cost_calculator toy_codec context ≡ none))
    ⊎ ((inner_path (endpoint_of unknown_payload) ≡ err tt)
        × (route toy_hpke toy_kdf toy_aead toy_codec toy_repr toy_wsgi toy_nonce the_request secrets
              unknown_payload
            ≡ escaped (some fresh_context)))
unfolding find_key
route_unknown_example =
    route_unknown toy_hpke toy_kdf toy_aead toy_codec toy_repr toy_wsgi toy_nonce the_request
      secrets unknown_payload fresh_context refl refl refl refl (λ path e. cc e)

route-forwards_example :
    (body : List (Text × Json)) × (environ : Environ) × (route toy_hpke toy_kdf toy_aead toy_codec
        toy_repr toy_wsgi toy_nonce the_request secrets
        (fields payload_fields)
      ≡ relay_inner toy_hpke toy_kdf toy_aead toy_codec toy_repr toy_wsgi toy_nonce secrets
          (toy_wsgi environ)
          (set_inner_cost_context (some (obj (object_of body))) none none the_request.context))
    × (find_key (codes "wsgi.input") environ
        ≡ some (stream (toy_codec.dumps (obj (object_of body)))))
    × (find_key (codes "PATH_INFO") environ ≡ some (text (codes "/v1/chat/completions")))
    × ((key : Text)
        → find_key key body ≡ (
            if text_mem key (codes "endpoint" ∷ identifying_fields)
            then none
            else find_key key (fields payload_fields)))
unfolding find_key
route-forwards_example =
    route-forwards toy_hpke toy_kdf toy_aead toy_codec toy_repr toy_wsgi toy_nonce the_request
      secrets (fields payload_fields) (codes "/v1/chat/completions") refl

abbrev inner_cost : InnerResponse
inner_cost = record { started = some (200, []); chunks = codes "C" ∷ []; raises = false }

single_shot_bills_example :
    (r : Response) × (context : Option CostContext) × (relay_inner toy_hpke toy_kdf toy_aead
        toy_codec toy_repr toy_wsgi toy_nonce secrets inner_cost
        (some fresh_context)
      ≡ responded r context)
    × (((session_cost_calculator toy_codec context ≡ none) × (r.headers ≡ forwarded []))
        ⊎ ((cost : SessionCost) × (session_cost_calculator toy_codec context ≡ some cost.cost_opg)
            × (r.headers
                ≡ forwarded []
                  ++ ((codes "X-Inference-Cost-OPG", codes "70")
                      ∷ (codes "X-Inference-Cost-USD", codes "7")
                      ∷ (codes "X-Inference-Price-OPG-USD", codes "2")
                      ∷ []))))
unfolding is_streaming strip lower starts_with before
single_shot_bills_example =
    single_shot_bills toy_hpke toy_kdf toy_aead toy_codec toy_repr toy_wsgi toy_nonce secrets
      inner_cost fresh_context refl refl refl refl

exchange_example :
    (r : Response) × (context : Option CostContext) × (create_anonymous_chat_completion toy_hpke
        toy_kdf toy_aead toy_codec toy_repr toy_wsgi toy_nonce
        (some 5)
        the_request
      ≡ responded r context)
    × (r.status ≡ captured_status inner_ok)
    × (decrypt_single_shot toy_kdf toy_aead (be_bytes 32 9) toy_enc r.body ≡ some (codes "abc"))
unfolding client_encapsulate find_key is_streaming strip lower starts_with before
exchange_example =
    exchange toy_hpke toy_kdf toy_aead toy_codec toy_repr toy_wsgi toy_nonce 5 [] (codes "P")
      the_request.body toy_enc tt (codes "P") (codes "/v1/chat/completions") payload_fields
      the_request refl refl refl (omega arith) (omega arith) refl refl refl refl refl refl refl

create_anonymous_chat_completion-IsGuarded_example :
    (key : ℕ) × (decap : DecapsulatedRequest) × (◌≡◌ {A = Option ℕ} (some 5) (some key))
    × (decapsulate_request toy_hpke key the_request.body ≡ ok decap)
    × (0 < length the_request.body)
    × (length the_request.body ≤ max_paid_request_bytes)
    × (declared_too_large the_request ≡ false)
create_anonymous_chat_completion-IsGuarded_example =
    let (r, context, answered, status, read) = exchange_example in
    create_anonymous_chat_completion-IsGuarded toy_hpke toy_kdf toy_aead toy_codec toy_repr toy_wsgi
      toy_nonce (some 5) the_request (λ status message e. cc (answered, e))

-- "\r\n" is one line end.
lines_of : split_lines (97 ∷ 13 ∷ 10 ∷ 10 ∷ 98 ∷ []) ≡ (97 ∷ []) ∷ [] ∷ (98 ∷ []) ∷ []
unfolding split_lines
lines_of = refl

forwards : should_forward_header (codes "X-Payment-Response") ≡ true
unfolding should_forward_header lower starts_with
forwards = refl
