-- ===== src/OhttpController/Answers.antt =====
-- The answers of the handler: what the client reads of them, and what x402 charges for them.
use tee_gateway.Prelude.{
  ℕ, ◌<◌, ◌≤◌, ◌≡◌, ◌≢◌, ◌⊎◌, inl, inr, refl, ap, ◌∙◌, List, [], ◌∷◌, ◌++◌, append-nil, length,
  true, false, Option, none, some, ltb, String, Bool-cases, Option-cases, arith,
}
use tee_gateway.Prelude.Int.{pos}
use tee_gateway.Prelude.Result.{ok, err, Result-cases}
use tee_gateway.Prelude.Text.{Text, codes, remove_key, find_key}
use tee_gateway.Prelude.Json.{
  Json, null, int, obj, Fields, fields, object_of, str, no_fields, field,
}
use tee_gateway.Ohttp.Crypto.{Hpke, Aead, Kdf}
use tee_gateway.Ohttp.Request.{
  DecapsulatedRequest, decapsulate_request, key_config_id, label_response,
}
use tee_gateway.Ohttp.Response.{encapsulate_response}
use tee_gateway.Ohttp.Client.{client_encapsulate, decrypt_single_shot}
use tee_gateway.Ohttp.Exchange.{delivered, decapsulate-encapsulate, decrypt-encapsulate}
use tee_gateway.BodyPreread.{max_paid_request_bytes}
use tee_gateway.Pricing.{SessionCost}
use tee_gateway.OhttpController.Context.{
  Codec, CostContext, set_inner_cost_context, set_inner_response_cost_context, body_object, cost_of,
  session_cost_calculator,
}
use tee_gateway.OhttpController.Headers.{
  Header, Response, content_type_of, is_streaming, is_success, build_outer_response, forwarded,
  extract_cost_headers,
}
use tee_gateway.OhttpController.Streaming.{join}
use tee_gateway.OhttpController.Streaming.Billing.{charged}
use tee_gateway.OhttpController.Subrequest.{
  Environ, InnerResponse, sub_env, captured_status, captured_headers,
}
use tee_gateway.OhttpController.Handler.{
  OuterRequest, error, responded, escaped, scrub, endpoint_of, inner_path, sealed_error,
  sealed_json_response, relay_inner, dispatch, route, read_payload, declared_too_large,
  create_anonymous_chat_completion,
}

-- The answer with status 2xx is sealed for the client; any other passes in the clear, without cost
-- headers.
abbrev pub IsSealedOrPlain :
    Codec → Kdf → Aead → DecapsulatedRequest → ℕ → List Header → List ℕ → Response → Type 0
IsSealedOrPlain codec kdf aead decap status headers body r =
    ((is_success status ≡ true)
      × (decrypt_single_shot kdf aead decap.response_key decap.enc r.body ≡ some body)
      × (r.headers ≡ forwarded headers ++ extract_cost_headers codec body)
      × (r.content_type ≡ codes "message/ohttp-res"))
    ⊎ ((is_success status ≡ false)
        × (r.body ≡ body)
        × (r.headers ≡ forwarded headers)
        × (r.content_type ≡ content_type_of headers))

module _ (suite : Hpke) (kdf : Kdf) (aead : Aead) (codec : Codec) (repr : Json → Text)
    (inner_wsgi : Environ → InnerResponse) (nonce : List ℕ) where
  open suite use {PrivateKey, Sender, public_key}

  -- With a nonce of 32 bytes, an inner answer that is no event stream and does not raise becomes a
  -- response with its status. If that is 2xx, the client that holds the response key reads exactly
  -- the inner body, and the headers are those that are forwarded and the cost headers; else the
  -- body and the content type are those of the inner answer, with the forwarded headers alone.
  pub relay_inner-IsSealedOrPlain :
      (decap : DecapsulatedRequest) (inner : InnerResponse) (context : Option CostContext)
      → length nonce ≡ 32
      → is_streaming (captured_status inner) (captured_headers inner) ≡ false
      → inner.raises ≡ false
      → (r : Response) × (relay_inner suite kdf aead codec repr inner_wsgi nonce decap inner context
          ≡ responded r (
              set_inner_response_cost_context codec
                (join inner.chunks)
                (captured_status inner)
                context))
        × (r.status ≡ captured_status inner)
        × IsSealedOrPlain codec kdf aead decap
            (captured_status inner)
            (captured_headers inner)
            (join inner.chunks)
            r
  unfolding relay_inner build_outer_response
  relay_inner-IsSealedOrPlain decap inner context drawn single quiet =
      let body = join inner.chunks in
      let status = captured_status inner in
      let headers = captured_headers inner in
      let read = decrypt-encapsulate kdf aead nonce decap.response_key decap.enc body drawn in
      elim (Bool-cases (is_success status)) [
        | inl good ↦ (
          record {
            status = status;
            headers = forwarded headers ++ extract_cost_headers codec body;
            content_type = codes "message/ohttp-res";
            body = encapsulate_response kdf aead nonce decap.response_key decap.enc body;
          },
          rw (single, quiet, build_outer_response, good) refl,
          refl,
          inl (good, read, refl, refl),
        )
        | inr bad ↦ (
          record {
            status = status;
            headers = forwarded headers;
            content_type = content_type_of headers;
            body = body;
          },
          rw (single, quiet, build_outer_response, bad) refl,
          refl,
          inr (bad, refl, refl, refl),
        )
      ]

  -- The JSON of a sealed error.
  abbrev pub error_json : ℕ → Text → Json
  error_json status message = obj (
      field (codes "status") (int (pos status))
        (field (codes "body") (obj (field (codes "error") (str message) no_fields)) no_fields))

  -- With a nonce of 32 bytes, where the cost of an error object is refused by the validation of costs
  -- and the context had no response yet, a payload whose endpoint is not one of the two paths is
  -- answered with status 200 and no forwarded header; the client that holds the response key opens
  -- the body to the JSON of status 400 with an error that names the endpoint, and x402 charges
  -- nothing. If the endpoint is a list or an object, the handler raises instead.
  pub route_unknown :
      (request : OuterRequest) (decap : DecapsulatedRequest) (payload : List (Text × Json))
      (c : CostContext)
      → length nonce ≡ 32
      → request.context ≡ some c
      → c.inner_response_json ≡ none
      → codec.model_validate null ≡ none
      → ((path : Text) → inner_path (endpoint_of payload) ≢ ok (some path))
      → ((r : Response) × (context : Option CostContext) × (route suite kdf aead codec repr
              inner_wsgi nonce request decap payload
            ≡ responded r context)
          × (r.status ≡ 200)
          × (r.headers ≡ [])
          × (decrypt_single_shot kdf aead decap.response_key decap.enc r.body
              ≡ some (
                  codec.dumps (
                    error_json 400
                      (codes "unknown inner endpoint " ++ repr (endpoint_of payload)))))
          × (session_cost_calculator codec context ≡ none))
        ⊎ ((inner_path (endpoint_of payload) ≡ err tt)
            × (route suite kdf aead codec repr inner_wsgi nonce request decap payload
                ≡ escaped request.context))
  unfolding route sealed_error sealed_json_response find_key
  route_unknown request decap payload c drawn has fresh refused unknown =
      elim (Result-cases (inner_path (endpoint_of payload))) [
        | inr (raised, e) ↦ inr (e, rw (route, e) refl)
        | inl (some path, e) ↦ absurd (unknown path e)
        | inl (none, e) ↦
            let message = codes "unknown inner endpoint " ++ repr (endpoint_of payload) in
            let body = obj (field (codes "error") (str message) no_fields) in
            inl (
              sealed_json_response suite kdf aead codec repr inner_wsgi nonce decap 400 body,
              set_inner_cost_context none (some body) (some 400) request.context,
              rw (route, e) refl,
              refl,
              refl,
              decrypt-encapsulate kdf aead nonce decap.response_key decap.enc
                  (codec.dumps (error_json 400 message)) drawn,
              rw has (
                  charged codec (some body) (some 400) c fresh ∙ unfold cost_of in rw refused refl),
            )
      ]

  -- A request that is not answered by an error dict had a body of 1 to 20 MiB bytes, no declared
  -- length above 20 MiB, and an HPKE key that decapsulated it.
  pub create_anonymous_chat_completion-IsGuarded :
      (key? : Option PrivateKey) (request : OuterRequest)
      → ((status : ℕ) (message : String)
          → create_anonymous_chat_completion suite kdf aead codec repr inner_wsgi nonce key? request
            ≢ error status message request.context)
      → (key : PrivateKey) × (decap : DecapsulatedRequest) × (key? ≡ some key)
        × (decapsulate_request suite key request.body ≡ ok decap)
        × (0 < length request.body)
        × (length request.body ≤ max_paid_request_bytes)
        × (declared_too_large request ≡ false)
  unfolding create_anonymous_chat_completion
  create_anonymous_chat_completion-IsGuarded key? request passed =
      elim (Bool-cases (declared_too_large request)) [
        | inl e ↦ absurd (
            passed 413 "encapsulated request too large"
              (rw (create_anonymous_chat_completion, e) refl))
        | inr declared ↦ elim (Bool-cases (ltb 0 (length request.body))) [
          | inr e ↦
              absurd
                (passed 400 "empty body" (rw (create_anonymous_chat_completion, declared, e) refl))
          | inl some_body ↦ elim (Bool-cases (ltb max_paid_request_bytes (length request.body))) [
            | inl e ↦ absurd (
                passed 413 "encapsulated request too large"
                  (rw (create_anonymous_chat_completion, declared, some_body, e) refl))
            | inr fits ↦ elim (Option-cases key?) [
              | inl e ↦ absurd (
                  passed 503 "anonymous inference not initialized"
                    (rw (create_anonymous_chat_completion, declared, some_body, fits, e) refl))
              | inr (key, held) ↦ elim (Result-cases (decapsulate_request suite key request.body)) [
                | inr (message, e) ↦ absurd (
                    passed 400 "malformed encapsulated request" (
                      rw (create_anonymous_chat_completion, declared, some_body, fits, held, e)
                        refl))
                | inl (decap, opened) ↦ (
                  key,
                  decap,
                  held,
                  opened,
                  ground (arith, some_body),
                  ground (arith, fits),
                  declared,
                )
              ]
            ]
          ]
        ]
      ]

  -- The cost headers of an answer, by what is charged for it.
  cost_headers_cases :
      (body : List ℕ) (status : ℕ) (c : CostContext)
      → c.inner_response_json ≡ none
      → (let charge =
            session_cost_calculator codec
              (set_inner_response_cost_context codec body status (some c)) in
          ((charge ≡ none) × (extract_cost_headers codec body ≡ []))
          ⊎ ((cost : SessionCost) × (charge ≡ some cost.cost_opg)
              × (extract_cost_headers codec body
                  ≡ (codes "X-Inference-Cost-OPG", codec.opg_text cost)
                    ∷ (codes "X-Inference-Cost-USD", codec.usd_text cost)
                    ∷ (codes "X-Inference-Price-OPG-USD", codec.price_text cost)
                    ∷ [])))
  unfolding set_inner_response_cost_context extract_cost_headers
  cost_headers_cases body status c fresh =
      rw (charged codec (body_object codec body) (some status) c fresh)
        (elim (Option-cases (cost_of codec (body_object codec body))) [
          | inl e ↦ inl (rw e refl, rw (extract_cost_headers, e) refl)
          | inr (cost, e) ↦ inr (cost, rw e refl, rw (extract_cost_headers, e) refl)
        ])

  -- An inner answer with a status 2xx that is no event stream and does not raise, in a context that
  -- had no response yet, becomes a response with the forwarded headers. Either x402 charges nothing,
  -- and the response has no other header, or x402 charges the amount of a cost, and the response has
  -- three more headers, the texts of that cost.
  pub single_shot_bills :
      (decap : DecapsulatedRequest) (inner : InnerResponse) (c : CostContext)
      → is_success (captured_status inner) ≡ true
      → is_streaming (captured_status inner) (captured_headers inner) ≡ false
      → inner.raises ≡ false
      → c.inner_response_json ≡ none
      → (r : Response) × (context : Option CostContext) × (relay_inner suite kdf aead codec repr
            inner_wsgi nonce decap inner
            (some c)
          ≡ responded r context)
        × (((session_cost_calculator codec context ≡ none)
              × (r.headers ≡ forwarded (captured_headers inner)))
            ⊎ ((cost : SessionCost) × (session_cost_calculator codec context ≡ some cost.cost_opg)
                × (r.headers
                    ≡ forwarded (captured_headers inner)
                      ++ ((codes "X-Inference-Cost-OPG", codec.opg_text cost)
                          ∷ (codes "X-Inference-Cost-USD", codec.usd_text cost)
                          ∷ (codes "X-Inference-Price-OPG-USD", codec.price_text cost)
                          ∷ []))))
  unfolding relay_inner build_outer_response
  single_shot_bills decap inner c good single quiet fresh =
      let body = join inner.chunks in
      let status = captured_status inner in
      let headers = forwarded (captured_headers inner) in
      (
        record {
          status = status;
          headers = headers ++ extract_cost_headers codec body;
          content_type = codes "message/ohttp-res";
          body = encapsulate_response kdf aead nonce decap.response_key decap.enc body;
        },
        set_inner_response_cost_context codec body status (some c),
        rw (single, quiet, build_outer_response, good) refl,
        elim (cost_headers_cases body status c fresh) [
          | inl (free, told) ↦ inl (free, ap (λ t. headers ++ t) told ∙ append-nil headers)
          | inr (cost, charge, told) ↦ inr (cost, charge, ap (λ t. headers ++ t) told)
        ],
      )

  -- The body that goes to the inner endpoint, and the answer to it.
  abbrev forwarded_body : Fields → Json
  forwarded_body fs = obj (object_of (scrub (remove_key (codes "endpoint") (fields fs))))

  abbrev inner_answer : OuterRequest → Text → Fields → InnerResponse
  inner_answer request path fs =
      inner_wsgi (sub_env path (codec.dumps (forwarded_body fs)) request.environ)

  -- The exchange from end to end, with a nonce of 32 bytes: a client seals a text that decodes to
  -- a JSON object whose endpoint is one of the two paths, in at most 20 MiB. The inner request goes
  -- to that path with the object without its endpoint and identifying fields; its answer, if it has
  -- a status 2xx, is no event stream and does not raise, comes back with its status in a response
  -- that the client opens to exactly the inner body.
  pub exchange :
      (key : PrivateKey) (seed plaintext wire enc : List ℕ) (sender : Sender) (decoded path : Text)
      (fs : Fields) (request : OuterRequest)
      → length nonce ≡ 32
      → client_encapsulate suite seed (public_key key) key_config_id plaintext
        ≡ some (wire, sender, enc)
      → request.body ≡ wire
      → 0 < length wire
      → length wire ≤ max_paid_request_bytes
      → declared_too_large request ≡ false
      → codec.decode_utf8 plaintext ≡ some decoded
      → codec.loads decoded ≡ some (obj fs)
      → inner_path (endpoint_of (fields fs)) ≡ ok (some path)
      → is_success (captured_status (inner_answer request path fs)) ≡ true
      → is_streaming
          (captured_status (inner_answer request path fs))
          (captured_headers (inner_answer request path fs))
        ≡ false
      → (inner_answer request path fs).raises ≡ false
      → (r : Response) × (context : Option CostContext) × (create_anonymous_chat_completion suite
            kdf aead codec repr inner_wsgi nonce
            (some key)
            request
          ≡ responded r context)
        × (r.status ≡ captured_status (inner_answer request path fs))
        × (decrypt_single_shot kdf aead (suite.export_sender sender label_response 32) enc r.body
            ≡ some (join (inner_answer request path fs).chunks))
  unfolding create_anonymous_chat_completion read_payload route dispatch
  exchange key seed plaintext wire enc sender decoded path fs request drawn sealed same some_body
        fits declared text parsed routed good single quiet =
      let decap = delivered suite sender enc plaintext in
      let opened : decapsulate_request suite key request.body ≡ ok decap =
        ap (decapsulate_request suite key) same
        ∙ decapsulate-encapsulate suite key seed plaintext wire enc sender sealed in
      let context = set_inner_cost_context (some (forwarded_body fs)) none none request.context in
      let some_bytes : ltb 0 (length request.body) ≡ true = ground (arith, ap length same) in
      let few_bytes : ltb max_paid_request_bytes (length request.body) ≡ false =
        ground (arith, ap length same) in
      let (r, answered, status, content) =
        relay_inner-IsSealedOrPlain decap (inner_answer request path fs) context drawn single
          quiet in
      elim content [
        | inr (bad, clear, headed, typed) ↦ absurd (ground (arith, good, bad))
        | inl (fine, read, headed, typed) ↦ (
          r,
          set_inner_response_cost_context codec (join (inner_answer request path fs).chunks)
              (captured_status (inner_answer request path fs)) context,
          rw
              (
                create_anonymous_chat_completion, declared, some_bytes, few_bytes, opened,
                read_payload, text, parsed, route, routed,
              )
              answered,
          status,
          read,
        )
      ]
