-- ===== src/OhttpController/Streaming/Billing.antt =====
-- The relay is told the cost that x402 charges: the billing frame against the cost context.
use tee_gateway.Prelude.{
  ℕ, ◌^◌, ◌<◌, ◌≡◌, ◌⊎◌, inl, inr, refl, ap, sym, ◌∙◌, List, [], ◌∷◌, ◌++◌, length, All, Bool, true,
  false, Option, none, some, Option-cases, lt→ltb,
}
use tee_gateway.Ohttp.Bytes.{be_bytes}
use tee_gateway.Ohttp.Crypto.{Aead, Kdf}
use tee_gateway.Ohttp.Request.{DecapsulatedRequest}
use tee_gateway.Ohttp.Response.{new_encrypter}
use tee_gateway.Ohttp.Client.{decrypt_chunked_stream}
use tee_gateway.Ohttp.Stream.{Fits}
use tee_gateway.Pricing.{SessionCost}
use tee_gateway.Prelude.Json.{Json}
use tee_gateway.OhttpController.Context.{
  Codec, CostContext, parse_final_sse_json, set_inner_cost_context, set_inner_stream_cost_context,
  session_cost_calculator, cost_of, wire,
}
use tee_gateway.OhttpController.Headers.{build_billing_frame, billing_frame_magic}
use tee_gateway.OhttpController.Streaming.{
  Loop, Streamed, join, after_loop, build_streaming_response,
}
use tee_gateway.OhttpController.Streaming.Frames.{solid}
use tee_gateway.OhttpController.Streaming.Delivery.{
  looped, cut_shape, whole_shape, whole_read, final_bytes, delivered,
}

-- What x402 charges for a response object.
abbrev pub charge : Option SessionCost → Option ℕ
charge none = none
charge (some cost) = some cost.cost_opg

module _ (codec : Codec) where
  pub charged :
      (response_json : Option Json) (status : Option ℕ) (c : CostContext)
      → c.inner_response_json ≡ none
      → session_cost_calculator codec (set_inner_cost_context none response_json status (some c))
        ≡ charge (cost_of codec response_json)
  unfolding set_inner_cost_context session_cost_calculator
  charged (some json) status c fresh = elim (Option-cases (cost_of codec (some json))) [
    | inl e ↦ rw e refl
    | inr (cost, e) ↦ rw e refl
  ]
  charged none status c fresh = unfold cost_of in rw fresh refl

  -- The stream's context is set at its end, and once more on the way to it.
  charged_stream :
      (body : List ℕ) (status : ℕ) (c : CostContext)
      → c.inner_response_json ≡ none
      → session_cost_calculator codec (set_inner_stream_cost_context codec body status (some c))
        ≡ charge (cost_of codec (parse_final_sse_json codec body))
  unfolding set_inner_stream_cost_context
  charged_stream body status c fresh =
      charged (parse_final_sse_json codec body) (some status) c fresh

  charged_twice :
      (body : List ℕ) (status : ℕ) (c : CostContext)
      → c.inner_response_json ≡ none
      → session_cost_calculator codec (
          set_inner_stream_cost_context codec body status
            (set_inner_cost_context none (parse_final_sse_json codec body) (some status) (some c)))
        ≡ charge (cost_of codec (parse_final_sse_json codec body))
  unfolding set_inner_stream_cost_context
  charged_twice body status c fresh = elim (Option-cases (parse_final_sse_json codec body)) [
    | inl e ↦ rw e (unfold set_inner_cost_context session_cost_calculator cost_of in rw fresh refl)
    | inr (json, e) ↦ rw e (
        unfold set_inner_cost_context in
        charged (some json) (some status) (record c { inner_response_json = none }) refl)
  ]

  -- No cost and no frame, or the frame of the cost.
  frame_cases :
      ((cost : SessionCost) → length (codec.dumps (wire codec cost)) < 256 ^ 4)
      → (response_json : Option Json)
      → ((charge (cost_of codec response_json) ≡ none)
          × (build_billing_frame codec response_json ≡ some []))
        ⊎ ((cost : SessionCost) × (charge (cost_of codec response_json) ≡ some cost.cost_opg)
            × (build_billing_frame codec response_json
                ≡ some (
                    billing_frame_magic
                    ++ (be_bytes 4 (length (codec.dumps (wire codec cost)))
                        ++ codec.dumps (wire codec cost)))))
  unfolding build_billing_frame
  frame_cases small response_json = elim (Option-cases (cost_of codec response_json)) [
    | inl e ↦ inl (rw e refl, rw (build_billing_frame, e) refl)
    | inr (cost, e) ↦
        inr (cost, rw e refl, rw (build_billing_frame, e, lt→ltb _ _ (small cost)) refl)
  ]

  stream_charge :
      (kdf : Kdf) (aead : Aead) (nonce : List ℕ) (decap : DecapsulatedRequest) (status : ℕ)
      (chunks : List (List ℕ)) (c : CostContext) (raises : Bool)
      → length nonce ≡ 32
      → length (solid chunks) < 256 ^ 12
      → All Fits (solid chunks)
      → c.inner_response_json ≡ none
      → session_cost_calculator codec
          (build_streaming_response aead codec kdf nonce decap status chunks raises
            (some c)).context
        ≡ charge (cost_of codec (parse_final_sse_json codec (join (solid chunks))))
  unfolding build_streaming_response after_loop
  stream_charge kdf aead nonce decap status chunks c true drawn short fits fresh =
      let loop = looped codec kdf aead nonce drawn decap status chunks short fits (some c) in
      let e = new_encrypter kdf nonce decap.response_key_chunked decap.enc in
      ap
        (λ (l : Loop).
          session_cost_calculator codec
            (after_loop aead codec kdf e.response_nonce status true (some c) l).context)
        loop
      ∙ charged_stream (join (solid chunks)) status c fresh
  stream_charge kdf aead nonce decap status chunks c false drawn short fits fresh =
      let loop = looped codec kdf aead nonce drawn decap status chunks short fits (some c) in
      let e = new_encrypter kdf nonce decap.response_key_chunked decap.enc in
      ap
        (λ (l : Loop).
          session_cost_calculator codec
            (after_loop aead codec kdf e.response_nonce status false (some c) l).context)
        loop
      ∙ charged_twice (join (solid chunks)) status c fresh

  -- The generator with and without a break behind the chunks.
  module _ (kdf : Kdf) (aead : Aead) (nonce : List ℕ) (decap : DecapsulatedRequest) (status : ℕ)
      (chunks : List (List ℕ)) (c : CostContext) where
    abbrev pub run : Bool → Streamed
    run raises = build_streaming_response aead codec kdf nonce decap status chunks raises (some c)

    -- The frame of a cost.
    abbrev pub frame_of : SessionCost → List ℕ
    frame_of cost =
        billing_frame_magic
        ++ (be_bytes 4 (length (codec.dumps (wire codec cost))) ++ codec.dumps (wire codec cost))

    -- Where fewer than 2^96 chunks that are not empty arrive, of lengths that the framing can write,
    -- the cost context had no response yet, and the JSON of a cost is shorter than 2^32 bytes, a
    -- streamed response is charged the same whether the inner response raises behind its chunks or
    -- not. There are byte strings, all that is yielded where it raises, behind which a response that
    -- does not raise yields one last byte string if nothing is charged, and else the billing frame
    -- with the JSON of a cost, whose amount is charged, and then the last byte string. A client that
    -- got all but the billing frame reads exactly the chunks that were not empty, or one empty chunk.
    pub build_streaming_response-bills :
        length nonce ≡ 32
        → length (solid chunks) < 256 ^ 12
        → All Fits (solid chunks)
        → c.inner_response_json ≡ none
        → ((cost : SessionCost) → length (codec.dumps (wire codec cost)) < 256 ^ 4)
        → (session_cost_calculator codec (run true).context
            ≡ session_cost_calculator codec (run false).context)
          × (begun : List (List ℕ)) × (end : List ℕ) × ((run true).yielded ≡ begun)
          × (decrypt_chunked_stream kdf aead decap.response_key_chunked decap.enc
                (join begun ++ end)
              ≡ record { items = delivered (solid chunks); raised = none })
          × (((session_cost_calculator codec (run false).context ≡ none)
                × ((run false).yielded ≡ begun ++ (end ∷ [])))
              ⊎ ((cost : SessionCost) × (session_cost_calculator codec (run false).context
                    ≡ some cost.cost_opg)
                  × ((run false).yielded ≡ begun ++ (frame_of cost ∷ end ∷ []))))
    build_streaming_response-bills drawn short fits fresh small =
        let charged_as = λ (raises : Bool).
          stream_charge kdf aead nonce decap status chunks c raises drawn short fits fresh in
        let cut = cut_shape codec kdf aead nonce drawn decap status chunks short fits (some c) in
        let whole =
          whole_shape codec kdf aead nonce drawn decap status chunks short fits (some c) in
        (
          charged_as true ∙ sym (charged_as false),
          (run true).yielded,
          final_bytes codec kdf aead nonce drawn decap status chunks short fits (some c),
          refl,
          rw cut (whole_read codec kdf aead nonce drawn decap status chunks short fits (some c)),
          elim (frame_cases small (parse_final_sse_json codec (join (solid chunks)))) [
            | inl (free, no_frame) ↦ inl (
              charged_as false ∙ free,
              ap (λ (s : Streamed). s.yielded) (whole [] no_frame) ∙ rw cut refl,
            )
            | inr (cost, priced, framed) ↦ inr (
              cost,
              charged_as false ∙ priced,
              ap (λ (s : Streamed). s.yielded) (whole (frame_of cost) framed) ∙ rw cut refl,
            )
          ],
        )
