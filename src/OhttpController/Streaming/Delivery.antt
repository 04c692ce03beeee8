-- ===== src/OhttpController/Streaming/Delivery.antt =====
-- What the client makes of a streamed response, and what the relay and x402 are told of its cost.
use tee_gateway.Prelude.{
  ℕ, ◌+◌, ◌^◌, ◌<◌, ◌≡◌, refl, ap, sym, ◌∙◌, List, [], ◌∷◌, ◌++◌, append_assoc, append-nil, length,
  All, true, false, Option, none, some, arith,
}
use tee_gateway.Prelude.Result.{ok}
use tee_gateway.Ohttp.Crypto.{Aead, Kdf}
use tee_gateway.Ohttp.Request.{DecapsulatedRequest}
use tee_gateway.Ohttp.Response.{ChunkedResponseEncrypter, encrypt_chunk, new_encrypter}
use tee_gateway.Ohttp.Client.{decrypt_chunked_stream}
use tee_gateway.Ohttp.Stream.{Fits, final_frame}
use tee_gateway.Ohttp.Stream.RoundTrip.{encrypt_chunk-final, decrypt-body, truncation_detected}
use tee_gateway.OhttpController.Context.{
  Codec, CostContext, parse_final_sse_json, set_inner_cost_context, set_inner_stream_cost_context,
}
use tee_gateway.OhttpController.Headers.{build_billing_frame}
use tee_gateway.OhttpController.Streaming.{
  upstream_raised, after_loop, last_frames, join, or_empty, shown, stream_loop,
  build_streaming_response,
}
use tee_gateway.OhttpController.Streaming.Frames.{
  solid, init, last, init-last, length-init, init-Fits, frames_of, join-frames_of, stream_loop_lem,
}

-- The chunks that are sealed as not final.
abbrev pub front : List (List ℕ) → List (List ℕ)
front [] = []
front (chunk ∷ chunks) = init chunk chunks

-- The chunk that is sealed as final.
abbrev pub final : List (List ℕ) → List ℕ
final [] = []
final (chunk ∷ chunks) = last chunk chunks

-- What the client is sent: the chunks, or one empty chunk.
abbrev pub delivered : List (List ℕ) → List (List ℕ)
delivered [] = [] ∷ []
delivered (chunk ∷ chunks) = chunk ∷ chunks

abbrev waiting : List (List ℕ) → Option (List ℕ)
waiting [] = none
waiting (chunk ∷ chunks) = some (last chunk chunks)

front-final : (chunks : List (List ℕ)) → front chunks ++ (final chunks ∷ []) ≡ delivered chunks
front-final [] = refl
front-final (chunk ∷ chunks) = init-last chunk chunks

front-Fits : (chunks : List (List ℕ)) → All Fits chunks → All Fits (front chunks)
front-Fits [] fits = tt
front-Fits (chunk ∷ chunks) fits = init-Fits chunk chunks fits.0 fits.1

or_empty-waiting : (chunks : List (List ℕ)) → or_empty (waiting chunks) ≡ final chunks
or_empty-waiting [] = refl
or_empty-waiting (chunk ∷ chunks) = refl

length-front :
    (chunks : List (List ℕ)) (bound : ℕ) → length chunks < bound → length (front chunks) < bound
length-front [] bound h = h
length-front (chunk ∷ chunks) bound h = omega (arith, h, length-init chunk chunks)

module _ (aead : Aead) where
  -- The loop of the generator from its start.
  stream_loop-start :
      (chunks : List (List ℕ)) (e : ChunkedResponseEncrypter) (m : ℕ)
      → e.finalized ≡ false
      → m ≡ e.counter + length (front (solid chunks))
      → m < 256 ^ 12
      → All Fits (front (solid chunks))
      → stream_loop aead e none chunks ≡ record {
        frames = frames_of aead e.aead_key e.aead_nonce e.counter (front (solid chunks));
        encrypter = record e { counter = m };
        pending = waiting (solid chunks);
        plaintext_chunks = solid chunks;
        failure = none;
      }
  unfolding stream_loop
  stream_loop-start [] e m open_e at short fits =
      let same : m ≡ e.counter = omega (arith, at) in ground (arith, same)
  stream_loop-start ([] ∷ chunks) e m open_e at short fits =
      stream_loop-start chunks e m open_e at short fits
  stream_loop-start ((b ∷ bs) ∷ chunks) e m open_e at short fits = ground (
    arith,
    stream_loop_lem aead chunks e (b ∷ bs) m open_e
        (omega (arith, at, length-init (b ∷ bs) (solid chunks))) short fits,
  )

last_frames-sealed :
    (aead : Aead) (codec : Codec) (kdf : Kdf) (e : ChunkedResponseEncrypter)
    (pending : Option (List ℕ)) (billing frame : List ℕ)
    → (encrypt_chunk aead e (or_empty pending) true).0 ≡ ok frame
    → last_frames aead codec kdf e pending (some billing) ≡ (shown billing ++ (frame ∷ []), none)
last_frames-sealed aead codec kdf e pending billing frame h = rw (last_frames, h) refl

module _ (codec : Codec) (kdf : Kdf) (aead : Aead) (nonce : List ℕ) (drawn : length nonce ≡ 32)
    (decap : DecapsulatedRequest) (status : ℕ) (chunks : List (List ℕ))
    (short : length (solid chunks) < 256 ^ 12) (fits : All Fits (solid chunks))
    (context : Option CostContext) where
  abbrev pub encrypter : ChunkedResponseEncrypter
  encrypter = new_encrypter kdf nonce decap.response_key_chunked decap.enc

  abbrev pub front_frames : List (List ℕ)
  front_frames = frames_of aead encrypter.aead_key encrypter.aead_nonce 0 (front (solid chunks))

  abbrev last_encrypter : ChunkedResponseEncrypter
  last_encrypter = record encrypter { counter = length (front (solid chunks)) }

  abbrev pub final_bytes : List ℕ
  final_bytes =
      final_frame aead encrypter.aead_key encrypter.aead_nonce (length (front (solid chunks)))
        (final (solid chunks))

  -- The loop, and the frame that follows it.
  pub looped : stream_loop aead encrypter none chunks ≡ record {
    frames = front_frames;
    encrypter = last_encrypter;
    pending = waiting (solid chunks);
    plaintext_chunks = solid chunks;
    failure = none;
  }
  unfolding new_encrypter
  looped =
      stream_loop-start aead chunks encrypter (length (front (solid chunks))) refl (omega arith)
        (length-front (solid chunks) (256 ^ 12) short) (front-Fits (solid chunks) fits)

  sealed_last :
      (encrypt_chunk aead last_encrypter (or_empty (waiting (solid chunks))) true).0
      ≡ ok final_bytes
  unfolding new_encrypter
  sealed_last = rw (or_empty-waiting (solid chunks)) (
      ap (λ r. r.0)
        (encrypt_chunk-final aead last_encrypter (final (solid chunks)) refl
          (length-front (solid chunks) (256 ^ 12) short)))

  abbrev pub plaintext : List ℕ
  plaintext = join (solid chunks)

  pub cut_shape :
      build_streaming_response aead codec kdf nonce decap status chunks true context ≡ record {
        yielded = nonce ∷ front_frames;
        raised = some upstream_raised;
        context = set_inner_stream_cost_context codec plaintext status context;
        closed = true;
      }
  unfolding build_streaming_response new_encrypter after_loop
  cut_shape = ap (after_loop aead codec kdf nonce status true context) looped

  pub whole_shape :
      (billing : List ℕ)
      → build_billing_frame codec (parse_final_sse_json codec plaintext) ≡ some billing
      → build_streaming_response aead codec kdf nonce decap status chunks false context ≡ record {
        yielded = (nonce ∷ front_frames) ++ (shown billing ++ (final_bytes ∷ []));
        raised = none;
        context = set_inner_stream_cost_context codec plaintext status (
            set_inner_cost_context none
              (parse_final_sse_json codec plaintext)
              (some status)
              context);
        closed = true;
      }
  unfolding build_streaming_response new_encrypter
  whole_shape billing framed =
      ap (after_loop aead codec kdf nonce status false context) looped
      ∙ rw
          (
            after_loop,
            framed,
            last_frames-sealed aead codec kdf last_encrypter (waiting (solid chunks)) billing
                final_bytes sealed_last,
          )
          refl

  -- Where fewer than 2^96 chunks that are not empty arrive, of lengths that the framing can write,
  -- and the inner response raises behind them, the generator raises too, the inner response is
  -- closed, and a client that got all that was yielded has read the chunks but the last and then
  -- raises: the break does not pass for the end of the answer.
  pub build_streaming_response-cut :
      (let s = build_streaming_response aead codec kdf nonce decap status chunks true context in
        (s.raised ≡ some upstream_raised)
        × (s.closed ≡ true)
        × (decrypt_chunked_stream kdf aead decap.response_key_chunked decap.enc (join s.yielded)
            ≡ record {
              items = front (solid chunks);
              raised = some "stream ended without AAD=final chunk";
            }))
  unfolding new_encrypter
  build_streaming_response-cut =
      let read =
        truncation_detected kdf aead decap.response_key_chunked decap.enc nonce drawn
          (front (solid chunks)) (front-Fits (solid chunks) fits) in
      let joined =
        join-frames_of aead encrypter.aead_key encrypter.aead_nonce (front (solid chunks)) 0 [] in
      rw cut_shape (refl, refl, rw (sym (append-nil (join front_frames)) ∙ joined) read)

  -- What the client reads of the nonce, the frames and the final frame.
  pub whole_read :
      decrypt_chunked_stream kdf aead decap.response_key_chunked decap.enc
        (join (nonce ∷ front_frames) ++ final_bytes)
      ≡ record { items = delivered (solid chunks); raised = none }
  unfolding new_encrypter
  whole_read =
      let read =
        decrypt-body kdf aead decap.response_key_chunked decap.enc nonce drawn
          (front (solid chunks)) (final (solid chunks)) (front-Fits (solid chunks) fits) in
      let joined =
        join-frames_of aead encrypter.aead_key encrypter.aead_nonce (front (solid chunks)) 0
          final_bytes in
      rw (append_assoc nonce (join front_frames) final_bytes, joined)
        (read ∙ rw (front-final (solid chunks)) refl)

  -- Where fewer than 2^96 chunks that are not empty arrive, of lengths that the framing can write,
  -- the inner response ends without raising, and the billing frame can be built, the generator
  -- raises nothing and closes the inner response. It yields some byte strings, the billing frame if
  -- there is one, and one last byte string; a client that got all but the billing frame reads
  -- exactly the chunks that were not empty, or one empty chunk, and ends without an exception.
  pub build_streaming_response-delivers :
      (billing : List ℕ)
      → build_billing_frame codec (parse_final_sse_json codec plaintext) ≡ some billing
      → (let s = build_streaming_response aead codec kdf nonce decap status chunks false context in
          (begun : List (List ℕ)) × (end : List ℕ) × (s.yielded
            ≡ begun ++ (shown billing ++ (end ∷ [])))
          × (s.raised ≡ none)
          × (s.closed ≡ true)
          × (decrypt_chunked_stream kdf aead decap.response_key_chunked decap.enc
                (join begun ++ end)
              ≡ record { items = delivered (solid chunks); raised = none }))
  build_streaming_response-delivers billing framed =
      rw (whole_shape billing framed)
        (nonce ∷ front_frames, final_bytes, refl, refl, refl, whole_read)
