-- ===== src/OhttpController/Streaming.antt =====
-- `_build_streaming_response` and its generator: what it yields, and what it leaves in the cost
-- context. The inner response is the list of its chunks, and whether the iterator raises behind them.
pub mod Frames
pub mod Delivery
pub mod Billing
use tee_gateway.Prelude.{
  ℕ, List, [], ◌∷◌, ◌++◌, Bool, true, false, Option, none, some, if◌then◌else◌,
}
use tee_gateway.Prelude.Result.{Result, ok, err}
use tee_gateway.Ohttp.Crypto.{Aead, Kdf}
use tee_gateway.Ohttp.Request.{DecapsulatedRequest}
use tee_gateway.Ohttp.Response.{ChunkedResponseEncrypter, ChunkError, new_encrypter, encrypt_chunk}
use tee_gateway.OhttpController.Context.{
  Codec, CostContext, set_inner_cost_context, set_inner_stream_cost_context, parse_final_sse_json,
}
use tee_gateway.OhttpController.Headers.{build_billing_frame}

pub data StreamError : Type 0 where
  sealing : ChunkError → StreamError
  upstream_raised : StreamError
  billing_overflow : StreamError

-- b"".join(chunks)
abbrev pub join : List (List ℕ) → List ℕ
join [] = []
join (chunk ∷ chunks) = chunk ++ join chunks

-- The generator's variables behind the loop: what the loop has yielded, the encrypter, the chunk
-- that waits, the chunks that were read, and the exception of a chunk that could not be sealed.
pub record Loop : Type 0 where
  pub frames : List (List ℕ)
  pub encrypter : ChunkedResponseEncrypter
  pub pending : Option (List ℕ)
  pub plaintext_chunks : List (List ℕ)
  pub failure : Option ChunkError

-- What the generator has yielded when it ends, the exception that ended it, the cost context, and
-- whether the inner response was closed.
pub record Streamed : Type 0 where
  pub yielded : List (List ℕ)
  pub raised : Option StreamError
  pub context : Option CostContext
  pub closed : Bool

-- pending or b""
abbrev pub or_empty : Option (List ℕ) → List ℕ
or_empty none = []
or_empty (some chunk) = chunk

-- if billing_frame: yield billing_frame
abbrev pub shown : List ℕ → List (List ℕ)
shown [] = []
shown (b ∷ bs) = (b ∷ bs) ∷ []

module _ (aead : Aead) where
  -- The frame of the chunk that waits, if one does.
  abbrev pub seal_pending :
      ChunkedResponseEncrypter
      → Option (List ℕ)
      → Result ChunkError (List (List ℕ)) × ChunkedResponseEncrypter
  seal_pending e none = (ok [], e)
  seal_pending e (some chunk) =
      let sealed = encrypt_chunk aead e chunk false in
      (elim sealed.0 [ err x ↦ err x | ok frame ↦ ok (frame ∷ []) ], sealed.1)

  -- for chunk in sub_iter
  unfoldable pub stream_loop : ChunkedResponseEncrypter → Option (List ℕ) → List (List ℕ) → Loop
  stream_loop e pending [] = record {
    frames = [];
    encrypter = e;
    pending = pending;
    plaintext_chunks = [];
    failure = none;
  }
  stream_loop e pending ([] ∷ chunks) = stream_loop e pending chunks
  stream_loop e pending ((b ∷ bs) ∷ chunks) =
      let sealed = seal_pending e pending in
      let rest = stream_loop sealed.1 (some (b ∷ bs)) chunks in
      elim sealed.0 [
        | err x ↦ record {
          frames = [];
          encrypter = sealed.1;
          pending = pending;
          plaintext_chunks = (b ∷ bs) ∷ [];
          failure = some x;
        }
        | ok frames ↦ record rest {
          frames = frames ++ rest.frames;
          plaintext_chunks = (b ∷ bs) ∷ rest.plaintext_chunks;
        }
      ]

  module _ (codec : Codec) (kdf : Kdf) where
    -- The cost context of the `finally` clause, whatever ended the generator.
    abbrev pub finish :
        ℕ → Loop → List (List ℕ) → Option StreamError → Option CostContext → Streamed
    finish status loop yielded raised context = record {
      yielded = yielded;
      raised = raised;
      context = set_inner_stream_cost_context codec (join loop.plaintext_chunks) status context;
      closed = true;
    }

    -- Behind the loop: the billing frame, and the final chunk.
    abbrev pub last_frames :
        ChunkedResponseEncrypter
        → Option (List ℕ)
        → Option (List ℕ)
        → List (List ℕ) × Option StreamError
    last_frames e pending none = ([], some billing_overflow)
    last_frames e pending (some billing) = elim ((encrypt_chunk aead e (or_empty pending) true).0) [
      | err x ↦ (shown billing, some (sealing x))
      | ok final ↦ (shown billing ++ (final ∷ []), none)
    ]

    -- The generator from the end of its loop on; `header` is what it yielded before.
    unfoldable pub after_loop : List ℕ → ℕ → Bool → Option CostContext → Loop → Streamed
    after_loop header status raises context loop =
        let begun = header ∷ loop.frames in
        let response_json = parse_final_sse_json codec (join loop.plaintext_chunks) in
        let recorded = set_inner_cost_context none response_json (some status) context in
        let ending =
          last_frames loop.encrypter loop.pending (build_billing_frame codec response_json) in
        elim loop.failure [
          | some x ↦ finish status loop begun (some (sealing x)) context
          | none ↦
              if raises
              then finish status loop begun (some upstream_raised) context
              else finish status loop (begun ++ ending.0) ending.1 recorded
        ]

    -- The nonce is what the encrypter draws.
    unfoldable pub build_streaming_response :
        List ℕ → DecapsulatedRequest → ℕ → List (List ℕ) → Bool → Option CostContext → Streamed
    unfolding stream_loop after_loop
    build_streaming_response nonce decap status chunks raises context =
        let e = new_encrypter kdf nonce decap.response_key_chunked decap.enc in
        after_loop e.response_nonce status raises context (stream_loop e none chunks)
