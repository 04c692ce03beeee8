-- ===== src/OhttpController/Streaming/Frames.antt =====
-- What the loop of the streaming response yields, as the frames of the chunked encrypter.
use tee_gateway.Prelude.{
  ℕ, suc, ◌+◌, ◌^◌, ◌<◌, ◌≡◌, refl, ap, ◌∙◌, List, [], ◌∷◌, ◌++◌, append_assoc, length, All, false,
  none, some, arith,
}
use tee_gateway.Ohttp.Varint.RoundTrip.{varint_bytes}
use tee_gateway.Ohttp.Crypto.{Aead}
use tee_gateway.Ohttp.Response.{ChunkedResponseEncrypter}
use tee_gateway.Ohttp.Stream.{Fits, sealed, body}
use tee_gateway.Ohttp.Stream.RoundTrip.{encrypt_chunk-open}
use tee_gateway.OhttpController.Streaming.{join, stream_loop}

-- The chunks that are not empty.
abbrev pub solid : List (List ℕ) → List (List ℕ)
solid [] = []
solid ([] ∷ chunks) = solid chunks
solid ((b ∷ bs) ∷ chunks) = (b ∷ bs) ∷ solid chunks

-- The chunks but the last, and the last, of a list with a first chunk.
abbrev pub init : List ℕ → List (List ℕ) → List (List ℕ)
init first [] = []
init first (chunk ∷ chunks) = first ∷ init chunk chunks

abbrev pub last : List ℕ → List (List ℕ) → List ℕ
last first [] = first
last first (chunk ∷ chunks) = last chunk chunks

pub init-last :
    (first : List ℕ) (chunks : List (List ℕ))
    → init first chunks ++ (last first chunks ∷ []) ≡ first ∷ chunks
init-last first [] = refl
init-last first (chunk ∷ chunks) = ap (λ (l : List (List ℕ)). first ∷ l) (init-last chunk chunks)

pub length-init :
    (first : List ℕ) (chunks : List (List ℕ)) → length (init first chunks) ≡ length chunks
length-init first [] = refl
length-init first (chunk ∷ chunks) = ap suc (length-init chunk chunks)

pub init-Fits :
    (first : List ℕ) (chunks : List (List ℕ))
    → Fits first
    → All Fits chunks
    → All Fits (init first chunks)
init-Fits first [] fits others = tt
init-Fits first (chunk ∷ chunks) fits others = (fits, init-Fits chunk chunks others.0 others.1)

module _ (aead : Aead) where
  module _ (key nonce : List ℕ) where
    abbrev pub frames_of : ℕ → List (List ℕ) → List (List ℕ)
    frames_of counter [] = []
    frames_of counter (chunk ∷ chunks) =
        (varint_bytes (length (sealed aead key nonce counter chunk []))
          ++ sealed aead key nonce counter chunk [])
        ∷ frames_of (counter + 1) chunks

    pub join-frames_of :
        (chunks : List (List ℕ)) (counter : ℕ) (tail : List ℕ)
        → join (frames_of counter chunks) ++ tail ≡ body aead key nonce counter chunks tail
    unfolding body
    join-frames_of [] counter tail = refl
    join-frames_of (chunk ∷ chunks) counter tail =
        let ct = sealed aead key nonce counter chunk [] in
        let later = join (frames_of (counter + 1) chunks) in
        append_assoc (varint_bytes (length ct) ++ ct) later tail
        ∙ append_assoc (varint_bytes (length ct)) ct (later ++ tail)
        ∙ ap (λ (rest : List ℕ). varint_bytes (length ct) ++ (ct ++ rest))
            (join-frames_of chunks (counter + 1) tail)

  -- The loop with a chunk that waits: one frame for each chunk but the last, which waits at the end.
  pub stream_loop_lem :
      (chunks : List (List ℕ)) (e : ChunkedResponseEncrypter) (first : List ℕ) (m : ℕ)
      → e.finalized ≡ false
      → m ≡ e.counter + length (solid chunks)
      → m < 256 ^ 12
      → All Fits (init first (solid chunks))
      → stream_loop aead e (some first) chunks ≡ record {
        frames = frames_of e.aead_key e.aead_nonce e.counter (init first (solid chunks));
        encrypter = record e { counter = m };
        pending = some (last first (solid chunks));
        plaintext_chunks = solid chunks;
        failure = none;
      }
  unfolding stream_loop
  stream_loop_lem [] e first m open_e at short fits =
      let same : m ≡ e.counter = omega (arith, at) in ground (arith, same)
  stream_loop_lem ([] ∷ chunks) e first m open_e at short fits =
      stream_loop_lem chunks e first m open_e at short fits
  stream_loop_lem ((b ∷ bs) ∷ chunks) e first m open_e at short fits =
      let counted : ChunkedResponseEncrypter = record e { counter = e.counter + 1 } in
      ground (
        arith,
        encrypt_chunk-open aead e first open_e (omega (arith, at)) fits.0,
        stream_loop_lem chunks counted (b ∷ bs) m open_e (omega (arith, at)) short fits.1,
      )
