-- ===== src/Ohttp/Stream.antt =====
-- A chunked response from the first chunk to the last: what `ChunkedResponseEncrypter` writes when
-- it is used as its documentation says, and what the client of scripts/test_ohttp.py reads.
pub mod Nonces
pub mod RoundTrip
use tee_gateway.Prelude.{
  ℕ, zero, suc, ◌+◌, ◌^◌, ◌≤◌, ◌<◌, ◌≡◌, refl, sym, ap, ◌∙◌, max, String, Option, none, some, List,
  [], ◌∷◌, ◌++◌, append_assoc, length, length-append, take, drop, All, Bool, true, false, arith,
  ltb, ◌==◌, if◌then◌else◌,
}
use tee_gateway.Prelude.Int.{pos}
use tee_gateway.Prelude.Result.{Result, ok, err}
use tee_gateway.Prelude.Text.{codes}
use tee_gateway.Ohttp.Varint.{encode_varint, read_varint}
use tee_gateway.Ohttp.Varint.RoundTrip.{varint_bytes, encode-varint_bytes, read-varint_bytes}
use tee_gateway.Ohttp.Crypto.{Aead, Kdf}
use tee_gateway.Ohttp.Exchange.{take-append_of_length, drop-append_of_length}
use tee_gateway.Ohttp.Response.{
  ChunkedResponseEncrypter, ChunkError, already_finalized, encrypt_chunk, length_prefix,
  chunk_nonce, new_encrypter, derive_response_keys,
}
use tee_gateway.Ohttp.Client.{
  Yielded, stop, yield_item, yield_or_stop, decrypt_chunks, decrypt_chunked_stream,
  client_response_keys,
}

-- A chunk whose sealed form has a length that the framing can write.
abbrev pub Fits : List ℕ → Type 0
Fits chunk = length chunk + 16 < 2 ^ 62

module _ (aead : Aead) where
  -- The loop of a caller: every chunk but the last as `is_final=False`, the last as `is_final=True`.
  unfoldable pub encrypt_all :
      ChunkedResponseEncrypter
      → List (List ℕ)
      → List ℕ
      → Result ChunkError (List ℕ) × ChunkedResponseEncrypter
  encrypt_all e [] last = encrypt_chunk aead e last true
  encrypt_all e (chunk ∷ chunks) last =
      let (r, e') = encrypt_chunk aead e chunk false in
      let (rs, e'') = encrypt_all e' chunks last in
      elim r [
        | err x ↦ (err x, e')
        | ok frame ↦ elim rs [ err x ↦ (err x, e'') | ok frames ↦ (ok (frame ++ frames), e'') ]
      ]

  module _ (key nonce : List ℕ) where
    abbrev pub sealed : ℕ → List ℕ → List ℕ → List ℕ
    sealed counter chunk aad = aead.encrypt key (chunk_nonce nonce counter) chunk aad

    -- The frames of non-final chunks, and what follows them.
    unfoldable pub body : ℕ → List (List ℕ) → List ℕ → List ℕ
    body counter [] tail = tail
    body counter (chunk ∷ chunks) tail =
        varint_bytes (length (sealed counter chunk []))
        ++ (sealed counter chunk [] ++ body (counter + 1) chunks tail)

    unfoldable pub final_frame : ℕ → List ℕ → List ℕ
    final_frame counter last = 0 ∷ sealed counter last (codes "final")
