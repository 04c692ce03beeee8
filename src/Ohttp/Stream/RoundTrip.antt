-- ===== src/Ohttp/Stream/RoundTrip.antt =====
-- What the encrypter writes for a whole response, and what the client reads of it.
use tee_gateway.Prelude.{
  ℕ, suc, ◌+◌, ◌-◌, ◌^◌, ◌≤◌, ◌<◌, ◌≡◌, refl, ap, ◌∙◌, String, none, some, List, [], ◌∷◌, ◌++◌,
  append_assoc, length, length-append, All, Bool, true, false, arith,
}
use tee_gateway.Prelude.Result.{ok, err}
use tee_gateway.Prelude.Text.{codes}
use tee_gateway.Ohttp.Varint.{encode_varint, read_varint}
use tee_gateway.Ohttp.Varint.RoundTrip.{varint_bytes, encode-varint_bytes, read-varint_bytes}
use tee_gateway.Ohttp.Crypto.{Aead, Kdf}
use tee_gateway.Ohttp.Exchange.{take-append_of_length, drop-append_of_length}
use tee_gateway.Ohttp.Response.{
  ChunkedResponseEncrypter, already_finalized, encrypt_chunk, chunk_nonce, new_encrypter,
  derive_response_keys,
}
use tee_gateway.Ohttp.Client.{Yielded, stop, yield_item, decrypt_chunks, decrypt_chunked_stream}
use tee_gateway.Ohttp.Stream.{Fits, encrypt_all, sealed, body, final_frame}

-- The items of a generator that yields `chunks` before it goes on as `rest`.
pub yield_all : List (List ℕ) → Yielded → Yielded
yield_all [] rest = rest
yield_all (chunk ∷ chunks) rest = yield_item chunk (yield_all chunks rest)

module _ (aead : Aead) where
  pub encrypt_chunk-open :
      (e : ChunkedResponseEncrypter) (chunk : List ℕ)
      → e.finalized ≡ false
      → e.counter < 256 ^ 12
      → Fits chunk
      → encrypt_chunk aead e chunk false ≡ (
        ok (
            varint_bytes (length (sealed aead e.aead_key e.aead_nonce e.counter chunk []))
            ++ sealed aead e.aead_key e.aead_nonce e.counter chunk []),
        record e { counter = e.counter + 1 },
      )
  unfolding encrypt_chunk
  encrypt_chunk-open e chunk hf hc fits =
      let ct = sealed aead e.aead_key e.aead_nonce e.counter chunk [] in
      let short : length ct < 2 ^ 62 =
        omega
          (arith, aead.length-encrypt e.aead_key (chunk_nonce e.aead_nonce e.counter) chunk []) in
      ground (arith, encode-varint_bytes (length ct) short)

  pub encrypt_chunk-final :
      (e : ChunkedResponseEncrypter) (last : List ℕ)
      → e.finalized ≡ false
      → e.counter < 256 ^ 12
      → encrypt_chunk aead e last true ≡ (
        ok (final_frame aead e.aead_key e.aead_nonce e.counter last),
        record e { counter = e.counter + 1; finalized = true },
      )
  unfolding encrypt_chunk final_frame encode_varint
  encrypt_chunk-final e last hf hc = ground arith

  -- A fresh encrypter that gets any chunks and then a final one writes the frames in order and is
  -- finalized, with one count for each chunk.
  pub encrypt_all_lem :
      (chunks : List (List ℕ)) (e : ChunkedResponseEncrypter) (last : List ℕ)
      → e.finalized ≡ false
      → e.counter + length chunks < 256 ^ 12
      → All Fits chunks
      → encrypt_all aead e chunks last ≡ (
        ok (
            body aead e.aead_key e.aead_nonce e.counter chunks
              (final_frame aead e.aead_key e.aead_nonce (e.counter + length chunks) last)),
        record e { counter = e.counter + length chunks + 1; finalized = true },
      )
  unfolding encrypt_all body
  encrypt_all_lem [] e last hf hc fits = ground (arith, encrypt_chunk-final e last hf (omega arith))
  encrypt_all_lem (chunk ∷ chunks) e last hf hc fits =
      let counted : ChunkedResponseEncrypter = record e { counter = e.counter + 1 } in
      let ct = sealed aead e.aead_key e.aead_nonce e.counter chunk [] in
      let rest =
        body aead e.aead_key e.aead_nonce (e.counter + 1) chunks
          (final_frame aead e.aead_key e.aead_nonce (e.counter + 1 + length chunks) last) in
      ground (
        arith,
        encrypt_chunk-open e chunk hf (omega arith) fits.0,
        encrypt_all_lem chunks counted last hf (omega arith) fits.1,
        append_assoc (varint_bytes (length ct)) ct rest,
      )

  module _ (key nonce : List ℕ) where
    decrypt_step :
        (fuel counter : ℕ) (chunk rest : List ℕ)
        → Fits chunk
        → (let ct = sealed aead key nonce counter chunk [] in
            decrypt_chunks aead key nonce
              (suc fuel)
              counter
              (varint_bytes (length ct) ++ (ct ++ rest)))
          ≡ yield_item chunk (decrypt_chunks aead key nonce fuel (counter + 1) rest)
    unfolding decrypt_chunks
    decrypt_step fuel counter chunk rest fits =
        let ct = sealed aead key nonce counter chunk [] in
        let size : length ct ≡ length chunk + 16 =
          aead.length-encrypt key (chunk_nonce nonce counter) chunk [] in
        ground (
          arith,
          read-varint_bytes (length ct) (ct ++ rest),
          take-append_of_length (length ct) ct rest refl,
          drop-append_of_length (length ct) ct rest refl,
          aead.decrypt-encrypt key (chunk_nonce nonce counter) chunk [],
        )

    decrypt_chunks-body :
        (chunks : List (List ℕ)) (fuel counter : ℕ) (tail : List ℕ)
        → All Fits chunks
        → decrypt_chunks aead key nonce
            (length chunks + fuel)
            counter
            (body aead key nonce counter chunks tail)
          ≡ yield_all chunks (decrypt_chunks aead key nonce fuel (counter + length chunks) tail)
    unfolding yield_all body
    decrypt_chunks-body [] fuel counter tail fits = ground arith
    decrypt_chunks-body (chunk ∷ chunks) fuel counter tail fits = ground (
      arith,
      decrypt_step (length chunks + fuel) counter chunk
          (body aead key nonce (counter + 1) chunks tail) fits.0,
      decrypt_chunks-body chunks fuel (counter + 1) tail fits.1,
    )

    decrypt_chunks-final :
        (fuel counter : ℕ) (last : List ℕ)
        → decrypt_chunks aead key nonce (suc fuel) counter (final_frame aead key nonce counter last)
          ≡ record { items = last ∷ []; raised = none }
    unfolding decrypt_chunks final_frame read_varint
    decrypt_chunks-final fuel counter last =
        ground (arith, aead.decrypt-encrypt key (chunk_nonce nonce counter) last (codes "final"))

    decrypt_chunks-end :
        (fuel counter : ℕ)
        → decrypt_chunks aead key nonce (suc fuel) counter []
          ≡ stop "stream ended without AAD=final chunk"
    unfolding decrypt_chunks read_varint
    decrypt_chunks-end fuel counter = refl

    body-length :
        (counter : ℕ) (chunks : List (List ℕ)) (tail : List ℕ)
        → length chunks + length tail ≤ length (body aead key nonce counter chunks tail)
    unfolding body
    body-length counter [] tail = omega arith
    body-length counter (chunk ∷ chunks) tail =
        let ct = sealed aead key nonce counter chunk [] in
        let rest = body aead key nonce (counter + 1) chunks tail in
        omega (
          arith,
          aead.length-encrypt key (chunk_nonce nonce counter) chunk [],
          length-append (varint_bytes (length ct)) (ct ++ rest),
          length-append ct rest,
          body-length (counter + 1) chunks tail,
        )

    -- The client's own fuel, one more than the bytes of the stream, is enough for the frames.
    decrypt_chunks-whole :
        (chunks : List (List ℕ)) (tail : List ℕ)
        → All Fits chunks
        → (let stream = body aead key nonce 0 chunks tail in
            decrypt_chunks aead key nonce (suc (length stream)) 0 stream)
          ≡ yield_all chunks (
              decrypt_chunks aead key nonce
                (suc (length (body aead key nonce 0 chunks tail) - length chunks))
                (length chunks)
                tail)
    decrypt_chunks-whole chunks tail fits =
        let n = length (body aead key nonce 0 chunks tail) in
        let split : suc n ≡ length chunks + suc (n - length chunks) =
          omega (arith, body-length 0 chunks tail) in
        ground (arith, split, decrypt_chunks-body chunks (suc (n - length chunks)) 0 tail fits)

refused :
    (aead : Aead) (e : ChunkedResponseEncrypter)
    → e.finalized ≡ true
    → (more : List ℕ) (is_final : Bool)
    → encrypt_chunk aead e more is_final ≡ (err already_finalized, e)
unfolding encrypt_chunk
refused aead e h more is_final = ground arith

yield_all-done :
    (chunks : List (List ℕ)) (last : List ℕ)
    → yield_all chunks (record { items = last ∷ []; raised = none })
      ≡ record { items = chunks ++ (last ∷ []); raised = none }
unfolding yield_all
yield_all-done [] last = refl
yield_all-done (chunk ∷ chunks) last = ap (yield_item chunk) (yield_all-done chunks last)

yield_all-stop :
    (chunks : List (List ℕ)) (message : String)
    → yield_all chunks (stop message) ≡ record { items = chunks; raised = some message }
unfolding yield_all
yield_all-stop [] message = refl
yield_all-stop (chunk ∷ chunks) message = ap (yield_item chunk) (yield_all-stop chunks message)

module _ (kdf : Kdf) (aead : Aead) (secret enc nonce : List ℕ) (drawn : length nonce ≡ 32) where
  client_reads :
      (stream : List ℕ)
      → (let keys = derive_response_keys kdf secret enc nonce in
          decrypt_chunked_stream kdf aead secret enc (nonce ++ stream)
          ≡ decrypt_chunks aead keys.0 keys.1 (suc (length stream)) 0 stream)
  unfolding decrypt_chunked_stream derive_response_keys
  client_reads stream = ground (
    arith,
    take-append_of_length 32 nonce stream drawn,
    drop-append_of_length 32 nonce stream drawn,
  )

  -- The client reads the frames of the chunks and the final frame.
  pub decrypt-body :
      (chunks : List (List ℕ)) (last : List ℕ)
      → All Fits chunks
      → (let e = new_encrypter kdf nonce secret enc in
          decrypt_chunked_stream kdf aead secret enc (
            nonce
            ++ body aead e.aead_key e.aead_nonce 0 chunks
                (final_frame aead e.aead_key e.aead_nonce (length chunks) last)))
        ≡ record { items = chunks ++ (last ∷ []); raised = none }
  unfolding new_encrypter
  decrypt-body chunks last fits =
      let e = new_encrypter kdf nonce secret enc in
      let tail = final_frame aead e.aead_key e.aead_nonce (length chunks) last in
      client_reads _
      ∙ decrypt_chunks-whole aead e.aead_key e.aead_nonce chunks tail fits
      ∙ ap (yield_all chunks)
          (decrypt_chunks-final aead e.aead_key e.aead_nonce _ (length chunks) last)
      ∙ yield_all-done chunks last

  -- The encrypter of a response of fewer than 2^96 chunks, of lengths that the framing can write, with a
  -- nonce of 32 bytes, raises nothing and ends finalized, after which every further chunk is refused; the
  -- client that reads its header and frames yields exactly the chunks, in order, and ends without an
  -- exception.
  pub decrypt-encrypt_all :
      (chunks : List (List ℕ)) (last : List ℕ)
      → length chunks < 256 ^ 12
      → All Fits chunks
      → (frames : List ℕ) × (e : ChunkedResponseEncrypter) × (encrypt_all aead
            (new_encrypter kdf nonce secret enc)
            chunks
            last
          ≡ (ok frames, e))
        × (decrypt_chunked_stream kdf aead secret enc (nonce ++ frames)
            ≡ record { items = chunks ++ (last ∷ []); raised = none })
        × ((more : List ℕ) (is_final : Bool)
            → encrypt_chunk aead e more is_final ≡ (err already_finalized, e))
  unfolding new_encrypter
  decrypt-encrypt_all chunks last short fits =
      let e = new_encrypter kdf nonce secret enc in
      let tail = final_frame aead e.aead_key e.aead_nonce (length chunks) last in
      let done : ChunkedResponseEncrypter = record e {
        counter = length chunks + 1;
        finalized = true;
      } in
      (
        body aead e.aead_key e.aead_nonce 0 chunks tail,
        done,
        ground (arith, encrypt_all_lem aead chunks e last refl (omega arith) fits),
        decrypt-body chunks last fits,
        refused aead done refl,
      )

  -- A response that starts with a nonce of 32 bytes and is cut after any number of non-final frames, of
  -- lengths that the framing can write: the client yields the chunks that arrived and then raises, so
  -- the cut does not pass for the end.
  pub truncation_detected :
      (chunks : List (List ℕ))
      → All Fits chunks
      → (let e = new_encrypter kdf nonce secret enc in
          decrypt_chunked_stream kdf aead secret enc
            (nonce ++ body aead e.aead_key e.aead_nonce 0 chunks []))
        ≡ record { items = chunks; raised = some "stream ended without AAD=final chunk" }
  unfolding new_encrypter
  truncation_detected chunks fits =
      let e = new_encrypter kdf nonce secret enc in
      client_reads _
      ∙ decrypt_chunks-whole aead e.aead_key e.aead_nonce chunks [] fits
      ∙ ap (yield_all chunks) (decrypt_chunks-end aead e.aead_key e.aead_nonce _ (length chunks))
      ∙ yield_all-stop chunks _
