-- ===== src/Ohttp/Tests.antt =====
-- Concrete runs of the OHTTP layer, and its theorems at concrete inputs.
use tee_gateway.Prelude.{
  ℕ, ◌+◌, ◌^◌, ◌≤◌, ◌<◌, ◌≡◌, refl, List, [], ◌∷◌, ◌++◌, length, All, some, none, Bool, arith,
}
use tee_gateway.Prelude.Int.{pos}
use tee_gateway.Prelude.Result.{ok, err}
use tee_gateway.Ohttp.Bytes.{IsByte, be_bytes}
use tee_gateway.Ohttp.Varint.{encode_varint, decode_varint, read_varint}
use tee_gateway.Ohttp.Varint.RoundTrip.{decode-encode, read-encode}
use tee_gateway.Ohttp.Varint.Bounds.{encode_varint-cases, decode_varint_bounds, varint_width}
use tee_gateway.Ohttp.Request.{decapsulate_request, is_supported}
use tee_gateway.Ohttp.Request.Wire.{Accepted, decapsulate_request-Accepted}
use tee_gateway.Ohttp.Response.{
  encapsulate_response, encrypt_chunk, ChunkedResponseEncrypter, already_finalized, new_encrypter,
}
use tee_gateway.Ohttp.Client.{client_encapsulate, decrypt_single_shot, decrypt_chunked_stream}
use tee_gateway.Ohttp.Exchange.{delivered, decapsulate-encapsulate, decrypt-encapsulate}
use tee_gateway.Ohttp.Stream.{encrypt_all, body}
use tee_gateway.Ohttp.Stream.Nonces.{chunk_nonce_injective}
use tee_gateway.Ohttp.Stream.RoundTrip.{decrypt-encrypt_all, truncation_detected}
use tee_gateway.Ohttp.Toy.{toy_hpke, toy_aead, toy_kdf, toy_enc, with_tag}

-- RFC 9000, appendix A.1.
varint_eight :
    decode_varint (0xc2 ∷ 0x19 ∷ 0x7c ∷ 0x5e ∷ 0xff ∷ 0x14 ∷ 0xe8 ∷ 0x8c ∷ []) 0
    ≡ ok (151288809941952652, 8)
unfolding decode_varint
varint_eight = refl

varint_two : encode_varint (pos 15293) ≡ ok (0x7b ∷ 0xbd ∷ [])
unfolding encode_varint
varint_two = refl

decode-encode_example :
    (bs : List ℕ) × (encode_varint (pos 15293) ≡ ok bs)
    × (decode_varint ((1 ∷ []) ++ (bs ++ (2 ∷ []))) 1 ≡ ok (15293, 1 + length bs))
decode-encode_example = decode-encode 15293 (1 ∷ []) (2 ∷ []) (omega arith)

read-encode_instance :
    (bs : List ℕ) × (encode_varint (pos 15293) ≡ ok bs)
    × (read_varint (bs ++ (2 ∷ [])) ≡ ok (some 15293, 2 ∷ []))
read-encode_instance = read-encode 15293 (2 ∷ []) (omega arith)

encode_varint-cases_instance :
    (15293 < 2 ^ 62
      → (bs : List ℕ) × (encode_varint (pos 15293) ≡ ok bs)
        × All IsByte bs
        × (length bs ≡ varint_width 15293))
    × (2 ^ 62 ≤ 15293 → encode_varint (pos 15293) ≡ err "varint value exceeds 2^62-1")
encode_varint-cases_instance = encode_varint-cases 15293

decode_varint_bounds_instance : (15293 < 2 ^ 62) × (1 < 3) × (3 ≤ 4)
unfolding decode_varint
decode_varint_bounds_instance =
    decode_varint_bounds (1 ∷ 0x7b ∷ 0xbd ∷ 0 ∷ []) 1 15293 3 (omega arith) refl

abbrev wire : List ℕ
wire = 1 ∷ 0 ∷ 32 ∷ 0 ∷ 1 ∷ 0 ∷ 3 ∷ (toy_enc ++ with_tag (4 ∷ 2 ∷ []))

decapsulate-encapsulate_example :
    decapsulate_request toy_hpke 5 wire ≡ ok (delivered toy_hpke tt toy_enc (4 ∷ 2 ∷ []))
unfolding client_encapsulate
decapsulate-encapsulate_example =
    decapsulate-encapsulate toy_hpke 5 [] (4 ∷ 2 ∷ []) wire toy_enc tt refl

decapsulate_request-Accepted_example :
    Accepted toy_hpke 5 wire (delivered toy_hpke tt toy_enc (4 ∷ 2 ∷ []))
decapsulate_request-Accepted_example =
    decapsulate_request-Accepted toy_hpke 5 wire (delivered toy_hpke tt toy_enc (4 ∷ 2 ∷ []))
      (omega arith) decapsulate-encapsulate_example

unsupported : decapsulate_request toy_hpke 5 (2 ∷ wire) ≡ err "unsupported HPKE configuration"
unfolding decapsulate_request is_supported
unsupported = refl

decrypt-encapsulate_instance :
    decrypt_single_shot toy_kdf toy_aead [] toy_enc
      (encapsulate_response toy_kdf toy_aead (be_bytes 32 3) [] toy_enc (8 ∷ []))
    ≡ some (8 ∷ [])
decrypt-encapsulate_instance =
    decrypt-encapsulate toy_kdf toy_aead (be_bytes 32 3) [] toy_enc (8 ∷ []) refl

chunk_nonce_injective_instance : 5 ≡ 5 + 0
chunk_nonce_injective_instance =
    chunk_nonce_injective (be_bytes 12 77) 5 (5 + 0) (omega arith) refl (omega arith) (omega arith)
      refl

decrypt-encrypt_all_example :
    (frames : List ℕ) × (e : ChunkedResponseEncrypter) × (encrypt_all toy_aead
        (new_encrypter toy_kdf (be_bytes 32 3) [] toy_enc)
        ((8 ∷ 9 ∷ []) ∷ [])
        []
      ≡ (ok frames, e))
    × (decrypt_chunked_stream toy_kdf toy_aead [] toy_enc (be_bytes 32 3 ++ frames)
        ≡ record { items = (8 ∷ 9 ∷ []) ∷ [] ∷ []; raised = none })
    × ((more : List ℕ) (is_final : Bool)
        → encrypt_chunk toy_aead e more is_final ≡ (err already_finalized, e))
decrypt-encrypt_all_example =
    decrypt-encrypt_all toy_kdf toy_aead [] toy_enc (be_bytes 32 3) refl ((8 ∷ 9 ∷ []) ∷ []) []
      (omega arith) (omega arith)

truncation_detected_example :
    (let e = new_encrypter toy_kdf (be_bytes 32 3) [] toy_enc in
      decrypt_chunked_stream toy_kdf toy_aead [] toy_enc
        (be_bytes 32 3 ++ body toy_aead e.aead_key e.aead_nonce 0 ((8 ∷ 9 ∷ []) ∷ []) []))
    ≡ record { items = (8 ∷ 9 ∷ []) ∷ []; raised = some "stream ended without AAD=final chunk" }
truncation_detected_example =
    truncation_detected toy_kdf toy_aead [] toy_enc (be_bytes 32 3) refl ((8 ∷ 9 ∷ []) ∷ [])
      (omega arith)
