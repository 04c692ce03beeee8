-- ===== src/Ohttp/Response.antt =====
-- The response half of tee_gateway/ohttp.py: `_derive_response_keys`, `encapsulate_response` and
-- `ChunkedResponseEncrypter`. `os.urandom(32)` is an argument, the response nonce.
use tee_gateway.Prelude.{
  ℕ, ◌+◌, ◌^◌, String, List, [], ◌∷◌, ◌++◌, length, Bool, true, false, ltb, if◌then◌else◌, bit_xor,
}
use tee_gateway.Prelude.Int.{pos}
use tee_gateway.Prelude.Result.{Result, ok, err}
use tee_gateway.Prelude.Text.{codes}
use tee_gateway.Ohttp.Bytes.{be_bytes}
use tee_gateway.Ohttp.Varint.{encode_varint}
use tee_gateway.Ohttp.Crypto.{Aead, Kdf}
use tee_gateway.Ohttp.Request.{key_length, nonce_length}

-- The exceptions that `encrypt_chunk` raises.
pub data ChunkError : Type 0 where
  already_finalized counter_overflow : ChunkError
  bad_varint : String → ChunkError

-- bytes(a ^ b for a, b in zip(xs, ys))
unfoldable pub xor_bytes : List ℕ → List ℕ → List ℕ
xor_bytes [] ys = []
xor_bytes (x ∷ xs) [] = []
xor_bytes (x ∷ xs) (y ∷ ys) = bit_xor x y ∷ xor_bytes xs ys

unfoldable pub chunk_nonce : List ℕ → ℕ → List ℕ
unfolding xor_bytes
chunk_nonce aead_nonce counter = xor_bytes aead_nonce (be_bytes nonce_length counter)

abbrev pub chunk_aad : Bool → List ℕ
chunk_aad is_final = if is_final then codes "final" else []

pub record ChunkedResponseEncrypter : Type 0 where
  pub response_nonce : List ℕ
  pub aead_key : List ℕ
  pub aead_nonce : List ℕ
  pub counter : ℕ
  pub finalized : Bool

module _ (kdf : Kdf) where
  unfoldable pub derive_response_keys : List ℕ → List ℕ → List ℕ → List ℕ × List ℕ
  derive_response_keys response_secret enc response_nonce =
      let prk = kdf.hmac_sha256 (enc ++ response_nonce) response_secret in
      (
        kdf.hkdf_expand prk (codes "key") key_length,
        kdf.hkdf_expand prk (codes "nonce") nonce_length,
      )

  -- __init__
  unfoldable pub new_encrypter : List ℕ → List ℕ → List ℕ → ChunkedResponseEncrypter
  unfolding derive_response_keys
  new_encrypter response_nonce response_secret enc =
      let keys = derive_response_keys response_secret enc response_nonce in
      record {
        response_nonce = response_nonce;
        aead_key = keys.0;
        aead_nonce = keys.1;
        counter = 0;
        finalized = false;
      }

  unfoldable pub encapsulate_response : Aead → List ℕ → List ℕ → List ℕ → List ℕ → List ℕ
  unfolding derive_response_keys
  encapsulate_response aead response_nonce response_secret enc plaintext =
      let keys = derive_response_keys response_secret enc response_nonce in
      response_nonce ++ aead.encrypt keys.0 keys.1 plaintext []

module _ (aead : Aead) where
  abbrev pub sealed_chunk : ChunkedResponseEncrypter → List ℕ → Bool → List ℕ
  sealed_chunk e plaintext is_final =
      aead.encrypt e.aead_key (chunk_nonce e.aead_nonce e.counter) plaintext (chunk_aad is_final)

  -- `length_prefix`
  unfoldable pub length_prefix : Bool → List ℕ → Result String (List ℕ)
  length_prefix is_final sealed =
      if is_final then encode_varint (pos 0) else encode_varint (pos (length sealed))

  -- What was written to the object before a raise stays written: the counter moves on before the
  -- length is encoded.
  unfoldable pub encrypt_chunk :
      ChunkedResponseEncrypter
      → List ℕ
      → Bool
      → Result ChunkError (List ℕ) × ChunkedResponseEncrypter
  unfolding length_prefix
  encrypt_chunk e plaintext is_final =
      let sealed = sealed_chunk e plaintext is_final in
      let counted : ChunkedResponseEncrypter = record e { counter = e.counter + 1 } in
      if e.finalized
      then (err already_finalized, e)
      else if ltb e.counter (256 ^ nonce_length)
      then elim (length_prefix is_final sealed) [
        | err message ↦ (err (bad_varint message), counted)
        | ok prefix ↦ (
          ok (prefix ++ sealed),
          if is_final then record counted { finalized = true } else counted,
        )
      ]
      else (err counter_overflow, e)
