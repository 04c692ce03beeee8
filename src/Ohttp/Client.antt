-- ===== src/Ohttp/Client.antt =====
-- The client of scripts/test_ohttp.py: `encapsulate_request`, `_derive_response_keys`,
-- `decrypt_single_shot` and `decrypt_chunked_stream`. A stream is the list of bytes not read yet.
use tee_gateway.Prelude.{
  ℕ, zero, suc, ◌+◌, max, String, Option, none, some, List, [], ◌∷◌, ◌++◌, length, take, drop, ◌==◌,
  if◌then◌else◌,
}
use tee_gateway.Prelude.Result.{ok, err}
use tee_gateway.Prelude.Text.{codes}
use tee_gateway.Ohttp.Bytes.{be_bytes}
use tee_gateway.Ohttp.Varint.{read_varint}
use tee_gateway.Ohttp.Crypto.{Hpke, Aead, Kdf}
use tee_gateway.Ohttp.Request.{
  label_request, kem_id_x25519, kdf_id_hkdf_sha256, aead_id_chacha20_poly1305, key_length,
  nonce_length,
}
use tee_gateway.Ohttp.Response.{chunk_nonce}

-- `hdr`
unfoldable pub client_header : ℕ → List ℕ
client_header key_id =
    key_id
    ∷ (be_bytes 2 kem_id_x25519
        ++ (be_bytes 2 kdf_id_hkdf_sha256 ++ be_bytes 2 aead_id_chacha20_poly1305))

module _ (suite : Hpke) where
  open suite use {Sender, create_sender_context, seal}

  -- (wire, sender, enc), or `none` where the suite raises.
  unfoldable pub client_encapsulate :
      List ℕ → List ℕ → ℕ → List ℕ → Option (List ℕ × Sender × List ℕ)
  unfolding client_header
  client_encapsulate seed public_key_raw key_id plaintext =
      let hdr = client_header key_id in
      elim (create_sender_context seed public_key_raw (label_request ++ (0 ∷ hdr))) [
        | none ↦ none
        | some (enc, sender) ↦ some (hdr ++ (enc ++ seal sender plaintext []), sender, enc)
      ]

module _ (kdf : Kdf) where
  unfoldable pub client_response_keys : List ℕ → List ℕ → List ℕ → List ℕ × List ℕ
  client_response_keys response_secret enc response_nonce =
      let prk = kdf.hmac_sha256 (enc ++ response_nonce) response_secret in
      (
        kdf.hkdf_expand prk (codes "key") key_length,
        kdf.hkdf_expand prk (codes "nonce") nonce_length,
      )

-- What a generator has yielded, and the exception that ended it, if one did.
pub record Yielded : Type 0 where
  pub items : List (List ℕ)
  pub raised : Option String

abbrev pub stop : String → Yielded
stop message = record { items = []; raised = some message }

abbrev pub yield_item : List ℕ → Yielded → Yielded
yield_item item rest = record rest { items = item ∷ rest.items }

-- `yield aead.decrypt(…)` with what the generator does behind it.
abbrev pub yield_or_stop : Option (List ℕ) → Yielded → Yielded
yield_or_stop none rest = stop "InvalidTag"
yield_or_stop (some item) rest = yield_item item rest

module _ (aead : Aead) (aead_key aead_nonce : List ℕ) where
  -- Each round reads a byte at least, so a fuel above the length of the stream is never used up.
  unfoldable pub decrypt_chunks : ℕ → ℕ → List ℕ → Yielded
  decrypt_chunks zero counter stream = stop "fuel"
  decrypt_chunks (suc fuel) counter stream =
      let nonce = chunk_nonce aead_nonce counter in
      elim (read_varint stream) [
        | err message ↦ stop message
        | ok (none, rest) ↦ stop "stream ended without AAD=final chunk"
        | ok (some n, rest) ↦
            let more = decrypt_chunks fuel (counter + 1) (drop n rest) in
            if n == 0
            then yield_or_stop (aead.decrypt aead_key nonce rest (codes "final"))
                (record { items = []; raised = none })
            else if length (take n rest) == n
            then yield_or_stop (aead.decrypt aead_key nonce (take n rest) []) more
            else stop "truncated chunk ciphertext"
      ]

-- The secrets are those that the sender context exports under the two labels.
module _ (kdf : Kdf) (aead : Aead) where
  unfoldable pub decrypt_single_shot : List ℕ → List ℕ → List ℕ → Option (List ℕ)
  unfolding client_response_keys
  decrypt_single_shot response_secret enc sealed =
      let nonce_len = max nonce_length key_length in
      let keys = client_response_keys kdf response_secret enc (take nonce_len sealed) in
      aead.decrypt keys.0 keys.1 (drop nonce_len sealed) []

  unfoldable pub decrypt_chunked_stream : List ℕ → List ℕ → List ℕ → Yielded
  unfolding client_response_keys decrypt_chunks
  decrypt_chunked_stream response_secret enc raw_stream =
      let nonce_len = max nonce_length key_length in
      let response_nonce = take nonce_len raw_stream in
      let keys = client_response_keys kdf response_secret enc response_nonce in
      let rest = drop nonce_len raw_stream in
      if length response_nonce == nonce_len
      then decrypt_chunks aead keys.0 keys.1 (suc (length rest)) 0 rest
      else stop "truncated response_nonce"
