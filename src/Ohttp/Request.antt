-- ===== src/Ohttp/Request.antt =====
-- `_header_bytes`, `key_config`, `DecapsulatedRequest` and `decapsulate_request` of
-- tee_gateway/ohttp.py.
pub mod Wire
use tee_gateway.Prelude.{
  ℕ, ◌+◌, ◌≡◌, max, String, Option, none, some, List, [], ◌∷◌, ◌++◌, length, take, drop, Bool, ◌&&◌,
  ltb, ◌==◌, if◌then◌else◌,
}
use tee_gateway.Prelude.Result.{Result, ok, err}
use tee_gateway.Prelude.Text.{codes}
use tee_gateway.Ohttp.Bytes.{byte_at, be_bytes, from_be}
use tee_gateway.Ohttp.Crypto.{Hpke}

-- RFC 9180 / 9458 algorithm identifiers
abbrev pub kem_id_x25519 : ℕ
kem_id_x25519 = 0x0020

abbrev pub kdf_id_hkdf_sha256 : ℕ
kdf_id_hkdf_sha256 = 0x0001

abbrev pub aead_id_chacha20_poly1305 : ℕ
aead_id_chacha20_poly1305 = 0x0003

abbrev pub key_config_id : ℕ
key_config_id = 0x01

-- `_NK` and `_NN`
abbrev pub key_length : ℕ
key_length = 32

abbrev pub nonce_length : ℕ
nonce_length = 12

abbrev pub label_request : List ℕ
label_request = codes "message/bhttp request"

abbrev pub label_response : List ℕ
label_response = codes "message/bhttp response"

abbrev pub label_chunked_response : List ℕ
label_chunked_response = codes "message/bhttp chunked response"

unfoldable pub header_bytes : ℕ → List ℕ
header_bytes key_id =
    key_id
    ∷ (be_bytes 2 kem_id_x25519
        ++ (be_bytes 2 kdf_id_hkdf_sha256 ++ be_bytes 2 aead_id_chacha20_poly1305))

unfoldable pub key_config : List ℕ → ℕ → Result String (List ℕ)
key_config public_key_raw key_id =
    let symmetric = be_bytes 2 kdf_id_hkdf_sha256 ++ be_bytes 2 aead_id_chacha20_poly1305 in
    if length public_key_raw == 32
    then ok (
        key_id
        ∷ (be_bytes 2 kem_id_x25519
            ++ (public_key_raw ++ (be_bytes 2 (length symmetric) ++ symmetric))))
    else err "X25519 public key must be 32 bytes"

pub record DecapsulatedRequest : Type 0 where
  pub plaintext : List ℕ
  pub response_key : List ℕ
  pub response_key_chunked : List ℕ
  pub enc : List ℕ

-- The tuple of identifiers of a header equals the one that the enclave serves.
unfoldable pub is_supported : List ℕ → Bool
is_supported request =
    byte_at request 0 == key_config_id
    && (from_be (take 2 (drop 1 request)) == kem_id_x25519
        && (from_be (take 2 (drop 3 request)) == kdf_id_hkdf_sha256
            && from_be (take 2 (drop 5 request)) == aead_id_chacha20_poly1305))

module _ (suite : Hpke) where
  open suite use {
    PrivateKey, Recipient, create_recipient_context, open_ciphertext, export_recipient,
  }

  -- The `try` block: the context and the plaintext, if neither call raises.
  unfoldable pub open_request : PrivateKey → List ℕ → List ℕ → List ℕ → Option (Recipient × List ℕ)
  open_request private_key enc info aead_ct = elim (create_recipient_context enc private_key info) [
    | none ↦ none
    | some recipient ↦ elim (open_ciphertext recipient aead_ct []) [
      | none ↦ none
      | some plaintext ↦ some (recipient, plaintext)
    ]
  ]

  unfoldable pub decapsulate_request : PrivateKey → List ℕ → Result String DecapsulatedRequest
  decapsulate_request private_key request =
      let enc = take 32 (drop 7 request) in
      let aead_ct = drop (7 + 32) request in
      let info = label_request ++ (0 ∷ header_bytes (byte_at request 0)) in
      let export_len = max nonce_length key_length in
      if ltb (length request) (7 + 32 + 16)
      then err "encapsulated request too short"
      else if is_supported request
      then elim (open_request private_key enc info aead_ct) [
        | none ↦ err "HPKE decapsulation failed"
        | some (recipient, plaintext) ↦ ok (record {
          plaintext = plaintext;
          response_key = export_recipient recipient label_response export_len;
          response_key_chunked = export_recipient recipient label_chunked_response export_len;
          enc = enc;
        })
      ]
      else err "unsupported HPKE configuration"
