-- ===== src/Attestation.antt =====
-- tee_gateway/tee_manager.py: the hashes that the enclave signs, and the documents with them.
-- Keccak, the RSA-PSS signature and base64 are arguments.
mod Hex
pub mod Laws
mod Config
mod Document
mod Tests
unfoldable pub use Hex.*
use tee_gateway.Prelude.{
  ℕ, ◌+◌, ◌^◌, List, [], ◌∷◌, ◌++◌, length, Option, none, some, String, ltb, ◌==◌, if◌then◌else◌,
}
use tee_gateway.Prelude.Result.{Result, ok, err, ◌>>=◌}
use tee_gateway.Prelude.Text.{Text, codes}
use tee_gateway.Ohttp.Bytes.{be_bytes}
use tee_gateway.Ohttp.Request.{
  key_config, key_config_id, kem_id_x25519, kdf_id_hkdf_sha256, aead_id_chacha20_poly1305,
}

-- The exceptions: OverflowError of to_bytes, a ValueError, and the RuntimeError of a missing key.
pub data TeeError : Type 0 where
  overflow : TeeError
  value_error : String → TeeError
  not_initialized : TeeError

-- value.to_bytes(32, "big") of an integer that is not negative
unfoldable pub word : ℕ → Result TeeError (List ℕ)
word value = if ltb value (256 ^ 32) then ok (be_bytes 32 value) else err overflow

-- The numeric identifiers of a key configuration.
pub record Suite : Type 0 where
  pub key_id : ℕ
  pub kem_id : ℕ
  pub kdf_id : ℕ
  pub aead_id : ℕ

-- The result of get_hpke_config.
pub record HpkeConfig : Type 0 where
  pub suite : Suite
  pub public_key : Text
  pub key_config : Text

-- The result of get_signed_hpke_config.
pub record SignedHpkeConfig : Type 0 where
  pub config : HpkeConfig
  pub tee_id : Text
  pub signature : Text
  pub signature_hash : Text

-- What _generate_keys leaves in the object and the methods below read.
pub record TeeKeys : Type 0 where
  pub public_key_der : List ℕ
  pub tee_id : Text
  pub hpke_public_key_raw : Option (List ℕ)

abbrev pub gateway_suite : Suite
gateway_suite = record {
  key_id = key_config_id;
  kem_id = kem_id_x25519;
  kdf_id = kdf_id_hkdf_sha256;
  aead_id = aead_id_chacha20_poly1305;
}

-- bytes.fromhex raises a ValueError.
abbrev pub or_value_error : Option (List ℕ) → Result TeeError (List ℕ)
or_value_error none = err (value_error "non-hexadecimal number found in fromhex() arg")
or_value_error (some bs) = ok bs

module _ (keccak : List ℕ → List ℕ) where
  -- The message hash, and the input and output hashes in hex. The content is its UTF-8 bytes.
  unfoldable pub compute_tee_msg_hash : List ℕ → List ℕ → ℕ → Result TeeError (List ℕ × Text × Text)
  unfolding word
  compute_tee_msg_hash request_bytes content timestamp = do
    stamp ← word timestamp
    ok (
      keccak (keccak request_bytes ++ (keccak content ++ stamp)),
      hex (keccak request_bytes),
      hex (keccak content),
    )

  unfoldable pub compute_ohttp_config_hash :
      List ℕ → Suite → List ℕ → List ℕ → Result TeeError (List ℕ)
  unfolding word
  compute_ohttp_config_hash tee_id suite public_key configuration =
      if length tee_id == 32
      then (do
        key ← word suite.key_id
        kem ← word suite.kem_id
        kdf ← word suite.kdf_id
        aead ← word suite.aead_id
        ok (
            keccak (
              keccak (codes "OPENGRADIENT_TEE_OHTTP_CONFIG_V1")
              ++ (tee_id
                  ++ (key
                      ++ (kem
                          ++ (kdf ++ (aead ++ (keccak public_key ++ keccak configuration)))))))))
      else err (value_error "tee_id must be 32 bytes")

  -- The fields that _generate_keys derives from the generated pairs.
  unfoldable pub generate_keys : List ℕ → List ℕ → TeeKeys
  generate_keys public_key_der hpke_public_key_raw = record {
    public_key_der = public_key_der;
    tee_id = hex (keccak public_key_der);
    hpke_public_key_raw = some hpke_public_key_raw;
  }

  module _ (b64encode : List ℕ → Text) (b64decode : Text → List ℕ) (sign : List ℕ → Text) where
    unfoldable pub get_hpke_config : TeeKeys → Result TeeError HpkeConfig
    get_hpke_config keys = elim keys.hpke_public_key_raw [
      | none ↦ err not_initialized
      | some raw ↦ elim (key_config raw key_config_id) [
        | err message ↦ err (value_error message)
        | ok blob ↦
            ok (record { suite = gateway_suite; public_key = hex raw; key_config = b64encode blob })
      ]
    ]

    unfoldable pub get_signed_hpke_config : TeeKeys → Result TeeError SignedHpkeConfig
    unfolding get_hpke_config compute_ohttp_config_hash from_hex
    get_signed_hpke_config keys = do
      config ← get_hpke_config keys
      public_key ← or_value_error (from_hex config.public_key)
      tee_id ← or_value_error (from_hex keys.tee_id)
      config_hash ←
          compute_ohttp_config_hash tee_id config.suite public_key (b64decode config.key_config)
      ok (record {
        config = config;
        tee_id = codes "0x" ++ keys.tee_id;
        signature = sign config_hash;
        signature_hash = codes "0x" ++ hex config_hash;
      })
