-- ===== src/Attestation/Document.antt =====
-- The published key configuration has what a verifier needs to check it.
use tee_gateway.Prelude.{ℕ, ◌≡◌, inl, inr, refl, List, ◌++◌, length, ==_iff, All, arith}
use tee_gateway.Prelude.Result.{ok, Result-cases}
use tee_gateway.Prelude.Text.{Text, codes}
use tee_gateway.Ohttp.Bytes.{IsByte}
use tee_gateway.Ohttp.Request.{key_config, key_config_id}
use tee_gateway.Attestation.{
  word, gateway_suite, compute_ohttp_config_hash, generate_keys, get_hpke_config,
  get_signed_hpke_config, hex, or_value_error,
}
use tee_gateway.Attestation.Hex.{from_hex-hex}

key_config_total :
    (raw : List ℕ) → length raw ≡ 32 → (blob : List ℕ) × (key_config raw key_config_id ≡ ok blob)
unfolding key_config
key_config_total raw sized = elim (Result-cases (key_config raw key_config_id)) [
  | inl blob ↦ blob
  | inr (message, e) ↦ absurd (ground (arith, e, (==_iff (length raw) 32).1 sized))
]

config_hash_total :
    (keccak : List ℕ → List ℕ) (tee_id raw blob : List ℕ)
    → length tee_id ≡ 32
    → (hash : List ℕ) × (compute_ohttp_config_hash keccak tee_id gateway_suite raw blob ≡ ok hash)
unfolding compute_ohttp_config_hash word
config_hash_total keccak tee_id raw blob sized =
    elim (Result-cases (compute_ohttp_config_hash keccak tee_id gateway_suite raw blob)) [
      | inl hash ↦ hash
      | inr (x, e) ↦ absurd (ground (arith, e, (==_iff (length tee_id) 32).1 sized))
    ]

-- Where keccak has hashes of 32 bytes, base64 decoding undoes encoding, and the raw HPKE key has 32
-- bytes, the keys that were generated publish a signed configuration: its key_config is the
-- base64 of the OHTTP key configuration of that key, its tee_id the hex of the hash of the signing
-- key, and its signature is of the configuration hash of that tee_id, the gateway's identifiers,
-- the key and the key configuration, with signature_hash the hex of the same hash.
pub get_signed_hpke_config-verifiable :
    (keccak : List ℕ → List ℕ) (b64encode : List ℕ → Text) (b64decode : Text → List ℕ)
    (sign : List ℕ → Text)
    → ((bytes : List ℕ) → length (keccak bytes) ≡ 32)
    → ((bytes : List ℕ) → All IsByte (keccak bytes))
    → ((bytes : List ℕ) → b64decode (b64encode bytes) ≡ bytes)
    → (public_key_der raw : List ℕ) → length raw ≡ 32
    → All IsByte raw
    → (blob : List ℕ) × (hash : List ℕ) × (key_config raw key_config_id ≡ ok blob)
      × (compute_ohttp_config_hash keccak (keccak public_key_der) gateway_suite raw blob ≡ ok hash)
      × (get_signed_hpke_config keccak b64encode b64decode sign
            (generate_keys keccak public_key_der raw)
          ≡ ok (record {
            config = record {
              suite = gateway_suite;
              public_key = hex raw;
              key_config = b64encode blob;
            };
            tee_id = codes "0x" ++ hex (keccak public_key_der);
            signature = sign hash;
            signature_hash = codes "0x" ++ hex hash;
          }))
unfolding get_signed_hpke_config get_hpke_config generate_keys
get_signed_hpke_config-verifiable keccak b64encode b64decode sign length-keccak keccak-bytes decoded
      public_key_der raw sized bytes =
    let (blob, blob_of) = key_config_total raw sized in
    let (hash, hash_of) =
      config_hash_total keccak (keccak public_key_der) raw blob (length-keccak public_key_der) in
    (
      blob,
      hash,
      blob_of,
      hash_of,
      rw
          (
            get_signed_hpke_config,
            get_hpke_config,
            generate_keys,
            blob_of,
            or_value_error,
            from_hex-hex raw bytes,
            from_hex-hex (keccak public_key_der) (keccak-bytes public_key_der),
            decoded blob,
            hash_of,
          )
          refl,
    )
