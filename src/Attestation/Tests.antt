-- ===== src/Attestation/Tests.antt =====
-- The hashes and the document at concrete inputs, with a hash that is the length of its input.
use tee_gateway.Prelude.{ℕ, ◌≡◌, ◌⊎◌, refl, List, [], ◌∷◌, ◌++◌, length, none, some}
use tee_gateway.Prelude.Result.{ok, err}
use tee_gateway.Prelude.Text.{codes}
use tee_gateway.Ohttp.Bytes.{be_bytes, length-be_bytes, be_bytes-IsByte}
use tee_gateway.Ohttp.Request.{key_config, key_config_id}
use tee_gateway.Attestation.{
  gateway_suite, compute_tee_msg_hash, compute_ohttp_config_hash, generate_keys,
  get_signed_hpke_config, hex, from_hex, value_error,
}
use tee_gateway.Attestation.Laws.{Collision, compute_tee_msg_hash-binds}
use tee_gateway.Attestation.Config.{compute_ohttp_config_hash-binds}
use tee_gateway.Attestation.Document.{get_signed_hpke_config-verifiable}

abbrev measure_hash : List ℕ → List ℕ
measure_hash bytes = be_bytes 32 (length bytes)

abbrev raw_key : List ℕ
raw_key = be_bytes 32 77

abbrev some_blob : List ℕ
some_blob = 1 ∷ 2 ∷ []

compute_tee_msg_hash-binds_example :
    ((codes "abc" ≡ codes "abc") × (codes "xy" ≡ codes "xy") × (◌≡◌ {A = ℕ} 1700000000 1700000000))
    ⊎ Collision measure_hash
unfolding compute_tee_msg_hash
compute_tee_msg_hash-binds_example =
    compute_tee_msg_hash-binds measure_hash (λ bytes. length-be_bytes 32 (length bytes))
      (codes "abc") (codes "abc") (codes "xy") (codes "xy") 1700000000 1700000000 refl refl

compute_ohttp_config_hash-binds_example :
    ((raw_key ≡ raw_key)
      × (gateway_suite ≡ gateway_suite)
      × (raw_key ≡ raw_key)
      × (some_blob ≡ some_blob))
    ⊎ Collision measure_hash
unfolding compute_ohttp_config_hash
compute_ohttp_config_hash-binds_example =
    compute_ohttp_config_hash-binds measure_hash (λ bytes. length-be_bytes 32 (length bytes))
      raw_key raw_key gateway_suite gateway_suite raw_key raw_key some_blob some_blob refl refl

get_signed_hpke_config-verifiable_instance :
    (blob : List ℕ) × (hash : List ℕ) × (key_config raw_key key_config_id ≡ ok blob)
    × (compute_ohttp_config_hash measure_hash (measure_hash some_blob) gateway_suite raw_key blob
        ≡ ok hash)
    × (get_signed_hpke_config measure_hash
          (λ bytes. bytes)
          (λ text. text)
          (λ bytes. hex bytes)
          (generate_keys measure_hash some_blob raw_key)
        ≡ ok (record {
          config = record { suite = gateway_suite; public_key = hex raw_key; key_config = blob };
          tee_id = codes "0x" ++ hex (measure_hash some_blob);
          signature = hex hash;
          signature_hash = codes "0x" ++ hex hash;
        }))
get_signed_hpke_config-verifiable_instance =
    get_signed_hpke_config-verifiable measure_hash (λ bytes. bytes) (λ text. text)
      (λ bytes. hex bytes) (λ bytes. length-be_bytes 32 (length bytes))
      (λ bytes. be_bytes-IsByte 32 (length bytes)) (λ bytes. refl) some_blob raw_key
      (length-be_bytes 32 77) (be_bytes-IsByte 32 77)

-- A tee_id of another length is refused.
short_tee_id :
    compute_ohttp_config_hash measure_hash some_blob gateway_suite raw_key some_blob
    ≡ err (value_error "tee_id must be 32 bytes")
unfolding compute_ohttp_config_hash
short_tee_id = refl

hex_bytes : hex (0 ∷ 171 ∷ 255 ∷ []) ≡ codes "00abff"
unfolding hex
hex_bytes = refl

from_hex_spaced : from_hex (codes "0A bf") ≡ some (10 ∷ 191 ∷ [])
unfolding from_hex
from_hex_spaced = refl

from_hex_odd : from_hex (codes "abc") ≡ none
unfolding from_hex
from_hex_odd = refl
