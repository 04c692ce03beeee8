-- ===== src/Attestation/Config.antt =====
-- What the signed configuration hash commits the enclave to, and that the published document has
-- what a verifier needs to compute the hash again.
use tee_gateway.Prelude.{
  ℕ, ◌≡◌, ◌⊎◌, inl, inr, refl, sym, ◌∙◌, List, ◌++◌, length, append-split, ◌==◌, ==_iff, Bool-cases,
  arith,
}
use tee_gateway.Prelude.Result.{ok, Result-cases}
use tee_gateway.Prelude.Text.{codes}
use tee_gateway.Attestation.{Suite, word, compute_ohttp_config_hash}
use tee_gateway.Attestation.Laws.{Collision, unhash, word_injective, length-word}

suite-eq :
    (s t : Suite)
    → s.key_id ≡ t.key_id
    → s.kem_id ≡ t.kem_id
    → s.kdf_id ≡ t.kdf_id
    → s.aead_id ≡ t.aead_id
    → s ≡ t
suite-eq s t key kem kdf aead = ground arith

module _ (keccak : List ℕ → List ℕ) where
  -- The words of a hash that was computed, and what was hashed.
  record Hashed (tee_id : List ℕ) (suite : Suite) (public_key configuration hash : List ℕ)
      : Type 0 where
    key : List ℕ
    kem : List ℕ
    kdf : List ℕ
    aead : List ℕ
    sized : length tee_id ≡ 32
    key_word : word suite.key_id ≡ ok key
    kem_word : word suite.kem_id ≡ ok kem
    kdf_word : word suite.kdf_id ≡ ok kdf
    aead_word : word suite.aead_id ≡ ok aead
    hashed :
        hash
        ≡ keccak (
            keccak (codes "OPENGRADIENT_TEE_OHTTP_CONFIG_V1")
            ++ (tee_id
                ++ (key
                    ++ (kem ++ (kdf ++ (aead ++ (keccak public_key ++ keccak configuration)))))))

  config_hash-Hashed :
      (tee_id : List ℕ) (suite : Suite) (public_key configuration : List ℕ) {hash : List ℕ}
      → compute_ohttp_config_hash keccak tee_id suite public_key configuration ≡ ok hash
      → Hashed tee_id suite public_key configuration hash
  unfolding compute_ohttp_config_hash
  config_hash-Hashed tee_id suite public_key configuration h =
      elim (Bool-cases (length tee_id == 32)) [
        | inr other ↦ absurd (ground (arith, h, other))
        | inl sized ↦ elim (Result-cases (word suite.key_id)) [
          | inr (x, e) ↦ absurd (ground (arith, h, sized, e))
          | inl (key, e1) ↦ elim (Result-cases (word suite.kem_id)) [
            | inr (x, e) ↦ absurd (ground (arith, h, sized, e1, e))
            | inl (kem, e2) ↦ elim (Result-cases (word suite.kdf_id)) [
              | inr (x, e) ↦ absurd (ground (arith, h, sized, e1, e2, e))
              | inl (kdf, e3) ↦ elim (Result-cases (word suite.aead_id)) [
                | inr (x, e) ↦ absurd (ground (arith, h, sized, e1, e2, e3, e))
                | inl (aead, e4) ↦ record {
                  key = key;
                  kem = kem;
                  kdf = kdf;
                  aead = aead;
                  sized = (==_iff _ _).0 sized;
                  key_word = e1;
                  kem_word = e2;
                  kdf_word = e3;
                  aead_word = e4;
                  hashed = ground (arith, h, sized, e1, e2, e3, e4);
                }
              ]
            ]
          ]
        ]
      ]

  module _ (length-keccak : (bytes : List ℕ) → length (keccak bytes) ≡ 32) where
    -- Where keccak has hashes of 32 bytes, two calls of compute_ohttp_config_hash that give the
    -- same hash had the same tee_id, the same four identifiers, the same public key and the same
    -- key configuration, or they show two different byte strings with one keccak hash.
    pub compute_ohttp_config_hash-binds :
        (tee_id tee_id' : List ℕ) (suite suite' : Suite)
        (public_key public_key' configuration configuration' : List ℕ) {hash : List ℕ}
        → compute_ohttp_config_hash keccak tee_id suite public_key configuration ≡ ok hash
        → compute_ohttp_config_hash keccak tee_id' suite' public_key' configuration' ≡ ok hash
        → ((tee_id ≡ tee_id')
            × (suite ≡ suite')
            × (public_key ≡ public_key')
            × (configuration ≡ configuration'))
          ⊎ Collision keccak
    compute_ohttp_config_hash-binds tee_id tee_id' suite suite' public_key public_key' configuration
          configuration' h h' =
        let a = config_hash-Hashed tee_id suite public_key configuration h in
        let b = config_hash-Hashed tee_id' suite' public_key' configuration' h' in
        elim (unhash keccak _ _ (sym a.hashed ∙ b.hashed)) [
          | inr collision ↦ inr collision
          | inl same ↦
              let (domains, s1) = append-split _ _ _ _ refl same in
              let (ids, s2) = append-split _ _ _ _ (a.sized ∙ sym b.sized) s1 in
              let (keys, s3) =
                append-split _ _ _ _ (length-word _ a.key_word ∙ sym (length-word _ b.key_word))
                  s2 in
              let (kems, s4) =
                append-split _ _ _ _ (length-word _ a.kem_word ∙ sym (length-word _ b.kem_word))
                  s3 in
              let (kdfs, s5) =
                append-split _ _ _ _ (length-word _ a.kdf_word ∙ sym (length-word _ b.kdf_word))
                  s4 in
              let (aeads, s6) =
                append-split _ _ _ _ (length-word _ a.aead_word ∙ sym (length-word _ b.aead_word))
                  s5 in
              let (publics, configurations) =
                append-split (keccak public_key) (keccak configuration) (keccak public_key')
                  (keccak configuration')
                  (length-keccak public_key ∙ sym (length-keccak public_key')) s6 in
              elim (unhash keccak public_key public_key' publics) [
                | inr collision ↦ inr collision
                | inl same_public ↦
                    elim (unhash keccak configuration configuration' configurations) [
                      | inr collision ↦ inr collision
                      | inl same_configuration ↦ inl (
                        ids,
                        suite-eq suite suite' (word_injective _ _ a.key_word b.key_word keys)
                            (word_injective _ _ a.kem_word b.kem_word kems)
                            (word_injective _ _ a.kdf_word b.kdf_word kdfs)
                            (word_injective _ _ a.aead_word b.aead_word aeads),
                        same_public,
                        same_configuration,
                      )
                    ]
              ]
        ]
