-- ===== src/Attestation/Laws.antt =====
-- What a signed hash commits the enclave to.
use tee_gateway.Prelude.{
  ℕ, ◌^◌, ◌<◌, ◌≡◌, ◌≢◌, ◌⊎◌, inl, inr, sym, ◌∙◌, ap, List, ◌++◌, length, append-split, ltb, ltb→lt,
  Bool-cases, arith,
}
use tee_gateway.Prelude.Result.{ok, Result-cases}
use tee_gateway.Prelude.Text.{Text, text_cases}
use tee_gateway.Ohttp.Bytes.{be_bytes, length-be_bytes, be_bytes_injective}
use tee_gateway.Attestation.{word, compute_tee_msg_hash}

-- A word that was written is the 32 bytes of a number below 2 ^ 256.
pub word-eq_ok : (n : ℕ) {w : List ℕ} → word n ≡ ok w → (w ≡ be_bytes 32 n) × (n < 256 ^ 32)
unfolding word
word-eq_ok n h = elim (Bool-cases (ltb n (256 ^ 32))) [
  | inl small ↦ (ground (arith, h, small), ltb→lt n (256 ^ 32) small)
  | inr large ↦ absurd (ground (arith, h, large))
]

pub length-word : (n : ℕ) {w : List ℕ} → word n ≡ ok w → length w ≡ 32
length-word n h = ap length (word-eq_ok n h).0 ∙ length-be_bytes 32 n

pub word_injective : (m n : ℕ) {v w : List ℕ} → word m ≡ ok v → word n ≡ ok w → v ≡ w → m ≡ n
word_injective m n hm hn same =
    let (bytes_m, small_m) = word-eq_ok m hm in
    let (bytes_n, small_n) = word-eq_ok n hn in
    be_bytes_injective 32 m n small_m small_n (sym bytes_m ∙ same ∙ bytes_n)

module _ (keccak : List ℕ → List ℕ) where
  -- Two different inputs with one hash.
  abbrev pub Collision : Type 0
  Collision = (x : List ℕ) × (y : List ℕ) × (x ≢ y) × (keccak x ≡ keccak y)

  pub unhash : (x y : List ℕ) → keccak x ≡ keccak y → (x ≡ y) ⊎ Collision
  unhash x y same = elim (text_cases x y) [
    | inl equal ↦ inl equal
    | inr differ ↦ inr (x, y, differ, same)
  ]

  -- The inversion of compute_tee_msg_hash.
  msg_hash-parts :
      (request content : List ℕ) (timestamp : ℕ) {hash : List ℕ} {inputs outputs : Text}
      → compute_tee_msg_hash keccak request content timestamp ≡ ok (hash, inputs, outputs)
      → (stamp : List ℕ) × (word timestamp ≡ ok stamp)
        × (hash ≡ keccak (keccak request ++ (keccak content ++ stamp)))
  unfolding compute_tee_msg_hash
  msg_hash-parts request content timestamp h = elim (Result-cases (word timestamp)) [
    | inl (stamp, e) ↦ (stamp, e, ground (arith, h, e))
    | inr (x, e) ↦ absurd (ground (arith, h, e))
  ]

  module _ (length-keccak : (bytes : List ℕ) → length (keccak bytes) ≡ 32) where
    -- Where keccak has hashes of 32 bytes, two calls of compute_tee_msg_hash that give the same
    -- message hash had the same request, the same content and the same timestamp, or they show two
    -- different byte strings with one keccak hash.
    pub compute_tee_msg_hash-binds :
        (request request' content content' : List ℕ) (timestamp timestamp' : ℕ) {hash : List ℕ}
        {inputs outputs inputs' outputs' : Text}
        → compute_tee_msg_hash keccak request content timestamp ≡ ok (hash, inputs, outputs)
        → compute_tee_msg_hash keccak request' content' timestamp' ≡ ok (hash, inputs', outputs')
        → ((request ≡ request') × (content ≡ content') × (timestamp ≡ timestamp')) ⊎ Collision
    compute_tee_msg_hash-binds request request' content content' timestamp timestamp' h h' =
        let (stamp, e, layout) = msg_hash-parts request content timestamp h in
        let (stamp', e', layout') = msg_hash-parts request' content' timestamp' h' in
        elim (unhash _ _ (sym layout ∙ layout')) [
          | inr collision ↦ inr collision
          | inl same ↦
              let (inputs_same, tail_same) =
                append-split (keccak request) (keccak content ++ stamp) (keccak request')
                  (keccak content' ++ stamp') (length-keccak request ∙ sym (length-keccak request'))
                  same in
              let (outputs_same, stamps_same) =
                append-split (keccak content) stamp (keccak content') stamp'
                  (length-keccak content ∙ sym (length-keccak content')) tail_same in
              elim (unhash _ _ inputs_same) [
                | inr collision ↦ inr collision
                | inl requests ↦ elim (unhash _ _ outputs_same) [
                  | inr collision ↦ inr collision
                  | inl contents ↦
                      inl (requests, contents, word_injective timestamp timestamp' e e' stamps_same)
                ]
              ]
        ]
