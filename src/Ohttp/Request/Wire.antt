-- ===== src/Ohttp/Request/Wire.antt =====
-- Which requests `decapsulate_request` accepts.
use tee_gateway.Prelude.{
  ℕ, ◌≤◌, ◌≡◌, refl, ap, ◌∙◌, List, [], ◌∷◌, ◌++◌, length, take, drop, length-take, length-drop,
  take-append-drop, All, true, some, Option-cases, inl, inr, arith,
}
use tee_gateway.Prelude.Result.{ok}
use tee_gateway.Ohttp.Bytes.{IsByte, byte_at}
use tee_gateway.Ohttp.Crypto.{Hpke}
use tee_gateway.Ohttp.Request.{
  DecapsulatedRequest, decapsulate_request, open_request, is_supported, header_bytes, label_request,
  label_response, label_chunked_response, key_config_id,
}

header_of_supported :
    (request : List ℕ)
    → All IsByte request
    → 7 ≤ length request
    → is_supported request ≡ true
    → request ≡ header_bytes key_config_id ++ drop 7 request
unfolding is_supported header_bytes
header_of_supported (a ∷ b ∷ c ∷ d ∷ e ∷ f ∷ g ∷ rest) bytes long h = ground arith
header_of_supported _ bytes long h = absurd (omega arith)

module _ (suite : Hpke) where
  open suite use {
    PrivateKey, Recipient, create_recipient_context, open_ciphertext, export_recipient,
  }

  -- What an accepted request is: the header of the one configuration, an ephemeral key and a
  -- ciphertext with room for its tag, which opened under a context made from them.
  pub record Accepted (key : PrivateKey) (request : List ℕ) (d : DecapsulatedRequest) : Type 0 where
    pub ciphertext : List ℕ
    pub recipient : Recipient
    pub wire : request ≡ header_bytes key_config_id ++ (d.enc ++ ciphertext)
    pub length_enc : length d.enc ≡ 32
    pub length_ciphertext : 16 ≤ length ciphertext
    pub context :
        create_recipient_context d.enc key (label_request ++ (0 ∷ header_bytes key_config_id))
        ≡ some recipient
    pub opened : open_ciphertext recipient ciphertext [] ≡ some d.plaintext
    pub single_shot : d.response_key ≡ export_recipient recipient label_response 32
    pub chunked : d.response_key_chunked ≡ export_recipient recipient label_chunked_response 32

  open_request-some :
      (key : PrivateKey) (enc info ct plaintext : List ℕ) (recipient : Recipient)
      → open_request suite key enc info ct ≡ some (recipient, plaintext)
      → (create_recipient_context enc key info ≡ some recipient)
        × (open_ciphertext recipient ct [] ≡ some plaintext)
  unfolding open_request
  open_request-some key enc info ct plaintext recipient h =
      elim (Option-cases (create_recipient_context enc key info)) [
        | inl e ↦ cc (h, e)
        | inr (r, e) ↦ elim (Option-cases (open_ciphertext r ct [])) [
          | inl o ↦ absurd (ground (arith, h, e, o))
          | inr (p, o) ↦ ground (arith, h, e, o)
        ]
      ]

  -- The tests that an accepted request passed, and the call that opened it.
  accepted_tests :
      (key : PrivateKey) (request : List ℕ) (d : DecapsulatedRequest)
      → decapsulate_request suite key request ≡ ok d
      → (55 ≤ length request)
        × (is_supported request ≡ true)
        × (d.enc ≡ take 32 (drop 7 request))
        × (recipient : Recipient) × (open_request suite key d.enc
              (label_request ++ (0 ∷ header_bytes (byte_at request 0)))
              (drop 39 request)
            ≡ some (recipient, d.plaintext))
        × (d.response_key ≡ export_recipient recipient label_response 32)
        × (d.response_key_chunked ≡ export_recipient recipient label_chunked_response 32)
  unfolding decapsulate_request
  accepted_tests key request d h =
      let info = label_request ++ (0 ∷ header_bytes (byte_at request 0)) in
      elim (Option-cases
        (open_request suite key (take 32 (drop 7 request)) info (drop 39 request))) [
          | inl e ↦ absurd (ground (arith, h, e))
          | inr ((recipient, plaintext), e) ↦ (
            ground (arith, h, e),
            ground (arith, h, e),
            ground (arith, h, e),
            recipient,
            ground (arith, h, e),
            ground (arith, h, e),
            ground (arith, h, e),
          )
        ]

  key_id_of_supported :
      (request : List ℕ) → is_supported request ≡ true → byte_at request 0 ≡ key_config_id
  unfolding is_supported
  key_id_of_supported request h = ground arith

  split_request : (request : List ℕ) → take 32 (drop 7 request) ++ drop 39 request ≡ drop 7 request
  split_request (a ∷ b ∷ c ∷ d ∷ e ∷ f ∷ g ∷ rest) = take-append-drop 32 rest
  split_request _ = refl

  -- A request of bytes that `decapsulate_request` does not refuse is the header of the one
  -- configuration, a 32-byte ephemeral key and a ciphertext of at least 16 bytes that opens, in the
  -- context of that key, to the plaintext returned; the two secrets are that context's exports.
  pub decapsulate_request-Accepted :
      (key : PrivateKey) (request : List ℕ) (d : DecapsulatedRequest)
      → All IsByte request
      → decapsulate_request suite key request ≡ ok d
      → Accepted key request d
  decapsulate_request-Accepted key request d bytes h =
      let (long, supported, enc_eq, recipient, opened, single, chunks) =
        accepted_tests key request d h in
      let calls = open_request-some key d.enc _ _ d.plaintext recipient opened in
      record {
        ciphertext = drop 39 request;
        recipient = recipient;
        wire =
            header_of_supported request bytes (omega arith) supported
            ∙ ap (λ (t : List ℕ). header_bytes key_config_id ++ t)
                (rw (enc_eq, split_request request) refl);
        length_enc =
            ap length enc_eq
            ∙ omega (arith, length-take 32 (drop 7 request), length-drop 7 request);
        length_ciphertext = omega (arith, length-drop 39 request);
        context = rw (key_id_of_supported request supported) at calls.0;
        opened = calls.1;
        single_shot = single;
        chunked = chunks;
      }
