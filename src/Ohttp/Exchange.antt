-- ===== src/Ohttp/Exchange.antt =====
-- A request of the client, read by the enclave, and the single-shot answer, read by the client.
use tee_gateway.Prelude.{
  ℕ, ◌≤◌, ◌≡◌, Option-cases, inl, inr, some, List, [], ◌∷◌, ◌++◌, length, take, drop,
  take-append_length, drop-append_length, length-append, arith,
}
use tee_gateway.Prelude.Result.{ok}
use tee_gateway.Ohttp.Crypto.{Hpke, Aead, Kdf}
use tee_gateway.Ohttp.Request.{
  DecapsulatedRequest, decapsulate_request, is_supported, open_request, header_bytes, label_request,
  label_response, label_chunked_response, key_config_id,
}
use tee_gateway.Ohttp.Response.{encapsulate_response, derive_response_keys}
use tee_gateway.Ohttp.Client.{client_encapsulate, client_header, decrypt_single_shot}

pub take-append_of_length :
    {A : Type 0} (n : ℕ) (xs ys : List A) → length xs ≡ n → take n (xs ++ ys) ≡ xs
take-append_of_length n xs ys h = rw (← h) (take-append_length xs ys)

pub drop-append_of_length :
    {A : Type 0} (n : ℕ) (xs ys : List A) → length xs ≡ n → drop n (xs ++ ys) ≡ ys
drop-append_of_length n xs ys h = rw (← h) (drop-append_length xs ys)

module _ (suite : Hpke) where
  open suite use {
    PrivateKey, Sender, Recipient, public_key, create_sender_context, create_recipient_context,
    open_ciphertext, seal, export_sender, export_recipient, length-enc, length-seal, session,
  }

  -- What the enclave returns for the client's request in the session of `sender`.
  abbrev pub delivered : Sender → List ℕ → List ℕ → DecapsulatedRequest
  delivered sender enc plaintext = record {
    plaintext = plaintext;
    response_key = export_sender sender label_response 32;
    response_key_chunked = export_sender sender label_chunked_response 32;
    enc = enc;
  }

  abbrev info : List ℕ
  info = label_request ++ (0 ∷ client_header key_config_id)

  decapsulate_wire :
      (key : PrivateKey) (enc ct plaintext : List ℕ) (sender : Sender) (recipient : Recipient)
      → length enc ≡ 32
      → 16 ≤ length ct
      → create_recipient_context enc key info ≡ some recipient
      → open_ciphertext recipient ct [] ≡ some plaintext
      → ((label : List ℕ) (n : ℕ)
          → export_recipient recipient label n ≡ export_sender sender label n)
      → decapsulate_request suite key (client_header key_config_id ++ (enc ++ ct))
        ≡ ok (delivered sender enc plaintext)
  unfolding decapsulate_request is_supported open_request header_bytes client_header
  decapsulate_wire key enc ct plaintext sender recipient he hc hr ho hx = ground (
    arith,
    take-append_of_length 32 enc ct he,
    drop-append_of_length 32 enc ct he,
    length-append enc ct,
    hx label_response 32,
    hx label_chunked_response 32,
  )

  decapsulate_sealed :
      (key : PrivateKey) (seed plaintext enc : List ℕ) (sender : Sender)
      → create_sender_context seed (public_key key) info ≡ some (enc, sender)
      → decapsulate_request suite key
          (client_header key_config_id ++ (enc ++ seal sender plaintext []))
        ≡ ok (delivered sender enc plaintext)
  decapsulate_sealed key seed plaintext enc sender h =
      let (recipient, hr, ho, hx) = session seed key info enc sender h in
      decapsulate_wire key enc (seal sender plaintext []) plaintext sender recipient
        (length-enc seed (public_key key) info enc sender h)
        (omega (arith, length-seal sender plaintext [])) hr (ho plaintext []) hx

  -- A request that the client encapsulated to the enclave's key and configuration is accepted; the
  -- enclave has the client's text, the two secrets that the client's context exports, and the
  -- ephemeral key that the client holds.
  pub decapsulate-encapsulate :
      (key : PrivateKey) (seed plaintext wire enc : List ℕ) (sender : Sender)
      → client_encapsulate suite seed (public_key key) key_config_id plaintext
        ≡ some (wire, sender, enc)
      → decapsulate_request suite key wire ≡ ok (delivered sender enc plaintext)
  unfolding client_encapsulate
  decapsulate-encapsulate key seed plaintext wire enc sender h =
      elim (Option-cases (create_sender_context seed (public_key key) info)) [
        | inl e ↦ cc (h, e)
        | inr ((enc', sender'), e) ↦
            ground (arith, decapsulate_sealed key seed plaintext enc' sender' e)
      ]

module _ (kdf : Kdf) (aead : Aead) where
  -- The single-shot answer that the enclave seals for a request is read back by the client that
  -- holds the same secret and ephemeral key, whatever nonce of 32 bytes was drawn.
  pub decrypt-encapsulate :
      (nonce secret enc plaintext : List ℕ)
      → length nonce ≡ 32
      → decrypt_single_shot kdf aead secret enc
          (encapsulate_response kdf aead nonce secret enc plaintext)
        ≡ some plaintext
  unfolding decrypt_single_shot encapsulate_response
  decrypt-encapsulate nonce secret enc plaintext h =
      let keys = derive_response_keys kdf secret enc nonce in
      let sealed = aead.encrypt keys.0 keys.1 plaintext [] in
      ground (
        arith,
        take-append_of_length 32 nonce sealed h,
        drop-append_of_length 32 nonce sealed h,
        aead.decrypt-encrypt keys.0 keys.1 plaintext [],
      )
