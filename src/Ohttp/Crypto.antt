-- ===== src/Ohttp/Crypto.antt =====
-- The cryptography that tee_gateway/ohttp.py calls (pyhpke, cryptography) and does not implement.
-- An operation that may raise returns an `Option`. The laws are those documented for the primitives.
use tee_gateway.Prelude.{ℕ, ◌+◌, ◌≡◌, List, length, Option, some}

-- The HPKE suite of pyhpke: `create_sender_context`, `seal` and `export` of the client,
-- `create_recipient_context`, `open` and `export` of the enclave. A context serves one message.
pub record Hpke : Type 1 where
  pub PrivateKey : Type 0
  pub Sender : Type 0
  pub Recipient : Type 0
  pub public_key : PrivateKey → List ℕ
  -- The first argument is the randomness of the ephemeral key; the result has its public half.
  pub create_sender_context : List ℕ → List ℕ → List ℕ → Option (List ℕ × Sender)
  pub seal : Sender → List ℕ → List ℕ → List ℕ
  pub export_sender : Sender → List ℕ → ℕ → List ℕ
  pub create_recipient_context : List ℕ → PrivateKey → List ℕ → Option Recipient
  pub open_ciphertext : Recipient → List ℕ → List ℕ → Option (List ℕ)
  pub export_recipient : Recipient → List ℕ → ℕ → List ℕ
  pub length-enc :
      (seed raw info enc : List ℕ) (sender : Sender)
      → create_sender_context seed raw info ≡ some (enc, sender)
      → length enc ≡ 32
  pub length-seal :
      (sender : Sender) (text aad : List ℕ) → length (seal sender text aad) ≡ length text + 16
  -- Both ends of a session with the same key and info agree.
  pub session :
      (seed : List ℕ) (key : PrivateKey) (info enc : List ℕ) (sender : Sender)
      → create_sender_context seed (public_key key) info ≡ some (enc, sender)
      → (recipient : Recipient) × (create_recipient_context enc key info ≡ some recipient)
        × ((text aad : List ℕ) → open_ciphertext recipient (seal sender text aad) aad ≡ some text)
        × ((label : List ℕ) (n : ℕ)
            → export_recipient recipient label n ≡ export_sender sender label n)

-- ChaCha20Poly1305: key, nonce, text, associated data. The tag has 16 bytes, and decryption under
-- the key, nonce and associated data of the encryption gives the text back.
pub record Aead : Type 0 where
  pub encrypt : List ℕ → List ℕ → List ℕ → List ℕ → List ℕ
  pub decrypt : List ℕ → List ℕ → List ℕ → List ℕ → Option (List ℕ)
  pub decrypt-encrypt :
      (key nonce text aad : List ℕ) → decrypt key nonce (encrypt key nonce text aad) aad ≡ some text
  pub length-encrypt :
      (key nonce text aad : List ℕ) → length (encrypt key nonce text aad) ≡ length text + 16

-- HMAC-SHA256 of a message under a key, and HKDF-Expand of a key with an info and a length.
pub record Kdf : Type 0 where
  pub hmac_sha256 : List ℕ → List ℕ → List ℕ
  pub hkdf_expand : List ℕ → List ℕ → ℕ → List ℕ
