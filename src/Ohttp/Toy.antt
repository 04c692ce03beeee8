-- ===== src/Ohttp/Toy.antt =====
-- Concrete functions that meet the laws of the cryptography, for the tests: a seal that appends
-- sixteen zero bytes, and contexts that carry nothing.
use tee_gateway.Prelude.{
  ℕ, ◌+◌, ◌-◌, ◌≡◌, refl, ap, ◌∙◌, List, ◌++◌, length, length-append, take, take-append_length,
  Option, some, arith,
}
use tee_gateway.Ohttp.Bytes.{be_bytes}
use tee_gateway.Ohttp.Crypto.{Hpke, Aead, Kdf}

abbrev pub tag : List ℕ
tag = be_bytes 16 0

abbrev pub with_tag : List ℕ → List ℕ
with_tag text = text ++ tag

abbrev pub without_tag : List ℕ → Option (List ℕ)
without_tag text = some (take (length text - 16) text)

pub length-with_tag : (text : List ℕ) → length (with_tag text) ≡ length text + 16
length-with_tag text = length-append text tag

pub without_tag-with_tag : (text : List ℕ) → without_tag (with_tag text) ≡ some text
without_tag-with_tag text =
    let size : length (with_tag text) - 16 ≡ length text = omega (arith, length-with_tag text) in
    ap some (ap (λ (n : ℕ). take n (with_tag text)) size ∙ take-append_length text tag)

abbrev pub toy_aead : Aead
toy_aead = record {
  encrypt = λ key nonce text aad. with_tag text;
  decrypt = λ key nonce text aad. without_tag text;
  decrypt-encrypt = λ key nonce text aad. without_tag-with_tag text;
  length-encrypt = λ key nonce text aad. length-with_tag text;
}

abbrev pub toy_kdf : Kdf
toy_kdf = record { hmac_sha256 = λ key text. text; hkdf_expand = λ prk info n. be_bytes n 7 }

abbrev pub toy_enc : List ℕ
toy_enc = be_bytes 32 5

pub length-toy_enc :
    (enc : List ℕ)
    → ◌≡◌ {A = Option (List ℕ × Unit {0})} (some (toy_enc, tt)) (some (enc, tt))
    → length enc ≡ 32
length-toy_enc enc h = let same : enc ≡ toy_enc = cc h in ap length same

abbrev pub toy_hpke : Hpke
toy_hpke = record {
  PrivateKey = ℕ;
  Sender = Unit {0};
  Recipient = Unit {0};
  public_key = λ key. be_bytes 32 key;
  create_sender_context = λ seed raw info. some (toy_enc, tt);
  seal = λ sender text aad. with_tag text;
  export_sender = λ sender label n. be_bytes n 9;
  create_recipient_context = λ enc key info. some tt;
  open_ciphertext = λ recipient text aad. without_tag text;
  export_recipient = λ recipient label n. be_bytes n 9;
  length-enc = λ seed raw info enc sender h. length-toy_enc enc h;
  length-seal = λ sender text aad. length-with_tag text;
  session = λ seed key info enc sender h.
      (tt, refl, (λ text aad. without_tag-with_tag text), (λ label n. refl));
}
