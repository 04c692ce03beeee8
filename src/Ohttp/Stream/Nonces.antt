-- ===== src/Ohttp/Stream/Nonces.antt =====
-- No two chunks of a response are sealed under the same nonce.
use tee_gateway.Prelude.{ℕ, ◌^◌, ◌<◌, ◌≡◌, refl, sym, ap, ◌∙◌, List, [], ◌∷◌, length, All, arith}
use tee_gateway.Prelude.Bits.{bit_xor_cancel}
use tee_gateway.Ohttp.Bytes.{IsByte, be_bytes, be_bytes-IsByte, be_bytes_injective}
use tee_gateway.Ohttp.Response.{xor_bytes, chunk_nonce}

xor_bytes_cancel :
    (mask ys : List ℕ)
    → All IsByte mask
    → All IsByte ys
    → length mask ≡ length ys
    → xor_bytes mask (xor_bytes mask ys) ≡ ys
unfolding xor_bytes
xor_bytes_cancel [] [] hm hy e = refl
xor_bytes_cancel [] (y ∷ ys) hm hy e = absurd (omega arith)
xor_bytes_cancel (m ∷ mask) [] hm hy e = refl
xor_bytes_cancel (m ∷ mask) (y ∷ ys) hm hy e =
    cc (bit_xor_cancel m y hm.0 hy.0, xor_bytes_cancel mask ys hm.1 hy.1 (omega arith))

counter_of_nonce :
    (nonce : List ℕ) (i : ℕ)
    → All IsByte nonce
    → length nonce ≡ 12
    → xor_bytes nonce (chunk_nonce nonce i) ≡ be_bytes 12 i
unfolding chunk_nonce
counter_of_nonce nonce i hb hl = xor_bytes_cancel nonce (be_bytes 12 i) hb (be_bytes-IsByte 12 i) hl

-- Under one base nonce of 12 bytes, chunks with different counters below 2^96 have different
-- nonces.
pub chunk_nonce_injective :
    (nonce : List ℕ) (i j : ℕ)
    → All IsByte nonce
    → length nonce ≡ 12
    → i < 256 ^ 12
    → j < 256 ^ 12
    → chunk_nonce nonce i ≡ chunk_nonce nonce j
    → i ≡ j
chunk_nonce_injective nonce i j hb hl hi hj e =
    be_bytes_injective 12 i j hi hj (
      sym (counter_of_nonce nonce i hb hl)
      ∙ ap (xor_bytes nonce) e
      ∙ counter_of_nonce nonce j hb hl)
