-- ===== src/Ohttp/Varint/RoundTrip.antt =====
-- Decoding what was encoded.
use tee_gateway.Prelude.{
  ℕ, ◌+◌, ◌*◌, ◌/◌, ◌%◌, ◌^◌, ◌<◌, ◌≡◌, List, [], ◌∷◌, ◌++◌, length, length-append, Bool-cases, inl,
  inr, ltb, if◌then◌else◌, arith, some,
}
use tee_gateway.Prelude.Bits.{bit_or-add, bit_and_low_six}
use tee_gateway.Prelude.Int.{pos}
use tee_gateway.Prelude.Result.{ok}
use tee_gateway.Ohttp.Bytes.{be_bytes, from_be, byte_at-append, byte_at-append_zero, drop-append}
use tee_gateway.Ohttp.Varint.{encode_varint, decode_varint, read_varint}

-- The four widths of the encoding, in plain arithmetic.
unfoldable pub varint_bytes : ℕ → List ℕ
varint_bytes v =
    if ltb v (2 ^ 6)
    then v ∷ []
    else if ltb v (2 ^ 14)
    then (64 + v / 256) ∷ v % 256 ∷ []
    else if ltb v (2 ^ 30)
    then be_bytes 4 (2 * 2 ^ 30 + v)
    else be_bytes 8 (3 * 2 ^ 62 + v)

pub encode-varint_bytes : (v : ℕ) → v < 2 ^ 62 → encode_varint (pos v) ≡ ok (varint_bytes v)
unfolding encode_varint varint_bytes
encode-varint_bytes v h =
    ground (arith, bit_or-add 6 1 (v / 256), bit_or-add 30 2 v, bit_or-add 62 3 v)

-- One lemma for each width: what `decode_varint` reads behind `pre`.
module _ (pre rest : List ℕ) where
  decode_one :
      (v : ℕ) → v < 64 → decode_varint (pre ++ v ∷ rest) (length pre) ≡ ok (v, length pre + 1)
  unfolding decode_varint
  decode_one v h = ground (arith, byte_at-append_zero pre (v ∷ rest), length-append pre (v ∷ rest))

  decode_two :
      (hi lo : ℕ)
      → hi < 64
      → lo < 256
      → decode_varint (pre ++ (64 + hi) ∷ lo ∷ rest) (length pre)
        ≡ ok (hi * 256 + lo, length pre + 2)
  unfolding decode_varint
  decode_two hi lo h k =
      let ys : List ℕ = (64 + hi) ∷ lo ∷ rest in
      ground (
        arith,
        byte_at-append_zero pre ys,
        byte_at-append pre ys 1,
        length-append pre ys,
        bit_and_low_six (64 + hi),
        bit_or-add 8 hi lo,
      )

  decode_four :
      (t b₁ b₂ b₃ : ℕ)
      → t < 64
      → decode_varint (pre ++ (128 + t) ∷ b₁ ∷ b₂ ∷ b₃ ∷ rest) (length pre)
        ≡ ok (((t * 256 + b₁) * 256 + b₂) * 256 + b₃, length pre + 4)
  unfolding decode_varint
  decode_four t b₁ b₂ b₃ h =
      let ys : List ℕ = (128 + t) ∷ b₁ ∷ b₂ ∷ b₃ ∷ rest in
      ground (
        arith,
        byte_at-append_zero pre ys,
        drop-append pre ys 1,
        length-append pre ys,
        bit_and_low_six (128 + t),
      )

  decode_eight :
      (t b₁ b₂ b₃ b₄ b₅ b₆ b₇ : ℕ)
      → t < 64
      → decode_varint (pre ++ (192 + t) ∷ b₁ ∷ b₂ ∷ b₃ ∷ b₄ ∷ b₅ ∷ b₆ ∷ b₇ ∷ rest) (length pre)
        ≡ ok (from_be (t ∷ b₁ ∷ b₂ ∷ b₃ ∷ b₄ ∷ b₅ ∷ b₆ ∷ b₇ ∷ []), length pre + 8)
  unfolding decode_varint
  decode_eight t b₁ b₂ b₃ b₄ b₅ b₆ b₇ h =
      let ys : List ℕ = (192 + t) ∷ b₁ ∷ b₂ ∷ b₃ ∷ b₄ ∷ b₅ ∷ b₆ ∷ b₇ ∷ rest in
      ground (
        arith,
        byte_at-append_zero pre ys,
        drop-append pre ys 1,
        length-append pre ys,
        bit_and_low_six (192 + t),
      )

word_four : (v : ℕ) → v < 2 ^ 30 → be_bytes 4 (2 * 2 ^ 30 + v) ≡ (128 + v / 2 ^ 24) ∷ be_bytes 3 v
word_four v h = ground arith

word_eight : (v : ℕ) → v < 2 ^ 62 → be_bytes 8 (3 * 2 ^ 62 + v) ≡ (192 + v / 2 ^ 56) ∷ be_bytes 7 v
word_eight v h = ground arith

-- The four forms that an encoding has.
pub data Shape (v : ℕ) : List ℕ → Type 0 where
  one : v < 2 ^ 6 → Shape v (v ∷ [])
  two : v < 2 ^ 14 → Shape v ((64 + v / 256) ∷ v % 256 ∷ [])
  four : v < 2 ^ 30 → Shape v ((128 + v / 2 ^ 24) ∷ be_bytes 3 v)
  eight : v < 2 ^ 62 → Shape v ((192 + v / 2 ^ 56) ∷ be_bytes 7 v)

pub varint_bytes-Shape : (v : ℕ) → v < 2 ^ 62 → Shape v (varint_bytes v)
unfolding varint_bytes
varint_bytes-Shape v h = elim (Bool-cases (ltb v (2 ^ 6))) [
  | inl p ↦ rw p (one (ground arith))
  | inr p ↦ elim (Bool-cases (ltb v (2 ^ 14))) [
    | inl q ↦ rw (p, q) (two (ground arith))
    | inr q ↦ elim (Bool-cases (ltb v (2 ^ 30))) [
      | inl r ↦ rw (p, q, r, word_four v (ground arith)) (four (ground arith))
      | inr r ↦ rw (p, q, r, word_eight v h) (eight h)
    ]
  ]
]

decode-Shape :
    (v : ℕ) (bs pre rest : List ℕ)
    → Shape v bs
    → decode_varint (pre ++ (bs ++ rest)) (length pre) ≡ ok (v, length pre + length bs)
decode-Shape v bs pre rest (one h) = decode_one pre rest v h
decode-Shape v bs pre rest (two h) = ground (arith, decode_two pre rest (v / 256) (v % 256))
decode-Shape v bs pre rest (four h) =
    ground
      (arith, decode_four pre rest (v / 2 ^ 24) (v / 2 ^ 16 % 256) (v / 2 ^ 8 % 256) (v / 1 % 256))
decode-Shape v bs pre rest (eight h) = ground (
  arith,
  decode_eight pre rest (v / 2 ^ 56) (v / 2 ^ 48 % 256) (v / 2 ^ 40 % 256) (v / 2 ^ 32 % 256)
      (v / 2 ^ 24 % 256) (v / 2 ^ 16 % 256) (v / 2 ^ 8 % 256) (v / 1 % 256),
)

-- A number below 2^62 has an encoding, and reading at the place where that was written gives the
-- number and the offset behind it, whatever stands before and after.
pub decode-encode :
    (v : ℕ) (pre rest : List ℕ)
    → v < 2 ^ 62
    → (bs : List ℕ) × (encode_varint (pos v) ≡ ok bs)
      × (decode_varint (pre ++ (bs ++ rest)) (length pre) ≡ ok (v, length pre + length bs))
decode-encode v pre rest h =
    (varint_bytes v, encode-varint_bytes v h, decode-Shape v _ pre rest (varint_bytes-Shape v h))

read-Shape : (v : ℕ) (bs rest : List ℕ) → Shape v bs → read_varint (bs ++ rest) ≡ ok (some v, rest)
unfolding read_varint
read-Shape v bs rest (one h) = ground (arith, bit_and_low_six v)
read-Shape v bs rest (two h) =
    ground (arith, bit_and_low_six (64 + v / 256), bit_or-add 8 (v / 256) (v % 256))
read-Shape v bs rest (four h) = ground (arith, bit_and_low_six (128 + v / 2 ^ 24))
read-Shape v bs rest (eight h) = ground (arith, bit_and_low_six (192 + v / 2 ^ 56))

-- A number below 2^62 has an encoding, from which the client reads the number back, leaving the rest of
-- the stream.
pub read-encode :
    (v : ℕ) (rest : List ℕ)
    → v < 2 ^ 62
    → (bs : List ℕ) × (encode_varint (pos v) ≡ ok bs)
      × (read_varint (bs ++ rest) ≡ ok (some v, rest))
read-encode v rest h =
    (varint_bytes v, encode-varint_bytes v h, read-Shape v _ rest (varint_bytes-Shape v h))

pub read-varint_bytes :
    (v : ℕ) (rest : List ℕ) → v < 2 ^ 62 → read_varint (varint_bytes v ++ rest) ≡ ok (some v, rest)
read-varint_bytes v rest h = read-Shape v _ rest (varint_bytes-Shape v h)
