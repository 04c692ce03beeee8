-- ===== src/Ohttp/Varint/Bounds.antt =====
-- What `encode_varint` refuses and how much it writes; what `decode_varint` can return at all.
use tee_gateway.Prelude.{
  ℕ, zero, suc, ◌+◌, ◌*◌, ◌%◌, ◌^◌, ◌≤◌, ◌<◌, ◌≡◌, ap, List, [], ◌∷◌, length, length-take, take,
  drop, All, arith, ltb, if◌then◌else◌,
}
use native.Mathlib.Nat.{pow-suc, mul-le-mul, mul-le-mul_right, pow-le-pow_right}
use tee_gateway.Prelude.Bits.{bit_or-add, bit_and_low_six}
use tee_gateway.Prelude.Int.{pos}
use tee_gateway.Prelude.Result.{ok, err}
use tee_gateway.Ohttp.Bytes.{byte_at, from_be, from_be_acc, IsByte, be_bytes-IsByte}
use tee_gateway.Ohttp.Varint.{encode_varint, decode_varint}
use tee_gateway.Ohttp.Varint.RoundTrip.{
  Shape, one, two, four, eight, varint_bytes, varint_bytes-Shape, encode-varint_bytes,
}

-- As few bytes as hold the number beside the two bits that give the width.
abbrev pub varint_width : ℕ → ℕ
varint_width v =
    if ltb v (2 ^ 6) then 1 else if ltb v (2 ^ 14) then 2 else if ltb v (2 ^ 30) then 4 else 8

Shape-IsByte : (v : ℕ) (bs : List ℕ) → Shape v bs → All IsByte bs
Shape-IsByte v bs (one h) = omega arith
Shape-IsByte v bs (two h) = omega arith
Shape-IsByte v bs (four h) = (omega arith, be_bytes-IsByte 3 v)
Shape-IsByte v bs (eight h) = (omega arith, be_bytes-IsByte 7 v)

length-varint_bytes : (v : ℕ) → length (varint_bytes v) ≡ varint_width v
unfolding varint_bytes
length-varint_bytes v = ground arith

-- Below 2^62 the encoding exists, is made of bytes and has `varint_width` of them; from 2^62 on it
-- is refused.
pub encode_varint-cases :
    (v : ℕ)
    → (v < 2 ^ 62
        → (bs : List ℕ) × (encode_varint (pos v) ≡ ok bs)
          × All IsByte bs
          × (length bs ≡ varint_width v))
      × (2 ^ 62 ≤ v → encode_varint (pos v) ≡ err "varint value exceeds 2^62-1")
unfolding encode_varint
encode_varint-cases v = (
  λ h. (
    varint_bytes v,
    encode-varint_bytes v h,
    Shape-IsByte v _ (varint_bytes-Shape v h),
    length-varint_bytes v,
  ),
  λ h. ground arith,
)

byte_at-lt : (buf : List ℕ) (i : ℕ) → All IsByte buf → byte_at buf i < 256
byte_at-lt [] i h = omega arith
byte_at-lt (b ∷ bs) zero h = h.0
byte_at-lt (b ∷ bs) (suc i) h = byte_at-lt bs i h.1

All-drop : (n : ℕ) (bs : List ℕ) → All IsByte bs → All IsByte (drop n bs)
All-drop zero bs h = h
All-drop (suc n) [] h = tt
All-drop (suc n) (b ∷ bs) h = All-drop n bs h.1

All-take : (n : ℕ) (bs : List ℕ) → All IsByte bs → All IsByte (take n bs)
All-take zero bs h = tt
All-take (suc n) [] h = tt
All-take (suc n) (b ∷ bs) h = (h.0, All-take n bs h.1)

from_be_acc-lt :
    (acc : ℕ) (bs : List ℕ) → All IsByte bs → from_be_acc acc bs < (acc + 1) * 256 ^ length bs
from_be_acc-lt acc [] h = omega arith
from_be_acc-lt acc (b ∷ bs) h =
    let step : (acc * 256 + b + 1) * 256 ^ length bs ≤ ((acc + 1) * 256) * 256 ^ length bs =
      mul-le-mul_right (256 ^ length bs) (omega arith) in
    omega (
      arith,
      from_be_acc-lt (acc * 256 + b) bs h.1,
      step,
      ap (λ (t : ℕ). (acc + 1) * t) (pow-suc 256 (length bs)),
    )

tail-lt :
    (t n : ℕ) (buf : List ℕ) → t < 64 → n ≤ 7 → All IsByte buf → from_be (t ∷ take n buf) < 2 ^ 62
tail-lt t n buf ht hn h =
    let front : List ℕ = take n buf in
    let short : length front ≤ 7 = omega (arith, length-take n buf) in
    let fits : (0 * 256 + t + 1) * 256 ^ length front ≤ 64 * 256 ^ 7 =
      mul-le-mul {n₁ = 0 * 256 + t + 1} {n₂ = 64} (omega arith)
        (pow-le-pow_right (omega arith) short) in
    omega (arith, from_be_acc-lt (0 * 256 + t) front (All-take n buf h), fits)

-- Whatever the bytes, a successful read gives a number below 2^62 and an offset behind the one
-- given and inside the buffer.
pub decode_varint_bounds :
    (buf : List ℕ) (offset : ℕ) (v next : ℕ)
    → All IsByte buf
    → decode_varint buf offset ≡ ok (v, next)
    → (v < 2 ^ 62) × (offset < next) × (next ≤ length buf)
unfolding decode_varint
decode_varint_bounds buf offset v next h e = ground (
  arith,
  byte_at-lt buf offset h,
  byte_at-lt buf (offset + 1) h,
  bit_and_low_six (byte_at buf offset),
  bit_or-add 8 (byte_at buf offset % 64) (byte_at buf (offset + 1)),
  tail-lt (byte_at buf offset % 64) 3 (drop (offset + 1) buf) (omega arith) (omega arith)
      (All-drop (offset + 1) buf h),
  tail-lt (byte_at buf offset % 64) 7 (drop (offset + 1) buf) (omega arith) (omega arith)
      (All-drop (offset + 1) buf h),
)
