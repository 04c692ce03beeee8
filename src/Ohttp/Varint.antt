-- ===== src/Ohttp/Varint.antt =====
-- `encode_varint` and `decode_varint` of tee_gateway/ohttp.py, and `_read_varint` of the client in
-- scripts/test_ohttp.py. The proofs are in the modules below.
pub mod RoundTrip
pub mod Bounds
use tee_gateway.Prelude.{
  ℕ, ◌+◌, ◌-◌, ◌*◌, ◌/◌, ◌%◌, ◌^◌, String, Option, none, some, List, [], ◌∷◌, ◌++◌, length, take,
  drop, ltb, leb, ◌==◌, if◌then◌else◌, bit_and, bit_or,
}
use tee_gateway.Prelude.Int.{ℤ, pos, negsuc}
use tee_gateway.Prelude.Result.{Result, ok, err}
use tee_gateway.Ohttp.Bytes.{byte_at, be_bytes, from_be}

-- `value >> 8` is `value / 256`, and `value & 0xFF` is `value % 256`.
encode_nat : ℕ → Result String (List ℕ)
encode_nat value =
    if ltb value (2 ^ 6)
    then ok (value ∷ [])
    else if ltb value (2 ^ 14)
    then ok (bit_or 0x40 (value / 256) ∷ value % 256 ∷ [])
    else if ltb value (2 ^ 30)
    then ok (be_bytes 4 (bit_or 0x8000_0000 value))
    else if ltb value (2 ^ 62)
    then ok (be_bytes 8 (bit_or 0xc000_0000_0000_0000 value))
    else err "varint value exceeds 2^62-1"

unfoldable pub encode_varint : ℤ → Result String (List ℕ)
unfolding encode_nat
encode_varint (negsuc n) = err "varint must be non-negative"
encode_varint (pos value) = encode_nat value

unfoldable pub decode_varint : List ℕ → ℕ → Result String (ℕ × ℕ)
decode_varint buf offset =
    let first = byte_at buf offset in
    let length_bits = first / 64 in
    if leb (length buf) offset
    then err "varint truncated"
    else if length_bits == 0
    then ok (first, offset + 1)
    else if length_bits == 1
    then (if ltb (length buf) (offset + 2)
        then err "varint truncated"
        else ok (bit_or (bit_and first 0x3f * 256) (byte_at buf (offset + 1)), offset + 2))
    else if length_bits == 2
    then (if ltb (length buf) (offset + 4)
        then err "varint truncated"
        else ok (from_be (bit_and first 0x3f ∷ take 3 (drop (offset + 1) buf)), offset + 4))
    else if ltb (length buf) (offset + 8)
    then err "varint truncated"
    else ok (from_be (bit_and first 0x3f ∷ take 7 (drop (offset + 1) buf)), offset + 8)

-- What `1 << (b >> 6)` is for a byte.
client_width : ℕ → ℕ
client_width b = 2 ^ (b / 64)

-- A stream is the list of bytes not read yet. `none` is the clean end of the stream.
unfoldable pub read_varint : List ℕ → Result String (Option ℕ × List ℕ)
unfolding client_width
read_varint [] = ok (none, [])
read_varint (b ∷ stream) =
    let nbytes = client_width b in
    let rest = take (nbytes - 1) stream in
    let left = drop (nbytes - 1) stream in
    let head = bit_and b 0x3f ∷ rest in
    if length rest == nbytes - 1
    then (if nbytes == 1
        then ok (some (bit_and b 0x3f), left)
        else if nbytes == 2
        then ok (some (bit_or (byte_at head 0 * 256) (byte_at head 1)), left)
        else ok (some (from_be head), left))
    else err "truncated varint"
