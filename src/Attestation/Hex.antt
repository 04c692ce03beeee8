-- ===== src/Attestation/Hex.antt =====
-- bytes.hex() and bytes.fromhex(text) of Python.
use tee_gateway.Prelude.{
  ℕ, ◌+◌, ◌-◌, ◌*◌, ◌/◌, ◌%◌, ◌<◌, ◌≡◌, refl, List, [], ◌∷◌, Option, none, some, Bool, false, ltb,
  leb, ◌==◌, ◌&&◌, ◌||◌, if◌then◌else◌, All, arith,
}
use tee_gateway.Prelude.Text.{Text}
use tee_gateway.Ohttp.Bytes.{IsByte}

abbrev pub hex_digit : ℕ → ℕ
hex_digit d = if ltb d 10 then d + 48 else d + 87

unfoldable pub hex : List ℕ → Text
hex [] = []
hex (b ∷ bs) = hex_digit (b / 16) ∷ hex_digit (b % 16) ∷ hex bs

abbrev hex_value : ℕ → Option ℕ
hex_value c =
    if leb b'0' c && leb c b'9'
    then some (c - 48)
    else if leb b'a' c && leb c b'f'
    then some (c - 87)
    else if leb b'A' c && leb c b'F'
    then some (c - 55)
    else none

-- Whitespace between two bytes is skipped.
abbrev skipped : ℕ → Bool
skipped c = (leb 9 c && leb c 13) || c == 32

abbrev put_byte : Option ℕ → Option ℕ → Option (List ℕ) → Option (List ℕ)
put_byte (some h) (some l) (some bs) = some ((h * 16 + l) ∷ bs)
put_byte _ _ _ = none

unfoldable pub from_hex : Text → Option (List ℕ)
from_hex [] = some []
from_hex (c ∷ []) = if skipped c then some [] else none
from_hex (c ∷ d ∷ s) =
    let after_space = from_hex (d ∷ s) in
    let rest = from_hex s in
    if skipped c then after_space else put_byte (hex_value c) (hex_value d) rest

hex_digit-value : (d : ℕ) → d < 16 → hex_value (hex_digit d) ≡ some d
hex_digit-value d h = ground arith

hex_digit_solid : (d : ℕ) → d < 16 → skipped (hex_digit d) ≡ false
hex_digit_solid d h = ground arith

pub from_hex-hex : (bs : List ℕ) → All IsByte bs → from_hex (hex bs) ≡ some bs
unfolding hex from_hex
from_hex-hex [] h = refl
from_hex-hex (b ∷ bs) h =
    let high : b / 16 < 16 = omega arith in
    rw
      (
        hex_digit_solid (b / 16) high,
        hex_digit-value (b / 16) high,
        hex_digit-value (b % 16) (omega arith),
        from_hex-hex bs h.1,
      )
      (ground arith)
