-- ===== src/Prelude/Bits.antt =====
-- Laws of the bitwise operations that the codecs use.
use Prim.Native.Nat.{
  ℕ, zero, suc, ◌+◌, ◌*◌, ◌/◌, ◌%◌, ◌^◌, ◌≤◌, ◌<◌, max, bit_and, bit_or, bit_xor, digits,
  bit_or-bitwise,
}
use mathlib.Core.Path.{◌≡◌, refl, ap}
use mathlib.Core.Bool.{Bool, true, ◌&&◌}
use native.Mathlib.Omega.{arith}
use native.Mathlib.Nat.{pow-suc}
use tee_gateway.Prelude.Tests.{◌==◌, ==_iff}

-- `|` on binary digits, with fuel.
abbrev or_rec : ℕ → ℕ → ℕ → ℕ
or_rec fuel x y = digits (λ rest. rest) max fuel x y

-- Any two amounts of fuel that reach the first number give the same.
or_rec-enough : (f g x y : ℕ) → x ≤ f → x ≤ g → or_rec f x y ≡ or_rec g x y
or_rec-enough (suc f) (suc g) (suc x) y reach_f reach_g =
    let smaller = or_rec-enough f g (suc x / 2) (y / 2) (omega arith) (omega arith) in
    omega (arith, smaller)
or_rec-enough (suc f) (suc g) zero y reach_f reach_g = refl
or_rec-enough (suc f) zero zero y reach_f reach_g = refl
or_rec-enough (suc f) zero (suc x) y reach_f reach_g = absurd (omega (arith, reach_g))
or_rec-enough zero (suc g) zero y reach_f reach_g = refl
or_rec-enough zero g (suc x) y reach_f reach_g = absurd (omega (arith, reach_f))
or_rec-enough zero zero zero y reach_f reach_g = refl

none-bit_or : (y : ℕ) → bit_or 0 y ≡ y
none-bit_or y = bit_or-bitwise 0 y

bit_or-halves : (x y : ℕ) → bit_or x y ≡ max (x % 2) (y % 2) + 2 * bit_or (x / 2) (y / 2)
bit_or-halves zero y = omega (arith, none-bit_or (y / 2), none-bit_or y)
bit_or-halves (suc x) y =
    let half = suc x / 2 in
    let enough = or_rec-enough x half half (y / 2) (omega arith) (omega arith) in
    omega (arith, enough, bit_or-bitwise half (y / 2), bit_or-bitwise (suc x) y)

bit_or-none : (bound x : ℕ) → x ≤ bound → bit_or x 0 ≡ x
bit_or-none zero (suc x) reach = absurd (omega (arith, reach))
bit_or-none bound zero reach = refl
bit_or-none (suc bound) (suc x) reach =
    let half = bit_or-none bound (suc x / 2) (omega arith) in
    omega (arith, half, bit_or-halves (suc x) 0)

-- `high | low` is a sum when `high` is a multiple of 2 ^ k and `low` fits k bits.
pub bit_or-add : (k q r : ℕ) → r < 2 ^ k → bit_or (q * 2 ^ k) r ≡ q * 2 ^ k + r
bit_or-add zero q r h = ground (arith, bit_or-none q q)
bit_or-add (suc k) q r h = ground (
  arith,
  bit_or-halves (q * 2 ^ suc k) r,
  ap (λ (t : ℕ). q * t) (pow-suc 2 k),
  pow-suc 2 k,
  bit_or-add k q (r / 2),
)

-- A test that passes below a bound, found by trying every number.
pub passes_below : (ℕ → Bool) → ℕ → Bool
passes_below test zero = true
passes_below test (suc bound) = passes_below test bound && test bound

pub passes_below-at :
    (test : ℕ → Bool) (x bound : ℕ) → x < bound → passes_below test bound ≡ true → test x ≡ true
unfolding passes_below
passes_below-at test x (suc bound) within passed =
    ground (arith, passed, passes_below-at test x bound)
passes_below-at test x zero within passed = absurd (omega (arith, within))

low_six_table : passes_below (λ b. bit_and b 0x3f == b % 64) 256 ≡ true
unfolding passes_below
low_six_table = refl

-- `b & 0x3F` of a byte.
pub bit_and_low_six : (b : ℕ) → b < 256 → bit_and b 0x3f ≡ b % 64
bit_and_low_six b h = (==_iff _ _).0 (passes_below-at _ b 256 h low_six_table)

xor_table :
    passes_below
      (λ a. passes_below (λ b. bit_xor a (bit_xor a b) == b && bit_xor a b / 256 == 0) 256)
      256
    ≡ true
unfolding passes_below
xor_table = refl

xor_entry :
    (a b : ℕ) → a < 256 → b < 256 → (bit_xor a (bit_xor a b) == b && bit_xor a b / 256 == 0) ≡ true
xor_entry a b ha hb = passes_below-at _ b 256 hb (passes_below-at _ a 256 ha xor_table)

-- XOR with the same byte cancels.
pub bit_xor_cancel : (a b : ℕ) → a < 256 → b < 256 → bit_xor a (bit_xor a b) ≡ b
bit_xor_cancel a b ha hb = ground (arith, xor_entry a b ha hb)

pub bit_xor-lt : (a b : ℕ) → a < 256 → b < 256 → bit_xor a b < 256
bit_xor-lt a b ha hb = ground (arith, xor_entry a b ha hb)
