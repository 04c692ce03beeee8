-- ===== src/Decimal.antt =====
-- Python's `decimal.Decimal` as far as the program uses it: finite values that are not negative,
-- under the default context (28 digits, ROUND_HALF_EVEN). Exponents never come near the context's
-- limits here, so overflow and underflow are left out.
pub mod Laws
use tee_gateway.Prelude.{
  ℕ, zero, suc, ◌+◌, ◌-◌, ◌*◌, ◌/◌, ◌%◌, ◌^◌, min, Bool, true, false, ◌&&◌, ◌||◌, Option, none,
  some, ltb, leb, ◌==◌, if◌then◌else◌,
}
use tee_gateway.Prelude.Int.{ℤ, pos, negsuc, pos_part, neg_part, ◌+ℤ◌, ◌-ℤ◌, leb_ℤ}

-- coeff * 10 ^ exp
pub record Decimal : Type 0 where
  pub coeff : ℕ
  pub exp : ℤ

abbrev pub is_zero : Decimal → Bool
is_zero d = d.coeff == 0

abbrev pub of_nat : ℕ → Decimal
of_nat n = record { coeff = n; exp = pos 0 }

-- The number of decimal digits, 1 for 0. The number itself is fuel enough.
unfoldable pub digits_fuel : ℕ → ℕ → ℕ
digits_fuel zero n = 1
digits_fuel (suc fuel) n = elim (ltb n 10) [ true ↦ 1 | false ↦ suc (digits_fuel fuel (n / 10)) ]

unfoldable pub count_digits : ℕ → ℕ
unfolding digits_fuel
count_digits n = digits_fuel n n

abbrev pub precision : ℕ
precision = 28

-- The quotient by `unit`, to the nearest, ties to the even one.
unfoldable pub half_even : ℕ → ℕ → ℕ
half_even c unit =
    let q = c / unit in
    let twice = 2 * (c % unit) in
    if ltb unit twice || (twice == unit && q % 2 == 1) then q + 1 else q

-- Rounding to the context's precision, which every operation ends with.
unfoldable pub fix : Decimal → Decimal
fix d =
    let extra = count_digits d.coeff - precision in
    if leb (count_digits d.coeff) precision
    then d
    else record { coeff = half_even d.coeff (10 ^ extra); exp = d.exp +ℤ pos extra }

unfoldable pub mul : Decimal → Decimal → Decimal
mul a b = fix (record { coeff = a.coeff * b.coeff; exp = a.exp +ℤ b.exp })

-- The coefficient of `d` over a smaller exponent.
abbrev pub coeff_at : Decimal → ℤ → ℕ
coeff_at d exp = d.coeff * 10 ^ pos_part (d.exp -ℤ exp)

unfoldable pub add : Decimal → Decimal → Decimal
add a b =
    let exp = if leb_ℤ a.exp b.exp then a.exp else b.exp in
    fix (record { coeff = coeff_at a exp + coeff_at b exp; exp = exp })

-- Trailing zeros go while the exponent is below the ideal one.
unfoldable pub strip_zeros : ℕ → ℕ → Decimal → Decimal
strip_zeros zero gap d = d
strip_zeros (suc fuel) gap d = elim (ltb 0 gap && d.coeff % 10 == 0) [
  | true ↦ strip_zeros fuel (gap - 1) (record { coeff = d.coeff / 10; exp = d.exp +ℤ pos 1 })
  | false ↦ d
]

-- The scaled quotient, with a sticky last digit where it is not exact.
unfoldable pub div_scaled : ℕ → ℕ → ℤ → ℤ → Decimal
unfolding strip_zeros
div_scaled n m exp ideal =
    let q = n / m in
    let sticky : Decimal = record { coeff = if q % 5 == 0 then q + 1 else q; exp = exp } in
    let gap = pos_part (ideal -ℤ exp) in
    if n % m == 0 then strip_zeros gap gap (record { coeff = q; exp = exp }) else sticky

-- a / b, or `none` where Python raises (a zero divisor).
unfoldable pub div : Decimal → Decimal → Option Decimal
div a b =
    let ideal = a.exp -ℤ b.exp in
    let shift = pos (count_digits b.coeff + precision + 1) -ℤ pos (count_digits a.coeff) in
    if is_zero b
    then none
    else if is_zero a
    then some (record { coeff = 0; exp = ideal })
    else some (
        fix (
          div_scaled (a.coeff * 10 ^ pos_part shift) (b.coeff * 10 ^ neg_part shift)
            (ideal -ℤ shift) ideal))

-- int(d.to_integral_value(rounding=ROUND_CEILING))
unfoldable pub ceiling : Decimal → ℕ
ceiling d = let unit = 10 ^ neg_part d.exp in (d.coeff * 10 ^ pos_part d.exp + (unit - 1)) / unit
