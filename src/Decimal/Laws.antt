-- ===== src/Decimal/Laws.antt =====
-- What rounding keeps: bounds of the ceiling, exactness of short results, and that a positive value
-- never becomes zero.
use native.Mathlib.Nat.{
  div-add-mod', mod-lt, pow-suc, one-le-pow, pow-le-pow_right, mul-pos, le-div_iff_mul-le,
}
use tee_gateway.Prelude.{
  ℕ, zero, suc, ◌+◌, ◌-◌, ◌*◌, ◌/◌, ◌%◌, ◌^◌, ◌≤◌, ◌<◌, ◌≡◌, ◌⊎◌, ap, arith, Bool-cases, inl, inr,
  some, ◌&&◌, ltb, ◌==◌, if◌then◌else◌,
}
use tee_gateway.Prelude.Int.{ℤ, pos, pos_part, neg_part, ◌+ℤ◌, ◌-ℤ◌, leb_ℤ}
use tee_gateway.Decimal.{
  Decimal, is_zero, digits_fuel, count_digits, half_even, ceiling, strip_zeros, div_scaled, div,
  mul, add, fix, coeff_at, precision,
}

abbrev pub IsPositive : Decimal → Type 0
IsPositive d = 0 < d.coeff

pub ten-pow-pos : (k : ℕ) → 1 ≤ 10 ^ k
ten-pow-pos k = one-le-pow k 10 (omega arith)

-- `n` is the least integer that is not below `d`.
abbrev pub IsCeiling : Decimal → ℕ → Type 0
IsCeiling d n =
    (d.coeff * 10 ^ pos_part d.exp ≤ n * 10 ^ neg_part d.exp)
    × (n * 10 ^ neg_part d.exp < d.coeff * 10 ^ pos_part d.exp + 10 ^ neg_part d.exp)

-- The ceiling is the least integer that is not below the value.
pub ceiling_lem : (d : Decimal) → IsCeiling d (ceiling d)
unfolding ceiling
ceiling_lem d =
    let value = d.coeff * 10 ^ pos_part d.exp in
    let unit = 10 ^ neg_part d.exp in
    let full : 1 ≤ unit = ten-pow-pos (neg_part d.exp) in
    (
      omega (arith, div-add-mod' (value + (unit - 1)) unit, mod-lt (value + (unit - 1)) full),
      omega (arith, div-add-mod' (value + (unit - 1)) unit, full),
    )

ceil-pos-aux : (value unit c : ℕ) → 0 < value → value ≤ c * unit → 1 ≤ c
ceil-pos-aux value unit zero h k = absurd (omega (arith, k))
ceil-pos-aux value unit (suc c) h k = omega arith

pub ceiling-pos : (d : Decimal) → IsPositive d → 1 ≤ ceiling d
ceiling-pos d h =
    ceil-pos-aux (d.coeff * 10 ^ pos_part d.exp) (10 ^ neg_part d.exp) (ceiling d)
      (mul-pos h (ten-pow-pos (pos_part d.exp))) (ceiling_lem d).0

quotient-pos : (n unit : ℕ) → 1 ≤ unit → unit ≤ n → 1 ≤ n / unit
quotient-pos n unit h k = (le-div_iff_mul-le {x = 1} h).1 (omega arith)

-- A positive number has one digit more than the power of ten below it.
digits_fuel_lower :
    (fuel n : ℕ) → 0 < n → n ≤ fuel → (k : ℕ) × (digits_fuel fuel n ≡ suc k) × (10 ^ k ≤ n)
unfolding digits_fuel
digits_fuel_lower zero n h k = absurd (omega arith)
digits_fuel_lower (suc fuel) n h k = elim (Bool-cases (ltb n 10)) [
  | inl small ↦ (0, ground (arith, small), omega arith)
  | inr large ↦
      let (j, e, low) = digits_fuel_lower fuel (n / 10) (ground arith) (omega arith) in
      (suc j, ground (arith, large, e), omega (arith, pow-suc 10 j, low))
]

half_even-pos : (c unit : ℕ) → 1 ≤ unit → unit ≤ c → 1 ≤ half_even c unit
unfolding half_even
half_even-pos c unit h k = ground (arith, quotient-pos c unit h k)

-- A number with more than 28 digits is not below the unit that it is rounded to.
rounding_unit-le : (c : ℕ) → 0 < c → 28 < count_digits c → 10 ^ (count_digits c - 28) ≤ c
unfolding count_digits
rounding_unit-le c h long =
    let (k, e, low) = digits_fuel_lower c c h (omega arith) in
    let smaller : 10 ^ (digits_fuel c c - 28) ≤ 10 ^ k =
      pow-le-pow_right (omega arith) (omega (arith, e)) in
    omega (arith, smaller, low)

pub fix-pos : (d : Decimal) → IsPositive d → IsPositive (fix d)
unfolding fix
fix-pos d h = ground (
  arith,
  half_even-pos d.coeff (10 ^ (count_digits d.coeff - 28))
      (ten-pow-pos (count_digits d.coeff - 28)),
  rounding_unit-le d.coeff h,
)

pub mul-IsPositive : (a b : Decimal) → IsPositive a → IsPositive b → IsPositive (mul a b)
unfolding mul
mul-IsPositive a b ha hb = fix-pos _ (mul-pos ha hb)

strip_zeros-pos : (fuel gap : ℕ) (d : Decimal) → IsPositive d → IsPositive (strip_zeros fuel gap d)
unfolding strip_zeros
strip_zeros-pos zero gap d h = h
strip_zeros-pos (suc fuel) gap d h = elim (Bool-cases (ltb 0 gap && d.coeff % 10 == 0)) [
  | inl more ↦ ground (
    arith,
    more,
    strip_zeros-pos fuel (gap - 1) (record { coeff = d.coeff / 10; exp = d.exp +ℤ pos 1 }),
  )
  | inr done ↦ ground (arith, done)
]

exact-quotient-pos : (n m : ℕ) → 0 < n → n % m ≡ 0 → 0 < n / m
exact-quotient-pos n m h e = elim (Bool-cases (n / m == 0)) [
  | inl none_left ↦
      let zero_quotient : n / m ≡ 0 = ground (arith, none_left) in
      absurd (omega (arith, div-add-mod' n m, ap (λ (q : ℕ). q * m) zero_quotient))
  | inr some_left ↦ ground (arith, some_left)
]

div_scaled-pos : (n m : ℕ) (exp ideal : ℤ) → 0 < n → 0 < m → IsPositive (div_scaled n m exp ideal)
unfolding div_scaled
div_scaled-pos n m exp ideal hn hm =
    let rule = div-add-mod' n m in
    let keep =
      strip_zeros-pos (pos_part (ideal -ℤ exp)) (pos_part (ideal -ℤ exp))
        (record { coeff = n / m; exp = exp }) in
    elim (Bool-cases (n % m == 0)) [
      | inl exact ↦ ground (arith, exact, keep (exact-quotient-pos n m hn (ground (arith, exact))))
      | inr rounded ↦ ground (arith, rounded)
    ]

-- A quotient of positive values exists and is positive, however small.
pub div-IsPositive :
    (a b : Decimal)
    → IsPositive a
    → IsPositive b
    → (q : Decimal) × (div a b ≡ some q) × IsPositive q
unfolding div
div-IsPositive a b ha hb =
    let ideal = a.exp -ℤ b.exp in
    let shift = pos (count_digits b.coeff + precision + 1) -ℤ pos (count_digits a.coeff) in
    let n = a.coeff * 10 ^ pos_part shift in
    let m = b.coeff * 10 ^ neg_part shift in
    let q = div_scaled n m (ideal -ℤ shift) ideal in
    (
      fix q,
      ground arith,
      fix-pos q (
          div_scaled-pos n m (ideal -ℤ shift) ideal (mul-pos ha (ten-pow-pos (pos_part shift)))
            (mul-pos hb (ten-pow-pos (neg_part shift)))),
    )

-- A result of at most 28 digits is not rounded.
pub fix-exact : (d : Decimal) → count_digits d.coeff ≤ 28 → fix d ≡ d
unfolding fix
fix-exact d h = ground arith

coeff_at-pos : (d : Decimal) (exp : ℤ) → IsPositive d → 0 < coeff_at d exp
coeff_at-pos d exp h = mul-pos h (ten-pow-pos (pos_part (d.exp -ℤ exp)))

pub add-IsPositive : (a b : Decimal) → IsPositive a ⊎ IsPositive b → IsPositive (add a b)
unfolding add
add-IsPositive a b some_positive =
    let exp = if leb_ℤ a.exp b.exp then a.exp else b.exp in
    fix-pos _ (elim some_positive [
      | inl h ↦ omega (arith, coeff_at-pos a exp h)
      | inr h ↦ omega (arith, coeff_at-pos b exp h)
    ])

-- A quotient by a positive value exists.
pub div-defined : (a b : Decimal) → IsPositive b → (q : Decimal) × (div a b ≡ some q)
unfolding div
div-defined a b h = elim (Bool-cases (is_zero a)) [
  | inl zero_value ↦ (record { coeff = 0; exp = a.exp -ℤ b.exp }, ground (arith, zero_value))
  | inr value ↦ let (q, e, positive) = div-IsPositive a b (ground (arith, value)) h in (q, e)
]
