-- ===== src/Ohttp/Bytes.antt =====
-- Python `bytes` as lists of numbers: indexing, big-endian words (`struct.pack`, `int.to_bytes`).
use native.Mathlib.Nat.{pow-suc, div-add-mod', div-div-eq-div-mul, mod-eq_of_lt}
use tee_gateway.Prelude.{
  ℕ, zero, suc, ◌+◌, ◌*◌, ◌/◌, ◌%◌, ◌^◌, ◌<◌, ◌≡◌, refl, ap, List, [], ◌∷◌, ◌++◌, length, drop, All,
  arith, ◌∙◌, sym,
}

abbrev pub IsByte : ℕ → Type 0
IsByte b = b < 256

-- `buf[i]`; every use stands behind a test of the length.
abbrev pub byte_at : List ℕ → ℕ → ℕ
byte_at [] i = 0
byte_at (b ∷ bs) zero = b
byte_at (b ∷ bs) (suc i) = byte_at bs i

-- `n.to_bytes(k, "big")` for n < 256 ^ k; ">H", ">I" and ">Q" are k = 2, 4, 8.
abbrev pub be_bytes : ℕ → ℕ → List ℕ
be_bytes zero n = []
be_bytes (suc k) n = (n / 256 ^ k % 256) ∷ be_bytes k n

-- `struct.unpack` of one big-endian word.
abbrev pub from_be_acc : ℕ → List ℕ → ℕ
from_be_acc acc [] = acc
from_be_acc acc (b ∷ bs) = from_be_acc (acc * 256 + b) bs

abbrev pub from_be : List ℕ → ℕ
from_be = from_be_acc 0

pub byte_at-append : (pre ys : List ℕ) (i : ℕ) → byte_at (pre ++ ys) (length pre + i) ≡ byte_at ys i
byte_at-append [] ys i = ap (byte_at ys) (omega arith)
byte_at-append (x ∷ pre) ys i =
    let e : suc (length pre) + i ≡ suc (length pre + i) = omega arith in
    ap (byte_at (x ∷ pre ++ ys)) e ∙ byte_at-append pre ys i

pub byte_at-append_zero : (pre ys : List ℕ) → byte_at (pre ++ ys) (length pre) ≡ byte_at ys 0
byte_at-append_zero [] ys = refl
byte_at-append_zero (x ∷ pre) ys = byte_at-append_zero pre ys

pub drop-append : (pre ys : List ℕ) (i : ℕ) → drop (length pre + i) (pre ++ ys) ≡ drop i ys
drop-append [] ys i = ap (λ (k : ℕ). drop k ys) (omega arith)
drop-append (x ∷ pre) ys i =
    let e : suc (length pre) + i ≡ suc (length pre + i) = omega arith in
    ap (λ (k : ℕ). drop k (x ∷ pre ++ ys)) e ∙ drop-append pre ys i

pub length-be_bytes : (k n : ℕ) → length (be_bytes k n) ≡ k
length-be_bytes zero n = refl
length-be_bytes (suc k) n = ap suc (length-be_bytes k n)

pub be_bytes-IsByte : (k n : ℕ) → All IsByte (be_bytes k n)
be_bytes-IsByte zero n = tt
be_bytes-IsByte (suc k) n = (omega arith, be_bytes-IsByte k n)

-- What `from_be` reads of an encoded word is the word, cut to k bytes.
split_top : (n p : ℕ) → n % (p * 256) ≡ n / p % 256 * p + n % p
split_top n p = omega (
  arith,
  div-add-mod' n p,
  div-add-mod' n (p * 256),
  ap (λ (t : ℕ). t * p) (div-add-mod' (n / p) 256),
  ap (λ (t : ℕ). t * (p * 256)) (div-div-eq-div-mul n p 256),
)

from_be_acc-be_bytes : (k acc n : ℕ) → from_be_acc acc (be_bytes k n) ≡ acc * 256 ^ k + n % 256 ^ k
from_be_acc-be_bytes zero acc n = omega arith
from_be_acc-be_bytes (suc k) acc n = omega (
  arith,
  from_be_acc-be_bytes k (acc * 256 + n / 256 ^ k % 256) n,
  split_top n (256 ^ k),
  ap (λ (t : ℕ). n % t) (pow-suc 256 k),
  ap (λ (t : ℕ). acc * t) (pow-suc 256 k),
)

pub from_be-be_bytes : (k n : ℕ) → n < 256 ^ k → from_be (be_bytes k n) ≡ n
from_be-be_bytes k n h = omega (arith, from_be_acc-be_bytes k 0 n, mod-eq_of_lt h)

-- Encoding to k bytes loses nothing below 256 ^ k.
pub be_bytes_injective :
    (k a b : ℕ) → a < 256 ^ k → b < 256 ^ k → be_bytes k a ≡ be_bytes k b → a ≡ b
be_bytes_injective k a b ha hb e =
    sym (from_be-be_bytes k a ha) ∙ ap from_be e ∙ from_be-be_bytes k b hb
