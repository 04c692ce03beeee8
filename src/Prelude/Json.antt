-- ===== src/Prelude/Json.antt =====
-- Parsed JSON as Python holds it, and the built-in functions that the program applies to it.
use tee_gateway.Prelude.Tests.{ltb, leb, ◌==◌, if◌then◌else◌}
use tee_gateway.Prelude.Int.{ℤ, pos, negsuc}
use tee_gateway.Prelude.Result.{Result, ok, err}
use tee_gateway.Prelude.Text.{Text, strip, find_key}
use Prim.Native.Nat.{ℕ, zero, suc, ◌+◌, ◌-◌, ◌*◌}
use mathlib.Core.Bool.{Bool, true, false, not, ◌&&◌}
use mathlib.Core.List.{List, [], ◌∷◌}
use mathlib.Core.Option.{Option, none, some}

-- A float by what `int` and a test of truth make of it: its integral part and whether it is zero.
pub data Float : Type 0 where
  finite : ℤ → Bool → Float
  infinite : Float
  not_a_number : Float

mutual
  pub data Json : Type 0 where
    null : Json
    bool : Bool → Json
    int : ℤ → Json
    float : Float → Json
    str : Text → Json
    arr : Elements → Json
    obj : Fields → Json

  pub data Elements : Type 0 where
    no_elements : Elements
    element : Json → Elements → Elements

  -- The entries of a dict in order, no key twice.
  pub data Fields : Type 0 where
    no_fields : Fields
    field : Text → Json → Fields → Fields

abbrev pub elements : Elements → List Json
elements no_elements = []
elements (element v vs) = v ∷ elements vs

abbrev pub fields : Fields → List (Text × Json)
fields no_fields = []
fields (field k v fs) = (k, v) ∷ fields fs

abbrev pub object_of : List (Text × Json) → Fields
object_of [] = no_fields
object_of (entry ∷ entries) = field entry.0 entry.1 (object_of entries)

-- The exceptions of the built-in functions.
pub data PyError : Type 0 where
  value_error type_error overflow_error attribute_error key_error : PyError

-- d.get(key), None where the key is missing.
abbrev pub get : Text → Fields → Json
get key d = elim (find_key key (fields d)) [ none ↦ null | some v ↦ v ]

-- bool(value)
abbrev pub truthy : Json → Bool
truthy null = false
truthy (bool b) = b
truthy (int (pos zero)) = false
truthy (int _) = true
truthy (float (finite n is_zero)) = not is_zero
truthy (float _) = true
truthy (str []) = false
truthy (str (c ∷ s)) = true
truthy (arr no_elements) = false
truthy (arr (element v vs)) = true
truthy (obj no_fields) = false
truthy (obj (field k v fs)) = true

abbrev pub is_digit : ℕ → Bool
is_digit c = leb b'0' c && leb c b'9'

-- Decimal digits, with single underscores between them.
unfoldable pub parse_digits : ℕ → Text → Option ℕ
parse_digits acc [] = some acc
parse_digits acc (c ∷ []) = if is_digit c then some (acc * 10 + (c - b'0')) else none
parse_digits acc (c ∷ d ∷ s) =
    let next = acc * 10 + (c - b'0') in
    let skipped = parse_digits next s in
    let on = parse_digits next (d ∷ s) in
    if is_digit c then if d == b'_' then elim s [ [] ↦ none | _ ∷ _ ↦ skipped ] else on else none

abbrev pub negate : ℕ → ℤ
negate zero = pos 0
negate (suc n) = negsuc n

abbrev pub parse_unsigned : Text → Option ℕ
parse_unsigned [] = none
parse_unsigned (c ∷ s) = parse_digits 0 (c ∷ s)

-- int(text) of ASCII digits.
unfoldable pub parse_int : Text → Option ℤ
unfolding parse_digits
parse_int [] = none
parse_int (c ∷ s) =
    if c == b'-'
    then elim (parse_unsigned s) [ none ↦ none | some n ↦ some (negate n) ]
    else if c == b'+'
    then elim (parse_unsigned s) [ none ↦ none | some n ↦ some (pos n) ]
    else elim (parse_unsigned (c ∷ s)) [ none ↦ none | some n ↦ some (pos n) ]

abbrev pub digit_count : Text → ℕ
digit_count [] = 0
digit_count (c ∷ s) = let rest = digit_count s in if is_digit c then suc rest else rest

-- int(value); a text of more than 4300 digits is refused.
unfoldable pub int_of : Json → Result PyError ℤ
unfolding parse_int
int_of null = err type_error
int_of (bool true) = ok (pos 1)
int_of (bool false) = ok (pos 0)
int_of (int n) = ok n
int_of (float (finite n is_zero)) = ok n
int_of (float infinite) = err overflow_error
int_of (float not_a_number) = err value_error
int_of (str s) =
    if ltb 4300 (digit_count s)
    then err value_error
    else elim (parse_int (strip s)) [ none ↦ err value_error | some n ↦ ok n ]
int_of (arr _) = err type_error
int_of (obj _) = err type_error
