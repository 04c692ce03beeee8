-- ===== src/Prelude/Text.antt =====
-- Texts as lists of code points: the string methods that the program calls.
use Prim.Native.Nat.{ℕ, zero, suc, ◌+◌, ◌/◌, ◌%◌}
use Prim.Native.Char.{code}
use Prim.Native.String.{String}
use mathlib.Core.Bool.{Bool, true, false, ◌&&◌, ◌||◌}
use mathlib.Core.List.{List, [], ◌∷◌, map, reverse}
use mathlib.Core.Option.{Option, none, some}
use mathlib.Core.Path.{◌≡◌, refl, sym, ap, ◌∙◌}
use mathlib.Core.Logic.{◌≢◌, ◌⊎◌, inl, inr}
use native.Mathlib.Omega.{arith}
use tee_gateway.Prelude.Tests.{ltb, leb, ◌==◌, if◌then◌else◌, Bool-cases}

abbrev pub Text : Type 0
Text = List ℕ

-- The code points of a literal: its bytes, if it is ASCII.
abbrev pub codes : String → Text
codes String.[] = []
codes (String.◌∷◌ c s) = code c ∷ codes s

abbrev pub text_eq : Text → Text → Bool
text_eq [] [] = true
text_eq [] (y ∷ ys) = false
text_eq (x ∷ xs) [] = false
text_eq (x ∷ xs) (y ∷ ys) = x == y && text_eq xs ys

-- `text in (…)`
abbrev pub text_mem : Text → List Text → Bool
text_mem t [] = false
text_mem t (u ∷ us) = text_eq t u || text_mem t us

-- str.isspace of one character
unfoldable pub is_space : ℕ → Bool
is_space c =
    (leb 9 c && leb c 13)
    || (leb 28 c && leb c 32)
    || c == 0x85
    || c == 0xa0
    || c == 0x1680
    || (leb 0x2000 c && leb c 0x200a)
    || c == 0x2028
    || c == 0x2029
    || c == 0x202f
    || c == 0x205f
    || c == 0x3000

unfoldable pub lstrip : Text → Text
unfolding is_space
lstrip [] = []
lstrip (c ∷ s) = if is_space c then lstrip s else c ∷ s

unfoldable pub rstrip : Text → Text
unfolding lstrip
rstrip s = reverse (lstrip (reverse s))

unfoldable pub strip : Text → Text
unfolding lstrip rstrip
strip s = rstrip (lstrip s)

-- str.lower on ASCII letters; other characters are left alone.
unfoldable pub lower : Text → Text
lower = map λ c. if leb b'A' c && leb c b'Z' then c + 32 else c

unfoldable pub starts_with : Text → Text → Bool
starts_with s [] = true
starts_with [] (p ∷ ps) = false
starts_with (c ∷ s) (p ∷ ps) = c == p && starts_with s ps

-- `needle in s`
unfoldable pub contains : Text → Text → Bool
unfolding starts_with
contains needle [] = starts_with [] needle
contains needle (c ∷ s) = starts_with (c ∷ s) needle || contains needle s

-- s.split(sep, 1)[0]
unfoldable pub before : ℕ → Text → Text
before sep [] = []
before sep (c ∷ s) = let rest = before sep s in if c == sep then [] else c ∷ rest

-- dict.get: the entries of a dict, the live one of a key first.
unfoldable pub find_key {ℓ} : {A : Type ℓ} → Text → List (Text × A) → Option A
find_key key [] = none
find_key key (entry ∷ entries) = elim (text_eq key entry.0) [
  | true ↦ some entry.1
  | false ↦ find_key key entries
]

pub text_eq_refl : (s : Text) → text_eq s s ≡ true
text_eq_refl [] = refl
text_eq_refl (c ∷ s) = ground (arith, text_eq_refl s)

pub text_eq_sound : (s t : Text) → text_eq s t ≡ true → s ≡ t
text_eq_sound [] [] h = refl
text_eq_sound [] (c ∷ t) h = ground arith
text_eq_sound (c ∷ s) [] h = ground arith
text_eq_sound (c ∷ s) (d ∷ t) h = ground (arith, h, text_eq_sound s t)

-- Two texts are equal or not.
pub text_cases : (s t : Text) → (s ≡ t) ⊎ (s ≢ t)
text_cases s t = elim (Bool-cases (text_eq s t)) [
  | inl same ↦ inl (text_eq_sound s t same)
  | inr differ ↦ inr (λ e. ground (arith, e, differ, text_eq_refl s))
]

abbrev pub decimal_digits : ℕ → ℕ → Text → Text
decimal_digits zero n s = s
decimal_digits (suc fuel) n s =
    let more = decimal_digits fuel (n / 10) ((48 + n % 10) ∷ s) in
    if ltb n 10 then (48 + n) ∷ s else more

-- str(n); a number has at most as many digits as it counts, and one.
unfoldable pub decimal : ℕ → Text
decimal n = decimal_digits (suc n) n []

-- key in entries
abbrev pub has_key {ℓ} : {A : Type ℓ} → Text → List (Text × A) → Bool
has_key key [] = false
has_key key (entry ∷ entries) = text_eq key entry.0 || has_key key entries

-- The entries without a key: dict.pop(key)
unfoldable pub remove_key {ℓ} : {A : Type ℓ} → Text → List (Text × A) → List (Text × A)
remove_key key [] = []
remove_key key (entry ∷ entries) =
    let rest = remove_key key entries in if text_eq key entry.0 then rest else entry ∷ rest

-- d[key] = value: in the place of the old value, or behind all.
unfoldable pub put_key {ℓ} : {A : Type ℓ} → Text → A → List (Text × A) → List (Text × A)
put_key key value [] = (key, value) ∷ []
put_key key value (entry ∷ entries) =
    let rest = put_key key value entries in
    if text_eq key entry.0 then (key, value) ∷ entries else entry ∷ rest

-- d.update(new)
unfoldable pub update_keys {ℓ} : {A : Type ℓ} → List (Text × A) → List (Text × A) → List (Text × A)
unfolding put_key
update_keys [] entries = entries
update_keys (entry ∷ new) entries = update_keys new (put_key entry.0 entry.1 entries)

-- Equal texts compare alike.
text_eq_along : (s t u : Text) → text_eq t u ≡ true → text_eq s t ≡ text_eq s u
text_eq_along s t u h = ap (text_eq s) (text_eq_sound t u h)

text_eq_join : (s t u : Text) → text_eq s t ≡ true → text_eq s u ≡ true → text_eq t u ≡ true
text_eq_join s t u h k = ap (λ r. text_eq r u) (sym (text_eq_sound s t h)) ∙ k

module _ {ℓ} {A : Type ℓ} where
  pub find-cons :
      (wanted : Text) (entry : Text × A) (entries : List (Text × A))
      → find_key wanted (entry ∷ entries)
        ≡ (if text_eq wanted entry.0 then some entry.1 else find_key wanted entries)
  unfolding find_key
  find-cons wanted entry entries = elim (Bool-cases (text_eq wanted entry.0)) [
    | inl e ↦ rw (find_key, e) refl
    | inr e ↦ rw (find_key, e) refl
  ]

  -- What is found behind a write, and behind a removal.
  pub find-put_key :
      (wanted key : Text) (value : A) (entries : List (Text × A))
      → find_key wanted (put_key key value entries)
        ≡ (if text_eq wanted key then some value else find_key wanted entries)
  unfolding put_key
  find-put_key wanted key value [] = find-cons wanted (key, value) []
  find-put_key wanted key value (entry ∷ entries) = ground (
    arith,
    find-cons wanted entry entries,
    find-cons wanted (key, value) entries,
    find-cons wanted entry (put_key key value entries),
    find-put_key wanted key value entries,
    text_eq_along wanted key entry.0,
    text_eq_join wanted key entry.0,
  )

  pub find-remove_key :
      (wanted key : Text) (entries : List (Text × A))
      → find_key wanted (remove_key key entries)
        ≡ (if text_eq wanted key then none else find_key wanted entries)
  unfolding remove_key find_key
  find-remove_key wanted key [] = ground arith
  find-remove_key wanted key (entry ∷ entries) =
      unfold remove_key in
      ground (
        arith,
        find-cons wanted entry entries,
        find-cons wanted entry (remove_key key entries),
        find-remove_key wanted key entries,
        text_eq_along wanted key entry.0,
        text_eq_join wanted key entry.0,
      )

  pub find-update_keys_other :
      (wanted : Text) (new entries : List (Text × A))
      → has_key wanted new ≡ false
      → find_key wanted (update_keys new entries) ≡ find_key wanted entries
  unfolding update_keys
  find-update_keys_other wanted [] entries h = refl
  find-update_keys_other wanted (entry ∷ new) entries h =
      elim (Bool-cases (text_eq wanted entry.0)) [
        | inl e ↦ absurd (ground (arith, h, e))
        | inr e ↦
            find-update_keys_other wanted new (put_key entry.0 entry.1 entries)
              (ground (arith, h, e))
            ∙ find-put_key wanted entry.0 entry.1 entries
            ∙ rw e refl
      ]
