-- ===== src/Std/Numbers.antt =====
-- Numbers in text: `n.to_string()` and `{}` of an unsigned integer, and `from_str_radix`, of which
-- `parse` is the case of radix ten.
use rust_kernel_engine.Base.{
  ℕ, zero, suc, ◌+◌, ◌-◌, ◌*◌, ◌/◌, ◌%◌, ◌^◌, ◌≤◌, ◌<◌, ◌≡◌, refl, ◌≢◌, [], ◌∷◌, ◌&&◌, Option, none,
  some, ltb, leb, ◌==◌, if◌then◌else◌, All, arith,
}
use rust_kernel_engine.Std.Keys.{Text}

abbrev pub usize_max : ℕ
usize_max = 2 ^ 64 - 1

-- The digits of `n` in front of `out`; the fuel is more than the number of digits.
digits : ℕ → ℕ → Text → Text
digits zero n out = out
digits (suc f) n out =
    let rest = digits f (n / 10) ((b'0' + n % 10) ∷ out) in
    if n / 10 == 0 then (b'0' + n % 10) ∷ out else rest

unfoldable pub to_string : ℕ → Text
unfolding digits
to_string n = digits (suc n) n []

-- `char::to_digit`, for a radix up to 36.
abbrev pub digit_value : ℕ → Option ℕ
digit_value c =
    if leb b'0' c && leb c b'9'
    then some (c - b'0')
    else if leb b'a' c && leb c b'z'
    then some (c - b'a' + 10)
    else if leb b'A' c && leb c b'Z'
    then some (c - b'A' + 10)
    else none

abbrev pub to_digit : ℕ → ℕ → Option ℕ
to_digit radix c = elim (digit_value c) [
  | none ↦ none
  | some d ↦ if ltb d radix then some d else none
]

module _ (radix max : ℕ) where
  -- The digits behind a value; a value above `max` is an overflow.
  scan : Text → ℕ → Option ℕ
  scan [] n = some n
  scan (c ∷ s) n = elim (to_digit radix c) [
    | none ↦ none
    | some d ↦ if ltb max (n * radix + d) then none else scan s (n * radix + d)
  ]

  -- One leading `+` is allowed, a `+` alone is not.
  unfoldable pub from_str_radix : Text → Option ℕ
  unfolding scan
  from_str_radix [] = none
  from_str_radix (c ∷ []) = if c == b'+' then none else scan (c ∷ []) 0
  from_str_radix (c ∷ d ∷ s) = if c == b'+' then scan (d ∷ s) 0 else scan (c ∷ d ∷ s) 0

abbrev pub IsDigit : ℕ → Type 0
IsDigit c = (b'0' ≤ c) × (c ≤ b'9')

digits-IsDigit :
    (f n : ℕ) (out : Text)
    → n < f
    → All IsDigit out
    → All IsDigit (digits f n out) × (digits f n out ≢ [])
unfolding digits
digits-IsDigit zero n out h a = elim h [ ]
digits-IsDigit (suc f) n out h a = ground (arith, digits-IsDigit f (n / 10) ((b'0' + n % 10) ∷ out))

-- A printed number is a non-empty text of digits.
pub to_string-IsDigit : (n : ℕ) → All IsDigit (to_string n) × (to_string n ≢ [])
unfolding to_string
to_string-IsDigit n = digits-IsDigit (suc n) n [] (omega arith) tt

scan_digit :
    (max n m : ℕ) (s : Text)
    → m < 10
    → n * 10 + m ≤ max
    → scan 10 max ((b'0' + m) ∷ s) n ≡ scan 10 max s (n * 10 + m)
unfolding scan
scan_digit max n m s h k = ground arith

scan-digits :
    (max f n : ℕ) (out : Text)
    → n < f
    → n ≤ max
    → scan 10 max (digits f n out) 0 ≡ scan 10 max out n
unfolding digits
scan-digits max zero n out h k = elim h [ ]
scan-digits max (suc f) n out h k = ground (
  arith,
  scan_digit max 0 (n % 10) out,
  scan_digit max (n / 10) (n % 10) out,
  scan-digits max f (n / 10) ((b'0' + n % 10) ∷ out),
)

from_str_radix-scan :
    (radix max : ℕ) (s : Text)
    → All IsDigit s
    → s ≢ []
    → from_str_radix radix max s ≡ scan radix max s 0
unfolding from_str_radix
from_str_radix-scan radix max [] a h = absurd (h refl)
from_str_radix-scan radix max (c ∷ []) a h = ground arith
from_str_radix-scan radix max (c ∷ d ∷ s) a h = ground arith

-- A number that fits is read back from its print.
pub from_str_radix-to_string : (max n : ℕ) → n ≤ max → from_str_radix 10 max (to_string n) ≡ some n
unfolding to_string scan
from_str_radix-to_string max n h = ground (
  arith,
  to_string-IsDigit n,
  from_str_radix-scan 10 max (to_string n),
  scan-digits max (suc n) n [],
)
