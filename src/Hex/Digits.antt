-- ===== src/Hex/Digits.antt =====
-- Hexadecimal digits and their values, as Rust's formatter and `char::to_digit(16)` have them.
use torrust_index.Base.{
  ℕ, ◌+◌, ◌-◌, ◌<◌, ◌≤◌, ◌≡◌, ◌&&◌, Option, none, some, [], ◌∷◌, Text, leb, ltb, if◌then◌else◌,
  arith,
}

-- the digit of `{:X}` for a value below 16
unfoldable pub upper_digit : ℕ → ℕ
upper_digit d = if ltb d 10 then d + b'0' else d - 10 + b'A'

-- the digit of `{:x}`
unfoldable pub lower_digit : ℕ → ℕ
lower_digit d = if ltb d 10 then d + b'0' else d - 10 + b'a'

-- `to_digit(16)`
unfoldable pub digit_value : ℕ → Option ℕ
digit_value c =
    if leb b'0' c && leb c b'9'
    then some (c - b'0')
    else if leb b'a' c && leb c b'f'
    then some (c - b'a' + 10)
    else if leb b'A' c && leb c b'F'
    then some (c - b'A' + 10)
    else none

pub digit_value-upper : (d : ℕ) → d < 16 → digit_value (upper_digit d) ≡ some d
unfolding digit_value upper_digit
digit_value-upper d h = ground arith

pub digit_value-lower : (d : ℕ) → d < 16 → digit_value (lower_digit d) ≡ some d
unfolding digit_value lower_digit
digit_value-lower d h = ground arith

pub upper_digit_range : (d : ℕ) → d < 16 → (b'0' ≤ upper_digit d) × (upper_digit d ≤ b'F')
unfolding upper_digit
upper_digit_range d h = ground arith

pub digit_value_lt : (c d : ℕ) → digit_value c ≡ some d → d < 16
unfolding digit_value
digit_value_lt c d h = ground arith

-- every byte of a byte string is below 256
abbrev pub AllBytes : Text → Type 0
AllBytes [] = Unit {0}
AllBytes (b ∷ bs) = (b < 256) × AllBytes bs

-- the characters are hexadecimal digits, in either case
abbrev pub AllDigits : Text → Type 0
AllDigits [] = Unit {0}
AllDigits (c ∷ cs) = ((d : ℕ) × (digit_value c ≡ some d)) × AllDigits cs
