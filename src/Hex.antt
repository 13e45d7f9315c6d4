-- ===== src/Hex.antt =====
-- Hexadecimal text: src/utils/hex.rs, with what it uses of the standard library, `{:02X}`, slices
-- of a `str` and `u8::from_str_radix`.
pub mod Digits
pub mod RoundTrip
mod Tests
use Digits.{upper_digit, digit_value}
use torrust_index.Base.{
  ℕ, ◌+◌, ◌*◌, ◌/◌, ◌%◌, Bool, true, false, ◌&&◌, Option, none, some, List, [], ◌∷◌, Text, leb, ltb,
  ◌==◌, if◌then◌else◌, Outcome, ok, err, panic, ◌>>=◌,
}

-- two upper-case digits for each byte
unfoldable pub from_bytes : Text → Text
from_bytes [] = []
from_bytes (b ∷ bs) = upper_digit (b / 16) ∷ upper_digit (b % 16) ∷ from_bytes bs

pub data ParseIntError : Type 0 where
  invalid_digit : ParseIntError

-- the value of a run of digits, which starts with `acc`
unfoldable pub digits_value : ℕ → List ℕ → Outcome ParseIntError ℕ
digits_value acc [] = ok acc
digits_value acc (c ∷ cs) = elim (digit_value c) [
  | none ↦ err invalid_digit
  | some d ↦ digits_value (acc * 16 + d) cs
]

-- `u8::from_str_radix` on a text of two bytes: a leading `+` is no digit
unfoldable pub from_str_radix : ℕ → ℕ → Outcome ParseIntError ℕ
unfolding digits_value
from_str_radix a b = if a == b'+' then digits_value 0 (b ∷ []) else digits_value 0 (a ∷ b ∷ [])

-- a continuation byte of UTF-8 stands first, so the text before it ends inside a character
unfoldable pub splits_char : Text → Bool
splits_char [] = false
splits_char (b ∷ bs) = leb 128 b && ltb b 192

-- The slice of two bytes panics past the end of the text and inside a character.
unfoldable pub into_bytes : Text → Outcome ParseIntError Text
unfolding from_str_radix splits_char
into_bytes [] = ok []
into_bytes (a ∷ []) = panic
into_bytes (a ∷ b ∷ s) =
    if splits_char s
    then panic
    else (from_str_radix a b >>= λ v. into_bytes s >>= λ vs. ok (v ∷ vs))
