-- ===== src/InfoHash/Codec.antt =====
-- The crate binascii, which src/models/info_hash.rs calls: its two functions as an interface, with
-- what its documentation says of them for buffers of the right size.
use torrust_index.Base.{
  ℕ, ◌+◌, ◌*◌, ◌/◌, ◌%◌, ◌≡◌, none, some, [], ◌∷◌, Text, length, Outcome, ok, err, ◌>>=◌,
}
use torrust_index.Hex.Digits.{lower_digit, digit_value}

pub data ConvertError : Type 0 where
  invalid_input_length invalid_output_length invalid_input : ConvertError

-- two lower-case digits for each byte
unfoldable pub hex : Text → Text
hex [] = []
hex (b ∷ bs) = lower_digit (b / 16) ∷ lower_digit (b % 16) ∷ hex bs

unfoldable pub digit : ℕ → Outcome ConvertError ℕ
digit c = elim (digit_value c) [ none ↦ err invalid_input | some d ↦ ok d ]

-- each two digits, of either case, are a byte
unfoldable pub unhex : Text → Outcome ConvertError Text
unfolding digit
unhex [] = ok []
unhex (a ∷ []) = err invalid_input_length
unhex (a ∷ b ∷ s) = digit a >>= λ x. digit b >>= λ y. unhex s >>= λ vs. ok ((x * 16 + y) ∷ vs)

-- The number is the size of the output buffer; the result is the part of it that was written.
pub record Binascii : Type 0 where
  pub bin2hex : Text → ℕ → Outcome ConvertError Text
  pub hex2bin : Text → ℕ → Outcome ConvertError Text
  pub bin2hex_lem : (bs : Text) (n : ℕ) → n ≡ 2 * length bs → bin2hex bs n ≡ ok (hex bs)
  pub hex2bin_lem : (s : Text) (n : ℕ) → length s ≡ 2 * n → hex2bin s n ≡ unhex s
