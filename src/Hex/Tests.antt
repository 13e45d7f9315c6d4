-- ===== src/Hex/Tests.antt =====
-- Hexadecimal text on concrete inputs.
use torrust_index.Base.{◌≡◌, refl, [], ◌∷◌, bytes, ok, err}
use torrust_index.Hex.{from_bytes, into_bytes, invalid_digit}
use torrust_index.Hex.Digits.{upper_digit, digit_value}

program : Unit {0}
unfolding from_bytes into_bytes upper_digit digit_value
program = tt

from_bytes_test : from_bytes (212 ∷ 145 ∷ 10 ∷ []) ≡ bytes "D4910A"
unfolding program
from_bytes_test = refl

-- Lower case is read too, and `+` before one digit.
into_bytes_test : into_bytes (bytes "d491+f") ≡ ok (212 ∷ 145 ∷ 15 ∷ [])
unfolding program
into_bytes_test = refl

into_bytes_bad : into_bytes (bytes "d4x1") ≡ err invalid_digit
unfolding program
into_bytes_bad = refl
