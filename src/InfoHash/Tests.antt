-- ===== src/InfoHash/Tests.antt =====
-- Info-hashes on concrete inputs, with a codec that computes.
use torrust_index.Base.{◌≡◌, refl, [], ◌∷◌, ◌++◌, Text, bytes, length, ok, err, arith}
use torrust_index.Hex.Digits.{lower_digit, digit_value}
use torrust_index.InfoHash.{InfoHash, from_bytes, try_from, cmp, to_hex_string, from_str, visit_str}
use torrust_index.InfoHash.Codec.{Binascii, ConvertError, invalid_input, hex, unhex}
use torrust_index.InfoHash.Laws.{from_str-to_hex_string}

abbrev codec : Binascii
codec = record {
  bin2hex = λ bs n. ok (hex bs);
  hex2bin = λ s n. unhex s;
  bin2hex_lem = λ bs n e. refl;
  hex2bin_lem = λ s n e. refl;
}

program : Unit {0}
unfolding hex unhex lower_digit digit_value try_from from_bytes to_hex_string from_str visit_str cmp
program = tt

abbrev ten : Text
ten = 0 ∷ 17 ∷ 34 ∷ 51 ∷ 68 ∷ 255 ∷ 254 ∷ 16 ∷ 1 ∷ 9 ∷ []

abbrev hash : InfoHash
hash = record { bytes = ten ++ ten }

to_hex_string_test :
    to_hex_string codec {E = ConvertError} hash
    ≡ ok (bytes "0011223344fffe10010900112233" ++ bytes "44fffe100109")
unfolding program
to_hex_string_test = refl

from_str_bad : from_str codec (bytes "GGGGGGGGGGGGGGGGGGGGGGGGGGGGGGGGGGGGGGGG") ≡ err invalid_input
unfolding program
from_str_bad = refl

from_str-to_hex_string_example :
    (s : Text) × (to_hex_string codec {E = ConvertError} hash ≡ ok s)
    × (length s ≡ 40)
    × (from_str codec s ≡ ok hash)
from_str-to_hex_string_example = from_str-to_hex_string codec hash (omega arith)

abbrev mixed_case : Text
mixed_case = bytes "0011223344FFFE1001090011223344fffe100109"
