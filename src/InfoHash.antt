-- ===== src/InfoHash.antt =====
-- Info-hashes: src/models/info_hash.rs. An `InfoHash` is its list of bytes, of which there are 20.
pub mod Codec
pub mod Laws
pub mod Compare
mod Tests
use Codec.{Binascii, ConvertError, invalid_input_length}
use torrust_index.Base.{
  ℕ, Option, none, some, List, [], ◌∷◌, Text, length, ltb, not, ◌==◌, if◌then◌else◌, Outcome, ok,
  err, panic, map_err, ◌>>=◌,
}
use Prim.Native.Nat.{compare, Ordering}

pub record InfoHash : Type 0 where
  pub bytes : Text

abbrev pub info_hash_bytes_len : ℕ
info_hash_bytes_len = 20

-- `InfoHash::from_bytes`, which asserts the length
unfoldable pub from_bytes : {E : Type 0} → Text → Outcome E InfoHash
from_bytes bs = if length bs == info_hash_bytes_len then ok (record { bytes = bs }) else panic

-- `From<&[u8]>` asserts the same length.
unfoldable pub from_slice : {E : Type 0} → Text → Outcome E InfoHash
from_slice bs = if length bs == 20 then ok (record { bytes = bs }) else panic

-- The messages of both errors hold the number of bytes that were given.
pub data ConversionError : Type 0 where
  not_enough_bytes too_many_bytes : ℕ → ConversionError

-- `TryFrom<Vec<u8>>`
unfoldable pub try_from : Text → Outcome ConversionError InfoHash
unfolding from_bytes
try_from bs =
    if ltb (length bs) info_hash_bytes_len
    then err (not_enough_bytes (length bs))
    else if ltb info_hash_bytes_len (length bs)
    then err (too_many_bytes (length bs))
    else from_bytes bs

-- `Ord::cmp`: arrays are compared byte by byte.
unfoldable pub cmp_bytes : Text → Text → Ordering
cmp_bytes [] [] = Ordering.eq
cmp_bytes [] (y ∷ ys) = Ordering.lt
cmp_bytes (x ∷ xs) [] = Ordering.gt
cmp_bytes (x ∷ xs) (y ∷ ys) = elim (compare x y) [ Ordering.eq ↦ cmp_bytes xs ys | o ↦ o ]

unfoldable pub cmp : InfoHash → InfoHash → Ordering
unfolding cmp_bytes
cmp a b = cmp_bytes a.bytes b.bytes

-- the errors that serde makes for a text that is no info-hash
pub data VisitError : Type 0 where
  expected_40_characters expected_hexadecimal : VisitError

-- an error of `binascii` behind `expect` or `unwrap` is a panic
unfoldable pub expected : {E A : Type 0} → Outcome ConvertError A → Outcome E A
expected (ok a) = ok a
expected (err e) = panic
expected panic = panic

module _ (b : Binascii) where
  -- `Display::fmt`, which `to_hex_string` and `to_string` call
  unfoldable pub to_hex_string : {E : Type 0} → InfoHash → Outcome E Text
  unfolding expected
  to_hex_string h = expected (b.bin2hex h.bytes 40)

  -- `Serialize`
  unfoldable pub serialize : {E : Type 0} → InfoHash → Outcome E Text
  unfolding expected
  serialize h = expected (b.bin2hex h.bytes 40)

  -- `FromStr`
  unfoldable pub from_str : Text → Outcome ConvertError InfoHash
  from_str s =
      if length s == 40
      then (b.hex2bin s 20 >>= λ bs. ok (record { bytes = bs }))
      else err invalid_input_length

  -- `Visitor::visit_str` of the deserialiser
  unfoldable pub visit_str : Text → Outcome VisitError InfoHash
  visit_str s =
      if length s == 40
      then (map_err (λ e. expected_hexadecimal) (b.hex2bin s 20) >>= λ bs.
          ok (record { bytes = bs }))
      else err expected_40_characters
