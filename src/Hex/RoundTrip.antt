-- ===== src/Hex/RoundTrip.antt =====
-- Encoding and decoding of hexadecimal text (src/utils/hex.rs).
use torrust_index.Base.{
  ℕ, ◌+◌, ◌-◌, ◌*◌, ◌/◌, ◌%◌, ◌<◌, ◌≡◌, refl, true, false, some, [], ◌∷◌, Text, length, Outcome, ok,
  err, panic, ◌>>=◌, arith, Bool, if◌then◌else◌,
}
use torrust_index.Hex.{from_bytes, into_bytes, from_str_radix, splits_char, ParseIntError}
use torrust_index.Hex.Digits.{
  upper_digit, digit_value, digit_value-upper, upper_digit_range, AllBytes, AllDigits,
}

from_str_radix-digits :
    (a b x y : ℕ)
    → digit_value a ≡ some x
    → digit_value b ≡ some y
    → from_str_radix a b ≡ ok (x * 16 + y)
unfolding from_str_radix digit_value
from_str_radix-digits a b x y p q = ground arith

from_bytes_starts : (bs : Text) → AllBytes bs → splits_char (from_bytes bs) ≡ false
unfolding splits_char from_bytes
from_bytes_starts [] h = refl
from_bytes_starts (b ∷ bs) h = ground (arith, upper_digit_range (b / 16))

-- Decoding undoes encoding, on every sequence of bytes.
pub into_bytes-from_bytes : (bs : Text) → AllBytes bs → into_bytes (from_bytes bs) ≡ ok bs
unfolding into_bytes from_bytes
into_bytes-from_bytes [] h = refl
into_bytes-from_bytes (b ∷ bs) h =
    let pair : from_str_radix (upper_digit (b / 16)) (upper_digit (b % 16))
        ≡ ok (b / 16 * 16 + b % 16) =
      from_str_radix-digits (upper_digit (b / 16)) (upper_digit (b % 16)) (b / 16) (b % 16)
        (digit_value-upper (b / 16) (omega arith)) (digit_value-upper (b % 16) (omega arith)) in
    let whole : b / 16 * 16 + b % 16 ≡ b = omega arith in
    rw (from_bytes_starts bs h.1, pair, into_bytes-from_bytes bs h.1, whole) refl

-- the texts that `into_bytes` accepts, and the bytes that it makes of them
from_str_radix_lt : (a b v : ℕ) → from_str_radix a b ≡ ok v → v < 256
unfolding from_str_radix digit_value
from_str_radix_lt a b v h = ground arith

inversion :
    (split : Bool) (first : Outcome ParseIntError ℕ) (others : Outcome ParseIntError Text)
    (bs : Text)
    → (if split then panic else (first >>= λ v. others >>= λ vs. ok (v ∷ vs))) ≡ ok bs
    → (v : ℕ) × (vs : Text) × (first ≡ ok v) × (others ≡ ok vs) × (bs ≡ v ∷ vs)
inversion true first others bs h = cc
inversion false (ok v) (ok vs) bs h = (v, vs, refl, refl, cc)
inversion false (ok v) (err e) bs h = cc
inversion false (ok v) panic bs h = cc
inversion false (err e) others bs h = cc
inversion false panic others bs h = cc

-- Whatever text is accepted, its length is even and it gives one byte, below 256, for each two of
-- its bytes. So a text of odd length is never accepted.
pub into_bytes_ok : (s bs : Text) → into_bytes s ≡ ok bs → (length s ≡ 2 * length bs) × AllBytes bs
unfolding into_bytes
into_bytes_ok [] [] h = (omega arith, tt)
into_bytes_ok [] (v ∷ vs) h = cc
into_bytes_ok (a ∷ []) bs h = cc
into_bytes_ok (a ∷ b ∷ s) bs h =
    let (v, vs, first, others, e) =
      inversion (splits_char s) (from_str_radix a b) (into_bytes s) bs h in
    let (size, below) = into_bytes_ok s vs others in
    rw e (omega (arith, size), (from_str_radix_lt a b v first, below))

-- A text of digits with an odd number of them makes `into_bytes` panic: the last slice reaches past
-- the end of the text. It does not return an error.
pub into_bytes_odd : (s : Text) (n : ℕ) → AllDigits s → length s ≡ 2 * n + 1 → into_bytes s ≡ panic
unfolding into_bytes
into_bytes_odd [] n d h = absurd (omega arith)
into_bytes_odd (a ∷ []) n d h = refl
into_bytes_odd (a ∷ b ∷ s) n d h =
    ground
      (arith, from_str_radix-digits a b d.0.0 d.1.0.0 d.0.1 d.1.0.1, into_bytes_odd s (n - 1) d.1.1)
