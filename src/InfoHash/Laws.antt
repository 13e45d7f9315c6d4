-- ===== src/InfoHash/Laws.antt =====
-- Reading, printing and converting info-hashes (src/models/info_hash.rs).
use torrust_index.Base.{
  ℕ, ◌+◌, ◌*◌, ◌/◌, ◌%◌, ◌<◌, ◌≡◌, refl, ◌≢◌, ◌⊎◌, inl, inr, sym, ◌∙◌, true, [], ◌∷◌, Text, length,
  ◌==◌, Outcome, ok, err, panic, ◌>>=◌, arith, Bool-cases, ==_iff,
}
use torrust_index.Hex.Digits.{lower_digit, digit_value-lower, digit_value_lt, AllBytes}
use torrust_index.InfoHash.{
  InfoHash, from_bytes, from_slice, try_from, ConversionError, not_enough_bytes, too_many_bytes,
  to_hex_string, from_str, visit_str,
}
use torrust_index.InfoHash.Codec.{Binascii, ConvertError, hex, unhex, digit}

-- 20 bytes
abbrev pub IsInfoHash : InfoHash → Type 0
IsInfoHash h = (length h.bytes ≡ 20) × AllBytes h.bytes

digit-lower : (d : ℕ) → d < 16 → digit (lower_digit d) ≡ ok d
unfolding digit
digit-lower d h = rw (digit_value-lower d h, digit) refl

unhex-hex : (bs : Text) → AllBytes bs → unhex (hex bs) ≡ ok bs
unfolding unhex hex
unhex-hex [] h = refl
unhex-hex (b ∷ bs) h =
    let whole : b / 16 * 16 + b % 16 ≡ b = omega arith in
    rw
      (
        digit-lower (b / 16) (omega arith),
        digit-lower (b % 16) (omega arith),
        unhex-hex bs h.1,
        whole,
      )
      refl

length-hex : (bs : Text) → length (hex bs) ≡ 2 * length bs
unfolding hex
length-hex [] = omega arith
length-hex (b ∷ bs) = omega (arith, length-hex bs)

digit_lt : (c d : ℕ) → digit c ≡ ok d → d < 16
unfolding digit
digit_lt c d h = ground (arith, digit_value_lt c d)

inversion :
    (x y : Outcome ConvertError ℕ) (r : Outcome ConvertError Text) (bs : Text)
    → (x >>= λ u. y >>= λ v. r >>= λ vs. ok ((u * 16 + v) ∷ vs)) ≡ ok bs
    → (u : ℕ) × (v : ℕ) × (vs : Text) × (x ≡ ok u)
      × (y ≡ ok v)
      × (r ≡ ok vs)
      × (bs ≡ (u * 16 + v) ∷ vs)
inversion (ok u) (ok v) (ok vs) bs h = (u, v, vs, refl, refl, refl, cc)
inversion (ok u) (ok v) (err e) bs h = cc
inversion (ok u) (ok v) panic bs h = cc
inversion (ok u) (err e) r bs h = cc
inversion (ok u) panic r bs h = cc
inversion (err e) y r bs h = cc
inversion panic y r bs h = cc

unhex_ok : (s bs : Text) → unhex s ≡ ok bs → (length s ≡ 2 * length bs) × AllBytes bs
unfolding unhex
unhex_ok [] [] h = (omega arith, tt)
unhex_ok [] (b ∷ bs) h = cc
unhex_ok (a ∷ []) bs h = cc
unhex_ok (a ∷ b ∷ s) bs h =
    let (u, v, vs, p, q, r, e) = inversion (digit a) (digit b) (unhex s) bs h in
    let (size, below) = unhex_ok s vs r in
    rw e (omega (arith, size), (omega (arith, digit_lt a u p, digit_lt b v q), below))

bytes_of :
    (o : Outcome ConvertError Text) (h : InfoHash)
    → (o >>= λ bs. ok (record { bytes = bs })) ≡ ok h
    → o ≡ ok h.bytes
bytes_of (ok bs) h e = ground arith
bytes_of (err x) h e = cc
bytes_of panic h e = cc

module _ (b : Binascii) where
  -- The text of an info-hash is read back as that info-hash.
  pub from_str-to_hex_string :
      (h : InfoHash)
      → IsInfoHash h
      → (s : Text) × (to_hex_string b {E = ConvertError} h ≡ ok s)
        × (length s ≡ 40)
        × (from_str b s ≡ ok h)
  unfolding to_hex_string from_str
  from_str-to_hex_string h w =
      let size : length (hex h.bytes) ≡ 40 = omega (arith, length-hex h.bytes, w.0) in
      (
        hex h.bytes,
        rw (b.bin2hex_lem h.bytes 40 (omega (arith, w.0))) refl,
        size,
        rw
            (
              (==_iff (length (hex h.bytes)) 40).1 size,
              b.hex2bin_lem (hex h.bytes) 20 (omega (arith, size)),
              unhex-hex h.bytes w.1,
            )
            refl,
      )

  -- Parsing accepts only texts of 40 bytes, and gives 20 bytes; the deserialiser accepts the same
  -- texts and gives the same info-hashes.
  pub from_str_ok :
      (s : Text) (h : InfoHash)
      → from_str b s ≡ ok h
      → (length s ≡ 40) × IsInfoHash h × (visit_str b s ≡ ok h)
  unfolding from_str visit_str
  from_str_ok s h e = elim (Bool-cases (length s == 40)) [
    | inl same ↦
        let size : length s ≡ 40 = (==_iff (length s) 40).0 same in
        let read : b.hex2bin s 20 ≡ ok h.bytes = bytes_of (b.hex2bin s 20) h (accepted same) in
        let (twice, below) = unhex_ok s h.bytes (sym (b.hex2bin_lem s 20 (omega arith)) ∙ read) in
        (size, (omega arith, below), rw (same, read) refl)
    | inr other ↦ absurd (ground arith)
  ]
    where
      accepted :
          (length s == 40) ≡ true → (b.hex2bin s 20 >>= λ bs. ok (record { bytes = bs })) ≡ ok h
      accepted same = ground arith

-- The conversions from byte strings agree: `TryFrom` accepts exactly 20 bytes, the same as the two
-- that assert, and where those panic it says whether bytes are missing or too many.
pub try_from_lem :
    (bs : Text)
    → ((length bs ≡ 20)
        × (try_from bs ≡ ok (record { bytes = bs }))
        × (from_bytes {E = ConversionError} bs ≡ ok (record { bytes = bs }))
        × (from_slice {E = ConversionError} bs ≡ ok (record { bytes = bs })))
      ⊎ ((length bs ≢ 20)
          × ((length bs < 20) × (try_from bs ≡ err (not_enough_bytes (length bs)))
              ⊎ (20 < length bs) × (try_from bs ≡ err (too_many_bytes (length bs))))
          × (from_bytes {E = ConversionError} bs ≡ panic)
          × (from_slice {E = ConversionError} bs ≡ panic))
unfolding try_from from_bytes from_slice
try_from_lem bs = ground arith
