-- ===== src/Base/Trim.antt =====
-- `str::trim` and `str::split` of Rust's standard library, on UTF-8 bytes.
use Prim.Native.Nat.{ℕ, zero, suc}
use mathlib.Core.Option.{Option, none, some}
use mathlib.Core.List.{List, [], ◌∷◌, map, reverse}
use torrust_index.Base.Tests.{◌==◌, if◌then◌else◌}
use torrust_index.Base.Lists.{length}
use torrust_index.Base.Texts.{Text}

-- the characters with the Unicode property White_Space
abbrev pub white_spaces : List Text
white_spaces =
    (9 ∷ [])
    ∷ (10 ∷ [])
    ∷ (11 ∷ [])
    ∷ (12 ∷ [])
    ∷ (13 ∷ [])
    ∷ (32 ∷ [])
    ∷ (0xc2 ∷ 0x85 ∷ [])
    ∷ (0xc2 ∷ 0xa0 ∷ [])
    ∷ (0xe1 ∷ 0x9a ∷ 0x80 ∷ [])
    ∷ (0xe2 ∷ 0x80 ∷ 0x80 ∷ [])
    ∷ (0xe2 ∷ 0x80 ∷ 0x81 ∷ [])
    ∷ (0xe2 ∷ 0x80 ∷ 0x82 ∷ [])
    ∷ (0xe2 ∷ 0x80 ∷ 0x83 ∷ [])
    ∷ (0xe2 ∷ 0x80 ∷ 0x84 ∷ [])
    ∷ (0xe2 ∷ 0x80 ∷ 0x85 ∷ [])
    ∷ (0xe2 ∷ 0x80 ∷ 0x86 ∷ [])
    ∷ (0xe2 ∷ 0x80 ∷ 0x87 ∷ [])
    ∷ (0xe2 ∷ 0x80 ∷ 0x88 ∷ [])
    ∷ (0xe2 ∷ 0x80 ∷ 0x89 ∷ [])
    ∷ (0xe2 ∷ 0x80 ∷ 0x8a ∷ [])
    ∷ (0xe2 ∷ 0x80 ∷ 0xa8 ∷ [])
    ∷ (0xe2 ∷ 0x80 ∷ 0xa9 ∷ [])
    ∷ (0xe2 ∷ 0x80 ∷ 0xaf ∷ [])
    ∷ (0xe2 ∷ 0x81 ∷ 0x9f ∷ [])
    ∷ (0xe3 ∷ 0x80 ∷ 0x80 ∷ [])
    ∷ []

-- the rest of the text after a prefix
unfoldable pub strip_prefix : Text → Text → Option Text
strip_prefix [] s = some s
strip_prefix (p ∷ ps) [] = none
strip_prefix (p ∷ ps) (c ∷ s) = if p == c then strip_prefix ps s else none

unfoldable pub strip_any : List Text → Text → Option Text
unfolding strip_prefix
strip_any [] s = none
strip_any (p ∷ ps) s = elim (strip_prefix p s) [ some rest ↦ some rest | none ↦ strip_any ps s ]

-- One round for each byte is enough: each round takes one byte at least.
unfoldable pub strip_all : ℕ → List Text → Text → Text
unfolding strip_any
strip_all zero ps s = s
strip_all (suc fuel) ps s = elim (strip_any ps s) [ none ↦ s | some rest ↦ strip_all fuel ps rest ]

-- `trim`: from the front, then from the back
unfoldable pub trim : Text → Text
unfolding strip_all
trim s =
    let from_front : Text = strip_all (length s) white_spaces s in
    reverse (strip_all (length from_front) (map reverse white_spaces) (reverse from_front))

abbrev pub cons_first : ℕ → List Text → List Text
cons_first c [] = (c ∷ []) ∷ []
cons_first c (part ∷ parts) = (c ∷ part) ∷ parts

-- `split` at a separator of one byte, which gives one part for the empty text
unfoldable pub split_at : ℕ → Text → List Text
split_at sep [] = [] ∷ []
split_at sep (c ∷ s) =
    let parts = split_at sep s in if c == sep then [] ∷ parts else cons_first c parts
