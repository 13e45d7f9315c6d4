-- ===== src/Base/Texts.antt =====
-- A Rust `str` or `String` as its list of UTF-8 bytes: `len()` counts bytes.
use Prim.Native.Nat.{ℕ}
use Prim.Native.Char.{code}
use Prim.Native.String.{String}
use mathlib.Core.Path.{◌≡◌, refl}
use mathlib.Core.Logic.{◌↔◌}
use mathlib.Core.Bool.{Bool, true, false, ◌&&◌}
use mathlib.Core.List.{List, [], ◌∷◌}
use native.Mathlib.Omega.{arith}
use torrust_index.Base.Tests.{◌==◌}

abbrev pub Text : Type 0
Text = List ℕ

-- the bytes of an ASCII literal
abbrev pub bytes : String → Text
bytes String.[] = []
bytes (String.◌∷◌ c s) = code c ∷ bytes s

-- `==` on strings and on byte strings
unfoldable pub text_eq : Text → Text → Bool
text_eq [] [] = true
text_eq [] (y ∷ ys) = false
text_eq (x ∷ xs) [] = false
text_eq (x ∷ xs) (y ∷ ys) = x == y && text_eq xs ys

pub text_eq_refl : (xs : Text) → text_eq xs xs ≡ true
unfolding text_eq
text_eq_refl [] = refl
text_eq_refl (x ∷ xs) = ground (arith, text_eq_refl xs)

pub eq_of_text_eq : (xs ys : Text) → text_eq xs ys ≡ true → xs ≡ ys
unfolding text_eq
eq_of_text_eq [] [] h = refl
eq_of_text_eq [] (y ∷ ys) h = ground arith
eq_of_text_eq (x ∷ xs) [] h = ground arith
eq_of_text_eq (x ∷ xs) (y ∷ ys) h = ground (arith, eq_of_text_eq xs ys)

pub text_eq_iff : (xs ys : Text) → (text_eq xs ys ≡ true) ↔ (xs ≡ ys)
text_eq_iff xs ys = (eq_of_text_eq xs ys, λ e. ground (arith, text_eq_refl xs, e))
