-- ===== src/Base/Outcomes.antt =====
-- How a call of Rust code ends: with `Ok`, with `Err`, or with a panic.
use mathlib.Core.Path.{◌≡◌, refl}
use mathlib.Core.Logic.{◌⊎◌, inl, inr}
use mathlib.Core.Bool.{Bool, true, false}
use mathlib.Core.Option.{Option, none, some}

pub data Outcome (E A : Type 0) : Type 0 where
  ok : A → Outcome E A
  err : E → Outcome E A
  panic : Outcome E A

-- `?` with one error type; a panic unwinds through every caller.
infixl 5 ◌>>=◌ ◌>>◌
abbrev pub ◌>>=◌ : {E A B : Type 0} → Outcome E A → (A → Outcome E B) → Outcome E B
ok a >>= f = f a
err e >>= f = err e
panic >>= f = panic

abbrev pub ◌>>◌ : {E B : Type 0} → Outcome E (Unit {0}) → Outcome E B → Outcome E B
m >> k = m >>= λ _. k

-- `map_err`, and the conversion of errors that `?` makes by `From`
abbrev pub map_err : {E F A : Type 0} → (E → F) → Outcome E A → Outcome F A
map_err f (ok a) = ok a
map_err f (err e) = err (f e)
map_err f panic = panic

-- the guard `if b { return Err(e); }`
abbrev pub refuse_if : {E : Type 0} → Bool → E → Outcome E (Unit {0})
refuse_if true e = err e
refuse_if false e = ok tt

-- `?` on an `Option`
infixl 5 ◌>>=?◌
abbrev pub ◌>>=?◌ : {A B : Type 0} → Option A → (A → Option B) → Option B
none >>=? f = none
some a >>=? f = f a

pub Outcome-cases :
    {E A : Type 0} (o : Outcome E A)
    → ((a : A) × (o ≡ ok a)) ⊎ (((e : E) × (o ≡ err e)) ⊎ (o ≡ panic))
Outcome-cases (ok a) = inl (a, refl)
Outcome-cases (err e) = inr (inl (e, refl))
Outcome-cases panic = inr (inr refl)
