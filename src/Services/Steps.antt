-- ===== src/Services/Steps.antt =====
-- Steps of a service call whose result is dropped.
use torrust_index.Base.{◌≡◌, ap, ◌≢◌, inl, inr, Outcome, ok, err, panic, Outcome-cases, arith}
use torrust_index.DbError.{DbError}
use torrust_index.Services.World.{World, Action, ◌>>=◌, ◌>>◌, drop_result, write}

module _ {S E : Type 0} where
  -- such a statement leaves its state, whether it succeeded or not
  pub dropped :
      {A : Type 0} (q : S → S × Outcome DbError A) (w : World S)
      → (q w.db).1 ≢ panic
      → drop_result {E = DbError} {F = E} (write (λ e. e) q) w
        ≡ (record w { db = (q w.db).0 }, ok tt)
  dropped q w calm = elim (Outcome-cases (q w.db).1) [
    | inl (a, e) ↦ ground (arith, e)
    | inr (inl (x, e)) ↦ ground (arith, e)
    | inr (inr e) ↦ elim (calm e) [ ]
  ]

  pub dropped_then :
      {A B : Type 0} (q : S → S × Outcome DbError A) (k : Action S E B) (w : World S)
      → (q w.db).1 ≢ panic
      → (drop_result {E = DbError} (write (λ e. e) q) >> k) w ≡ k (record w { db = (q w.db).0 })
  dropped_then q k w calm = elim (Outcome-cases (q w.db).1) [
    | inl (a, e) ↦ ground (arith, e)
    | inr (inl (x, e)) ↦ ground (arith, e)
    | inr (inr e) ↦ elim (calm e) [ ]
  ]

module _ {S E A B : Type 0} where
  -- what follows a first step that was computed, whether it succeeded or not
  pub step_ok :
      (m : Action S E A) (f : A → Action S E B) (w w1 : World S) (a : A)
      → m w ≡ (w1, ok a)
      → (m >>= f) w ≡ f a w1
  step_ok m f w w1 a e =
      ap
        (λ (p : World S × Outcome E A).
          let (w', o) = p in elim o [ ok a ↦ f a w' | err e ↦ (w', err e) | panic ↦ (w', panic) ])
        e

  pub step_err :
      (m : Action S E A) (f : A → Action S E B) (w w1 : World S) (x : E)
      → m w ≡ (w1, err x)
      → (m >>= f) w ≡ (w1, err x)
  step_err m f w w1 x e =
      ap
        (λ (p : World S × Outcome E A).
          let (w', o) = p in elim o [ ok a ↦ f a w' | err e ↦ (w', err e) | panic ↦ (w', panic) ])
        e
