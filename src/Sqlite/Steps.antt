-- ===== src/Sqlite/Steps.antt =====
-- What holds after a statement, along the statements of a transaction (src/databases/sqlite.rs).
use torrust_index.Base.{◌≡◌, refl, ap, subst, Outcome, ok, err, panic}
use torrust_index.DbError.{DbError}
use torrust_index.Sqlite.{Statement, ◌>>=◌, rolled_back, transaction, known}

-- `Q` holds of the result and of the tables when the statement succeeds.
abbrev pub After : {T A : Type 0} → (A → T → Type 0) → T × Outcome DbError A → Type 0
After Q (t, ok a) = Q a t
After Q (t, err e) = Unit
After Q (t, panic) = Unit

pub After-keep :
    {T A : Type 0} (P : T → Type 0) (m : Statement T A) (t : T) → P (m t).0 → After (λ _. P) (m t)
After-keep {T} {A} P m t h = after_of (m t).0 (m t).1 h
  where
    after_of : (t' : T) (o : Outcome DbError A) → P t' → After (λ _. P) (t', o)
    after_of t' (ok a) h = h
    after_of t' (err e) h = tt
    after_of t' panic h = tt

-- one statement after another
pub After-then :
    {T A B : Type 0} (Q : A → T → Type 0) (R : B → T → Type 0) (m : Statement T A)
    (f : A → Statement T B) (t : T)
    → After Q (m t)
    → ((a : A) (t' : T) → Q a t' → After R (f a t'))
    → After R ((m >>= f) t)
After-then {T} {A} {B} Q R m f t h k = after_of (m t) h
  where
    after_of :
        (r : T × Outcome DbError A)
        → After Q r
        → After R (elim r.1 [ ok a ↦ f a r.0 | err e ↦ (r.0, err e) | panic ↦ (r.0, panic) ])
    after_of (t', ok a) h = k a t' h
    after_of (t', err e) h = tt
    after_of (t', panic) h = tt

-- A transaction that fails leaves the tables.
pub After-transaction :
    {T A : Type 0} (P : T → Type 0) (m : Statement T A) (t : T)
    → P t
    → After (λ _. P) (m t)
    → P (transaction m t).0
After-transaction {T} {A} P m t p h = after_of (m t) h
  where
    after_of : (r : T × Outcome DbError A) → After (λ _. P) r → P (rolled_back t r).0
    after_of (t', ok a) h = h
    after_of (t', err e) h = p
    after_of (t', panic) h = p

pub After-known :
    {T A B : Type 0} (R : B → T → Type 0) (o : Outcome DbError A) (f : A → Statement T B) (t : T)
    → ((a : A) → o ≡ ok a → After R (f a t))
    → After R ((known o >>= f) t)
After-known R (ok a) f t k = k a refl
After-known R (err e) f t k = tt
After-known R panic f t k = tt

pub After-map :
    {T A : Type 0} (Q R : A → T → Type 0)
    → ((a : A) (t : T) → Q a t → R a t)
    → (r : T × Outcome DbError A) → After Q r
    → After R r
After-map Q R f (t, ok a) h = f a t h
After-map Q R f (t, err e) h = tt
After-map Q R f (t, panic) h = tt

abbrev continued :
    {T A B : Type 0} → (A → Statement T B) → T × Outcome DbError A → T × Outcome DbError B
continued f (t, ok a) = f a t
continued f (t, err e) = (t, err e)
continued f (t, panic) = (t, panic)

pub then-ok :
    {T A B : Type 0} (m : Statement T A) (f : A → Statement T B) (t t' : T) (a : A)
    → m t ≡ (t', ok a)
    → (m >>= f) t ≡ f a t'
then-ok m f t t' a e = ap (continued f) e

pub then-err :
    {T A B : Type 0} (m : Statement T A) (f : A → Statement T B) (t t' : T) (e : DbError)
    → m t ≡ (t', err e)
    → (m >>= f) t ≡ (t', err e)
then-err m f t t' e h = ap (continued f) h

pub After-commit :
    {T A : Type 0} (Q : A → T → Type 0) (m : Statement T A) (t : T)
    → After Q (m t)
    → After Q (transaction m t)
After-commit {T} {A} Q m t h = after_of (m t) h
  where
    after_of : (r : T × Outcome DbError A) → After Q r → After Q (rolled_back t r)
    after_of (t', ok a) h = h
    after_of (t', err e) h = tt
    after_of (t', panic) h = tt

pub After-ok :
    {T A : Type 0} (Q : A → T → Type 0) (r : T × Outcome DbError A) (t : T) (a : A)
    → After Q r
    → r ≡ (t, ok a)
    → Q a t
After-ok Q r t a h e = subst (After Q) e h
