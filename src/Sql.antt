-- ===== src/Sql.antt =====
-- SQL statements on a table that is a list of rows, oldest first: what the driver in
-- src/databases/sqlite.rs and the schema in migrations/sqlite3 use of SQLite.
pub mod Constraints
pub mod Laws
use torrust_index.Base.{
  ℕ, ◌≤◌, ◌≡◌, ◌↔◌, Bool, true, false, not, ◌||◌, Option, none, some, List, [], ◌∷◌, Text, text_eq,
  text_eq_iff, ◌==◌, ==_iff, retain, if◌then◌else◌,
}

-- the types of columns that statements compare
pub record Eq (K : Type 0) : Type 0 where
  pub eq : K → K → Bool
  pub eq_iff : (a b : K) → (eq a b ≡ true) ↔ (a ≡ b)

infix 50 ◌=?◌
abbrev pub ◌=?◌ : {K : Type 0} ⦃e : Eq K⦄ → K → K → Bool
◌=?◌ ⦃e⦄ = e.eq

instance abbrev pub number_eq : Eq ℕ
number_eq = record { eq = ◌==◌; eq_iff = ==_iff }

instance abbrev pub text_column_eq : Eq Text
text_column_eq = record { eq = text_eq; eq_iff = text_eq_iff }

module _ {K A : Type 0} ⦃e : Eq K⦄ (column : A → K) where
  -- `EXISTS (… WHERE column = k)`
  unfoldable pub has : K → List A → Bool
  has k [] = false
  has k (r ∷ rs) = column r =? k || has k rs

  -- the first row of `SELECT … WHERE column = k`
  unfoldable pub first : K → List A → Option A
  first k [] = none
  first k (r ∷ rs) = if column r =? k then some r else first k rs

  -- the rows of `SELECT … WHERE column = k`
  unfoldable pub rows_of : K → List A → List A
  rows_of k = retain (λ r. column r =? k)

  -- what `DELETE … WHERE column = k` leaves
  unfoldable pub without : K → List A → List A
  without k = retain (λ r. not (column r =? k))

  -- `UNIQUE (column)`
  abbrev pub Unique : List A → Type 0
  Unique [] = Unit {0}
  Unique (r ∷ rs) = (has (column r) rs ≡ false) × Unique rs

-- `UPDATE … WHERE column = k`
unfoldable pub update_where : {K A : Type 0} ⦃e : Eq K⦄ → (A → K) → K → (A → A) → List A → List A
update_where column k f [] = []
update_where column k f (r ∷ rs) = (if column r =? k then f r else r) ∷ update_where column k f rs

module _ {K A B : Type 0} ⦃e : Eq K⦄ (column : A → K) (foreign : B → K) where
  -- `FOREIGN KEY (foreign) REFERENCES … (column)`
  abbrev pub References : List B → List A → Type 0
  References [] parents = Unit {0}
  References (r ∷ rs) parents = (has column (foreign r) parents ≡ true) × References rs parents

  -- `ON DELETE CASCADE`, given the rows that were deleted
  unfoldable pub cascade : List A → List B → List B
  cascade deleted = retain (λ r. not (has column (foreign r) deleted))

-- Every number in the column has been given, so the next one is new (`AUTOINCREMENT`).
abbrev pub Within : {A : Type 0} → (A → ℕ) → ℕ → List A → Type 0
Within column n [] = Unit {0}
Within column n (r ∷ rs) = (column r ≤ n) × Within column n rs
