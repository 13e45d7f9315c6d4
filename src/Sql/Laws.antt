-- ===== src/Sql/Laws.antt =====
-- Laws of the statements: what an insertion, an update and a deletion do to searches and constraints.
use torrust_index.Base.{
  ◌≡◌, refl, Bool, true, false, not, ◌||◌, none, some, List, [], ◌∷◌, ◌++◌, map, retain, arith,
}
use torrust_index.Sql.{Eq, number_eq, ◌=?◌, has, first, rows_of, without, Unique, update_where}

module _ {K A : Type 0} ⦃e : Eq K⦄ (column : A → K) where
  pub has-append :
      (k : K) (rs ss : List A) → has column k (rs ++ ss) ≡ (has column k rs || has column k ss)
  unfolding has
  has-append k [] ss = refl
  has-append k (r ∷ rs) ss = ground (arith, has-append k rs ss)

  pub has-insert :
      (k : K) (rs : List A) (r : A)
      → has column k (rs ++ r ∷ []) ≡ (has column k rs || column r =? k)
  unfolding has
  has-insert k [] r = ground arith
  has-insert k (s ∷ rs) r = ground (arith, has-insert k rs r)

  -- a row stays after an insertion
  pub has_insert_old :
      (k : K) (rs : List A) (r : A) → has column k rs ≡ true → has column k (rs ++ r ∷ []) ≡ true
  has_insert_old k rs r h = ground (arith, has-insert k rs r)

  pub has_insert_new : (rs : List A) (r : A) → has column (column r) (rs ++ r ∷ []) ≡ true
  has_insert_new rs r = ground (arith, has-insert (column r) rs r, e.eq_iff (column r) (column r))

  pub has-retain_of :
      (k : K) (p : A → Bool) (rs : List A)
      → has column k rs ≡ false
      → has column k (retain p rs) ≡ false
  unfolding has
  has-retain_of k p [] h = refl
  has-retain_of k p (r ∷ rs) h = ground (arith, has-retain_of k p rs)

  -- a search finds a row among those that a test keeps or among the others
  pub has-split :
      (k : K) (p : A → Bool) (rs : List A)
      → has column k rs ≡ (has column k (retain p rs) || has column k (retain (λ r. not (p r)) rs))
  unfolding has
  has-split k p [] = refl
  has-split k p (r ∷ rs) = ground (arith, has-split k p rs)

  pub has-update_where :
      (k j : K) (f : A → A) (rs : List A) (same : (r : A) → column (f r) ≡ column r)
      → has column k (update_where column j f rs) ≡ has column k rs
  unfolding has update_where
  has-update_where k j f [] same = refl
  has-update_where k j f (r ∷ rs) same = ground (arith, same r, has-update_where k j f rs same)

  pub update_where-none :
      (k : K) (f : A → A) (rs : List A) → has column k rs ≡ false → update_where column k f rs ≡ rs
  unfolding has update_where
  update_where-none k f [] h = refl
  update_where-none k f (r ∷ rs) h = ground (arith, update_where-none k f rs)

  pub Unique-insert :
      (rs : List A) (r : A)
      → Unique column rs
      → has column (column r) rs ≡ false
      → Unique column (rs ++ r ∷ [])
  unfolding has
  Unique-insert [] r u h = (refl, tt)
  Unique-insert (s ∷ rs) r (fresh, u) h = (
    ground (
      arith,
      fresh,
      h,
      has-insert (column s) rs r,
      e.eq_iff (column s) (column r),
      e.eq_iff (column r) (column s),
    ),
    Unique-insert rs r u (ground (arith, h)),
  )

  pub Unique-retain : (p : A → Bool) (rs : List A) → Unique column rs → Unique column (retain p rs)
  Unique-retain p [] u = tt
  Unique-retain p (r ∷ rs) (fresh, u) =
      ground (arith, Unique-retain p rs u, has-retain_of (column r) p rs fresh)

  pub first-has : (k : K) (rs : List A) → first column k rs ≡ none → has column k rs ≡ false
  unfolding first has
  first-has k [] h = refl
  first-has k (r ∷ rs) h = ground (arith, first-has k rs)

  pub first-none : (k : K) (rs : List A) → has column k rs ≡ false → first column k rs ≡ none
  unfolding first has
  first-none k [] h = refl
  first-none k (r ∷ rs) h = ground (arith, first-none k rs)

  pub first_insert_new :
      (rs : List A) (r : A)
      → has column (column r) rs ≡ false
      → first column (column r) (rs ++ r ∷ []) ≡ some r
  unfolding first has
  first_insert_new [] r h = ground (arith, e.eq_iff (column r) (column r))
  first_insert_new (s ∷ rs) r h = ground (arith, first_insert_new rs r)

  pub first_insert_other :
      (k : K) (rs : List A) (r : A)
      → (column r =? k) ≡ false
      → first column k (rs ++ r ∷ []) ≡ first column k rs
  unfolding first
  first_insert_other k [] r h = ground (arith, h)
  first_insert_other k (s ∷ rs) r h = ground (arith, first_insert_other k rs r h)

  pub rows_of-has : (k : K) (rs : List A) → has column k rs ≡ false → rows_of column k rs ≡ []
  unfolding rows_of has
  rows_of-has k [] h = refl
  rows_of-has k (r ∷ rs) h = ground (arith, rows_of-has k rs)

  -- the values of a column of rows that are added under one key
  pub rows_of-added :
      {C : Type 0} (value : A → C) (make : C → A) (k : K)
      → ((c : C) → column (make c) ≡ k)
      → ((c : C) → value (make c) ≡ c)
      → (rs : List A) (cs : List C)
      → map value (rows_of column k (rs ++ map make cs)) ≡ map value (rows_of column k rs) ++ cs
  unfolding rows_of
  rows_of-added value make k own same [] [] = refl
  rows_of-added value make k own same [] (c ∷ cs) = ground (
    arith,
    own c,
    same c,
    e.eq_iff (column (make c)) k,
    rows_of-added value make k own same [] cs,
  )
  rows_of-added value make k own same (r ∷ rs) cs =
      ground (arith, rows_of-added value make k own same rs cs)

  pub has-without : (k : K) (rs : List A) → has column k (without column k rs) ≡ false
  unfolding has without
  has-without k [] = refl
  has-without k (r ∷ rs) = ground (arith, has-without k rs)
