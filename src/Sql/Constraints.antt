-- ===== src/Sql/Constraints.antt =====
-- What insertions, updates and deletions do to foreign keys and to the numbers given.
use torrust_index.Base.{
  ℕ, ◌+◌, ◌≤◌, ◌≡◌, refl, ◌∙◌, Bool, true, false, not, List, [], ◌∷◌, ◌++◌, retain, arith,
}
use torrust_index.Sql.{Eq, number_eq, has, Unique, Within, update_where, References, cascade}
use torrust_index.Sql.Laws.{has_insert_old, has-split, has-update_where}

module _ {K A B : Type 0} ⦃e : Eq K⦄ (column : A → K) (foreign : B → K) where
  pub References-insert_parent :
      (children : List B) (parents : List A) (r : A)
      → References column foreign children parents
      → References column foreign children (parents ++ r ∷ [])
  References-insert_parent [] parents r h = tt
  References-insert_parent (c ∷ cs) parents r (found, rest) = (
    has_insert_old column (foreign c) parents r found,
    References-insert_parent cs parents r rest,
  )

  pub References-insert :
      (children : List B) (parents : List A) (c : B)
      → References column foreign children parents
      → has column (foreign c) parents ≡ true
      → References column foreign (children ++ c ∷ []) parents
  References-insert [] parents c h found = (found, tt)
  References-insert (b ∷ bs) parents c (old, rest) found =
      (old, References-insert bs parents c rest found)

  pub References-append :
      (children more : List B) (parents : List A)
      → References column foreign children parents
      → References column foreign more parents
      → References column foreign (children ++ more) parents
  References-append [] more parents h m = m
  References-append (b ∷ bs) more parents (old, rest) m =
      (old, References-append bs more parents rest m)

  pub References-retain :
      (p : B → Bool) (children : List B) (parents : List A)
      → References column foreign children parents
      → References column foreign (retain p children) parents
  References-retain p [] parents h = tt
  References-retain p (c ∷ cs) parents (found, rest) =
      ground (arith, found, References-retain p cs parents rest)

  -- `ON DELETE CASCADE` keeps the constraint.
  pub References-cascade :
      (p : A → Bool) (children : List B) (parents : List A)
      → References column foreign children parents
      → References column foreign
          (cascade column foreign (retain p parents) children)
          (retain (λ r. not (p r)) parents)
  unfolding cascade
  References-cascade p [] parents h = tt
  References-cascade p (c ∷ cs) parents (found, rest) =
      ground
        (arith, found, has-split column (foreign c) p parents, References-cascade p cs parents rest)

  pub References-update_where :
      (k : K) (f : A → A) (children : List B) (parents : List A)
      (same : (r : A) → column (f r) ≡ column r)
      → References column foreign children parents
      → References column foreign children (update_where column k f parents)
  References-update_where k f [] parents same h = tt
  References-update_where k f (c ∷ cs) parents same (found, rest) = (
    has-update_where column (foreign c) k f parents same ∙ found,
    References-update_where k f cs parents same rest,
  )

module _ {A : Type 0} (column : A → ℕ) where
  pub fresh : (n : ℕ) (rs : List A) → Within column n rs → has column (n + 1) rs ≡ false
  unfolding has
  fresh n [] w = refl
  fresh n (r ∷ rs) (le, w) = ground (arith, le, fresh n rs w)

  pub Within-step : (n : ℕ) (rs : List A) → Within column n rs → Within column (n + 1) rs
  Within-step n [] w = tt
  Within-step n (r ∷ rs) (le, w) = (omega (arith, le), Within-step n rs w)

  pub Within-insert :
      (n : ℕ) (rs : List A) (r : A)
      → Within column n rs
      → column r ≤ n
      → Within column n (rs ++ r ∷ [])
  Within-insert n [] r w le = (le, tt)
  Within-insert n (s ∷ rs) r (old, w) le = (old, Within-insert n rs r w le)

  pub Within-retain :
      (n : ℕ) (p : A → Bool) (rs : List A) → Within column n rs → Within column n (retain p rs)
  Within-retain n p [] w = tt
  Within-retain n p (r ∷ rs) (le, w) = ground (arith, le, Within-retain n p rs w)

module _ {K J A : Type 0} ⦃e : Eq K⦄ ⦃e' : Eq J⦄ (column : A → K) (other : A → J) where
  pub has-update_other :
      (k : J) (j : K) (f : A → A) (rs : List A) (same : (r : A) → other (f r) ≡ other r)
      → has other k (update_where column j f rs) ≡ has other k rs
  unfolding has update_where
  has-update_other k j f [] same = refl
  has-update_other k j f (r ∷ rs) same = ground (arith, same r, has-update_other k j f rs same)

  -- An update that leaves a column alone leaves it unique.
  pub Unique-update_where :
      (k : K) (f : A → A) (rs : List A) (same : (r : A) → other (f r) ≡ other r)
      → Unique other rs
      → Unique other (update_where column k f rs)
  unfolding update_where
  Unique-update_where k f [] same u = tt
  Unique-update_where k f (r ∷ rs) same (new, u) = (
    ground (arith, new, same r, has-update_other (other r) k f rs same),
    Unique-update_where k f rs same u,
  )

pub Within-update_where :
    {K A : Type 0} ⦃e : Eq K⦄ (column : A → K) (number : A → ℕ) (n : ℕ) (k : K) (f : A → A)
    (rs : List A) (same : (r : A) → number (f r) ≡ number r)
    → Within number n rs
    → Within number n (update_where column k f rs)
unfolding update_where
Within-update_where column number n k f [] same w = tt
Within-update_where column number n k f (r ∷ rs) same (le, w) =
    (ground (arith, le, same r), Within-update_where column number n k f rs same w)

module _ {K J A B : Type 0} ⦃e : Eq K⦄ ⦃e' : Eq J⦄ (column : A → K) (foreign : B → K)
    (own : B → J) where
  -- An update of children that leaves the foreign key alone keeps the constraint.
  pub References-update_child :
      (k : J) (f : B → B) (children : List B) (parents : List A)
      (same : (r : B) → foreign (f r) ≡ foreign r)
      → References column foreign children parents
      → References column foreign (update_where own k f children) parents
  unfolding update_where
  References-update_child k f [] parents same h = tt
  References-update_child k f (c ∷ cs) parents same (found, rest) =
      (ground (arith, found, same c), References-update_child k f cs parents same rest)
  -- An update of parents that leaves the key alone keeps it too.

pub References-update_parent :
    {K J A B : Type 0} ⦃e : Eq K⦄ ⦃e' : Eq J⦄ (column : A → K) (foreign : B → K) (own : A → J)
    (k : J) (f : A → A) (children : List B) (parents : List A)
    (same : (r : A) → column (f r) ≡ column r)
    → References column foreign children parents
    → References column foreign children (update_where own k f parents)
References-update_parent column foreign own k f [] parents same h = tt
References-update_parent column foreign own k f (c ∷ cs) parents same (found, rest) = (
  has-update_other own column (foreign c) k f parents same ∙ found,
  References-update_parent column foreign own k f cs parents same rest,
)

-- The next number is in no column that refers to the numbers given.
pub fresh_child :
    {A B : Type 0} (column : A → ℕ) (foreign : B → ℕ) (n : ℕ) (children : List B) (parents : List A)
    → Within column n parents
    → References column foreign children parents
    → has foreign (n + 1) children ≡ false
unfolding has
fresh_child column foreign n [] parents w h = refl
fresh_child {A} column foreign n (c ∷ cs) parents w (found, rest) =
    ground (arith, fresh_child column foreign n cs parents w rest, below parents w found)
  where
    below : (rs : List A) → Within column n rs → has column (foreign c) rs ≡ true → foreign c ≤ n
    below [] w h = ground arith
    below (r ∷ rs) (le, w) h = ground (arith, le, h, below rs w)
