-- ===== src/InfoHash/Compare.antt =====
-- The order of info-hashes (src/models/info_hash.rs).
use torrust_index.Base.{◌≡◌, refl, ap, [], ◌∷◌, Text, ◌↔◌, arith}
use torrust_index.InfoHash.{InfoHash, cmp, cmp_bytes}
use Prim.Native.Nat.{Ordering}

abbrev pub swap : Ordering → Ordering
swap Ordering.lt = Ordering.gt
swap Ordering.eq = Ordering.eq
swap Ordering.gt = Ordering.lt

cmp_bytes-swap : (xs ys : Text) → cmp_bytes ys xs ≡ swap (cmp_bytes xs ys)
unfolding cmp_bytes
cmp_bytes-swap [] [] = refl
cmp_bytes-swap [] (y ∷ ys) = refl
cmp_bytes-swap (x ∷ xs) [] = refl
cmp_bytes-swap (x ∷ xs) (y ∷ ys) = ground (arith, cmp_bytes-swap xs ys)

eq_of_cmp : (xs ys : Text) → cmp_bytes xs ys ≡ Ordering.eq → xs ≡ ys
unfolding cmp_bytes
eq_of_cmp [] [] h = refl
eq_of_cmp [] (y ∷ ys) h = ground arith
eq_of_cmp (x ∷ xs) [] h = ground arith
eq_of_cmp (x ∷ xs) (y ∷ ys) h = ground (arith, eq_of_cmp xs ys)

cmp_bytes_refl : (xs : Text) → cmp_bytes xs xs ≡ Ordering.eq
unfolding cmp_bytes
cmp_bytes_refl [] = refl
cmp_bytes_refl (x ∷ xs) = ground (arith, cmp_bytes_refl xs)

cmp_bytes_trans :
    (xs ys zs : Text)
    → cmp_bytes xs ys ≡ Ordering.lt
    → cmp_bytes ys zs ≡ Ordering.lt
    → cmp_bytes xs zs ≡ Ordering.lt
unfolding cmp_bytes
cmp_bytes_trans [] [] [] p q = p
cmp_bytes_trans [] (y ∷ ys) [] p q = ground arith
cmp_bytes_trans [] ys (z ∷ zs) p q = refl
cmp_bytes_trans (x ∷ xs) [] zs p q = ground arith
cmp_bytes_trans (x ∷ xs) (y ∷ ys) [] p q = ground arith
cmp_bytes_trans (x ∷ xs) (y ∷ ys) (z ∷ zs) p q = ground (arith, cmp_bytes_trans xs ys zs)

-- `cmp` is a strict total order on info-hashes: equal exactly on equal bytes, antisymmetric, and
-- transitive.
pub cmp_total_order :
    (a b c : InfoHash)
    → ((cmp a b ≡ Ordering.eq) ↔ (a ≡ b))
      × (cmp b a ≡ swap (cmp a b))
      × (cmp a b ≡ Ordering.lt → cmp b c ≡ Ordering.lt → cmp a c ≡ Ordering.lt)
unfolding cmp
cmp_total_order a b c = (
  (
    λ e.
        ap (λ (bs : Text). let h : InfoHash = record { bytes = bs } in h)
          (eq_of_cmp a.bytes b.bytes e),
    λ e. rw e (cmp_bytes_refl b.bytes),
  ),
  cmp_bytes-swap a.bytes b.bytes,
  cmp_bytes_trans a.bytes b.bytes c.bytes,
)
