-- ===== src/Cache/Eviction.antt =====
-- What the `while` loop of `free_size` (src/cache/mod.rs) does: the entries that it evicts, as a
-- function of the entries in insertion order.
use torrust_index.Base.{
  ℕ, zero, suc, ◌+◌, ◌-◌, ◌%◌, ◌≤◌, ◌<◌, ◌≡◌, refl, ◌∙◌, ap, lt→ltb, [], ◌∷◌, ◌++◌, some, Text,
  length, arith, ok,
}
use torrust_index.Cache.{
  BytesCacheEntry, Entries, IndexMap, BytesCache, usize_mod, sum_sizes, pop, free_loop,
}
use torrust_index.Cache.Table.{first, rest}

-- the bytes that the entries hold, with no wrap-around
abbrev pub sizes : Entries → ℕ
sizes [] = 0
sizes ((_, entry) ∷ es) = length entry.bytes + sizes es

pub sum_sizes-eq :
    (size : ℕ) (es : Entries) → size + sizes es < usize_mod → sum_sizes size es ≡ size + sizes es
unfolding sum_sizes
sum_sizes-eq size [] h = omega arith
sum_sizes-eq size ((k, entry) ∷ es) h =
    let e : (size + length entry.bytes) % usize_mod ≡ size + length entry.bytes = omega arith in
    rw e (omega (arith, sum_sizes-eq (size + length entry.bytes) es))

-- Oldest entries go until `need` bytes are free.
unfoldable pub evict : Entries → ℕ → Entries
evict [] need = []
evict ((k, entry) ∷ es) zero = (k, entry) ∷ es
evict ((k, entry) ∷ es) (suc need) = evict es (suc need - length entry.bytes)

-- What was evicted is a run of the oldest entries, and without the last of them the space would
-- not do.
pub record Evicted (es kept : Entries) (need : ℕ) : Type 0 where
  pub gone : Entries
  pub split : es ≡ gone ++ kept
  pub enough : need ≤ sizes gone
  pub minimal :
      (older : Entries) (e : Text × BytesCacheEntry) → gone ≡ older ++ e ∷ [] → sizes older < need

module _ {M : Type 0} (map : IndexMap M) where
  open map use {entries, entries-shift_remove_first, shift_remove_first_lem}

  loop_done :
      (fuel freed to : ℕ) (c : BytesCache M)
      → to ≤ freed
      → free_loop map (suc fuel) freed to c ≡ some (c, ok tt)
  unfolding free_loop
  loop_done fuel freed to c h = ground arith

  loop_pop :
      (fuel freed to : ℕ) (c : BytesCache M) (entry : BytesCacheEntry)
      → freed < to
      → first (entries c.bytes_table) ≡ some entry
      → freed + length entry.bytes < usize_mod
      → free_loop map (suc fuel) freed to c
        ≡ free_loop map fuel (freed + length entry.bytes) to (pop map c).0
  unfolding free_loop pop
  loop_pop fuel freed to c entry h e m =
      let exact : (freed + length entry.bytes) % usize_mod ≡ freed + length entry.bytes =
        omega arith in
      let oldest : (map.shift_remove_first c.bytes_table).1 ≡ some entry =
        shift_remove_first_lem c.bytes_table ∙ e in
      rw (lt→ltb _ _ h, oldest, exact)

  -- With entries enough to free, the loop ends by its test and has popped what `evict` says.
  pub free_loop-evict :
      (fuel freed to need : ℕ) (c : BytesCache M) (es : Entries)
      → need ≡ to - freed
      → entries c.bytes_table ≡ es
      → length es < fuel
      → need ≤ sizes es
      → freed + sizes es < usize_mod
      → (table : M) × (free_loop map fuel freed to c
          ≡ some (record c { bytes_table = table }, ok tt))
        × (entries table ≡ evict es need)
  unfolding pop evict
  free_loop-evict zero freed to need c es n e lf le lm = absurd (omega arith)
  free_loop-evict (suc fuel) freed to zero c [] n e lf le lm =
      (c.bytes_table, loop_done fuel freed to c (omega arith), e)
  free_loop-evict (suc fuel) freed to zero c (x ∷ es) n e lf le lm =
      (c.bytes_table, loop_done fuel freed to c (omega arith), e)
  free_loop-evict (suc fuel) freed to (suc need) c [] n e lf le lm = absurd (omega arith)
  free_loop-evict (suc fuel) freed to (suc need) c ((k, entry) ∷ es) n e lf le lm =
      let l = length entry.bytes in
      let (table, run, left) =
        free_loop-evict fuel (freed + l) to (suc need - l) (pop map c).0 es (omega arith)
          (entries-shift_remove_first c.bytes_table ∙ ap rest e) (omega arith) (omega arith)
          (omega arith) in
      (table, loop_pop fuel freed to c entry (omega arith) (ap first e) (omega arith) ∙ run, left)

evict-zero : (es : Entries) → evict es 0 ≡ es
unfolding evict
evict-zero [] = refl
evict-zero (x ∷ es) = refl

nil-ne-snoc : (older : Entries) (e : Text × BytesCacheEntry) → ¬ ([] ≡ older ++ e ∷ [])
nil-ne-snoc [] e p = cc
nil-ne-snoc (y ∷ older) e p = cc

minimal_step :
    (x : Text × BytesCacheEntry) (n : ℕ) (gone : Entries)
    → ((older : Entries) (e : Text × BytesCacheEntry)
        → gone ≡ older ++ e ∷ []
        → sizes older < suc n - length x.1.bytes)
    → (older : Entries) (e : Text × BytesCacheEntry) → x ∷ gone ≡ older ++ e ∷ []
    → sizes older < suc n
minimal_step x n gone ih [] e p = omega arith
minimal_step x n gone ih (y ∷ older) e p = ground (arith, ih older e)

-- The loop evicts the oldest entries, enough of them, and no more than it has to.
pub evict-Evicted : (es : Entries) (need : ℕ) → need ≤ sizes es → Evicted es (evict es need) need
unfolding evict
evict-Evicted [] need h = record {
  gone = [];
  split = refl;
  enough = h;
  minimal = λ older e p. absurd (nil-ne-snoc older e p);
}
evict-Evicted (x ∷ es) zero h = record {
  gone = [];
  split = refl;
  enough = omega arith;
  minimal = λ older e p. absurd (nil-ne-snoc older e p);
}
evict-Evicted ((k, entry) ∷ es) (suc n) h =
    let rest_of : Evicted es (evict es (suc n - length entry.bytes)) (suc n - length entry.bytes) =
      evict-Evicted es (suc n - length entry.bytes) (omega arith) in
    record {
      gone = (k, entry) ∷ rest_of.gone;
      split = ap (◌∷◌ (k, entry)) rest_of.split;
      enough = omega (arith, rest_of.enough);
      minimal = minimal_step (k, entry) n rest_of.gone rest_of.minimal;
    }

pub sizes-append : (xs ys : Entries) → sizes (xs ++ ys) ≡ sizes xs + sizes ys
sizes-append [] ys = omega arith
sizes-append (x ∷ xs) ys = omega (arith, sizes-append xs ys)
