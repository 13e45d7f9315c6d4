-- ===== src/Cache.antt =====
-- The byte cache: `BytesCache` of src/cache/mod.rs. Sizes are `usize` on a 64-bit machine.
pub mod Table
pub mod Keys
pub mod Eviction
pub mod Correct
pub mod ListMap
mod Tests
pub use Table.{BytesCacheEntry, IndexMap, Entries}
use torrust_index.Base.{
  ℕ, zero, suc, ◌+◌, ◌-◌, ◌%◌, ◌^◌, Bool, List, [], ◌∷◌, Option, none, some, Text, length, ltb,
  ◌==◌, if◌then◌else◌, Outcome, ok, err, panic,
}

pub data CacheError : Type 0 where
  entry_size_limit_exceeds_total_capacity bytes_exceed_entry_size_limit : CacheError
  cache_capacity_is_too_small : CacheError

pub record BytesCache (M : Type 0) : Type 0 where
  pub bytes_table : M
  pub total_capacity : ℕ
  pub entry_size_limit : ℕ

abbrev pub usize_mod : ℕ
usize_mod = 2 ^ 64

-- the loop of `total_size`, whose sum wraps
unfoldable pub sum_sizes : ℕ → Entries → ℕ
sum_sizes size [] = size
sum_sizes size ((_, entry) ∷ es) = sum_sizes ((size + length entry.bytes) % usize_mod) es

module _ {M : Type 0} (map : IndexMap M) where
  open map use {entries}

  unfoldable pub new : BytesCache M
  new = record { bytes_table = map.new; total_capacity = 0; entry_size_limit = 0 }

  unfoldable pub with_capacity : ℕ → BytesCache M
  unfolding new
  with_capacity capacity = record new { total_capacity = capacity }

  unfoldable pub with_entry_size_limit : ℕ → BytesCache M
  unfolding new
  with_entry_size_limit limit = record new { entry_size_limit = limit }

  unfoldable pub with_capacity_and_entry_size_limit : ℕ → ℕ → Outcome CacheError (BytesCache M)
  unfolding new
  with_capacity_and_entry_size_limit capacity limit =
      if ltb capacity limit
      then err entry_size_limit_exceeds_total_capacity
      else ok (record new { total_capacity = capacity; entry_size_limit = limit })

  unfoldable pub get : BytesCache M → Text → Option BytesCacheEntry
  get c key = map.get c.bytes_table key

  unfoldable pub len : BytesCache M → ℕ
  len c = map.len c.bytes_table

  unfoldable pub is_empty : BytesCache M → Bool
  is_empty c = map.len c.bytes_table == 0

  unfoldable pub total_size : BytesCache M → ℕ
  total_size c = sum_sizes 0 (entries c.bytes_table)

  unfoldable pub pop : BytesCache M → BytesCache M × Option BytesCacheEntry
  pop c =
      let (table, oldest) = map.shift_remove_first c.bytes_table in
      (record c { bytes_table = table }, oldest)

  -- the `while` loop of `free_size`; `none` means that the fuel ran out
  unfoldable pub free_loop :
      ℕ → ℕ → ℕ → BytesCache M → Option (BytesCache M × Outcome CacheError (Unit {0}))
  free_loop zero size_freed size_to_be_freed c = none
  free_loop (suc fuel) size_freed size_to_be_freed c =
      let next : Option (BytesCache M × Outcome CacheError (Unit {0})) = elim (pop c).1 [
        | none ↦ some ((pop c).0, panic)
        | some oldest ↦
            free_loop fuel ((size_freed + length oldest.bytes) % usize_mod) size_to_be_freed
              (pop c).0
      ] in
      if ltb size_freed size_to_be_freed then next else some (c, ok tt)

  -- One round for each entry, and one to see that the table is empty.
  unfoldable pub free_size :
      BytesCache M → ℕ → Option (BytesCache M × Outcome CacheError (Unit {0}))
  free_size c size =
      let free_space : ℕ = (c.total_capacity + usize_mod - total_size c) % usize_mod in
      if ltb c.total_capacity size
      then some (c, err cache_capacity_is_too_small)
      else free_loop (suc (map.len c.bytes_table)) 0 (size - free_space) c

  -- the insertion at the end of `set`, after `free_size(..)?`
  unfoldable pub insert_after :
      Text
      → BytesCacheEntry
      → BytesCache M × Outcome CacheError (Unit {0})
      → BytesCache M × Outcome CacheError (Option BytesCacheEntry)
  insert_after key entry (c, ok _) =
      let (table, previous) = map.insert c.bytes_table key entry in
      (record c { bytes_table = table }, ok previous)
  insert_after key entry (c, err e) = (c, err e)
  insert_after key entry (c, panic) = (c, panic)

  unfoldable pub set :
      BytesCache M
      → Text
      → Text
      → Option (BytesCache M × Outcome CacheError (Option BytesCacheEntry))
  set c key bytes =
      let shifted : BytesCache M = record c {
        bytes_table = (map.shift_remove c.bytes_table key).0;
      } in
      if ltb c.entry_size_limit (length bytes)
      then some (c, err bytes_exceed_entry_size_limit)
      else elim (free_size shifted (length bytes)) [
        | none ↦ none
        | some r ↦ some (insert_after key (record { bytes = bytes }) r)
      ]
