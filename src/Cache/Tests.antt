-- ===== src/Cache/Tests.antt =====
-- The byte cache on concrete inputs, over a list of entries as the map.
use torrust_index.Base.{
  ◌≤◌, ◌≡◌, refl, [], ◌∷◌, Option, none, some, Text, bytes, Outcome, ok, err, arith, text_eq, ◌⊎◌,
  ◌<◌,
}
use torrust_index.Cache.{
  BytesCacheEntry, Entries, BytesCache, set, get, total_size, free_size, free_loop, insert_after,
  sum_sizes, pop, CacheError, bytes_exceed_entry_size_limit, with_capacity_and_entry_size_limit,
  new,
}
use torrust_index.Cache.ListMap.{list_map}
use torrust_index.Cache.Table.{lookup, remove, upsert}
use torrust_index.Cache.Correct.{IsValid, Stored, set-Stored, set-IsValid, sets, total_size-sets}

program : Unit {0}
unfolding lookup remove upsert set get total_size free_size free_loop insert_after sum_sizes pop
    text_eq with_capacity_and_entry_size_limit new
program = tt

abbrev one : Text × BytesCacheEntry
one = (bytes "one", record { bytes = bytes "abc" })

abbrev two : Text × BytesCacheEntry
two = (bytes "two", record { bytes = bytes "defg" })

abbrev six : Text × BytesCacheEntry
six = (bytes "six", record { bytes = bytes "hij" })

-- ten bytes in all, five for one entry; three and four are taken
abbrev cache : BytesCache Entries
cache = record { bytes_table = one ∷ two ∷ []; total_capacity = 10; entry_size_limit = 5 }

-- Three bytes fit beside the others.
set-fits :
    set list_map cache (bytes "six") (bytes "hij")
    ≡ some (record cache { bytes_table = one ∷ two ∷ six ∷ [] }, ok none)
unfolding program
set-fits = refl

-- Four bytes cost the oldest entry, and a second `set` of a key moves it to the end.
set-evicts :
    set list_map cache (bytes "two") (bytes "vwxyz")
    ≡ some (
      record cache { bytes_table = one ∷ (bytes "two", record { bytes = bytes "vwxyz" }) ∷ [] },
      ok none,
    )
unfolding program
set-evicts = refl

cache-IsValid : IsValid list_map cache
unfolding program
cache-IsValid = record {
  word = omega arith;
  limit = omega arith;
  fits = record { room = omega arith; distinct = (refl, (refl, tt)); within = omega arith };
}

set-Stored_example :
    (r : BytesCache Entries × Outcome CacheError (Option BytesCacheEntry)) × (set list_map cache
        (bytes "six")
        (bytes "hijkl")
      ≡ some r)
    × Stored list_map cache (bytes "six") (bytes "hijkl") r
set-Stored_example =
    set-Stored list_map cache (bytes "six") (bytes "hijkl") cache-IsValid (omega arith)

set-IsValid_example :
    (r : BytesCache Entries × Outcome CacheError (Option BytesCacheEntry)) × (set list_map cache
        (bytes "six")
        (bytes "hijklm")
      ≡ some r)
    × IsValid list_map r.0
    × (r.0.total_capacity ≡ 10)
    × ((6 ≤ 5) × (r.1 ≡ ok none) ⊎ (5 < 6) × (r ≡ (cache, err bytes_exceed_entry_size_limit)))
set-IsValid_example = set-IsValid list_map cache (bytes "six") (bytes "hijklm") cache-IsValid

total_size-sets_example :
    (c : BytesCache Entries) × (sets list_map
        ((bytes "a", bytes "12345") ∷ (bytes "b", bytes "1234") ∷ (bytes "c", bytes "123") ∷ [])
        (record { bytes_table = []; total_capacity = 8; entry_size_limit = 5 })
      ≡ some c)
    × (total_size list_map c ≤ 8)
unfolding program
total_size-sets_example =
    total_size-sets list_map 8 5
      ((bytes "a", bytes "12345") ∷ (bytes "b", bytes "1234") ∷ (bytes "c", bytes "123") ∷ [])
      (omega arith) refl
