-- ===== src/Cache/Table.antt =====
-- The `IndexMap` of the indexmap crate, as the cache (src/cache/mod.rs) uses it: an interface over
-- an abstract map type, whose laws are the crate's documentation of each method in terms of the
-- entries in insertion order.
use torrust_index.Base.{
  ℕ, ◌≡◌, List, [], ◌∷◌, Option, none, some, Text, text_eq, length, if◌then◌else◌,
}

-- `BytesCacheEntry`
pub record BytesCacheEntry : Type 0 where
  pub bytes : Text

abbrev pub Entries : Type 0
Entries = List (Text × BytesCacheEntry)

unfoldable pub lookup : Text → Entries → Option BytesCacheEntry
lookup k [] = none
lookup k ((j, e) ∷ es) = if text_eq j k then some e else lookup k es

-- The first entry with the key is taken out, and the rest keep their order.
unfoldable pub remove : Text → Entries → Entries
remove k [] = []
remove k ((j, e) ∷ es) = if text_eq j k then es else (j, e) ∷ remove k es

-- A known key keeps its place and gets the new value; a new key is appended.
unfoldable pub upsert : Text → BytesCacheEntry → Entries → Entries
upsert k v [] = (k, v) ∷ []
upsert k v ((j, e) ∷ es) = if text_eq j k then (j, v) ∷ es else (j, e) ∷ upsert k v es

abbrev pub first : Entries → Option BytesCacheEntry
first [] = none
first ((j, e) ∷ es) = some e

abbrev pub rest : Entries → Entries
rest [] = []
rest (e ∷ es) = es

-- `IndexMap<String, BytesCacheEntry>` with the methods that the cache calls
pub record IndexMap (M : Type 0) : Type 0 where
  pub entries : M → Entries
  pub new : M
  pub get : M → Text → Option BytesCacheEntry
  pub len : M → ℕ
  pub insert : M → Text → BytesCacheEntry → M × Option BytesCacheEntry
  pub shift_remove : M → Text → M × Option BytesCacheEntry
  pub shift_remove_first : M → M × Option BytesCacheEntry
  pub entries-new : entries new ≡ []
  pub get_lem : (m : M) (k : Text) → get m k ≡ lookup k (entries m)
  pub len_lem : (m : M) → len m ≡ length (entries m)
  pub entries-insert :
      (m : M) (k : Text) (v : BytesCacheEntry) → entries (insert m k v).0 ≡ upsert k v (entries m)
  pub insert_previous :
      (m : M) (k : Text) (v : BytesCacheEntry) → (insert m k v).1 ≡ lookup k (entries m)
  pub entries-shift_remove :
      (m : M) (k : Text) → entries (shift_remove m k).0 ≡ remove k (entries m)
  pub entries-shift_remove_first : (m : M) → entries (shift_remove_first m).0 ≡ rest (entries m)
  pub shift_remove_first_lem : (m : M) → (shift_remove_first m).1 ≡ first (entries m)
