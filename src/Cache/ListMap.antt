-- ===== src/Cache/ListMap.antt =====
-- The interface of `IndexMap` is met by a list of entries: an implementation for tests.
use torrust_index.Base.{refl, [], length}
use torrust_index.Cache.Table.{Entries, IndexMap, lookup, remove, upsert, first, rest}

abbrev pub list_map : IndexMap Entries
list_map = record {
  entries = λ es. es;
  new = [];
  get = λ es k. lookup k es;
  len = length;
  insert = λ es k v. (upsert k v es, lookup k es);
  shift_remove = λ es k. (remove k es, lookup k es);
  shift_remove_first = λ es. (rest es, first es);
  entries-new = refl;
  get_lem = λ m k. refl;
  len_lem = λ m. refl;
  entries-insert = λ m k v. refl;
  insert_previous = λ m k v. refl;
  entries-shift_remove = λ m k. refl;
  entries-shift_remove_first = λ m. refl;
  shift_remove_first_lem = λ m. refl;
}
