-- ===== src/Sqlite/Search/Laws.antt =====
-- What the filters and the text of a search mean (src/databases/sqlite.rs).
use torrust_index.Base.{
  ℕ, ◌≡◌, refl, Bool, true, false, not, ◌||◌, ◌&&◌, Option, none, some, List, [], ◌∷◌, ◌++◌, Text,
  ◌==◌, all, arith,
}
use torrust_index.Listing.{Sorting}
use torrust_index.Sql.{number_eq, text_column_eq, has}
use torrust_index.Sql.Laws.{first-none}
use torrust_index.Sqlite.{TorrentRow, Names, Tables}
use torrust_index.Sqlite.Catalog.{category_name, tag_name}
use torrust_index.Sqlite.Torrents.{to_lowercase}
use torrust_index.Sqlite.Search.{
  Quoted, Tie, some_suffix, like, title_pattern, known_categories, known_tags,
  get_torrents_search_sorted_paginated,
}

abbrev pub is_plain : ℕ → Bool
is_plain c = not (c == b'%') && not (c == b'_')

unfoldable pub is_prefix : Text → Text → Bool
is_prefix [] s = true
is_prefix (c ∷ cs) [] = false
is_prefix (c ∷ cs) (d ∷ s) = c == d && is_prefix cs s

-- the text stands somewhere in the other
unfoldable pub contains : Text → Text → Bool
unfolding is_prefix
contains needle [] = is_prefix needle []
contains needle (d ∷ s) = is_prefix needle (d ∷ s) || contains needle s

any_text : (s : Text) → like (b'%' ∷ []) s ≡ true
unfolding like
any_text [] = refl
any_text (d ∷ s) = some_end s
  where
    some_end : (s : Text) → some_suffix (like []) s ≡ true
    some_end [] = refl
    some_end (d ∷ s) = some_end s

like_prefix :
    (v s : Text)
    → all is_plain v ≡ true
    → like (v ++ b'%' ∷ []) s ≡ is_prefix (to_lowercase v) (to_lowercase s)
unfolding like is_prefix
like_prefix [] s h = any_text s
like_prefix (c ∷ v) [] h = ground (arith, h)
like_prefix (c ∷ v) (d ∷ s) h =
    rw (plain_parts.0, plain_parts.1, like_prefix v s plain_parts.2) refl
  where
    plain_parts : ((c == b'%') ≡ false) × ((c == b'_') ≡ false) × (all is_plain v ≡ true)
    plain_parts = (ground (arith, h), ground (arith, h), ground (arith, h))

some_suffix-contains :
    (v s : Text)
    → all is_plain v ≡ true
    → some_suffix (like (v ++ b'%' ∷ [])) s ≡ contains (to_lowercase v) (to_lowercase s)
unfolding some_suffix contains
some_suffix-contains v [] h = like_prefix v [] h
some_suffix-contains v (d ∷ s) h = rw (like_prefix v (d ∷ s) h, some_suffix-contains v s h) refl

-- A search for a text without `%` and `_` matches the titles in which the text stands, whatever the
-- case of the letters of ASCII.
pub like-title_pattern :
    (v title : Text)
    → all is_plain v ≡ true
    → like (title_pattern (some v)) title ≡ contains (to_lowercase v) (to_lowercase title)
unfolding like some_suffix contains
like-title_pattern v [] h = like_prefix v [] h
like-title_pattern v (d ∷ title) h = some_suffix-contains v (d ∷ title) h

-- no name of the filter is in the table
abbrev pub AllUnknown : {A : Type 0} → (A → Text) → List A → List Text → Type 0
AllUnknown column rows [] = Unit {0}
AllUnknown column rows (name ∷ names) =
    (has column name rows ≡ false) × AllUnknown column rows names

known_categories-AllUnknown :
    (names : Names) (torrents : List TorrentRow) (cs : List Text)
    → AllUnknown category_name names.categories cs
    → known_categories names torrents cs ≡ []
unfolding known_categories
known_categories-AllUnknown names torrents [] u = refl
known_categories-AllUnknown names torrents (c ∷ cs) (new, u) =
    rw (first-none category_name c names.categories new, known_categories)
      (known_categories-AllUnknown names torrents cs u)

known_tags-AllUnknown :
    (names : Names) (tags : List Text)
    → AllUnknown tag_name names.tags tags
    → known_tags names tags ≡ []
unfolding known_tags
known_tags-AllUnknown names [] u = refl
known_tags-AllUnknown names (tag ∷ tags) (new, u) =
    rw (first-none tag_name tag names.tags new, known_tags) (known_tags-AllUnknown names tags u)

-- A search for categories and tags of which none is there finds what a search without filters finds.
pub unknown_filters_are_dropped :
    (quoted : Quoted) (tie : Tie) (text : Option Text) (categories tags : List Text)
    (sort : Sorting) (offset limit : ℕ) (t : Tables)
    → AllUnknown category_name t.names.categories categories
    → AllUnknown tag_name t.names.tags tags
    → get_torrents_search_sorted_paginated quoted tie text
        (some categories)
        (some tags)
        sort
        offset
        limit
        t
      ≡ get_torrents_search_sorted_paginated quoted tie text none none sort offset limit t
unfolding get_torrents_search_sorted_paginated
unknown_filters_are_dropped quoted tie text categories tags sort offset limit t u w =
    rw
      (
        known_categories-AllUnknown t.names t.uploads.torrents categories u,
        known_tags-AllUnknown t.names tags w,
      )
      refl
