-- ===== src/Sqlite/Search.antt =====
-- The search of torrents in SQLite (src/databases/sqlite.rs). What the engine leaves open is a parameter: the
-- order of rows with equal keys, and what it makes of a query in which the name of a category,
-- which stands between quotes, has a quote itself.
pub mod Laws
pub mod Copies
pub mod Tagged
pub mod Paged
use torrust_index.Base.{
  ℕ, zero, suc, ◌+◌, ◌-◌, ◌*◌, ◌^◌, Bool, true, false, not, ◌||◌, ◌&&◌, Option, none, some, List,
  [], ◌∷◌, ◌++◌, map, Text, text_eq, is_empty, ◌==◌, ltb, leb, retain, length, take, drop, Outcome,
  ok, err, panic, if◌then◌else◌,
}
use torrust_index.DbError.{DbError}
use torrust_index.InfoHash.{InfoHash, to_hex_string}
use torrust_index.InfoHash.Codec.{Binascii}
use torrust_index.Listing.{TorrentListing, Sorting, TorrentTag, Category}
use torrust_index.Sql.{number_eq, text_column_eq, has, first, rows_of}
use torrust_index.Sqlite.{
  TorrentRow, TorrentInfoRow, ProfileRow, StatsRow, TagLinkRow, CategoryRow, Users, Names, Uploads,
  Tables, fetch_one,
}
use torrust_index.Sqlite.Accounts.{profile_key, i64_max}
use torrust_index.Sqlite.Catalog.{is_in, get_category_from_name, get_tag_from_name}
use torrust_index.Sqlite.Listings.{joined_rows, group}
use torrust_index.Sqlite.Torrents.{lower}

-- the rest of a text after its first character: the bytes that continue it are skipped
unfoldable pub skip_character : Text → Text
skip_character [] = []
skip_character (c ∷ s) = if leb 128 c && ltb c 192 then skip_character s else c ∷ s

-- the test passes on the text from some byte on
unfoldable pub some_suffix : (Text → Bool) → Text → Bool
some_suffix p [] = p []
some_suffix p (c ∷ s) = p (c ∷ s) || some_suffix p s

-- `LIKE`: `%` is any text, `_` a character, and letters of ASCII match in either case.
unfoldable pub like : Text → Text → Bool
unfolding some_suffix skip_character
like [] [] = true
like [] (d ∷ s) = false
like (c ∷ pattern_rest) [] = c == b'%' && like pattern_rest []
like (c ∷ pattern_rest) (d ∷ s) =
    let rest = like pattern_rest in
    if c == b'%'
    then some_suffix rest (d ∷ s)
    else if c == b'_'
    then rest (skip_character s)
    else lower c == lower d && rest s

abbrev pub title_pattern : Option Text → Text
title_pattern none = b'%' ∷ []
title_pattern (some v) = (b'%' ∷ v) ++ b'%' ∷ []

-- the names of the loop that are names of categories
unfoldable pub known_categories : Names → List TorrentRow → List Text → List Text
unfolding get_category_from_name
known_categories names torrents [] = []
known_categories names torrents (c ∷ cs) =
    let rest = known_categories names torrents cs in
    elim (get_category_from_name c names torrents) [
      | ok category ↦ category.name ∷ rest
      | err e ↦ rest
      | panic ↦ rest
    ]

unfoldable pub known_tags : Names → List Text → List ℕ
unfolding get_tag_from_name
known_tags names [] = []
known_tags names (tag ∷ tags) =
    let rest = known_tags names tags in
    elim (get_tag_from_name tag names) [
      | ok found ↦ found.tag_id ∷ rest
      | err e ↦ rest
      | panic ↦ rest
    ]

abbrev pub filters_of : {A : Type 0} → (List Text → List A) → Option (List Text) → List A
filters_of f none = []
filters_of f (some names) = f names

-- the names of categories that the text of the query contains
unfoldable pub filter_names : Option (List Text) → Tables → List Text
unfolding known_categories
filter_names categories t = filters_of (known_categories t.names t.uploads.torrents) categories

-- the groups whose title matches, in the order of the table
unfoldable pub found :
    (TorrentRow → Option TorrentListing) → Text → List TorrentRow → List TorrentListing
unfolding like
found group_row title [] = []
found group_row title (r ∷ rs) =
    let rest = found group_row title rs in
    elim (group_row r) [ none ↦ rest | some l ↦ if like title l.title then l ∷ rest else rest ]

-- the order of texts by their bytes
unfoldable pub text_leb : Text → Text → Bool
text_leb [] ys = true
text_leb (x ∷ xs) [] = false
text_leb (x ∷ xs) (y ∷ ys) = ltb x y || (x == y && text_leb xs ys)

-- `ORDER BY`: the first may stand before the second
unfoldable pub before : Sorting → TorrentListing → TorrentListing → Bool
unfolding text_leb
before Sorting.uploaded_asc a b = text_leb a.date_uploaded b.date_uploaded
before Sorting.uploaded_desc a b = text_leb b.date_uploaded a.date_uploaded
before Sorting.seeders_asc a b = leb a.seeders b.seeders
before Sorting.seeders_desc a b = leb b.seeders a.seeders
before Sorting.leechers_asc a b = leb a.leechers b.leechers
before Sorting.leechers_desc a b = leb b.leechers a.leechers
before Sorting.name_asc a b = text_leb a.title b.title
before Sorting.name_desc a b = text_leb b.title a.title
before Sorting.size_asc a b = leb a.file_size b.file_size
before Sorting.size_desc a b = leb b.file_size a.file_size

-- the order of ties
abbrev pub Tie : Type 0
Tie = TorrentListing → TorrentListing → Bool

-- The keys decide, and the engine does when they are equal.
unfoldable pub precedes : Tie → Sorting → TorrentListing → TorrentListing → Bool
unfolding before
precedes tie sort a b = before sort a b && (not (before sort b a) || tie a b)

unfoldable pub insert_row :
    Tie → Sorting → TorrentListing → List TorrentListing → List TorrentListing
unfolding precedes
insert_row tie sort a [] = a ∷ []
insert_row tie sort a (b ∷ bs) =
    let rest = insert_row tie sort a bs in if precedes tie sort a b then a ∷ b ∷ bs else b ∷ rest

unfoldable pub order_by : Tie → Sorting → List TorrentListing → List TorrentListing
unfolding insert_row
order_by tie sort [] = []
order_by tie sort (a ∷ listings) = insert_row tie sort a (order_by tie sort listings)

abbrev pub u32_max : ℕ
u32_max = 2 ^ 32 - 1

-- `i64::saturating_add_unsigned(0, offset)`
abbrev pub saturated : ℕ → ℕ
saturated offset = if ltb i64_max offset then i64_max else offset

-- the rows of the query, before `ORDER BY` and `LIMIT`
unfoldable pub matches :
    Option Text → Option (List Text) → Option (List Text) → Tables → List TorrentListing
unfolding group joined_rows filter_names known_tags found
matches search categories tags t =
    let names = filter_names categories t in
    let ids = filters_of (known_tags t.names) tags in
    found (λ r. group t.accounts t.uploads (joined_rows t.names t.uploads names ids r) r)
      (title_pattern search) t.uploads.torrents

-- a text with a quote, which ends the quoted text of a query
abbrev pub is_quoted : Text → Bool
is_quoted [] = false
is_quoted (c ∷ s) = c == b'\'' || is_quoted s

-- A name that the text of the query contains has a quote.
unfoldable pub some_quoted : List Text → Bool
some_quoted [] = false
some_quoted (name ∷ names) = is_quoted name || some_quoted names

-- The answer of the engine to a search whose query has a name with a quote, given the names.
abbrev pub Quoted : Type 0
Quoted = List Text → Outcome DbError (ℕ × List TorrentListing)

-- The total counts the rows without a limit.
unfoldable pub get_torrents_search_sorted_paginated :
    Quoted
    → Tie
    → Option Text
    → Option (List Text)
    → Option (List Text)
    → Sorting
    → ℕ
    → ℕ
    → Tables
    → Outcome DbError (ℕ × List TorrentListing)
unfolding matches order_by filter_names some_quoted
get_torrents_search_sorted_paginated quoted tie search categories tags sort offset limit t =
    let rows = matches search categories tags t in
    if some_quoted (filter_names categories t)
    then quoted (filter_names categories t)
    else if ltb u32_max (length rows)
    then panic
    else ok (length rows, take limit (drop (saturated offset) (order_by tie sort rows)))
