-- ===== src/Sqlite/Listings.antt =====
-- The listing of a torrent in SQLite (src/databases/sqlite.rs): the joins that its queries make, and the groups of
-- their rows.
use torrust_index.Base.{
  ℕ, ◌+◌, ◌&&◌, ◌||◌, Bool, false, Option, none, some, List, [], ◌∷◌, ◌++◌, map, Text, text_eq,
  ◌==◌, retain, Outcome, ok, err, panic,
}
use torrust_index.DbError.{DbError}
use torrust_index.InfoHash.{InfoHash, to_hex_string}
use torrust_index.InfoHash.Codec.{Binascii}
use torrust_index.Listing.{TorrentListing}
use torrust_index.Sql.{number_eq, text_column_eq, first, rows_of}
use torrust_index.Sqlite.{
  TorrentRow, StatsRow, TagLinkRow, CategoryRow, Users, Names, Uploads, Tables, fetch_one,
}
use torrust_index.Sqlite.Accounts.{profile_key}
use torrust_index.Sqlite.Catalog.{is_in}
use torrust_index.Sqlite.Torrents.{torrent_key, hash_key, info_torrent, stats_torrent, to_lowercase}

-- A row of the joins, beside the torrent, its profile and its title. A join that a query does not have, and
-- a LEFT JOIN that finds nothing, give none.
pub record JoinedRow : Type 0 where
  pub category : Option CategoryRow
  pub tag_link : Option TagLinkRow
  pub stats : Option StatsRow

abbrev pub one_of : List Text → CategoryRow → Bool
one_of [] c = false
one_of (name ∷ filters) c = text_eq c.name name || one_of filters c

abbrev pub a_tag_of : List ℕ → ℕ → Bool
a_tag_of [] tag_id = false
a_tag_of (id ∷ filters) tag_id = tag_id == id || a_tag_of filters tag_id

-- the rows that the filter of categories joins to a torrent; no filter is no join
unfoldable pub category_rows : Names → List Text → TorrentRow → List (Option CategoryRow)
category_rows names [] r = none ∷ []
category_rows names (f ∷ filters) r =
    map some (retain (λ c. is_in c.category_id r && one_of (f ∷ filters) c) names.categories)

-- the rows that the filter of tags joins to a torrent; no filter is no join
unfoldable pub tag_rows : Uploads → List ℕ → TorrentRow → List (Option TagLinkRow)
tag_rows t [] r = none ∷ []
tag_rows t (f ∷ filters) r =
    map some
      (retain (λ l. l.torrent_id == r.torrent_id && a_tag_of (f ∷ filters) l.tag_id) t.tag_links)

abbrev pub left_join : {A : Type 0} → List A → List (Option A)
left_join [] = none ∷ []
left_join (a ∷ rows) = map some (a ∷ rows)

-- `LEFT JOIN`: a torrent without statistics has one row without them
unfoldable pub stats_rows : Uploads → TorrentRow → List (Option StatsRow)
stats_rows t r = left_join (rows_of stats_torrent r.torrent_id t.stats)

abbrev pub with_tags :
    Option CategoryRow → List (Option TagLinkRow) → List (Option StatsRow) → List JoinedRow
with_tags c [] stats = []
with_tags c (l ∷ links) stats =
    map (λ s. record { category = c; tag_link = l; stats = s }) stats ++ with_tags c links stats

abbrev pub product :
    List (Option CategoryRow) → List (Option TagLinkRow) → List (Option StatsRow) → List JoinedRow
product [] links stats = []
product (c ∷ categories) links stats = with_tags c links stats ++ product categories links stats

-- the rows of the joins for a torrent
unfoldable pub joined_rows : Names → Uploads → List Text → List ℕ → TorrentRow → List JoinedRow
unfolding category_rows tag_rows stats_rows
joined_rows names t filters ids r =
    product (category_rows names filters r) (tag_rows t ids r) (stats_rows t r)

-- `COALESCE(sum(ts.seeders), 0)`: a row without statistics adds nothing
abbrev pub seeders_of : Option StatsRow → ℕ
seeders_of none = 0
seeders_of (some s) = s.seeders

abbrev pub leechers_of : Option StatsRow → ℕ
leechers_of none = 0
leechers_of (some s) = s.leechers

unfoldable pub sum_seeders : List JoinedRow → ℕ
sum_seeders [] = 0
sum_seeders (j ∷ js) = seeders_of j.stats + sum_seeders js

unfoldable pub sum_leechers : List JoinedRow → ℕ
sum_leechers [] = 0
sum_leechers (j ∷ js) = leechers_of j.stats + sum_leechers js

-- `GROUP BY` on the joined rows of a torrent: there is no group without a row, and the profile and
-- the title must be there.
unfoldable pub group : Users → Uploads → List JoinedRow → TorrentRow → Option TorrentListing
unfolding sum_seeders sum_leechers
group users t [] r = none
group users t (j ∷ js) r = elim (first profile_key r.uploader_id users.profiles) [
  | none ↦ none
  | some tp ↦ elim (first info_torrent r.torrent_id t.infos) [
    | none ↦ none
    | some ti ↦ some (record {
      torrent_id = r.torrent_id;
      uploader = tp.username;
      info_hash = r.info_hash;
      title = ti.title;
      description = ti.description;
      category_id = r.category_id;
      date_uploaded = r.date_uploaded;
      file_size = r.size;
      seeders = sum_seeders (j ∷ js);
      leechers = sum_leechers (j ∷ js);
      name = r.name;
      comment = r.comment;
      creation_date = r.creation_date;
      created_by = r.created_by;
      encoding = r.encoding;
    })
  ]
]

-- the query of one torrent, which has no filters
unfoldable pub group_of : Tables → Option TorrentRow → Option TorrentListing
unfolding joined_rows group
group_of t none = none
group_of t (some r) = group t.accounts t.uploads (joined_rows t.names t.uploads [] [] r) r

unfoldable pub get_torrent_listing_from_id : ℕ → Tables → Outcome DbError TorrentListing
unfolding group_of
get_torrent_listing_from_id torrent_id t =
    fetch_one DbError.torrent_not_found
      (group_of t (first torrent_key torrent_id t.uploads.torrents))

module _ (codec : Binascii) where
  unfoldable pub get_torrent_listing_from_info_hash :
      InfoHash → Tables → Outcome DbError TorrentListing
  unfolding group_of to_hex_string
  get_torrent_listing_from_info_hash info_hash t =
      elim (to_hex_string codec {E = DbError} info_hash) [
        | ok hash ↦
            fetch_one DbError.torrent_not_found
              (group_of t (first hash_key (to_lowercase hash) t.uploads.torrents))
        | err e ↦ err e
        | panic ↦ panic
      ]
