-- ===== src/Sqlite/Updates.antt =====
-- Updates and deletions of torrents and their tags in SQLite (src/databases/sqlite.rs).
use torrust_index.Base.{
  ℕ, Bool, true, false, not, ◌||◌, ◌&&◌, none, some, List, [], ◌∷◌, ◌++◌, Text, text_eq, ◌==◌,
  retain, ok, err, if◌then◌else◌,
}
use torrust_index.DbError.{DbError}
use torrust_index.Listing.{TorrentTag}
use torrust_index.Sql.{number_eq, text_column_eq, has, first, without, cascade, update_where}
use torrust_index.Sqlite.{
  TorrentRow, TorrentInfoRow, TagLinkRow, TagRow, Names, Uploads, Tables, Statement, affected,
}
use torrust_index.Sqlite.Accounts.{user_key, delete_user_rows}
use torrust_index.Sqlite.Catalog.{category_key, tag_key, tag_of}
use torrust_index.Sqlite.Torrents.{
  torrent_key, hash_key, canonical_key, file_torrent, url_torrent, info_torrent, stats_torrent,
  link_torrent,
}

abbrev pub with_title : Text → TorrentInfoRow → TorrentInfoRow
with_title title r = record r { title = title }

-- Another torrent has the title.
unfoldable pub title_taken : ℕ → Text → List TorrentInfoRow → Bool
title_taken torrent_id title [] = false
title_taken torrent_id title (r ∷ rs) =
    (text_eq r.title title && not (r.torrent_id == torrent_id)) || title_taken torrent_id title rs

-- The constraint on titles is checked when a row is changed.
unfoldable pub update_torrent_title : ℕ → Text → Statement Uploads (Unit {0})
unfolding title_taken
update_torrent_title torrent_id title t =
    if has info_torrent torrent_id t.infos && title_taken torrent_id title t.infos
    then (t, err DbError.torrent_title_already_exists)
    else (
      record t { infos = update_where info_torrent torrent_id (with_title title) t.infos },
      affected DbError.torrent_not_found (has info_torrent torrent_id t.infos),
    )

abbrev pub with_description : Text → TorrentInfoRow → TorrentInfoRow
with_description description r = record r { description = some description }

unfoldable pub update_torrent_description : ℕ → Text → Statement Uploads (Unit {0})
update_torrent_description torrent_id description t = (
  record t { infos = update_where info_torrent torrent_id (with_description description) t.infos },
  affected DbError.torrent_not_found (has info_torrent torrent_id t.infos),
)

abbrev pub with_category : ℕ → TorrentRow → TorrentRow
with_category category_id r = record r { category_id = some category_id }

unfoldable pub update_torrent_category : Names → ℕ → ℕ → Statement Uploads (Unit {0})
update_torrent_category names torrent_id category_id t =
    if has torrent_key torrent_id t.torrents && not (has category_key category_id names.categories)
    then (t, err DbError.error)
    else (
      record t {
        torrents = update_where torrent_key torrent_id (with_category category_id) t.torrents;
      },
      affected DbError.torrent_not_found (has torrent_key torrent_id t.torrents),
    )

unfoldable pub delete_torrent_tag_link : ℕ → ℕ → Statement Uploads (Unit {0})
delete_torrent_tag_link torrent_id tag_id t = (
  record t {
    tag_links = retain (λ r. not (r.torrent_id == torrent_id && r.tag_id == tag_id)) t.tag_links;
  },
  ok tt,
)

unfoldable pub delete_all_torrent_tag_links : ℕ → Statement Uploads (Unit {0})
delete_all_torrent_tag_links torrent_id t =
    (record t { tag_links = without link_torrent torrent_id t.tag_links }, ok tt)

-- the join of the tags and the links of a torrent
unfoldable pub linked : ℕ → List TagLinkRow → List TagRow → List TorrentTag
linked torrent_id [] tags = []
linked torrent_id (l ∷ ls) tags =
    let rest = linked torrent_id ls tags in
    if l.torrent_id == torrent_id
    then elim (first tag_key l.tag_id tags) [ none ↦ rest | some r ↦ tag_of r ∷ rest ]
    else rest

unfoldable pub get_tags_for_torrent_id : ℕ → Names → Uploads → List TorrentTag
unfolding linked
get_tags_for_torrent_id torrent_id names t = linked torrent_id t.tag_links names.tags

-- `REPLACE`: the row of the same primary key goes, whatever its tracker. A torrent that is not there
-- is an error.
unfoldable pub update_tracker_info : ℕ → Text → ℕ → ℕ → Statement Uploads (Unit {0})
update_tracker_info torrent_id tracker_url seeders leechers t =
    if has torrent_key torrent_id t.torrents
    then (
      record t {
        stats =
            without stats_torrent torrent_id t.stats
            ++ record {
              torrent_id = torrent_id;
              tracker_url = tracker_url;
              seeders = seeders;
              leechers = leechers;
            }
              ∷ [];
      },
      ok tt,
    )
    else (t, err DbError.torrent_not_found)

-- A deletion of torrents with all rows that refer to them.
unfoldable pub delete_torrent_rows : (TorrentRow → Bool) → Uploads → Uploads
delete_torrent_rows goes t =
    let deleted = retain goes t.torrents in
    record t {
      torrents = retain (λ r. not (goes r)) t.torrents;
      info_hashes = cascade hash_key canonical_key deleted t.info_hashes;
      files = cascade torrent_key file_torrent deleted t.files;
      announce_urls = cascade torrent_key url_torrent deleted t.announce_urls;
      infos = cascade torrent_key info_torrent deleted t.infos;
      stats = cascade torrent_key stats_torrent deleted t.stats;
      tag_links = cascade torrent_key link_torrent deleted t.tag_links;
    }

unfoldable pub delete_torrent : ℕ → Statement Uploads (Unit {0})
unfolding delete_torrent_rows
delete_torrent torrent_id t = (
  delete_torrent_rows (λ r. torrent_key r == torrent_id) t,
  affected DbError.torrent_not_found (has torrent_key torrent_id t.torrents),
)

-- A user's torrents go with the user.
unfoldable pub delete_user : ℕ → Statement Tables (Unit {0})
unfolding delete_user_rows delete_torrent_rows
delete_user user_id t = (
  record t {
    accounts = delete_user_rows user_id t.accounts;
    uploads =
        delete_torrent_rows
          (λ r. has user_key r.uploader_id (retain (λ u. user_key u == user_id) t.accounts.users))
          t.uploads;
  },
  affected DbError.user_not_found (has user_key user_id t.accounts.users),
)

-- The statements of the loop over `TABLES_TO_TRUNCATE`; the rows of `torrust_torrent_info_hashes`,
-- which is not in that list, go with the torrents.
unfoldable pub delete_all_database_rows : Tables → Tables
unfolding delete_torrent_rows
delete_all_database_rows t =
    let torrents : Uploads = record t.uploads {
      announce_urls = [];
      files = [];
      infos = [];
      tag_links = [];
      stats = [];
    } in
    record {
      accounts = record t.accounts {
        tracker_keys = [];
        authentications = [];
        bans = [];
        profiles = [];
        users = [];
      };
      names = record t.names { categories = []; tags = [] };
      uploads = delete_torrent_rows (λ r. true) torrents;
    }
