-- ===== src/Sqlite/Downloads.antt =====
-- The queries that load a torrent file (src/databases/sqlite.rs, src/databases/database.rs).
use torrust_index.Base.{ℕ, Option, none, some, List, map, Text, Outcome, ◌>>=◌}
use torrust_index.DbError.{DbError}
use torrust_index.InfoHash.{InfoHash, to_hex_string}
use torrust_index.InfoHash.Codec.{Binascii}
use torrust_index.Sql.{number_eq, text_column_eq, first, rows_of}
use torrust_index.Sqlite.{TorrentRow, FileRow, AnnounceUrlRow, Uploads, fetch_one}
use torrust_index.Sqlite.Torrents.{torrent_key, hash_key, file_torrent, url_torrent, to_lowercase}
use torrust_index.Torrent.{Torrent, TorrentFile, DbTorrent, from_database}
use torrust_index.Torrent.Rows.{torrent_files, announce_tiers, as_i64}

abbrev pub db_torrent : TorrentRow → DbTorrent
db_torrent r = record {
  torrent_id = r.torrent_id;
  info_hash = r.info_hash;
  name = r.name;
  pieces = r.pieces;
  piece_length = r.piece_length;
  private = r.private;
  root_hash = as_i64 r.root_hash;
  comment = r.comment;
  creation_date = r.creation_date;
  created_by = r.created_by;
  encoding = r.encoding;
}

abbrev pub some_torrent : Option TorrentRow → Option DbTorrent
some_torrent none = none
some_torrent (some r) = some (db_torrent r)

unfoldable pub get_torrent_info_from_id : ℕ → Uploads → Outcome DbError DbTorrent
get_torrent_info_from_id torrent_id t =
    fetch_one DbError.torrent_not_found (some_torrent (first torrent_key torrent_id t.torrents))

unfoldable pub get_torrent_files_from_id : ℕ → Uploads → List TorrentFile
unfolding torrent_files
get_torrent_files_from_id torrent_id t =
    torrent_files (map (λ (r : FileRow). r.file) (rows_of file_torrent torrent_id t.files))

unfoldable pub get_torrent_announce_urls_from_id : ℕ → Uploads → List (List Text)
unfolding announce_tiers
get_torrent_announce_urls_from_id torrent_id t =
    announce_tiers
      (map (λ (r : AnnounceUrlRow). r.tracker_url) (rows_of url_torrent torrent_id t.announce_urls))

-- the default method of the trait, given the row of the torrent
unfoldable pub load : Uploads → DbTorrent → Outcome DbError Torrent
unfolding get_torrent_files_from_id get_torrent_announce_urls_from_id from_database
load t db_torrent =
    from_database db_torrent (get_torrent_files_from_id db_torrent.torrent_id t)
      (get_torrent_announce_urls_from_id db_torrent.torrent_id t)

unfoldable pub get_torrent_from_id : ℕ → Uploads → Outcome DbError Torrent
unfolding get_torrent_info_from_id load
get_torrent_from_id torrent_id t = get_torrent_info_from_id torrent_id t >>= load t

module _ (codec : Binascii) where
  unfoldable pub get_torrent_info_from_info_hash : InfoHash → Uploads → Outcome DbError DbTorrent
  unfolding to_hex_string
  get_torrent_info_from_info_hash info_hash t = to_hex_string codec info_hash >>= λ hash.
      fetch_one DbError.torrent_not_found
        (some_torrent (first hash_key (to_lowercase hash) t.torrents))

  unfoldable pub get_torrent_from_info_hash : InfoHash → Uploads → Outcome DbError Torrent
  unfolding get_torrent_info_from_info_hash load
  get_torrent_from_info_hash info_hash t = get_torrent_info_from_info_hash info_hash t >>= load t

unfoldable pub get_all_torrents_compact : Uploads → List (ℕ × Text)
get_all_torrents_compact t = map (λ (r : TorrentRow). (r.torrent_id, r.info_hash)) t.torrents
