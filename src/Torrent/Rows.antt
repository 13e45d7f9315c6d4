-- ===== src/Torrent/Rows.antt =====
-- How a torrent becomes rows of the database and rows become a torrent again: the conversions in
-- `insert_torrent_and_get_id`, `get_torrent_files_from_id` and `get_torrent_announce_urls_from_id`
-- of src/databases/sqlite.rs, which mysql.rs repeats.
use torrust_index.Base.{
  ℕ, Bool, true, false, Option, none, some, List, [], ◌∷◌, map, Text, flatten, Outcome, ok, err,
  panic, ◌>>=◌,
}
use torrust_index.DbError.{DbError, error}
use torrust_index.Hex
use torrust_index.Torrent.{
  Torrent, TorrentFile, TorrentInfoDictionary, DbTorrent, DbTorrentFile, from_database,
}
use torrust_index.Torrent.Paths.{join_path, split_path}

-- the columns `pieces` and `root_hash`
unfoldable pub pieces_columns : TorrentInfoDictionary → Outcome DbError (Text × Bool)
pieces_columns info = elim info.pieces [
  | some pieces ↦ ok (Hex.from_bytes pieces, false)
  | none ↦ elim info.root_hash [ none ↦ err error | some root_hash ↦ ok (root_hash, true) ]
]

unfoldable pub file_row : TorrentFile → DbTorrentFile
file_row file = record {
  path = some (join_path file.path);
  length = file.length;
  md5sum = file.md5sum;
}

-- the rows of `torrust_torrent_files`; the `unwrap` of `files` panics
unfoldable pub file_rows : TorrentInfoDictionary → Outcome DbError (List DbTorrentFile)
unfolding file_row
file_rows info = elim info.length [
  | some length ↦ ok (record { path = none; length = length; md5sum = info.md5sum } ∷ [])
  | none ↦ elim info.files [ none ↦ panic | some files ↦ ok (map file_row files) ]
]

-- the rows of `torrust_torrent_announce_urls`; the `unwrap` of `announce` panics
unfoldable pub announce_rows : Torrent → Outcome DbError (List Text)
announce_rows t = elim t.announce_list [
  | some announce_urls ↦ ok (flatten announce_urls)
  | none ↦ elim t.announce [ none ↦ panic | some tracker_url ↦ ok (tracker_url ∷ []) ]
]

abbrev or_default : Option Text → Text
or_default none = []
or_default (some s) = s

unfoldable pub torrent_file : DbTorrentFile → TorrentFile
torrent_file tf = record {
  path = split_path (or_default tf.path);
  length = tf.length;
  md5sum = tf.md5sum;
}

unfoldable pub torrent_files : List DbTorrentFile → List TorrentFile
torrent_files = map torrent_file

unfoldable pub announce_tiers : List Text → List (List Text)
announce_tiers = map (λ url. url ∷ [])

abbrev pub as_i64 : Bool → ℕ
as_i64 true = 1
as_i64 false = 0

-- the row of `torrust_torrents` as far as `DbTorrent` reads it: it has no field for `source`
unfoldable pub torrent_row : ℕ → Text → Torrent → Text × Bool → DbTorrent
torrent_row torrent_id info_hash t (pieces, root_hash) = record {
  torrent_id = torrent_id;
  info_hash = info_hash;
  name = t.info.name;
  pieces = pieces;
  piece_length = t.info.piece_length;
  private = t.info.private;
  root_hash = as_i64 root_hash;
  comment = t.comment;
  creation_date = t.creation_date;
  created_by = t.created_by;
  encoding = t.encoding;
}

-- What `get_torrent_from_info_hash` makes of the rows that an upload has written.
unfoldable pub reload : ℕ → Text → Torrent → Outcome DbError Torrent
unfolding pieces_columns file_rows announce_rows torrent_row torrent_files announce_tiers
reload torrent_id info_hash t = do
  columns ← pieces_columns t.info
  files ← file_rows t.info
  urls ← announce_rows t
  from_database (torrent_row torrent_id info_hash t columns) (torrent_files files)
      (announce_tiers urls)
