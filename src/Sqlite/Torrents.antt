-- ===== src/Sqlite/Torrents.antt =====
-- Torrents in SQLite (src/databases/sqlite.rs). Info-hashes are stored as the texts that the crate
-- binascii makes of them; `message` is the text of an error of the engine.
use torrust_index.Base.{
  ℕ, ◌+◌, Bool, true, false, not, ◌||◌, ◌&&◌, Option, none, some, List, [], ◌∷◌, ◌++◌, map, Text,
  ◌==◌, leb, Outcome, ok, err, panic, if◌then◌else◌,
}
use torrust_index.DbError.{DbError}
use torrust_index.InfoHash.{InfoHash, to_hex_string, from_str}
use torrust_index.InfoHash.Codec.{Binascii}
use torrust_index.Listing.{Metadata}
use torrust_index.Sql.{number_eq, text_column_eq, has, first, rows_of}
use torrust_index.Sqlite.{
  TorrentRow, InfoHashRow, FileRow, AnnounceUrlRow, TorrentInfoRow, StatsRow, TagLinkRow,
  CategoryRow, UserRow, Names, Uploads, Statement, ◌>>=◌, ◌>>◌, pure, known, transaction,
  null_if_empty,
}
use torrust_index.Sqlite.Accounts.{user_key}
use torrust_index.Sqlite.Catalog.{category_key, tag_key}
use torrust_index.Torrent.{Torrent, DbTorrentFile, file_size}
use torrust_index.Torrent.Rows.{pieces_columns, file_rows, announce_rows}

abbrev pub torrent_key : TorrentRow → ℕ
torrent_key r = r.torrent_id

abbrev pub hash_key : TorrentRow → Text
hash_key r = r.info_hash

abbrev pub original_key : InfoHashRow → Text
original_key r = r.info_hash

abbrev pub canonical_key : InfoHashRow → Text
canonical_key r = r.canonical_info_hash

abbrev pub file_torrent : FileRow → ℕ
file_torrent r = r.torrent_id

abbrev pub url_torrent : AnnounceUrlRow → ℕ
url_torrent r = r.torrent_id

abbrev pub info_torrent : TorrentInfoRow → ℕ
info_torrent r = r.torrent_id

abbrev pub title_key : TorrentInfoRow → Text
title_key r = r.title

abbrev pub stats_torrent : StatsRow → ℕ
stats_torrent r = r.torrent_id

abbrev pub link_torrent : TagLinkRow → ℕ
link_torrent r = r.torrent_id

-- `to_lowercase` on ASCII, which the texts of info-hashes are
abbrev pub lower : ℕ → ℕ
lower c = if leb b'A' c && leb c b'Z' then c + 32 else c

abbrev pub to_lowercase : Text → Text
to_lowercase = map lower

abbrev pub category_exists : Option ℕ → List CategoryRow → Bool
category_exists none categories = true
category_exists (some id) categories = has category_key id categories

-- The columns of a new torrent; the time is the engine's.
abbrev pub new_row : ℕ → ℕ → ℕ → Text → Text → Text × Bool → Torrent → TorrentRow
new_row torrent_id uploader_id category_id info_hash now (pieces, root_hash) torrent = record {
  torrent_id = torrent_id;
  uploader_id = uploader_id;
  category_id = some category_id;
  info_hash = to_lowercase info_hash;
  size = file_size torrent;
  name = torrent.info.name;
  pieces = pieces;
  piece_length = torrent.info.piece_length;
  private = torrent.info.private;
  root_hash = root_hash;
  source = torrent.info.source;
  comment = torrent.comment;
  date_uploaded = now;
  creation_date = torrent.creation_date;
  created_by = torrent.created_by;
  encoding = torrent.encoding;
}

-- The link of a torrent to a tag is there.
unfoldable pub has_link : ℕ → ℕ → List TagLinkRow → Bool
has_link torrent_id tag_id [] = false
has_link torrent_id tag_id (r ∷ rs) =
    (r.torrent_id == torrent_id && r.tag_id == tag_id) || has_link torrent_id tag_id rs

module _ (message : Text) (users : List UserRow) (names : Names) where
  unfoldable pub insert_torrent : ℕ → ℕ → Text → Text → Text × Bool → Torrent → Statement Uploads ℕ
  unfolding file_size
  insert_torrent uploader_id category_id info_hash now columns torrent t =
      if has hash_key (to_lowercase info_hash) t.torrents
      then (t, err DbError.torrent_already_exists)
      else if not (has user_key uploader_id users)
          || not (has category_key category_id names.categories)
      then (t, err DbError.error)
      else let torrent_id = t.last_torrent + 1 in
        (
          record t {
            torrents =
                t.torrents
                ++ new_row torrent_id uploader_id category_id info_hash now columns torrent ∷ [];
            last_torrent = torrent_id;
          },
          ok torrent_id,
        )

  -- The error of a constraint on an info-hash is given by the caller.
  unfoldable pub insert_info_hash : DbError → Text → Text → Statement Uploads (Unit {0})
  insert_info_hash e original canonical t =
      if has original_key original t.info_hashes || not (has hash_key canonical t.torrents)
      then (t, err e)
      else (
        record t {
          info_hashes =
              t.info_hashes
              ++ record { info_hash = original; canonical_info_hash = canonical } ∷ [];
        },
        ok tt,
      )

  unfoldable pub insert_files : ℕ → List DbTorrentFile → Statement Uploads (Unit {0})
  insert_files torrent_id files t = (
    record t {
      files =
          t.files
          ++ map (λ f. let r : FileRow = record { torrent_id = torrent_id; file = f } in r) files;
    },
    ok tt,
  )

  unfoldable pub insert_announce_urls : ℕ → List Text → Statement Uploads (Unit {0})
  insert_announce_urls torrent_id urls t = (
    record t {
      announce_urls =
          t.announce_urls
          ++ map
              (λ url.
                let r : AnnounceUrlRow = record { torrent_id = torrent_id; tracker_url = url } in r)
              urls;
    },
    ok tt,
  )

  unfoldable pub insert_tag_link : DbError → ℕ → ℕ → Statement Uploads (Unit {0})
  unfolding has_link
  insert_tag_link e torrent_id tag_id t =
      if has_link torrent_id tag_id t.tag_links
        || not (has torrent_key torrent_id t.torrents)
        || not (has tag_key tag_id names.tags)
      then (t, err e)
      else (
        record t {
          tag_links = t.tag_links ++ record { torrent_id = torrent_id; tag_id = tag_id } ∷ [];
        },
        ok tt,
      )

  -- the loop over the tags
  unfoldable pub insert_tag_links : ℕ → List ℕ → Statement Uploads (Unit {0})
  unfolding insert_tag_link
  insert_tag_links torrent_id [] = pure tt
  insert_tag_links torrent_id (tag_id ∷ tags) =
      insert_tag_link (DbError.error_with_text message) torrent_id tag_id
      >> insert_tag_links torrent_id tags

  unfoldable pub insert_torrent_info : ℕ → Text → Text → Statement Uploads (Unit {0})
  insert_torrent_info torrent_id title description t =
      if has info_torrent torrent_id t.infos
      then (t, err DbError.error)
      else if has title_key title t.infos
      then (t, err DbError.torrent_title_already_exists)
      else (
        record t {
          infos =
              t.infos
              ++ record {
                torrent_id = torrent_id;
                title = title;
                description = null_if_empty description;
              }
                ∷ [];
        },
        ok tt,
      )

  module _ (codec : Binascii) where
    -- `canonical` is the torrent's canonical info-hash, which the source computes of the torrent.
    unfoldable pub insert_torrent_and_get_id :
        Text → InfoHash → InfoHash → Torrent → ℕ → Metadata → Statement Uploads ℕ
    unfolding insert_torrent insert_info_hash insert_files insert_announce_urls insert_tag_links
        insert_torrent_info pieces_columns file_rows announce_rows to_hex_string
    insert_torrent_and_get_id now original canonical torrent uploader_id metadata = transaction (do
      info_hash ← known (to_hex_string codec canonical)
      columns ← known (pieces_columns torrent.info)
      torrent_id ← insert_torrent uploader_id metadata.category_id info_hash now columns torrent
      original_hash ← known (to_hex_string codec original)
      insert_info_hash DbError.error original_hash info_hash
      files ← known (file_rows torrent.info)
      insert_files torrent_id files
      urls ← known (announce_rows torrent)
      insert_announce_urls torrent_id urls
      insert_tag_links torrent_id metadata.tags
      insert_torrent_info torrent_id metadata.title metadata.description
      pure torrent_id)

    unfoldable pub add_info_hash_to_canonical_info_hash_group :
        InfoHash → InfoHash → Statement Uploads (Unit {0})
    unfolding insert_info_hash to_hex_string
    add_info_hash_to_canonical_info_hash_group original canonical = do
      original_hash ← known (to_hex_string codec original)
      canonical_hash ← known (to_hex_string codec canonical)
      insert_info_hash (DbError.error_with_text message) original_hash canonical_hash

  unfoldable pub add_torrent_tag_links : ℕ → List ℕ → Statement Uploads (Unit {0})
  unfolding insert_tag_links
  add_torrent_tag_links torrent_id tag_ids = transaction (insert_tag_links torrent_id tag_ids)

  unfoldable pub add_torrent_tag_link : ℕ → ℕ → Statement Uploads (Unit {0})
  unfolding insert_tag_link
  add_torrent_tag_link = insert_tag_link DbError.error

-- An info-hash that the database holds and that cannot be parsed is a panic.
unfoldable pub parsed_hashes : Binascii → List InfoHashRow → Outcome DbError (List InfoHash)
parsed_hashes codec [] = ok []
parsed_hashes codec (r ∷ rs) = elim (from_str codec r.info_hash) [
  | ok h ↦ elim (parsed_hashes codec rs) [ ok hs ↦ ok (h ∷ hs) | err e ↦ err e | panic ↦ panic ]
  | err e ↦ panic
  | panic ↦ panic
]

module _ (codec : Binascii) where
  unfoldable pub get_torrent_canonical_info_hash_group :
      InfoHash → Uploads → Outcome DbError (List InfoHash)
  unfolding parsed_hashes to_hex_string
  get_torrent_canonical_info_hash_group canonical t =
      elim (to_hex_string codec {E = DbError} canonical) [
        | ok hash ↦ parsed_hashes codec (rows_of canonical_key hash t.info_hashes)
        | err e ↦ err e
        | panic ↦ panic
      ]

  -- the canonical info-hash of a stored one, if there is any
  unfoldable pub find_canonical_info_hash_for :
      InfoHash → Uploads → Outcome DbError (Option InfoHash)
  unfolding to_hex_string
  find_canonical_info_hash_for info_hash t = elim (to_hex_string codec {E = DbError} info_hash) [
    | ok hash ↦ elim (first original_key hash t.info_hashes) [
      | none ↦ ok none
      | some r ↦ elim (from_str codec r.canonical_info_hash) [
        | ok h ↦ ok (some h)
        | err e ↦ panic
        | panic ↦ panic
      ]
    ]
    | err e ↦ err e
    | panic ↦ panic
  ]
