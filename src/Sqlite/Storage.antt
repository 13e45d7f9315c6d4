-- ===== src/Sqlite/Storage.antt =====
-- A torrent that the transaction of an upload has stored is loaded by its info-hash as it was written
-- (src/databases/sqlite.rs).
use torrust_index.Base.{ℕ, ◌≡◌, refl, sym, subst, ◌∙◌, arith, Bool, List, [], Text, ok}
use torrust_index.DbError.{DbError}
use torrust_index.InfoHash.{InfoHash, to_hex_string}
use torrust_index.InfoHash.Codec.{Binascii}
use torrust_index.Listing.{Metadata}
use torrust_index.Sql.{number_eq, text_column_eq}
use torrust_index.Sqlite.{UserRow, TorrentRow, Names, Uploads}
use torrust_index.Sqlite.Downloads.{
  get_torrent_info_from_info_hash, get_torrent_files_from_id, get_torrent_announce_urls_from_id,
  load, get_torrent_from_info_hash,
}
use torrust_index.Sqlite.Schema.{UploadsAreValid}
use torrust_index.Sqlite.Steps.{After, After-ok}
use torrust_index.Sqlite.Torrents.{
  to_lowercase, new_row, insert_info_hash, insert_torrent_info, insert_torrent_and_get_id,
}
use torrust_index.Sqlite.Uploading.{insert_torrent_and_get_id-Along}
use torrust_index.Torrent.{Torrent, DbTorrentFile}
use torrust_index.Torrent.Rows.{pieces_columns, file_rows, announce_rows, torrent_row, reload}
use torrust_index.Sqlite.StoredRows.{
  IsStored, IsStored-same, insert_torrent-IsStored, insert_info_hash-SameRows,
  insert_torrent_info-SameRows, insert_tag_links-IsStored, insert_files-IsStored,
  insert_announce_urls-IsStored,
}

module _ (message : Text) (users : List UserRow) (names : Names) where
  module _ (codec : Binascii) where
    -- What a download makes of stored rows is what `reload` makes of the torrent.
    stored_download :
        (canonical : InfoHash) (hash now : Text) (id uploader_id category_id : ℕ)
        (columns : Text × Bool) (torrent : Torrent) (files : List DbTorrentFile) (urls : List Text)
        (t : Uploads)
        → to_hex_string codec {E = DbError} canonical ≡ ok hash
        → pieces_columns torrent.info ≡ ok columns
        → file_rows torrent.info ≡ ok files
        → announce_rows torrent ≡ ok urls
        → IsStored
            (to_lowercase hash)
            (new_row id uploader_id category_id hash now columns torrent)
            files
            urls
            t
        → get_torrent_from_info_hash codec canonical t ≡ reload id (to_lowercase hash) torrent
    unfolding get_torrent_from_info_hash get_torrent_info_from_info_hash load
        get_torrent_files_from_id get_torrent_announce_urls_from_id reload torrent_row
    stored_download canonical hash now id uploader_id category_id columns torrent files urls t e p f
          a (h, fs, us) =
        rw (e, h, p, f, a) (rw (fs, us) refl)

    -- along the statements of the transaction
    stored :
        (now : Text) (original canonical : InfoHash) (torrent : Torrent) (uploader_id : ℕ)
        (metadata : Metadata) (t : Uploads) (hash : Text)
        → UploadsAreValid users names t
        → to_hex_string codec {E = DbError} canonical ≡ ok hash
        → After
            (λ id t'.
              get_torrent_from_info_hash codec canonical t' ≡ reload id (to_lowercase hash) torrent)
            (insert_torrent_and_get_id message users names codec now original canonical torrent
              uploader_id metadata t)
    stored now original canonical torrent uploader_id metadata t hash v e =
        (insert_torrent_and_get_id-Along message users names codec now original canonical torrent
          uploader_id metadata t
          (λ id hash columns fs us. IsStored (to_lowercase hash) (row hash columns id) fs us)
          (λ id t'.
            get_torrent_from_info_hash codec canonical t' ≡ reload id (to_lowercase hash) torrent)
          (λ t'. Unit {0})
          (record {
            torrent_step = λ hash columns _.
                insert_torrent-IsStored message users names uploader_id metadata.category_id hash
                  now columns torrent t v;
            info_hash_step = λ original_hash id hash columns t1 k.
                IsStored-same (to_lowercase hash) (row hash columns id) [] [] t1
                  (insert_info_hash message users names DbError.error original_hash hash t1).0
                  (insert_info_hash-SameRows message users names DbError.error original_hash hash
                    t1)
                  k;
            files_step = λ id hash columns fs t1 k.
                insert_files-IsStored message users names (to_lowercase hash) (row hash columns id)
                  fs t1 k;
            urls_step = λ id hash columns fs us t1 k.
                insert_announce_urls-IsStored message users names (to_lowercase hash)
                  (row hash columns id) fs us t1 k;
            tags_step = λ id hash columns fs us t1 k.
                insert_tag_links-IsStored message users names (to_lowercase hash)
                  (row hash columns id) fs us id metadata.tags t1 k;
            info_step = λ id hash columns fs us t1 k.
                IsStored-same (to_lowercase hash) (row hash columns id) fs us t1
                  (insert_torrent_info message users names id metadata.title metadata.description
                    t1).0
                  (insert_torrent_info-SameRows message users names id metadata.title
                    metadata.description t1)
                  k;
            end_step = λ id hash' columns fs us t1 e' c f a k.
                let same : hash' ≡ hash = ground (arith, sym e' ∙ e) in
                stored_download canonical hash now id uploader_id metadata.category_id columns
                  torrent fs us t1 e c f a
                  (subst (λ h. IsStored (to_lowercase h) (row h columns id) fs us t1) same k);
          })
          tt (λ id t' _. tt)).0
      where
        row : Text → Text × Bool → ℕ → TorrentRow
        row hash columns id = new_row id uploader_id metadata.category_id hash now columns torrent

    -- A torrent that an upload has stored in valid tables is loaded, by its canonical info-hash, as the rows of that
    -- torrent give it.
    pub insert-get_torrent :
        (now : Text) (original canonical : InfoHash) (torrent : Torrent) (uploader_id : ℕ)
        (metadata : Metadata) (t t' : Uploads) (id : ℕ) (hash : Text)
        → UploadsAreValid users names t
        → to_hex_string codec {E = DbError} canonical ≡ ok hash
        → insert_torrent_and_get_id message users names codec now original canonical torrent
            uploader_id metadata t
          ≡ (t', ok id)
        → get_torrent_from_info_hash codec canonical t' ≡ reload id (to_lowercase hash) torrent
    insert-get_torrent now original canonical torrent uploader_id metadata t t' id hash v e h =
        After-ok
          (λ id t'.
            get_torrent_from_info_hash codec canonical t' ≡ reload id (to_lowercase hash) torrent)
          (insert_torrent_and_get_id message users names codec now original canonical torrent
            uploader_id metadata t)
          t' id (stored now original canonical torrent uploader_id metadata t hash v e) h
