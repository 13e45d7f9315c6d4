-- ===== src/Sqlite/Uploading.antt =====
-- A rule for the transaction of an upload: what each statement establishes, the transaction establishes
-- (`insert_torrent_and_get_id` of src/databases/sqlite.rs).
use torrust_index.Base.{ℕ, ◌≡◌, Bool, List, [], Text, ok}
use torrust_index.DbError.{DbError}
use torrust_index.InfoHash.{InfoHash, to_hex_string}
use torrust_index.InfoHash.Codec.{Binascii}
use torrust_index.Listing.{Metadata}
use torrust_index.Sqlite.{UserRow, Names, Uploads, Statement, ◌>>=◌, ◌>>◌, pure, known}
use torrust_index.Sqlite.Steps.{
  After, After-keep, After-then, After-known, After-map, After-commit, After-transaction,
}
use torrust_index.Sqlite.Torrents.{
  insert_torrent, insert_info_hash, insert_files, insert_announce_urls, insert_tag_links,
  insert_torrent_info, insert_torrent_and_get_id,
}
use torrust_index.Torrent.{Torrent, DbTorrentFile}
use torrust_index.Torrent.Rows.{pieces_columns, file_rows, announce_rows}

module _ (message : Text) (users : List UserRow) (names : Names) (codec : Binascii) (now : Text)
    (original canonical : InfoHash) (torrent : Torrent) (uploader_id : ℕ) (metadata : Metadata)
    (t : Uploads) where
  -- `Q` holds of the id, the info-hash, the columns and what was inserted of files and URLs, `R` at the end.
  pub record Along (Q : ℕ → Text → Text × Bool → List DbTorrentFile → List Text → Uploads → Type 0)
      (R : ℕ → Uploads → Type 0) : Type 0 where
    pub torrent_step :
        (hash : Text) (columns : Text × Bool)
        → to_hex_string codec {E = DbError} canonical ≡ ok hash
        → After
            (λ id. Q id hash columns [] [])
            (insert_torrent message users names uploader_id metadata.category_id hash now columns
              torrent t)
    pub info_hash_step :
        (original_hash : Text) (id : ℕ) (hash : Text) (columns : Text × Bool) (t : Uploads)
        → Q id hash columns [] [] t
        → Q id hash columns [] []
            (insert_info_hash message users names DbError.error original_hash hash t).0
    pub files_step :
        (id : ℕ) (hash : Text) (columns : Text × Bool) (fs : List DbTorrentFile) (t : Uploads)
        → Q id hash columns [] [] t
        → Q id hash columns fs [] (insert_files message users names id fs t).0
    pub urls_step :
        (id : ℕ) (hash : Text) (columns : Text × Bool) (fs : List DbTorrentFile) (us : List Text)
        (t : Uploads)
        → Q id hash columns fs [] t
        → Q id hash columns fs us (insert_announce_urls message users names id us t).0
    pub tags_step :
        (id : ℕ) (hash : Text) (columns : Text × Bool) (fs : List DbTorrentFile) (us : List Text)
        (t : Uploads)
        → Q id hash columns fs us t
        → After
            (λ _. Q id hash columns fs us)
            (insert_tag_links message users names id metadata.tags t)
    pub info_step :
        (id : ℕ) (hash : Text) (columns : Text × Bool) (fs : List DbTorrentFile) (us : List Text)
        (t : Uploads)
        → Q id hash columns fs us t
        → Q id hash columns fs us
            (insert_torrent_info message users names id metadata.title metadata.description t).0
    pub end_step :
        (id : ℕ) (hash : Text) (columns : Text × Bool) (fs : List DbTorrentFile) (us : List Text)
        (t : Uploads)
        → to_hex_string codec {E = DbError} canonical ≡ ok hash
        → pieces_columns torrent.info ≡ ok columns
        → file_rows torrent.info ≡ ok fs
        → announce_rows torrent ≡ ok us
        → Q id hash columns fs us t
        → R id t

  -- The transaction establishes `R` when it succeeds, and what follows of `R` and holds before it in any case.
  pub insert_torrent_and_get_id-Along :
      (Q : ℕ → Text → Text × Bool → List DbTorrentFile → List Text → Uploads → Type 0)
      (R : ℕ → Uploads → Type 0) (P : Uploads → Type 0)
      → Along Q R
      → P t
      → ((id : ℕ) (t' : Uploads) → R id t' → P t')
      → After R (
          insert_torrent_and_get_id message users names codec now original canonical torrent
            uploader_id metadata t)
        × P
            (insert_torrent_and_get_id message users names codec now original canonical torrent
              uploader_id metadata t).0
  unfolding insert_torrent_and_get_id
  insert_torrent_and_get_id-Along Q R P s p imp =
      let info : ℕ → Statement Uploads (Unit {0}) =
        λ id. insert_torrent_info message users names id metadata.title metadata.description in
      let tags : ℕ → Statement Uploads (Unit {0}) =
        λ id. insert_tag_links message users names id metadata.tags in
      let add_urls : ℕ → List Text → Statement Uploads (Unit {0}) =
        insert_announce_urls message users names in
      let add_files : ℕ → List DbTorrentFile → Statement Uploads (Unit {0}) =
        insert_files message users names in
      let add_hash : Text → Text → Statement Uploads (Unit {0}) =
        insert_info_hash message users names DbError.error in
      let insert : Text → Text × Bool → Statement Uploads ℕ = λ hash columns.
        insert_torrent message users names uploader_id metadata.category_id hash now columns
          torrent in
      let infos : ℕ → Statement Uploads ℕ = λ id. info id >> pure id in
      let links : ℕ → Statement Uploads ℕ = λ id. tags id >> infos id in
      let urls : ℕ → List Text → Statement Uploads ℕ = λ id us. add_urls id us >> links id in
      let after_files : ℕ → Statement Uploads ℕ = λ id. known (announce_rows torrent) >>= urls id in
      let files : ℕ → List DbTorrentFile → Statement Uploads ℕ =
        λ id fs. add_files id fs >> after_files id in
      let after_hash : ℕ → Statement Uploads ℕ =
        λ id. known (file_rows torrent.info) >>= files id in
      let hashes : Text → ℕ → Text → Statement Uploads ℕ =
        λ hash id original_hash. add_hash original_hash hash >> after_hash id in
      let after_torrent : Text → ℕ → Statement Uploads ℕ =
        λ hash id. known (to_hex_string codec {E = DbError} original) >>= hashes hash id in
      let body : Text → Text × Bool → Statement Uploads ℕ =
        λ hash columns. insert hash columns >>= after_torrent hash in
      let steps : Text → Statement Uploads ℕ =
        λ hash. known (pieces_columns torrent.info) >>= body hash in
      let all_steps : Statement Uploads ℕ =
        known (to_hex_string codec {E = DbError} canonical) >>= steps in
      let h : After R (all_steps t) =
        After-known R (to_hex_string codec canonical) steps t λ hash e.
          After-known R (pieces_columns torrent.info) (body hash) t λ columns c.
            After-then (λ id. Q id hash columns [] []) R (insert hash columns) (after_torrent hash)
              t (s.torrent_step hash columns e)
              λ id t1 k1. After-known R (to_hex_string codec original) (hashes hash id) t1 λ o _.
                After-then (λ _. Q id hash columns [] []) R (add_hash o hash) (λ _. after_hash id)
                  t1
                  (After-keep (Q id hash columns [] []) (add_hash o hash) t1
                    (s.info_hash_step o id hash columns t1 k1))
                  λ _ t2 k2. After-known R (file_rows torrent.info) (files id) t2 λ fs f.
                    After-then (λ _. Q id hash columns fs []) R (add_files id fs)
                      (λ _. after_files id) t2
                      (After-keep (Q id hash columns fs []) (add_files id fs) t2
                        (s.files_step id hash columns fs t2 k2))
                      λ _ t3 k3. After-known R (announce_rows torrent) (urls id) t3 λ us a.
                        After-then (λ _. Q id hash columns fs us) R (add_urls id us) (λ _. links id)
                          t3
                          (After-keep (Q id hash columns fs us) (add_urls id us) t3
                            (s.urls_step id hash columns fs us t3 k3))
                          λ _ t4 k4.
                            After-then (λ _. Q id hash columns fs us) R (tags id) (λ _. infos id) t4
                              (s.tags_step id hash columns fs us t4 k4)
                              λ _ t5 k5.
                                After-then (λ _. Q id hash columns fs us) R (info id) (λ _. pure id)
                                  t5
                                  (After-keep (Q id hash columns fs us) (info id) t5
                                    (s.info_step id hash columns fs us t5 k5))
                                  λ _ t6 k6. s.end_step id hash columns fs us t6 e c f a k6 in
      (
        After-commit R all_steps t h,
        After-transaction P all_steps t p (After-map R (λ _. P) imp (all_steps t) h),
      )
