-- ===== src/Sqlite/StoredRows.antt =====
-- The rows of a torrent along the statements of an upload (src/databases/sqlite.rs).
use torrust_index.Base.{
  ℕ, ◌+◌, ◌≡◌, refl, ap, ◌∙◌, Bool, not, ◌||◌, inl, inr, some, List, [], ◌∷◌, map, Text, Bool-cases,
}
use torrust_index.DbError.{DbError}
use torrust_index.Sql.{number_eq, text_column_eq, has, first, rows_of}
use torrust_index.Sql.Laws.{rows_of-has, rows_of-added, first_insert_new}
use torrust_index.Sql.Constraints.{fresh_child}
use torrust_index.Sqlite.{UserRow, TorrentRow, FileRow, AnnounceUrlRow, Names, Uploads, Statement}
use torrust_index.Sqlite.Accounts.{user_key}
use torrust_index.Sqlite.Catalog.{category_key, tag_key}
use torrust_index.Sqlite.Schema.{UploadsAreValid}
use torrust_index.Sqlite.Steps.{After, After-keep, After-then}
use torrust_index.Sqlite.Torrents.{
  torrent_key, hash_key, original_key, file_torrent, url_torrent, info_torrent, title_key,
  to_lowercase, new_row, has_link, insert_torrent, insert_info_hash, insert_files,
  insert_announce_urls, insert_tag_link, insert_tag_links, insert_torrent_info,
}
use torrust_index.Torrent.{Torrent, DbTorrentFile}

-- the rows that a download reads
abbrev pub IsStored : Text → TorrentRow → List DbTorrentFile → List Text → Uploads → Type 0
IsStored hash row files urls t =
    (first hash_key hash t.torrents ≡ some row)
    × (map (λ (r : FileRow). r.file) (rows_of file_torrent row.torrent_id t.files) ≡ files)
    × (map (λ (r : AnnounceUrlRow). r.tracker_url)
          (rows_of url_torrent row.torrent_id t.announce_urls)
        ≡ urls)

-- what a statement on other tables leaves
abbrev pub SameRows : Uploads → Uploads → Type 0
SameRows t t' =
    (t'.torrents ≡ t.torrents) × (t'.files ≡ t.files) × (t'.announce_urls ≡ t.announce_urls)

pub IsStored-same :
    (hash : Text) (row : TorrentRow) (files : List DbTorrentFile) (urls : List Text)
    (t t' : Uploads)
    → SameRows t t'
    → IsStored hash row files urls t
    → IsStored hash row files urls t'
IsStored-same hash row files urls t t' (a, b, c) (h, f, u) = (
  ap (first hash_key hash) a ∙ h,
  ap (λ rs. map (λ (r : FileRow). r.file) (rows_of file_torrent row.torrent_id rs)) b ∙ f,
  ap (λ rs. map (λ (r : AnnounceUrlRow). r.tracker_url) (rows_of url_torrent row.torrent_id rs)) c
      ∙ u,
)

module _ (message : Text) (users : List UserRow) (names : Names) where
  pub insert_torrent-IsStored :
      (uploader_id category_id : ℕ) (info_hash now : Text) (columns : Text × Bool)
      (torrent : Torrent) (t : Uploads)
      → UploadsAreValid users names t
      → After
          (λ id.
            IsStored
              (to_lowercase info_hash)
              (new_row id uploader_id category_id info_hash now columns torrent)
              []
              [])
          (insert_torrent message users names uploader_id category_id info_hash now columns torrent
            t)
  unfolding insert_torrent
  insert_torrent-IsStored uploader_id category_id info_hash now columns torrent t v =
      let id : ℕ = t.last_torrent + 1 in
      let row : TorrentRow = new_row id uploader_id category_id info_hash now columns torrent in
      let no_files : rows_of file_torrent id t.files ≡ [] = rows_of-has file_torrent id t.files (
        fresh_child torrent_key file_torrent t.last_torrent t.files t.torrents v.torrents.given
          v.files) in
      let no_urls : rows_of url_torrent id t.announce_urls ≡ [] =
        rows_of-has url_torrent id t.announce_urls (
          fresh_child torrent_key url_torrent t.last_torrent t.announce_urls t.torrents
            v.torrents.given v.urls) in
      elim (Bool-cases (has hash_key (to_lowercase info_hash) t.torrents)) [
        | inl a ↦ rw (a, insert_torrent) tt
        | inr a ↦ elim (Bool-cases (has user_key uploader_id users)) [
          | inr b ↦ rw (a, b, insert_torrent) tt
          | inl b ↦ elim (Bool-cases (has category_key category_id names.categories)) [
            | inr c ↦ rw (a, b, c, insert_torrent) tt
            | inl c ↦
                rw (a, b, c, insert_torrent)
                  (first_insert_new hash_key t.torrents row a, rw no_files refl, rw no_urls refl)
          ]
        ]
      ]

  pub insert_info_hash-SameRows :
      (e : DbError) (original canonical : Text) (t : Uploads)
      → SameRows t (insert_info_hash message users names e original canonical t).0
  unfolding insert_info_hash
  insert_info_hash-SameRows e original canonical t =
      elim (Bool-cases
        (has original_key original t.info_hashes || not (has hash_key canonical t.torrents))) [
          | inl a ↦ rw (a, insert_info_hash) (refl, refl, refl)
          | inr a ↦ rw (a, insert_info_hash) (refl, refl, refl)
        ]

  pub insert_torrent_info-SameRows :
      (torrent_id : ℕ) (title description : Text) (t : Uploads)
      → SameRows t (insert_torrent_info message users names torrent_id title description t).0
  unfolding insert_torrent_info
  insert_torrent_info-SameRows torrent_id title description t =
      elim (Bool-cases (has info_torrent torrent_id t.infos)) [
        | inl a ↦ rw (a, insert_torrent_info) (refl, refl, refl)
        | inr a ↦ elim (Bool-cases (has title_key title t.infos)) [
          | inl b ↦ rw (a, b, insert_torrent_info) (refl, refl, refl)
          | inr b ↦ rw (a, b, insert_torrent_info) (refl, refl, refl)
        ]
      ]

  pub insert_tag_link-SameRows :
      (e : DbError) (torrent_id tag_id : ℕ) (t : Uploads)
      → SameRows t (insert_tag_link message users names e torrent_id tag_id t).0
  unfolding insert_tag_link
  insert_tag_link-SameRows e torrent_id tag_id t =
      elim (Bool-cases (
        has_link torrent_id tag_id t.tag_links
        || not (has torrent_key torrent_id t.torrents)
        || not (has tag_key tag_id names.tags))) [
          | inl a ↦ rw (a, insert_tag_link) (refl, refl, refl)
          | inr a ↦ rw (a, insert_tag_link) (refl, refl, refl)
        ]

  pub insert_tag_links-IsStored :
      (hash : Text) (row : TorrentRow) (files : List DbTorrentFile) (urls : List Text)
      (torrent_id : ℕ) (tags : List ℕ) (t : Uploads)
      → IsStored hash row files urls t
      → After
          (λ _. IsStored hash row files urls)
          (insert_tag_links message users names torrent_id tags t)
  unfolding insert_tag_links
  insert_tag_links-IsStored hash row files urls torrent_id [] t h = h
  insert_tag_links-IsStored hash row files urls torrent_id (tag_id ∷ tags) t h =
      let link : Statement Uploads (Unit {0}) =
        insert_tag_link message users names (DbError.error_with_text message) torrent_id tag_id in
      After-then {A = Unit} {B = Unit} (λ _. IsStored hash row files urls)
        (λ _. IsStored hash row files urls) link
        (λ _. insert_tag_links message users names torrent_id tags) t
        (After-keep (IsStored hash row files urls) link t (
          IsStored-same hash row files urls t (link t).0
            (insert_tag_link-SameRows (DbError.error_with_text message) torrent_id tag_id t) h))
        λ _ t'. insert_tag_links-IsStored hash row files urls torrent_id tags t'

  pub insert_files-IsStored :
      (hash : Text) (row : TorrentRow) (files : List DbTorrentFile) (t : Uploads)
      → IsStored hash row [] [] t
      → IsStored hash row files [] (insert_files message users names row.torrent_id files t).0
  unfolding insert_files
  insert_files-IsStored hash row files t (h, f, u) = (
    h,
    rows_of-added file_torrent (λ r. r.file)
          (λ f. let r : FileRow = record { torrent_id = row.torrent_id; file = f } in r)
          row.torrent_id (λ f. refl) (λ f. refl) t.files files
        ∙ rw f refl,
    u,
  )

  pub insert_announce_urls-IsStored :
      (hash : Text) (row : TorrentRow) (files : List DbTorrentFile) (urls : List Text) (t : Uploads)
      → IsStored hash row files [] t
      → IsStored hash row files urls
          (insert_announce_urls message users names row.torrent_id urls t).0
  unfolding insert_announce_urls
  insert_announce_urls-IsStored hash row files urls t (h, f, u) = (
    h,
    f,
    rows_of-added url_torrent (λ r. r.tracker_url)
          (λ url.
            let r : AnnounceUrlRow = record { torrent_id = row.torrent_id; tracker_url = url } in r)
          row.torrent_id (λ url. refl) (λ url. refl) t.announce_urls urls
        ∙ rw u refl,
  )
