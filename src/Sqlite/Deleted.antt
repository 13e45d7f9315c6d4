-- ===== src/Sqlite/Deleted.antt =====
-- What the deletion of a torrent takes away and what it leaves (src/databases/sqlite.rs).
use torrust_index.Base.{
  ℕ, ◌≡◌, ◌≢◌, refl, ◌⊎◌, true, false, not, inl, inr, some, List, [], ◌∷◌, ok, err, ◌==◌, retain,
  Bool-cases, Option-cases, arith,
}
use torrust_index.DbError.{DbError}
use torrust_index.Sql.{number_eq, text_column_eq, has, first, rows_of, without, cascade}
use torrust_index.Sql.Laws.{first-none, first-has, has-without}
use torrust_index.Sqlite.{TorrentRow, Uploads}
use torrust_index.Sqlite.Downloads.{
  db_torrent, get_torrent_info_from_id, get_torrent_files_from_id,
  get_torrent_announce_urls_from_id, load, get_torrent_from_id,
}
use torrust_index.Sqlite.Torrents.{torrent_key, file_torrent, url_torrent}
use torrust_index.Sqlite.Updates.{delete_torrent_rows, delete_torrent}
use torrust_index.Torrent.{DbTorrent}

module _ {A : Type 0} (column : A → ℕ) (id : ℕ) where
  first-left :
      (other : ℕ) (rs : List A)
      → other ≢ id
      → first column other (retain (λ r. not (column r == id)) rs) ≡ first column other rs
  unfolding first
  first-left other [] n = refl
  first-left other (r ∷ rs) n = ground (arith, n, first-left other rs n)

  has-deleted :
      (other : ℕ) (rs : List A)
      → other ≢ id
      → has column other (retain (λ r. column r == id) rs) ≡ false
  unfolding has
  has-deleted other [] n = refl
  has-deleted other (r ∷ rs) n = ground (arith, n, has-deleted other rs n)

first_key :
    (id : ℕ) (rs : List TorrentRow) (r : TorrentRow)
    → first torrent_key id rs ≡ some r
    → r.torrent_id ≡ id
unfolding first
first_key id [] r h = ground (arith, h)
first_key id (s ∷ rs) r h = ground (arith, h, first_key id rs r)

first-some :
    (id : ℕ) (rs : List TorrentRow) (r : TorrentRow)
    → first torrent_key id rs ≡ some r
    → has torrent_key id rs ≡ true
unfolding first has
first-some id [] r h = ground (arith, h)
first-some id (s ∷ rs) r h = ground (arith, h, first-some id rs r)

rows_of-cascade :
    {B : Type 0} (foreign : B → ℕ) (other : ℕ) (deleted : List TorrentRow) (rs : List B)
    → has torrent_key other deleted ≡ false
    → rows_of foreign other (cascade torrent_key foreign deleted rs) ≡ rows_of foreign other rs
unfolding rows_of cascade
rows_of-cascade foreign other deleted [] n = refl
rows_of-cascade foreign other deleted (r ∷ rs) n = elim (Bool-cases (foreign r == other)) [
  | inl h ↦
      let same : foreign r ≡ other = ground (arith, h) in
      let kept : has torrent_key (foreign r) deleted ≡ false = rw same n in
      ground (arith, h, kept, rows_of-cascade foreign other deleted rs n)
  | inr h ↦ ground (arith, h, rows_of-cascade foreign other deleted rs n)
]

module _ (torrent_id other : ℕ) (t : Uploads) where
  -- After a deletion the torrent is not found. Every other torrent is loaded as before, with its files and its
  -- trackers. The deletion succeeds when the torrent was there, and else reports that it is not found.
  pub get_torrent_from_id-delete_torrent :
      other ≢ torrent_id
      → let (t', r) = delete_torrent torrent_id t in
        (get_torrent_from_id torrent_id t' ≡ err DbError.torrent_not_found)
        × (get_torrent_from_id other t' ≡ get_torrent_from_id other t)
        × (((row : DbTorrent) × (get_torrent_info_from_id torrent_id t ≡ ok row) × (r ≡ ok tt))
            ⊎ (get_torrent_info_from_id torrent_id t ≡ err DbError.torrent_not_found)
              × (r ≡ err DbError.torrent_not_found))
  unfolding without delete_torrent delete_torrent_rows get_torrent_from_id get_torrent_info_from_id
      load get_torrent_files_from_id get_torrent_announce_urls_from_id
  get_torrent_from_id-delete_torrent n =
      let deleted = has-deleted torrent_key torrent_id other t.torrents n in
      (
        rw
            (first-none torrent_key torrent_id
              (retain (λ r. not (torrent_key r == torrent_id)) t.torrents)
              (has-without torrent_key torrent_id t.torrents))
            refl,
        elim (Option-cases (first torrent_key other t.torrents)) [
          | inl m ↦ rw (first-left torrent_key torrent_id other t.torrents n, m) refl
          | inr (row, m) ↦
              rw
                (
                  first-left torrent_key torrent_id other t.torrents n,
                  m,
                  first_key other t.torrents row m,
                  rows_of-cascade file_torrent other
                      (retain (λ r. torrent_key r == torrent_id) t.torrents) t.files deleted,
                  rows_of-cascade url_torrent other
                      (retain (λ r. torrent_key r == torrent_id) t.torrents) t.announce_urls
                      deleted,
                )
                refl
        ],
        elim (Option-cases (first torrent_key torrent_id t.torrents)) [
          | inl m ↦ inr (rw m refl, rw (first-has torrent_key torrent_id t.torrents m) refl)
          | inr (row, m) ↦
              inl (db_torrent row, rw m refl, rw (first-some torrent_id t.torrents row m) refl)
        ],
      )
