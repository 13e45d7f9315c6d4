-- ===== src/Sqlite/Schema/Insertions.antt =====
-- Each insertion of a row of a torrent keeps the constraints (src/databases/sqlite.rs).
use torrust_index.Base.{
  ℕ, ◌+◌, ◌≡◌, refl, ap, ◌∙◌, inl, inr, Bool, true, false, ◌||◌, ◌&&◌, some, List, [], ◌∷◌, ◌++◌,
  map, Text, ◌==◌, ==_iff, Bool-cases, arith,
}
use torrust_index.DbError.{DbError}
use torrust_index.Sql.{number_eq, text_column_eq, has, References}
use torrust_index.Sql.Laws.{has_insert_new, Unique-insert}
use torrust_index.Sql.Constraints.{
  fresh, Within-step, Within-insert, References-insert_parent, References-insert, References-append,
}
use torrust_index.Sqlite.{
  UserRow, TorrentRow, InfoHashRow, FileRow, AnnounceUrlRow, TorrentInfoRow, TagLinkRow, Names,
  Uploads, null_if_empty,
}
use torrust_index.Sqlite.Accounts.{user_key}
use torrust_index.Sqlite.Catalog.{category_key}
use torrust_index.Sqlite.Steps.{After}
use torrust_index.Sqlite.Torrents.{
  torrent_key, hash_key, original_key, canonical_key, file_torrent, url_torrent, info_torrent,
  title_key, stats_torrent, link_torrent, to_lowercase, new_row, has_link, insert_torrent,
  insert_info_hash, insert_files, insert_announce_urls, insert_torrent_info,
}
use torrust_index.Sqlite.Schema.{Categorized, uploader, UniqueLinks, UploadsAreValid}
use torrust_index.Torrent.{Torrent, DbTorrentFile}

pub has_link-insert :
    (torrent_id tag_id : ℕ) (rs : List TagLinkRow) (r : TagLinkRow)
    → has_link torrent_id tag_id (rs ++ r ∷ [])
      ≡ (has_link torrent_id tag_id rs || (r.torrent_id == torrent_id && r.tag_id == tag_id))
unfolding has_link
has_link-insert torrent_id tag_id [] r = ground arith
has_link-insert torrent_id tag_id (s ∷ rs) r =
    ground (arith, has_link-insert torrent_id tag_id rs r)

pub UniqueLinks-insert :
    (rs : List TagLinkRow) (r : TagLinkRow)
    → UniqueLinks rs
    → has_link r.torrent_id r.tag_id rs ≡ false
    → UniqueLinks (rs ++ r ∷ [])
unfolding has_link
UniqueLinks-insert [] r u h = (refl, tt)
UniqueLinks-insert (s ∷ rs) r (new, u) h = (
  ground (
    arith,
    new,
    h,
    has_link-insert s.torrent_id s.tag_id rs r,
    ==_iff r.torrent_id s.torrent_id,
    ==_iff s.torrent_id r.torrent_id,
    ==_iff r.tag_id s.tag_id,
    ==_iff s.tag_id r.tag_id,
  ),
  UniqueLinks-insert rs r u (ground (arith, h)),
)

pub Categorized-insert :
    (rs : List TorrentRow) (names : Names) (r : TorrentRow) (id : ℕ)
    → Categorized rs names.categories
    → r.category_id ≡ some id
    → has category_key id names.categories ≡ true
    → Categorized (rs ++ r ∷ []) names.categories
Categorized-insert [] names r id h e found = (rw e found, tt)
Categorized-insert (s ∷ rs) names r id (old, h) e found =
    (old, Categorized-insert rs names r id h e found)

module _ (message : Text) (users : List UserRow) (names : Names) where
  -- The tables are valid, and the torrent is there.
  abbrev pub HasTorrent : {A : Type 0} → ℕ → A → Uploads → Type 0
  HasTorrent torrent_id _ t =
      UploadsAreValid users names t × (has torrent_key torrent_id t.torrents ≡ true)

  -- a torrent that has no other row yet
  pub add_row :
      (t : Uploads) (r : TorrentRow) (id : ℕ)
      → UploadsAreValid users names t
      → r.torrent_id ≡ t.last_torrent + 1
      → has hash_key r.info_hash t.torrents ≡ false
      → has user_key r.uploader_id users ≡ true
      → r.category_id ≡ some id
      → has category_key id names.categories ≡ true
      → HasTorrent r.torrent_id tt
          (record t { torrents = t.torrents ++ r ∷ []; last_torrent = r.torrent_id })
  add_row t r id v e new owner c found = (
    record {
      torrents = record {
        ids =
            Unique-insert torrent_key t.torrents r v.torrents.ids
              (rw e (fresh torrent_key t.last_torrent t.torrents v.torrents.given));
        given =
            Within-insert torrent_key r.torrent_id t.torrents r
              (rw e (Within-step torrent_key t.last_torrent t.torrents v.torrents.given))
              (omega arith);
        hashes = Unique-insert hash_key t.torrents r v.torrents.hashes new;
        uploaders =
            References-insert user_key uploader t.torrents users r v.torrents.uploaders owner;
        categorized = Categorized-insert t.torrents names r id v.torrents.categorized c found;
      };
      info_hashes = record {
        originals = v.info_hashes.originals;
        canonicals =
            References-insert_parent hash_key canonical_key t.info_hashes t.torrents r
              v.info_hashes.canonicals;
      };
      files = References-insert_parent torrent_key file_torrent t.files t.torrents r v.files;
      urls = References-insert_parent torrent_key url_torrent t.announce_urls t.torrents r v.urls;
      infos = record {
        ids = v.infos.ids;
        owners =
            References-insert_parent torrent_key info_torrent t.infos t.torrents r v.infos.owners;
        titles = v.infos.titles;
      };
      stats = record {
        ids = v.stats.ids;
        owners =
            References-insert_parent torrent_key stats_torrent t.stats t.torrents r v.stats.owners;
      };
      links = record {
        links = v.links.links;
        owners =
            References-insert_parent torrent_key link_torrent t.tag_links t.torrents r
              v.links.owners;
        linked_tags = v.links.linked_tags;
      };
    },
    has_insert_new torrent_key t.torrents r,
  )

  pub insert_torrent-HasTorrent :
      (uploader_id category_id : ℕ) (info_hash now : Text) (columns : Text × Bool)
      (torrent : Torrent) (t : Uploads)
      → UploadsAreValid users names t
      → After
          (λ id. HasTorrent id tt)
          (insert_torrent message users names uploader_id category_id info_hash now columns torrent
            t)
  unfolding insert_torrent
  insert_torrent-HasTorrent uploader_id category_id info_hash now columns torrent t v =
      let row : TorrentRow =
        new_row (t.last_torrent + 1) uploader_id category_id info_hash now columns torrent in
      elim (Bool-cases (has hash_key (to_lowercase info_hash) t.torrents)) [
        | inl a ↦ rw (a, insert_torrent) tt
        | inr a ↦ elim (Bool-cases (has user_key uploader_id users)) [
          | inr b ↦ rw (a, b, insert_torrent) tt
          | inl b ↦ elim (Bool-cases (has category_key category_id names.categories)) [
            | inr c ↦ rw (a, b, c, insert_torrent) tt
            | inl c ↦ rw (a, b, c, insert_torrent) (add_row t row category_id v refl a b refl c)
          ]
        ]
      ]

  -- what a statement that leaves the torrents makes of the tables
  abbrev pub SameTorrents : Uploads → Uploads → Type 0
  SameTorrents t t' = UploadsAreValid users names t' × (t'.torrents ≡ t.torrents)

  pub insert_info_hash-SameTorrents :
      (e : DbError) (original canonical : Text) (t : Uploads)
      → UploadsAreValid users names t
      → SameTorrents t (insert_info_hash message users names e original canonical t).0
  unfolding insert_info_hash
  insert_info_hash-SameTorrents e original canonical t v =
      let row : InfoHashRow = record { info_hash = original; canonical_info_hash = canonical } in
      elim (Bool-cases (has original_key original t.info_hashes)) [
        | inl a ↦ rw (a, insert_info_hash) (v, refl)
        | inr a ↦ elim (Bool-cases (has hash_key canonical t.torrents)) [
          | inr b ↦ rw (a, b, insert_info_hash) (v, refl)
          | inl b ↦
              rw (a, b, insert_info_hash)
                (
                  record {
                    torrents = v.torrents;
                    info_hashes = record {
                      originals =
                          Unique-insert original_key t.info_hashes row v.info_hashes.originals a;
                      canonicals =
                          References-insert hash_key canonical_key t.info_hashes t.torrents row
                            v.info_hashes.canonicals b;
                    };
                    files = v.files;
                    urls = v.urls;
                    infos = v.infos;
                    stats = v.stats;
                    links = v.links;
                  },
                  refl,
                )
        ]
      ]

  pub insert_info_hash-HasTorrent :
      (e : DbError) (original canonical : Text) (torrent_id : ℕ) (t : Uploads)
      → HasTorrent torrent_id tt t
      → HasTorrent torrent_id tt (insert_info_hash message users names e original canonical t).0
  insert_info_hash-HasTorrent e original canonical torrent_id t (v, h) =
      let k = insert_info_hash-SameTorrents e original canonical t v in
      (k.0, ap (λ ts. has torrent_key torrent_id ts) k.1 ∙ h)

  pub insert_files-HasTorrent :
      (torrent_id : ℕ) (files : List DbTorrentFile) (t : Uploads)
      → HasTorrent torrent_id tt t
      → HasTorrent torrent_id tt (insert_files message users names torrent_id files t).0
  unfolding insert_files
  insert_files-HasTorrent torrent_id files t (v, h) = (
    record {
      torrents = v.torrents;
      info_hashes = v.info_hashes;
      files =
          References-append torrent_key file_torrent t.files _ t.torrents v.files (all_there files);
      urls = v.urls;
      infos = v.infos;
      stats = v.stats;
      links = v.links;
    },
    h,
  )
    where
      all_there :
          (fs : List DbTorrentFile)
          → References torrent_key file_torrent
              (map (λ f. let r : FileRow = record { torrent_id = torrent_id; file = f } in r) fs)
              t.torrents
      all_there [] = tt
      all_there (f ∷ fs) = (h, all_there fs)

  pub insert_announce_urls-HasTorrent :
      (torrent_id : ℕ) (urls : List Text) (t : Uploads)
      → HasTorrent torrent_id tt t
      → HasTorrent torrent_id tt (insert_announce_urls message users names torrent_id urls t).0
  unfolding insert_announce_urls
  insert_announce_urls-HasTorrent torrent_id urls t (v, h) = (
    record {
      torrents = v.torrents;
      info_hashes = v.info_hashes;
      files = v.files;
      urls =
          References-append torrent_key url_torrent t.announce_urls _ t.torrents v.urls
            (all_there urls);
      infos = v.infos;
      stats = v.stats;
      links = v.links;
    },
    h,
  )
    where
      all_there :
          (us : List Text)
          → References torrent_key url_torrent
              (map
                (λ url.
                  let r : AnnounceUrlRow = record { torrent_id = torrent_id; tracker_url = url } in
                  r)
                us)
              t.torrents
      all_there [] = tt
      all_there (u ∷ us) = (h, all_there us)

  pub insert_torrent_info-HasTorrent :
      (torrent_id : ℕ) (title description : Text) (t : Uploads)
      → HasTorrent torrent_id tt t
      → HasTorrent torrent_id tt
          (insert_torrent_info message users names torrent_id title description t).0
  unfolding insert_torrent_info
  insert_torrent_info-HasTorrent torrent_id title description t (v, h) =
      let row : TorrentInfoRow = record {
        torrent_id = torrent_id;
        title = title;
        description = null_if_empty description;
      } in
      elim (Bool-cases (has info_torrent torrent_id t.infos)) [
        | inl a ↦ rw (a, insert_torrent_info) (v, h)
        | inr a ↦ elim (Bool-cases (has title_key title t.infos)) [
          | inl b ↦ rw (a, b, insert_torrent_info) (v, h)
          | inr b ↦
              rw (a, b, insert_torrent_info)
                (
                  record {
                    torrents = v.torrents;
                    info_hashes = v.info_hashes;
                    files = v.files;
                    urls = v.urls;
                    infos = record {
                      ids = Unique-insert info_torrent t.infos row v.infos.ids a;
                      owners =
                          References-insert torrent_key info_torrent t.infos t.torrents row
                            v.infos.owners h;
                      titles = Unique-insert title_key t.infos row v.infos.titles b;
                    };
                    stats = v.stats;
                    links = v.links;
                  },
                  h,
                )
        ]
      ]
