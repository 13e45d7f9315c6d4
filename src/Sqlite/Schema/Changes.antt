-- ===== src/Sqlite/Schema/Changes.antt =====
-- The updates of torrents, their links and their statistics keep the constraints (src/databases/sqlite.rs).
use torrust_index.Base.{
  ℕ, ◌≡◌, refl, inl, inr, Bool, true, not, ◌&&◌, List, [], ◌∷◌, Text, ◌==◌, retain, Bool-cases,
}
use torrust_index.Sql.{number_eq, text_column_eq, has, without, update_where, Unique, References}
use torrust_index.Sql.Laws.{has-without, update_where-none, Unique-insert, Unique-retain}
use torrust_index.Sql.Constraints.{
  Unique-update_where, Within-update_where, References-insert, References-retain,
  References-update_child, References-update_parent,
}
use torrust_index.Sqlite.{
  UserRow, TorrentRow, TorrentInfoRow, StatsRow, TagLinkRow, CategoryRow, Names, Uploads,
}
use torrust_index.Sqlite.Accounts.{user_key}
use torrust_index.Sqlite.Catalog.{category_key, tag_key, link_tag}
use torrust_index.Sqlite.Torrents.{
  torrent_key, hash_key, canonical_key, file_torrent, url_torrent, info_torrent, title_key,
  stats_torrent, link_torrent,
}
use torrust_index.Sqlite.Updates.{
  with_title, title_taken, update_torrent_title, with_description, update_torrent_description,
  with_category, update_torrent_category, delete_torrent_tag_link, delete_all_torrent_tag_links,
  update_tracker_info,
}
use torrust_index.Sqlite.Schema.{Categorized, uploader, InfoTable, UploadsAreValid}
use torrust_index.Sqlite.Schema.Catalog.{UniqueLinks-retain}
use torrust_index.Sqlite.Schema.Titles.{titles-update_where}

InfoTable-update_where :
    (torrents : List TorrentRow) (torrent_id : ℕ) (f : TorrentInfoRow → TorrentInfoRow)
    (rs : List TorrentInfoRow) (same : (r : TorrentInfoRow) → info_torrent (f r) ≡ info_torrent r)
    → InfoTable torrents rs
    → Unique title_key (update_where info_torrent torrent_id f rs)
    → InfoTable torrents (update_where info_torrent torrent_id f rs)
InfoTable-update_where torrents torrent_id f rs same v u = record {
  ids = Unique-update_where info_torrent info_torrent torrent_id f rs same v.ids;
  owners =
      References-update_child torrent_key info_torrent info_torrent torrent_id f rs torrents same
        v.owners;
  titles = u;
}

module _ (users : List UserRow) (names : Names) where
  with_infos :
      (t : Uploads) (infos : List TorrentInfoRow)
      → UploadsAreValid users names t
      → InfoTable t.torrents infos
      → UploadsAreValid users names (record t { infos = infos })
  with_infos t infos v i = record {
    torrents = v.torrents;
    info_hashes = v.info_hashes;
    files = v.files;
    urls = v.urls;
    infos = i;
    stats = v.stats;
    links = v.links;
  }

  pub update_torrent_title-UploadsAreValid :
      (torrent_id : ℕ) (title : Text) (t : Uploads)
      → UploadsAreValid users names t
      → UploadsAreValid users names (update_torrent_title torrent_id title t).0
  unfolding update_torrent_title
  update_torrent_title-UploadsAreValid torrent_id title t v =
      let after : List TorrentInfoRow =
        update_where info_torrent torrent_id (with_title title) t.infos in
      let done : Unique title_key after → UploadsAreValid users names (record t { infos = after }) =
        λ u. with_infos t after v (
          InfoTable-update_where t.torrents torrent_id (with_title title) t.infos (λ r. refl)
            v.infos u) in
      elim (Bool-cases (has info_torrent torrent_id t.infos)) [
        | inr h ↦
            rw (h, update_torrent_title)
              (done (
                rw (update_where-none info_torrent torrent_id (with_title title) t.infos h)
                  v.infos.titles))
        | inl h ↦ elim (Bool-cases (title_taken torrent_id title t.infos)) [
          | inl n ↦ rw (h, n, update_torrent_title) v
          | inr n ↦
              rw (h, n, update_torrent_title)
                (done (titles-update_where torrent_id title t.infos v.infos.ids v.infos.titles n))
        ]
      ]

  pub update_torrent_description-UploadsAreValid :
      (torrent_id : ℕ) (description : Text) (t : Uploads)
      → UploadsAreValid users names t
      → UploadsAreValid users names (update_torrent_description torrent_id description t).0
  unfolding update_torrent_description
  update_torrent_description-UploadsAreValid torrent_id description t v =
      let f : TorrentInfoRow → TorrentInfoRow = with_description description in
      with_infos t (update_where info_torrent torrent_id f t.infos) v (
        InfoTable-update_where t.torrents torrent_id f t.infos (λ r. refl) v.infos
          (Unique-update_where info_torrent title_key torrent_id f t.infos (λ r. refl)
            v.infos.titles))

  with_links :
      (t : Uploads) (p : TagLinkRow → Bool)
      → UploadsAreValid users names t
      → UploadsAreValid users names (record t { tag_links = retain p t.tag_links })
  with_links t p v = record {
    torrents = v.torrents;
    info_hashes = v.info_hashes;
    files = v.files;
    urls = v.urls;
    infos = v.infos;
    stats = v.stats;
    links = record {
      links = UniqueLinks-retain p t.tag_links v.links.links;
      owners = References-retain torrent_key link_torrent p t.tag_links t.torrents v.links.owners;
      linked_tags = References-retain tag_key link_tag p t.tag_links names.tags v.links.linked_tags;
    };
  }

  pub delete_torrent_tag_link-UploadsAreValid :
      (torrent_id tag_id : ℕ) (t : Uploads)
      → UploadsAreValid users names t
      → UploadsAreValid users names (delete_torrent_tag_link torrent_id tag_id t).0
  unfolding delete_torrent_tag_link
  delete_torrent_tag_link-UploadsAreValid torrent_id tag_id t v =
      with_links t (λ r. not (r.torrent_id == torrent_id && r.tag_id == tag_id)) v

  pub delete_all_torrent_tag_links-UploadsAreValid :
      (torrent_id : ℕ) (t : Uploads)
      → UploadsAreValid users names t
      → UploadsAreValid users names (delete_all_torrent_tag_links torrent_id t).0
  unfolding delete_all_torrent_tag_links without
  delete_all_torrent_tag_links-UploadsAreValid torrent_id t v =
      with_links t (λ r. not (r.torrent_id == torrent_id)) v

  pub update_tracker_info-UploadsAreValid :
      (torrent_id : ℕ) (tracker_url : Text) (seeders leechers : ℕ) (t : Uploads)
      → UploadsAreValid users names t
      → UploadsAreValid users names
          (update_tracker_info torrent_id tracker_url seeders leechers t).0
  unfolding update_tracker_info without
  update_tracker_info-UploadsAreValid torrent_id tracker_url seeders leechers t v =
      let row : StatsRow = record {
        torrent_id = torrent_id;
        tracker_url = tracker_url;
        seeders = seeders;
        leechers = leechers;
      } in
      elim (Bool-cases (has torrent_key torrent_id t.torrents)) [
        | inr h ↦ rw (h, update_tracker_info) v
        | inl h ↦
            rw (h, update_tracker_info)
              (record {
                torrents = v.torrents;
                info_hashes = v.info_hashes;
                files = v.files;
                urls = v.urls;
                infos = v.infos;
                stats = record {
                  ids =
                      Unique-insert stats_torrent (without stats_torrent torrent_id t.stats) row
                        (kept_ids t.stats v.stats.ids)
                        (has-without stats_torrent torrent_id t.stats);
                  owners =
                      References-insert torrent_key stats_torrent
                        (without stats_torrent torrent_id t.stats) t.torrents row
                        (kept_owners t.stats v.stats.owners) h;
                };
                links = v.links;
              })
      ]
    where
      kept_ids :
          (rs : List StatsRow)
          → Unique stats_torrent rs
          → Unique stats_torrent (without stats_torrent torrent_id rs)
      kept_ids rs = Unique-retain stats_torrent (λ r. not (r.torrent_id == torrent_id)) rs

      kept_owners :
          (rs : List StatsRow)
          → References torrent_key stats_torrent rs t.torrents
          → References torrent_key stats_torrent (without stats_torrent torrent_id rs) t.torrents
      kept_owners rs =
          References-retain torrent_key stats_torrent (λ r. not (r.torrent_id == torrent_id)) rs
            t.torrents

Categorized-update_where :
    (torrent_id category_id : ℕ) (rs : List TorrentRow) (categories : List CategoryRow)
    → has category_key category_id categories ≡ true
    → Categorized rs categories
    → Categorized (update_where torrent_key torrent_id (with_category category_id) rs) categories
unfolding update_where
Categorized-update_where torrent_id category_id [] categories found h = tt
Categorized-update_where torrent_id category_id (r ∷ rs) categories found (old, h) = (
  elim (Bool-cases (r.torrent_id == torrent_id)) [ inl e ↦ rw e found | inr e ↦ rw e old ],
  Categorized-update_where torrent_id category_id rs categories found h,
)

-- An update of torrents that leaves all columns but the category keeps what refers to them.
module _ (users : List UserRow) (names : Names) where
  pub update_torrent_category-UploadsAreValid :
      (torrent_id category_id : ℕ) (t : Uploads)
      → UploadsAreValid users names t
      → UploadsAreValid users names (update_torrent_category names torrent_id category_id t).0
  unfolding update_torrent_category
  update_torrent_category-UploadsAreValid torrent_id category_id t v =
      let f : TorrentRow → TorrentRow = with_category category_id in
      let after : List TorrentRow = update_where torrent_key torrent_id f t.torrents in
      let done : Categorized after names.categories
          → UploadsAreValid users names (record t { torrents = after }) =
        λ c. record {
          torrents = record {
            ids =
                Unique-update_where torrent_key torrent_key torrent_id f t.torrents (λ r. refl)
                  v.torrents.ids;
            given =
                Within-update_where torrent_key torrent_key t.last_torrent torrent_id f t.torrents
                  (λ r. refl) v.torrents.given;
            hashes =
                Unique-update_where torrent_key hash_key torrent_id f t.torrents (λ r. refl)
                  v.torrents.hashes;
            uploaders =
                References-update_child user_key uploader torrent_key torrent_id f t.torrents users
                  (λ r. refl) v.torrents.uploaders;
            categorized = c;
          };
          info_hashes = record {
            originals = v.info_hashes.originals;
            canonicals =
                References-update_parent hash_key canonical_key torrent_key torrent_id f
                  t.info_hashes t.torrents (λ r. refl) v.info_hashes.canonicals;
          };
          files =
              References-update_parent torrent_key file_torrent torrent_key torrent_id f t.files
                t.torrents (λ r. refl) v.files;
          urls =
              References-update_parent torrent_key url_torrent torrent_key torrent_id f
                t.announce_urls t.torrents (λ r. refl) v.urls;
          infos = record {
            ids = v.infos.ids;
            owners =
                References-update_parent torrent_key info_torrent torrent_key torrent_id f t.infos
                  t.torrents (λ r. refl) v.infos.owners;
            titles = v.infos.titles;
          };
          stats = record {
            ids = v.stats.ids;
            owners =
                References-update_parent torrent_key stats_torrent torrent_key torrent_id f t.stats
                  t.torrents (λ r. refl) v.stats.owners;
          };
          links = record {
            links = v.links.links;
            owners =
                References-update_parent torrent_key link_torrent torrent_key torrent_id f
                  t.tag_links t.torrents (λ r. refl) v.links.owners;
            linked_tags = v.links.linked_tags;
          };
        } in
      elim (Bool-cases (has torrent_key torrent_id t.torrents)) [
        | inr h ↦
            rw (h, update_torrent_category)
              (done (
                rw (update_where-none torrent_key torrent_id f t.torrents h)
                  v.torrents.categorized))
        | inl h ↦ elim (Bool-cases (has category_key category_id names.categories)) [
          | inr n ↦ rw (h, n, update_torrent_category) v
          | inl n ↦
              rw (h, n, update_torrent_category)
                (done (
                  Categorized-update_where torrent_id category_id t.torrents names.categories n
                    v.torrents.categorized))
        ]
      ]
