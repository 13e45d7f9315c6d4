-- ===== src/Sqlite/Schema/Torrents.antt =====
-- The insertions of a torrent and its rows keep the constraints (src/databases/sqlite.rs).
use torrust_index.Base.{
  ℕ, refl, ap, ◌∙◌, inl, inr, List, [], ◌∷◌, Text, Outcome, ok, err, panic, Bool-cases,
}
use torrust_index.DbError.{DbError}
use torrust_index.InfoHash.{InfoHash, to_hex_string}
use torrust_index.InfoHash.Codec.{Binascii}
use torrust_index.Listing.{Metadata}
use torrust_index.Sql.{number_eq, text_column_eq, has}
use torrust_index.Sql.Constraints.{References-insert}
use torrust_index.Sqlite.{UserRow, TagLinkRow, Names, Uploads, Statement, ◌>>=◌, known}
use torrust_index.Sqlite.Catalog.{tag_key, link_tag}
use torrust_index.Sqlite.Steps.{After, After-keep, After-then, After-map, After-transaction}
use torrust_index.Sqlite.Torrents.{
  torrent_key, link_torrent, has_link, insert_info_hash, insert_tag_link, insert_tag_links,
  insert_torrent_and_get_id, add_info_hash_to_canonical_info_hash_group, add_torrent_tag_links,
  add_torrent_tag_link,
}
use torrust_index.Sqlite.Schema.{UploadsAreValid}
use torrust_index.Sqlite.Uploading.{insert_torrent_and_get_id-Along}
use torrust_index.Torrent.{Torrent}
use torrust_index.Sqlite.Schema.Insertions.{
  UniqueLinks-insert, HasTorrent, insert_torrent-HasTorrent, SameTorrents,
  insert_info_hash-SameTorrents, insert_info_hash-HasTorrent, insert_files-HasTorrent,
  insert_announce_urls-HasTorrent, insert_torrent_info-HasTorrent,
}

module _ (message : Text) (users : List UserRow) (names : Names) where
  pub insert_tag_link-SameTorrents :
      (e : DbError) (torrent_id tag_id : ℕ) (t : Uploads)
      → UploadsAreValid users names t
      → SameTorrents message users names t
          (insert_tag_link message users names e torrent_id tag_id t).0
  unfolding insert_tag_link
  insert_tag_link-SameTorrents e torrent_id tag_id t v =
      let row : TagLinkRow = record { torrent_id = torrent_id; tag_id = tag_id } in
      elim (Bool-cases (has_link torrent_id tag_id t.tag_links)) [
        | inl a ↦ rw (a, insert_tag_link) (v, refl)
        | inr a ↦ elim (Bool-cases (has torrent_key torrent_id t.torrents)) [
          | inr b ↦ rw (a, b, insert_tag_link) (v, refl)
          | inl b ↦ elim (Bool-cases (has tag_key tag_id names.tags)) [
            | inr c ↦ rw (a, b, c, insert_tag_link) (v, refl)
            | inl c ↦
                rw (a, b, c, insert_tag_link)
                  (
                    record {
                      torrents = v.torrents;
                      info_hashes = v.info_hashes;
                      files = v.files;
                      urls = v.urls;
                      infos = v.infos;
                      stats = v.stats;
                      links = record {
                        links = UniqueLinks-insert t.tag_links row v.links.links a;
                        owners =
                            References-insert torrent_key link_torrent t.tag_links t.torrents row
                              v.links.owners b;
                        linked_tags =
                            References-insert tag_key link_tag t.tag_links names.tags row
                              v.links.linked_tags c;
                      };
                    },
                    refl,
                  )
          ]
        ]
      ]

  insert_tag_links-SameTorrents :
      (torrent_id : ℕ) (tags : List ℕ) (t t' : Uploads)
      → SameTorrents message users names t t'
      → After
          (λ _. SameTorrents message users names t)
          (insert_tag_links message users names torrent_id tags t')
  unfolding insert_tag_links
  insert_tag_links-SameTorrents torrent_id [] t t' h = h
  insert_tag_links-SameTorrents torrent_id (tag_id ∷ tags) t t' (v, e) =
      let link : Statement Uploads (Unit {0}) =
        insert_tag_link message users names (DbError.error_with_text message) torrent_id tag_id in
      let step =
        insert_tag_link-SameTorrents (DbError.error_with_text message) torrent_id tag_id t' v in
      After-then {A = Unit} {B = Unit} (λ _. SameTorrents message users names t)
        (λ _. SameTorrents message users names t) link
        (λ _. insert_tag_links message users names torrent_id tags) t'
        (After-keep (SameTorrents message users names t) link t' (step.0, step.1 ∙ e))
        λ _ t''. insert_tag_links-SameTorrents torrent_id tags t t''

  insert_tag_links-HasTorrent :
      (torrent_id : ℕ) (tags : List ℕ) (t : Uploads)
      → HasTorrent message users names torrent_id tt t
      → After
          (λ _. HasTorrent message users names torrent_id tt)
          (insert_tag_links message users names torrent_id tags t)
  insert_tag_links-HasTorrent torrent_id tags t (v, h) =
      After-map (λ _. SameTorrents message users names t)
        (λ _. HasTorrent message users names torrent_id tt)
        (λ _ t' k. (k.0, ap (λ ts. has torrent_key torrent_id ts) k.1 ∙ h))
        (insert_tag_links message users names torrent_id tags t)
        (insert_tag_links-SameTorrents torrent_id tags t t (v, refl))

  pub add_torrent_tag_links-UploadsAreValid :
      (torrent_id : ℕ) (tag_ids : List ℕ) (t : Uploads)
      → UploadsAreValid users names t
      → UploadsAreValid users names
          (add_torrent_tag_links message users names torrent_id tag_ids t).0
  unfolding add_torrent_tag_links
  add_torrent_tag_links-UploadsAreValid torrent_id tag_ids t v =
      let links = insert_tag_links message users names torrent_id tag_ids in
      After-transaction (UploadsAreValid users names) links t v (
        After-map (λ _. SameTorrents message users names t) (λ _. UploadsAreValid users names)
          (λ _ t' k. k.0) (links t)
          (insert_tag_links-SameTorrents torrent_id tag_ids t t (v, refl)))

  pub add_torrent_tag_link-UploadsAreValid :
      (torrent_id tag_id : ℕ) (t : Uploads)
      → UploadsAreValid users names t
      → UploadsAreValid users names (add_torrent_tag_link message users names torrent_id tag_id t).0
  unfolding add_torrent_tag_link
  add_torrent_tag_link-UploadsAreValid torrent_id tag_id t v =
      (insert_tag_link-SameTorrents DbError.error torrent_id tag_id t v).0

  module _ (codec : Binascii) where
    -- the transaction of a new torrent
    pub insert_torrent_and_get_id-UploadsAreValid :
        (now : Text) (original canonical : InfoHash) (torrent : Torrent) (uploader_id : ℕ)
        (metadata : Metadata) (t : Uploads)
        → UploadsAreValid users names t
        → UploadsAreValid users names
            (insert_torrent_and_get_id message users names codec now original canonical torrent
              uploader_id metadata t).0
    insert_torrent_and_get_id-UploadsAreValid now original canonical torrent uploader_id metadata t
          v =
        (insert_torrent_and_get_id-Along message users names codec now original canonical torrent
          uploader_id metadata t (λ id hash columns fs us. HasTorrent message users names id tt)
          (λ id. UploadsAreValid users names) (UploadsAreValid users names)
          (record {
            torrent_step = λ hash columns _.
                insert_torrent-HasTorrent message users names uploader_id metadata.category_id hash
                  now columns torrent t v;
            info_hash_step = λ original_hash id hash columns t1 k.
                insert_info_hash-HasTorrent message users names DbError.error original_hash hash id
                  t1 k;
            files_step =
                λ id hash columns fs t1 k. insert_files-HasTorrent message users names id fs t1 k;
            urls_step = λ id hash columns fs us t1 k.
                insert_announce_urls-HasTorrent message users names id us t1 k;
            tags_step =
                λ id hash columns fs us t1 k. insert_tag_links-HasTorrent id metadata.tags t1 k;
            info_step = λ id hash columns fs us t1 k.
                insert_torrent_info-HasTorrent message users names id metadata.title
                  metadata.description t1 k;
            end_step = λ id hash columns fs us t1 e c f a k. k.0;
          })
          v (λ id t' valid. valid)).1

    pub add_info_hash_to_canonical_info_hash_group-UploadsAreValid :
        (original canonical : InfoHash) (t : Uploads)
        → UploadsAreValid users names t
        → UploadsAreValid users names
            (add_info_hash_to_canonical_info_hash_group message users names codec original canonical
              t).0
    unfolding add_info_hash_to_canonical_info_hash_group
    add_info_hash_to_canonical_info_hash_group-UploadsAreValid original canonical t v =
        add_known (to_hex_string codec original) (to_hex_string codec canonical)
      where
        add_known :
            (o c : Outcome DbError Text)
            → UploadsAreValid users names
                ((known o >>= λ original_hash. known c >>= λ canonical_hash.
                    insert_info_hash message users names
                      (DbError.error_with_text message)
                      original_hash
                      canonical_hash)
                  t).0
        add_known (err e) c = v
        add_known panic c = v
        add_known (ok a) (err e) = v
        add_known (ok a) panic = v
        add_known (ok a) (ok b) =
            (insert_info_hash-SameTorrents message users names (DbError.error_with_text message) a b
              t v).0
