-- ===== src/Sqlite/Interface.antt =====
-- The driver as the database of the services: src/databases/sqlite.rs implements the trait of
-- src/databases/database.rs.
use torrust_index.Base.{Text, Outcome, ok, err, panic}
use torrust_index.Database.{Database}
use torrust_index.DbError.{DbError}
use torrust_index.InfoHash.{InfoHash}
use torrust_index.InfoHash.Codec.{Binascii}
use torrust_index.Sqlite.{Tables}
use torrust_index.Sqlite.Accounts.{
  insert_user_and_get_id, get_user_authentication_from_id, get_user_profile_from_username,
  get_user_compact_from_id, get_user_tracker_key, ban_user, grant_admin_role, verify_email,
  add_tracker_key,
}
use torrust_index.Sqlite.Catalog.{
  insert_category_and_get_id, get_category_from_id, get_category_from_name, insert_tag_and_get_id,
}
use torrust_index.Sqlite.Downloads.{
  get_torrent_info_from_info_hash, get_torrent_files_from_id, get_torrent_announce_urls_from_id,
  get_torrent_from_info_hash, get_all_torrents_compact,
}
use torrust_index.Sqlite.Driver.{on_accounts, on_names, on_uploads, drop_category, drop_tag}
use torrust_index.Sqlite.Listings.{get_torrent_listing_from_id, get_torrent_listing_from_info_hash}
use torrust_index.Sqlite.Torrents.{
  insert_torrent_and_get_id, add_info_hash_to_canonical_info_hash_group, add_torrent_tag_links,
  get_torrent_canonical_info_hash_group,
}
use torrust_index.Sqlite.Updates.{
  update_torrent_title, update_torrent_description, update_torrent_category,
  delete_all_torrent_tag_links, get_tags_for_torrent_id, update_tracker_info, delete_torrent,
  delete_user,
}
use torrust_index.Torrent.{Torrent}

-- `canonical` computes the info-hash of a torrent, `now` is the time of the engine, and `message` the
-- text of its errors.
unfoldable pub sqlite :
    Binascii → (Torrent → Outcome DbError InfoHash) → Text → Text → Database Tables
sqlite codec canonical now message = record {
  insert_user_and_get_id = λ username email password_hash.
      on_accounts (insert_user_and_get_id username email password_hash);
  get_user_authentication_from_id = λ user_id t. get_user_authentication_from_id user_id t.accounts;
  get_user_profile_from_username = λ username t. get_user_profile_from_username username t.accounts;
  get_user_compact_from_id = λ user_id t. get_user_compact_from_id user_id t.accounts;
  get_user_tracker_key = λ time user_id t. get_user_tracker_key time user_id t.accounts;
  ban_user = λ user_id reason date_expiry. on_accounts (ban_user user_id reason date_expiry);
  grant_admin_role = λ user_id. on_accounts (grant_admin_role user_id);
  verify_email = λ user_id. on_accounts (verify_email user_id);
  add_tracker_key = λ user_id key. on_accounts (add_tracker_key user_id key);
  delete_user = delete_user;
  insert_category_and_get_id = λ name. on_names (insert_category_and_get_id name);
  get_category_from_id =
      λ category_id t. get_category_from_id category_id t.names t.uploads.torrents;
  get_category_from_name = λ name t. get_category_from_name name t.names t.uploads.torrents;
  delete_category = drop_category;
  insert_torrent_and_get_id = λ original torrent uploader_id metadata t. elim (canonical torrent) [
    | ok h ↦
        on_uploads
          (insert_torrent_and_get_id message t.accounts.users t.names codec now original h torrent
            uploader_id metadata)
          t
    | err e ↦ (t, err e)
    | panic ↦ (t, panic)
  ];
  get_torrent_from_info_hash = λ info_hash t. get_torrent_from_info_hash codec info_hash t.uploads;
  get_torrent_canonical_info_hash_group =
      λ h t. get_torrent_canonical_info_hash_group codec h t.uploads;
  add_info_hash_to_canonical_info_hash_group = λ original h t.
      on_uploads
        (add_info_hash_to_canonical_info_hash_group message t.accounts.users t.names codec original
          h)
        t;
  get_torrent_info_from_info_hash =
      λ info_hash t. get_torrent_info_from_info_hash codec info_hash t.uploads;
  get_torrent_files_from_id = λ torrent_id t. ok (get_torrent_files_from_id torrent_id t.uploads);
  get_torrent_announce_urls_from_id =
      λ torrent_id t. ok (get_torrent_announce_urls_from_id torrent_id t.uploads);
  get_torrent_listing_from_id = get_torrent_listing_from_id;
  get_torrent_listing_from_info_hash = get_torrent_listing_from_info_hash codec;
  get_all_torrents_compact = λ t. ok (get_all_torrents_compact t.uploads);
  update_torrent_title = λ torrent_id title. on_uploads (update_torrent_title torrent_id title);
  update_torrent_description =
      λ torrent_id description. on_uploads (update_torrent_description torrent_id description);
  update_torrent_category = λ torrent_id category_id t.
      on_uploads (update_torrent_category t.names torrent_id category_id) t;
  insert_tag_and_get_id = λ name. on_names (insert_tag_and_get_id name);
  delete_tag = drop_tag;
  add_torrent_tag_links = λ torrent_id tag_ids t.
      on_uploads (add_torrent_tag_links message t.accounts.users t.names torrent_id tag_ids) t;
  delete_all_torrent_tag_links = λ torrent_id. on_uploads (delete_all_torrent_tag_links torrent_id);
  get_tags_for_torrent_id =
      λ torrent_id t. ok (get_tags_for_torrent_id torrent_id t.names t.uploads);
  update_tracker_info = λ torrent_id tracker_url seeders leechers.
      on_uploads (update_tracker_info torrent_id tracker_url seeders leechers);
  delete_torrent = λ torrent_id. on_uploads (delete_torrent torrent_id);
}
