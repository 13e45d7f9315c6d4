-- ===== src/Sqlite/Driver.antt =====
-- The changes that the driver makes to all of its tables (src/databases/sqlite.rs).
use torrust_index.Base.{ℕ, List, [], ◌∷◌, Text, bytes}
use torrust_index.InfoHash.{InfoHash}
use torrust_index.InfoHash.Codec.{Binascii}
use torrust_index.Listing.{Metadata}
use torrust_index.Models.{TrackerKey}
use torrust_index.Sqlite.{CategoryRow, Users, Names, Uploads, Tables, Statement}
use torrust_index.Sqlite.Accounts.{
  insert_user_and_get_id, ban_user, grant_admin_role, verify_email, add_tracker_key,
}
use torrust_index.Sqlite.Catalog.{
  insert_category_and_get_id, delete_category, insert_tag_and_get_id, delete_tag,
}
use torrust_index.Sqlite.Torrents.{
  insert_torrent_and_get_id, add_info_hash_to_canonical_info_hash_group, add_torrent_tag_links,
  add_torrent_tag_link,
}
use torrust_index.Sqlite.Updates.{
  update_torrent_title, update_torrent_description, update_torrent_category,
  delete_torrent_tag_link, delete_all_torrent_tag_links, update_tracker_info, delete_torrent,
  delete_user, delete_all_database_rows,
}
use torrust_index.Torrent.{Torrent}

-- a statement on some of the tables
abbrev pub on_accounts : {A : Type 0} → Statement Users A → Statement Tables A
on_accounts m t = let (t', o) = m t.accounts in (record t { accounts = t' }, o)

abbrev pub on_names : {A : Type 0} → Statement Names A → Statement Tables A
on_names m t = let (t', o) = m t.names in (record t { names = t' }, o)

abbrev pub on_uploads : {A : Type 0} → Statement Uploads A → Statement Tables A
on_uploads m t = let (t', o) = m t.uploads in (record t { uploads = t' }, o)

unfoldable pub drop_category : Text → Statement Tables (Unit {0})
unfolding delete_category
drop_category name t =
    let ((names, torrents), o) = delete_category name (t.names, t.uploads.torrents) in
    (record t { names = names; uploads = record t.uploads { torrents = torrents } }, o)

unfoldable pub drop_tag : ℕ → Statement Tables (Unit {0})
unfolding delete_tag
drop_tag tag_id t =
    let ((names, tag_links), o) = delete_tag tag_id (t.names, t.uploads.tag_links) in
    (record t { names = names; uploads = record t.uploads { tag_links = tag_links } }, o)

-- the methods of the driver that write, with their arguments and what the engine and the
-- clock add to them
pub data Change : Type 0 where
  insert_user : Text → Text → Text → Change
  ban : ℕ → Text → Text → Change
  grant_admin : ℕ → Change
  verify : ℕ → Change
  add_key : ℕ → TrackerKey → Change
  remove_user : ℕ → Change
  insert_category : Text → Change
  remove_category : Text → Change
  insert_tag : Text → Change
  remove_tag : ℕ → Change
  insert_torrent : Text → Text → InfoHash → InfoHash → Torrent → ℕ → Metadata → Change
  add_info_hash : Text → InfoHash → InfoHash → Change
  set_title : ℕ → Text → Change
  set_description : ℕ → Text → Change
  set_category : ℕ → ℕ → Change
  add_link : ℕ → ℕ → Change
  add_links : Text → ℕ → List ℕ → Change
  remove_link : ℕ → ℕ → Change
  remove_links : ℕ → Change
  set_statistics : ℕ → Text → ℕ → ℕ → Change
  remove_torrent : ℕ → Change
  remove_everything : Change

-- The tables after a change, whether it succeeds or fails.
unfoldable pub change : Binascii → Change → Tables → Tables
change codec (insert_user username email password_hash) t =
    (on_accounts (insert_user_and_get_id username email password_hash) t).0
change codec (ban user_id reason date_expiry) t =
    (on_accounts (ban_user user_id reason date_expiry) t).0
change codec (grant_admin user_id) t = (on_accounts (grant_admin_role user_id) t).0
change codec (verify user_id) t = (on_accounts (verify_email user_id) t).0
change codec (add_key user_id key) t = (on_accounts (add_tracker_key user_id key) t).0
change codec (remove_user user_id) t = (delete_user user_id t).0
change codec (insert_category name) t = (on_names (insert_category_and_get_id name) t).0
change codec (remove_category name) t = (drop_category name t).0
change codec (insert_tag name) t = (on_names (insert_tag_and_get_id name) t).0
change codec (remove_tag tag_id) t = (drop_tag tag_id t).0
change codec (insert_torrent message now original canonical torrent uploader_id metadata) t =
    (on_uploads
      (insert_torrent_and_get_id message t.accounts.users t.names codec now original canonical
        torrent uploader_id metadata)
      t).0
change codec (add_info_hash message original canonical) t =
    (on_uploads
      (add_info_hash_to_canonical_info_hash_group message t.accounts.users t.names codec original
        canonical)
      t).0
change codec (set_title torrent_id title) t =
    (on_uploads (update_torrent_title torrent_id title) t).0
change codec (set_description torrent_id description) t =
    (on_uploads (update_torrent_description torrent_id description) t).0
change codec (set_category torrent_id category_id) t =
    (on_uploads (update_torrent_category t.names torrent_id category_id) t).0
change codec (add_link torrent_id tag_id) t =
    (on_uploads (add_torrent_tag_link [] t.accounts.users t.names torrent_id tag_id) t).0
change codec (add_links message torrent_id tag_ids) t =
    (on_uploads (add_torrent_tag_links message t.accounts.users t.names torrent_id tag_ids) t).0
change codec (remove_link torrent_id tag_id) t =
    (on_uploads (delete_torrent_tag_link torrent_id tag_id) t).0
change codec (remove_links torrent_id) t =
    (on_uploads (delete_all_torrent_tag_links torrent_id) t).0
change codec (set_statistics torrent_id tracker_url seeders leechers) t =
    (on_uploads (update_tracker_info torrent_id tracker_url seeders leechers) t).0
change codec (remove_torrent torrent_id) t = (on_uploads (delete_torrent torrent_id) t).0
change codec remove_everything t = delete_all_database_rows t

abbrev category : ℕ → Text → CategoryRow
category category_id name = record { category_id = category_id; name = name }

-- The tables of a new database: the migrations put five categories into it.
abbrev pub new_tables : Tables
new_tables = record {
  accounts = record {
    users = [];
    last_user = 0;
    authentications = [];
    profiles = [];
    tracker_keys = [];
    bans = [];
  };
  names = record {
    categories =
        category 1 (bytes "movies")
        ∷ category 2 (bytes "tv shows")
        ∷ category 3 (bytes "games")
        ∷ category 4 (bytes "music")
        ∷ category 5 (bytes "software")
        ∷ [];
    last_category = 5;
    tags = [];
    last_tag = 0;
  };
  uploads = record {
    torrents = [];
    last_torrent = 0;
    info_hashes = [];
    files = [];
    announce_urls = [];
    infos = [];
    stats = [];
    tag_links = [];
  };
}

-- The tables that changes make of a new database.
pub data Reached (codec : Binascii) : Tables → Type 0 where
  start : Reached codec new_tables
  next : {t : Tables} → Reached codec t → (c : Change) → Reached codec (change codec c t)
