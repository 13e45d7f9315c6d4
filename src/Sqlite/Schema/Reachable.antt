-- ===== src/Sqlite/Schema/Reachable.antt =====
-- Whatever the driver does, its tables satisfy the constraints of the schema (src/databases/sqlite.rs).
use torrust_index.Base.{ℕ, ◌≡◌, refl, List, [], Text, text_eq, inl, inr, Bool-cases, arith}
use torrust_index.InfoHash.Codec.{Binascii}
use torrust_index.Models.{TrackerKey}
use torrust_index.Sql.{number_eq, text_column_eq, has, References}
use torrust_index.Sql.Constraints.{References-insert_parent, References-update_parent}
use torrust_index.Sqlite.{
  UserRow, TorrentRow, Users, Uploads, Tables, Statement, ◌>>=◌, ◌>>◌, pure, null_if_empty,
}
use torrust_index.Sqlite.Accounts.{
  user_key, profile_key, username_key, has_email, insert_user, insert_authentication,
  insert_profile, insert_user_and_get_id, ban_user, grant_admin_role, as_administrator,
  verify_email, add_tracker_key,
}
use torrust_index.Sqlite.Driver.{drop_category, drop_tag, Change, change, Reached, start, next}
use torrust_index.Sqlite.Steps.{After-keep, After-then, After-transaction}
use torrust_index.Sqlite.Schema.{uploader, UsersAreValid, UploadsAreValid, IsConsistent}
use torrust_index.Sqlite.Schema.Accounts.{
  insert_user_and_get_id-UsersAreValid, ban_user-UsersAreValid, grant_admin_role-UsersAreValid,
  verify_email-UsersAreValid, add_tracker_key-UsersAreValid,
}
use torrust_index.Sqlite.Schema.Catalog.{
  UploadsAreValid-parents, insert_category-UploadsAreValid, insert_tag-UploadsAreValid,
  delete_category-UploadsAreValid, delete_tag-UploadsAreValid,
}
use torrust_index.Sqlite.Schema.Named.{
  insert_category-NamesAreValid, insert_tag-NamesAreValid, delete_category-NamesAreValid,
  delete_tag-NamesAreValid,
}
use torrust_index.Sqlite.Schema.Changes.{
  update_torrent_title-UploadsAreValid, update_torrent_description-UploadsAreValid,
  update_torrent_category-UploadsAreValid, delete_torrent_tag_link-UploadsAreValid,
  delete_all_torrent_tag_links-UploadsAreValid, update_tracker_info-UploadsAreValid,
}
use torrust_index.Sqlite.Schema.Deletions.{
  delete_torrent-UploadsAreValid, delete_user-IsConsistent, delete_all_database_rows-IsConsistent,
}
use torrust_index.Sqlite.Schema.Torrents.{
  insert_torrent_and_get_id-UploadsAreValid,
  add_info_hash_to_canonical_info_hash_group-UploadsAreValid, add_torrent_tag_link-UploadsAreValid,
  add_torrent_tag_links-UploadsAreValid,
}

-- Users that torrents refer to stay.
abbrev Keeps : List UserRow → Users → Type 0
Keeps users t =
    (rs : List TorrentRow)
    → References user_key uploader rs users
    → References user_key uploader rs t.users

insert_authentication-users :
    (user_id : ℕ) (password_hash : Text) (t : Users)
    → (insert_authentication user_id password_hash t).0.users ≡ t.users
unfolding insert_authentication
insert_authentication-users user_id password_hash t = ground arith

insert_profile-users :
    (user_id : ℕ) (username email : Text) (t : Users)
    → (insert_profile user_id username email t).0.users ≡ t.users
unfolding insert_profile
insert_profile-users user_id username email t =
    elim (Bool-cases (has profile_key user_id t.profiles)) [
      | inl a ↦ rw (a, insert_profile) refl
      | inr a ↦ elim (Bool-cases (has_email (null_if_empty email) t.profiles)) [
        | inl b ↦ rw (a, b, insert_profile) refl
        | inr b ↦ elim (Bool-cases (has username_key username t.profiles)) [
          | inl c ↦ rw (a, b, c, insert_profile) refl
          | inr c ↦ elim (Bool-cases (has user_key user_id t.users)) [
            | inr d ↦ rw (a, b, c, d, insert_profile) refl
            | inl d ↦ rw (a, b, c, d, insert_profile) refl
          ]
        ]
      ]
    ]

Keeps-users :
    (users : List UserRow) (t1 t2 : Users) → t2.users ≡ t1.users → Keeps users t1 → Keeps users t2
Keeps-users users t1 t2 e k rs h = rw e (k rs h)

insert_user_and_get_id-Keeps :
    (username email password_hash : Text) (t : Users)
    → Keeps t.users (insert_user_and_get_id username email password_hash t).0
unfolding insert_user_and_get_id insert_user
insert_user_and_get_id-Keeps username email password_hash t =
    let profile_step : ℕ → Statement Users ℕ =
      λ user_id. insert_profile user_id username email >> pure user_id in
    let steps : ℕ → Statement Users ℕ =
      λ user_id. insert_authentication user_id password_hash >> profile_step user_id in
    After-transaction (Keeps t.users) (insert_user >>= steps) t (λ rs h. h)
      (After-then (λ _. Keeps t.users) (λ _. Keeps t.users) insert_user steps t
        (λ rs h. References-insert_parent user_key uploader rs t.users _ h)
        λ user_id t1 k1.
          After-then {A = Unit} (λ _. Keeps t.users) (λ _. Keeps t.users)
            (insert_authentication user_id password_hash) (λ _. profile_step user_id) t1
            (After-keep (Keeps t.users) (insert_authentication user_id password_hash) t1 (
              Keeps-users t.users t1 (insert_authentication user_id password_hash t1).0
                (insert_authentication-users user_id password_hash t1) k1))
            λ _ t2 k2.
              After-then {A = Unit} (λ _. Keeps t.users) (λ _. Keeps t.users)
                (insert_profile user_id username email) (λ _. pure user_id) t2
                (After-keep (Keeps t.users) (insert_profile user_id username email) t2 (
                  Keeps-users t.users t2 (insert_profile user_id username email t2).0
                    (insert_profile-users user_id username email t2) k2))
                λ _ t3 k3. k3)

-- a change of the tables of users alone
accounts_changed :
    (t : Tables) (accounts : Users)
    → IsConsistent t
    → UsersAreValid accounts
    → Keeps t.accounts.users accounts
    → IsConsistent (record t { accounts = accounts })
accounts_changed t accounts v a k = record {
  accounts = a;
  names = v.names;
  uploads =
      UploadsAreValid-parents t.accounts.users accounts.users t.names t.names t.uploads v.uploads
        (k t.uploads.torrents v.uploads.torrents.uploaders) v.uploads.torrents.categorized
        v.uploads.links.linked_tags;
}

uploads_changed :
    (t : Tables) (uploads : Uploads)
    → IsConsistent t
    → UploadsAreValid t.accounts.users t.names uploads
    → IsConsistent (record t { uploads = uploads })
uploads_changed t uploads v u = record { accounts = v.accounts; names = v.names; uploads = u }

ban_user-users :
    (user_id : ℕ) (reason date_expiry : Text) (t : Users)
    → (ban_user user_id reason date_expiry t).0.users ≡ t.users
unfolding ban_user
ban_user-users user_id reason date_expiry t = ground arith

add_tracker_key-users :
    (user_id : ℕ) (key : TrackerKey) (t : Users) → (add_tracker_key user_id key t).0.users ≡ t.users
unfolding add_tracker_key
add_tracker_key-users user_id key t = ground arith

change-IsConsistent :
    (codec : Binascii) (c : Change) (t : Tables) → IsConsistent t → IsConsistent (change codec c t)
unfolding change drop_category drop_tag grant_admin_role verify_email
change-IsConsistent codec (Change.insert_user username email password_hash) t v =
    accounts_changed t _ v
      (insert_user_and_get_id-UsersAreValid username email password_hash t.accounts v.accounts)
      (insert_user_and_get_id-Keeps username email password_hash t.accounts)
change-IsConsistent codec (Change.ban user_id reason date_expiry) t v =
    accounts_changed t _ v (ban_user-UsersAreValid user_id reason date_expiry t.accounts v.accounts)
      (Keeps-users t.accounts.users t.accounts (ban_user user_id reason date_expiry t.accounts).0
        (ban_user-users user_id reason date_expiry t.accounts) (λ rs h. h))
change-IsConsistent codec (Change.grant_admin user_id) t v =
    accounts_changed t _ v (grant_admin_role-UsersAreValid user_id t.accounts v.accounts) (λ rs h.
      References-update_parent user_key uploader user_key user_id as_administrator rs
        t.accounts.users (λ r. refl) h)
change-IsConsistent codec (Change.verify user_id) t v =
    accounts_changed t _ v (verify_email-UsersAreValid user_id t.accounts v.accounts) (λ rs h. h)
change-IsConsistent codec (Change.add_key user_id key) t v =
    accounts_changed t _ v (add_tracker_key-UsersAreValid user_id key t.accounts v.accounts) (
      Keeps-users t.accounts.users t.accounts (add_tracker_key user_id key t.accounts).0
        (add_tracker_key-users user_id key t.accounts) (λ rs h. h))
change-IsConsistent codec (Change.remove_user user_id) t v = delete_user-IsConsistent user_id t v
change-IsConsistent codec (Change.insert_category name) t v = record {
  accounts = v.accounts;
  names = insert_category-NamesAreValid name t.names v.names;
  uploads = insert_category-UploadsAreValid t.accounts.users name t.names t.uploads v.uploads;
}
change-IsConsistent codec (Change.remove_category name) t v = record {
  accounts = v.accounts;
  names = delete_category-NamesAreValid name t.names t.uploads.torrents v.names;
  uploads = delete_category-UploadsAreValid t.accounts.users name t.names t.uploads v.uploads;
}
change-IsConsistent codec (Change.insert_tag name) t v = record {
  accounts = v.accounts;
  names = insert_tag-NamesAreValid name t.names v.names;
  uploads = insert_tag-UploadsAreValid t.accounts.users name t.names t.uploads v.uploads;
}
change-IsConsistent codec (Change.remove_tag tag_id) t v = record {
  accounts = v.accounts;
  names = delete_tag-NamesAreValid tag_id t.names t.uploads.tag_links v.names;
  uploads = delete_tag-UploadsAreValid t.accounts.users tag_id t.names t.uploads v.uploads;
}
change-IsConsistent codec
      (Change.insert_torrent message now original canonical torrent uploader_id metadata) t v =
    uploads_changed t _ v (
      insert_torrent_and_get_id-UploadsAreValid message t.accounts.users t.names codec now original
        canonical torrent uploader_id metadata t.uploads v.uploads)
change-IsConsistent codec (Change.add_info_hash message original canonical) t v =
    uploads_changed t _ v (
      add_info_hash_to_canonical_info_hash_group-UploadsAreValid message t.accounts.users t.names
        codec original canonical t.uploads v.uploads)
change-IsConsistent codec (Change.set_title torrent_id title) t v = uploads_changed t _ v (
    update_torrent_title-UploadsAreValid t.accounts.users t.names torrent_id title t.uploads
      v.uploads)
change-IsConsistent codec (Change.set_description torrent_id description) t v =
    uploads_changed t _ v (
      update_torrent_description-UploadsAreValid t.accounts.users t.names torrent_id description
        t.uploads v.uploads)
change-IsConsistent codec (Change.set_category torrent_id category_id) t v = uploads_changed t _ v (
    update_torrent_category-UploadsAreValid t.accounts.users t.names torrent_id category_id
      t.uploads v.uploads)
change-IsConsistent codec (Change.add_link torrent_id tag_id) t v = uploads_changed t _ v (
    add_torrent_tag_link-UploadsAreValid [] t.accounts.users t.names torrent_id tag_id t.uploads
      v.uploads)
change-IsConsistent codec (Change.add_links message torrent_id tag_ids) t v =
    uploads_changed t _ v (
      add_torrent_tag_links-UploadsAreValid message t.accounts.users t.names torrent_id tag_ids
        t.uploads v.uploads)
change-IsConsistent codec (Change.remove_link torrent_id tag_id) t v = uploads_changed t _ v (
    delete_torrent_tag_link-UploadsAreValid t.accounts.users t.names torrent_id tag_id t.uploads
      v.uploads)
change-IsConsistent codec (Change.remove_links torrent_id) t v = uploads_changed t _ v (
    delete_all_torrent_tag_links-UploadsAreValid t.accounts.users t.names torrent_id t.uploads
      v.uploads)
change-IsConsistent codec (Change.set_statistics torrent_id tracker_url seeders leechers) t v =
    uploads_changed t _ v (
      update_tracker_info-UploadsAreValid t.accounts.users t.names torrent_id tracker_url seeders
        leechers t.uploads v.uploads)
change-IsConsistent codec (Change.remove_torrent torrent_id) t v =
    uploads_changed t _ v
      (delete_torrent-UploadsAreValid t.accounts.users t.names torrent_id t.uploads v.uploads)
change-IsConsistent codec Change.remove_everything t v = delete_all_database_rows-IsConsistent t v

-- Every state that changes of the driver make of a new database, whether they succeed or fail, satisfies all
-- the constraints of the schema.
pub Reached-IsConsistent : (codec : Binascii) (t : Tables) → Reached codec t → IsConsistent t
unfolding has text_eq
Reached-IsConsistent codec t start = record {
  accounts = record {
    users = record { ids = tt; given = tt };
    authentications = record { ids = tt; owners = tt };
    profiles = record { ids = tt; owners = tt; usernames = tt; emails = tt };
    keys = tt;
    bans = tt;
  };
  names = record {
    categories = record {
      ids = (refl, (refl, (refl, (refl, (refl, tt)))));
      given = (omega arith, (omega arith, (omega arith, (omega arith, (omega arith, tt)))));
      category_names = (refl, (refl, (refl, (refl, (refl, tt)))));
    };
    tags = record { ids = tt; given = tt; tag_names = tt };
  };
  uploads = record {
    torrents = record { ids = tt; given = tt; hashes = tt; uploaders = tt; categorized = tt };
    info_hashes = record { originals = tt; canonicals = tt };
    files = tt;
    urls = tt;
    infos = record { ids = tt; owners = tt; titles = tt };
    stats = record { ids = tt; owners = tt };
    links = record { links = tt; owners = tt; linked_tags = tt };
  };
}
Reached-IsConsistent codec _ (next {t} r c) =
    change-IsConsistent codec c t (Reached-IsConsistent codec t r)
