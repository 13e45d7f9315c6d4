-- ===== src/Sqlite/Schema.antt =====
-- The constraints of the schema (migrations/sqlite3): primary keys, unique columns, and foreign keys.
pub mod Insertions
pub mod Profiles
pub mod Titles
pub mod Named
pub mod Accounts
pub mod Catalog
pub mod Torrents
pub mod Changes
pub mod Deletions
pub mod Reachable
use torrust_index.Base.{
  ℕ, ◌≡◌, refl, Bool, true, false, Option, none, some, List, [], ◌∷◌, ◌++◌, map, Text,
}
use torrust_index.Models.{UserAuthentication}
use torrust_index.Sql.{number_eq, text_column_eq, has, Unique, Within, References}
use torrust_index.Sqlite.{
  UserRow, ProfileRow, TorrentRow, TagLinkRow, CategoryRow, TagRow, InfoHashRow, StatsRow,
  TorrentInfoRow, Users, Names, Uploads, Tables,
}
use torrust_index.Sqlite.Accounts.{
  user_key, authentication_key, profile_key, username_key, key_user, ban_user_key, has_email,
}
use torrust_index.Sqlite.Catalog.{category_key, category_name, tag_key, tag_name, link_tag}
use torrust_index.Sqlite.Torrents.{
  torrent_key, hash_key, original_key, canonical_key, file_torrent, url_torrent, info_torrent,
  title_key, stats_torrent, link_torrent, category_exists, has_link,
}

-- `UNIQUE (email)`, which says nothing of `NULL`
abbrev pub UniqueEmails : List ProfileRow → Type 0
UniqueEmails [] = Unit {0}
UniqueEmails (r ∷ rs) = (has_email r.email rs ≡ false) × UniqueEmails rs

-- `PRIMARY KEY (torrent_id, tag_id)`
abbrev pub UniqueLinks : List TagLinkRow → Type 0
UniqueLinks [] = Unit {0}
UniqueLinks (r ∷ rs) = (has_link r.torrent_id r.tag_id rs ≡ false) × UniqueLinks rs

-- the foreign key of a torrent to its category, which may be `NULL`
abbrev pub Categorized : List TorrentRow → List CategoryRow → Type 0
Categorized [] categories = Unit {0}
Categorized (r ∷ rs) categories =
    (category_exists r.category_id categories ≡ true) × Categorized rs categories

abbrev pub uploader : TorrentRow → ℕ
uploader r = r.uploader_id

pub record UserTable (users : List UserRow) (last : ℕ) : Type 0 where
  pub ids : Unique user_key users
  pub given : Within user_key last users

pub record AuthenticationTable (users : List UserRow) (rs : List UserAuthentication) : Type 0 where
  pub ids : Unique authentication_key rs
  pub owners : References user_key authentication_key rs users

pub record ProfileTable (users : List UserRow) (rs : List ProfileRow) : Type 0 where
  pub ids : Unique profile_key rs
  pub owners : References user_key profile_key rs users
  pub usernames : Unique username_key rs
  pub emails : UniqueEmails rs

pub record UsersAreValid (t : Users) : Type 0 where
  pub users : UserTable t.users t.last_user
  pub authentications : AuthenticationTable t.users t.authentications
  pub profiles : ProfileTable t.users t.profiles
  pub keys : References user_key key_user t.tracker_keys t.users
  pub bans : References user_key ban_user_key t.bans t.users

pub record CategoryTable (categories : List CategoryRow) (last : ℕ) : Type 0 where
  pub ids : Unique category_key categories
  pub given : Within category_key last categories
  pub category_names : Unique category_name categories

pub record TagTable (tags : List TagRow) (last : ℕ) : Type 0 where
  pub ids : Unique tag_key tags
  pub given : Within tag_key last tags
  pub tag_names : Unique tag_name tags

pub record NamesAreValid (t : Names) : Type 0 where
  pub categories : CategoryTable t.categories t.last_category
  pub tags : TagTable t.tags t.last_tag

pub record TorrentTable (users : List UserRow) (categories : List CategoryRow) (last : ℕ)
    (rs : List TorrentRow) : Type 0 where
  pub ids : Unique torrent_key rs
  pub given : Within torrent_key last rs
  pub hashes : Unique hash_key rs
  pub uploaders : References user_key uploader rs users
  pub categorized : Categorized rs categories

pub record InfoHashTable (torrents : List TorrentRow) (rs : List InfoHashRow) : Type 0 where
  pub originals : Unique original_key rs
  pub canonicals : References hash_key canonical_key rs torrents

pub record InfoTable (torrents : List TorrentRow) (rs : List TorrentInfoRow) : Type 0 where
  pub ids : Unique info_torrent rs
  pub owners : References torrent_key info_torrent rs torrents
  pub titles : Unique title_key rs

pub record StatsTable (torrents : List TorrentRow) (rs : List StatsRow) : Type 0 where
  pub ids : Unique stats_torrent rs
  pub owners : References torrent_key stats_torrent rs torrents

pub record LinkTable (torrents : List TorrentRow) (tags : List TagRow) (rs : List TagLinkRow)
    : Type 0 where
  pub links : UniqueLinks rs
  pub owners : References torrent_key link_torrent rs torrents
  pub linked_tags : References tag_key link_tag rs tags

pub record UploadsAreValid (users : List UserRow) (names : Names) (t : Uploads) : Type 0 where
  pub torrents : TorrentTable users names.categories t.last_torrent t.torrents
  pub info_hashes : InfoHashTable t.torrents t.info_hashes
  pub files : References torrent_key file_torrent t.files t.torrents
  pub urls : References torrent_key url_torrent t.announce_urls t.torrents
  pub infos : InfoTable t.torrents t.infos
  pub stats : StatsTable t.torrents t.stats
  pub links : LinkTable t.torrents names.tags t.tag_links

-- The tables satisfy every constraint of the schema.
pub record IsConsistent (t : Tables) : Type 0 where
  pub accounts : UsersAreValid t.accounts
  pub names : NamesAreValid t.names
  pub uploads : UploadsAreValid t.accounts.users t.names t.uploads
