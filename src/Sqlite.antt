-- ===== src/Sqlite.antt =====
-- The SQLite driver, src/databases/sqlite.rs: its tables (migrations/sqlite3), and how a statement and
-- a transaction change them. The engine itself does not fail: an error comes of a constraint.
pub mod StoredRows
pub mod Accounts
pub mod Catalog
pub mod Torrents
pub mod Downloads
pub mod Deleted
pub mod Updates
pub mod Driver
pub mod Registration
pub mod Uploading
pub mod Storage
pub mod Listings
pub mod Search
pub mod Interface
mod Tests
pub mod Steps
pub mod Schema
use torrust_index.Base.{
  ℕ, ◌+◌, Bool, true, false, Option, none, some, List, [], ◌∷◌, Text, is_empty, Outcome, ok, err,
  panic, if◌then◌else◌,
}
use torrust_index.DbError.{DbError}
use torrust_index.Models.{UserAuthentication}
use torrust_index.Torrent.{DbTorrentFile}

-- `torrust_users`, less the dates, which no modelled query reads
pub record UserRow : Type 0 where
  pub user_id : ℕ
  pub administrator : Bool

-- `torrust_user_profiles`
pub record ProfileRow : Type 0 where
  pub user_id : ℕ
  pub username : Text
  pub email : Option Text
  pub email_verified : Bool
  pub bio : Option Text
  pub avatar : Option Text

-- `torrust_tracker_keys`
pub record KeyRow : Type 0 where
  pub user_id : ℕ
  pub tracker_key : Text
  pub date_expiry : ℕ

-- `torrust_user_bans`
pub record BanRow : Type 0 where
  pub user_id : ℕ
  pub reason : Text
  pub date_expiry : Text

-- `torrust_categories`
pub record CategoryRow : Type 0 where
  pub category_id : ℕ
  pub name : Text

-- `torrust_torrent_tags`
pub record TagRow : Type 0 where
  pub tag_id : ℕ
  pub name : Text

-- `torrust_torrents`
pub record TorrentRow : Type 0 where
  pub torrent_id : ℕ
  pub uploader_id : ℕ
  pub category_id : Option ℕ
  pub info_hash : Text
  pub size : ℕ
  pub name : Text
  pub pieces : Text
  pub piece_length : ℕ
  pub private : Option ℕ
  pub root_hash : Bool
  pub source : Option Text
  pub comment : Option Text
  pub date_uploaded : Text
  pub creation_date : Option ℕ
  pub created_by : Option Text
  pub encoding : Option Text

-- `torrust_torrent_info_hashes`, less `original_is_known`, which is only written
pub record InfoHashRow : Type 0 where
  pub info_hash : Text
  pub canonical_info_hash : Text

-- `torrust_torrent_files`
pub record FileRow : Type 0 where
  pub torrent_id : ℕ
  pub file : DbTorrentFile

-- `torrust_torrent_announce_urls`
pub record AnnounceUrlRow : Type 0 where
  pub torrent_id : ℕ
  pub tracker_url : Text

-- `torrust_torrent_info`
pub record TorrentInfoRow : Type 0 where
  pub torrent_id : ℕ
  pub title : Text
  pub description : Option Text

-- `torrust_torrent_tracker_stats`, whose primary key is the torrent alone
pub record StatsRow : Type 0 where
  pub torrent_id : ℕ
  pub tracker_url : Text
  pub seeders : ℕ
  pub leechers : ℕ

-- `torrust_torrent_tag_links`
pub record TagLinkRow : Type 0 where
  pub torrent_id : ℕ
  pub tag_id : ℕ

-- The tables of users, which refer to each other only. `last_user` is the greatest id that was ever
-- given: `AUTOINCREMENT` gives none twice.
pub record Users : Type 0 where
  pub users : List UserRow
  pub last_user : ℕ
  pub authentications : List UserAuthentication
  pub profiles : List ProfileRow
  pub tracker_keys : List KeyRow
  pub bans : List BanRow

pub record Names : Type 0 where
  pub categories : List CategoryRow
  pub last_category : ℕ
  pub tags : List TagRow
  pub last_tag : ℕ

pub record Uploads : Type 0 where
  pub torrents : List TorrentRow
  pub last_torrent : ℕ
  pub info_hashes : List InfoHashRow
  pub files : List FileRow
  pub announce_urls : List AnnounceUrlRow
  pub infos : List TorrentInfoRow
  pub stats : List StatsRow
  pub tag_links : List TagLinkRow

pub record Tables : Type 0 where
  pub accounts : Users
  pub names : Names
  pub uploads : Uploads

-- a statement that may change the tables `T`, and `?` after it
abbrev pub Statement : Type 0 → Type 0 → Type 0
Statement T A = T → T × Outcome DbError A

infixl 5 ◌>>=◌ ◌>>◌
abbrev pub ◌>>=◌ : {T A B : Type 0} → Statement T A → (A → Statement T B) → Statement T B
◌>>=◌ m f t =
    let (t', o) = m t in elim o [ ok a ↦ f a t' | err e ↦ (t', err e) | panic ↦ (t', panic) ]

abbrev pub ◌>>◌ : {T B : Type 0} → Statement T (Unit {0}) → Statement T B → Statement T B
m >> k = m >>= λ _. k

abbrev pub pure : {T A : Type 0} → A → Statement T A
pure a t = (t, ok a)

abbrev pub known : {T A : Type 0} → Outcome DbError A → Statement T A
known o t = (t, o)

abbrev pub rolled_back : {T A : Type 0} → T → T × Outcome DbError A → T × Outcome DbError A
rolled_back t (t', ok a) = (t', ok a)
rolled_back t (t', err e) = (t, err e)
rolled_back t (t', panic) = (t, panic)

-- a transaction, which is rolled back unless it is committed
abbrev pub transaction : {T A : Type 0} → Statement T A → Statement T A
transaction m t = rolled_back t (m t)

-- `fetch_one`, whose error for a missing row is replaced
abbrev pub fetch_one : {A : Type 0} → DbError → Option A → Outcome DbError A
fetch_one e none = err e
fetch_one e (some a) = ok a

-- `rows_affected() > 0`
abbrev pub affected : DbError → Bool → Outcome DbError (Unit {0})
affected e true = ok tt
affected e false = err e

-- `NULLIF(text, "")`
abbrev pub null_if_empty : Text → Option Text
null_if_empty text = if is_empty text then none else some text
