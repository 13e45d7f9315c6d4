-- ===== src/Database.antt =====
-- The database behind the services, the trait `Database` of src/databases/database.rs, as an
-- interface that the services take as a parameter.
use torrust_index.Base.{ℕ, Option, List, Text, Outcome}
use torrust_index.DbError.{DbError}
use torrust_index.InfoHash.{InfoHash}
use torrust_index.Listing.{Category, Metadata, TorrentListing, TorrentTag}
use torrust_index.Models.{TrackerKey, UserAuthentication, UserCompact, UserProfile}
use torrust_index.Torrent.{DbTorrent, Torrent, TorrentFile}

-- The methods of the trait `Database` that the services call, over a state of any type. A query that
-- only reads gives its result; one that writes gives the new state too. Times are arguments.
pub record Database (S : Type 0) : Type 0 where
  pub insert_user_and_get_id : Text → Text → Text → S → S × Outcome DbError ℕ
  pub get_user_authentication_from_id : ℕ → S → Outcome DbError UserAuthentication
  pub get_user_profile_from_username : Text → S → Outcome DbError UserProfile
  pub get_user_compact_from_id : ℕ → S → Outcome DbError UserCompact
  pub get_user_tracker_key : ℕ → ℕ → S → Option TrackerKey
  pub ban_user : ℕ → Text → Text → S → S × Outcome DbError (Unit {0})
  pub grant_admin_role : ℕ → S → S × Outcome DbError (Unit {0})
  pub verify_email : ℕ → S → S × Outcome DbError (Unit {0})
  pub add_tracker_key : ℕ → TrackerKey → S → S × Outcome DbError (Unit {0})
  pub delete_user : ℕ → S → S × Outcome DbError (Unit {0})
  pub insert_category_and_get_id : Text → S → S × Outcome DbError ℕ
  pub get_category_from_id : ℕ → S → Outcome DbError Category
  pub get_category_from_name : Text → S → Outcome DbError Category
  pub delete_category : Text → S → S × Outcome DbError (Unit {0})
  pub insert_torrent_and_get_id : InfoHash → Torrent → ℕ → Metadata → S → S × Outcome DbError ℕ
  pub get_torrent_from_info_hash : InfoHash → S → Outcome DbError Torrent
  pub get_torrent_canonical_info_hash_group : InfoHash → S → Outcome DbError (List InfoHash)
  pub add_info_hash_to_canonical_info_hash_group :
      InfoHash → InfoHash → S → S × Outcome DbError (Unit {0})
  pub get_torrent_info_from_info_hash : InfoHash → S → Outcome DbError DbTorrent
  pub get_torrent_files_from_id : ℕ → S → Outcome DbError (List TorrentFile)
  pub get_torrent_announce_urls_from_id : ℕ → S → Outcome DbError (List (List Text))
  pub get_torrent_listing_from_id : ℕ → S → Outcome DbError TorrentListing
  pub get_torrent_listing_from_info_hash : InfoHash → S → Outcome DbError TorrentListing
  pub get_all_torrents_compact : S → Outcome DbError (List (ℕ × Text))
  pub update_torrent_title : ℕ → Text → S → S × Outcome DbError (Unit {0})
  pub update_torrent_description : ℕ → Text → S → S × Outcome DbError (Unit {0})
  pub update_torrent_category : ℕ → ℕ → S → S × Outcome DbError (Unit {0})
  pub insert_tag_and_get_id : Text → S → S × Outcome DbError ℕ
  pub delete_tag : ℕ → S → S × Outcome DbError (Unit {0})
  pub add_torrent_tag_links : ℕ → List ℕ → S → S × Outcome DbError (Unit {0})
  pub delete_all_torrent_tag_links : ℕ → S → S × Outcome DbError (Unit {0})
  pub get_tags_for_torrent_id : ℕ → S → Outcome DbError (List TorrentTag)
  pub update_tracker_info : ℕ → Text → ℕ → ℕ → S → S × Outcome DbError (Unit {0})
  pub delete_torrent : ℕ → S → S × Outcome DbError (Unit {0})
