-- ===== src/Services/Index.antt =====
-- The torrents of the index: `Index` of src/services/torrent.rs.
pub mod Groups
pub mod Uploads
pub mod Stored
pub mod Downloads
mod Tests
use torrust_index.Base.{
  ℕ, Bool, true, false, ◌||◌, not, List, [], ◌∷◌, ◌++◌, Text, bytes, text_eq, is_empty, length,
  flatten, Option, none, some, Outcome, ok, err, panic, map, ◌==◌, leb, if◌then◌else◌,
}
use torrust_index.Database.{Database}
use torrust_index.DbError.{DbError}
use torrust_index.Errors.{
  ServiceError, missing_mandatory_metadata_fields, invalid_category, info_hash_already_exists,
  canonical_info_hash_already_exists, unauthorized, from_decode_error, from_metadata_error,
  from_tracker_error, map_database_error_to_service_error, TrackerApiError,
}
use torrust_index.InfoHash.{InfoHash, to_hex_string}
use torrust_index.InfoHash.Codec.{Binascii}
use torrust_index.Listing.{
  Category, Metadata, new_metadata, TorrentResponse, TorrentTag, from_listing,
  include_url_in_response,
}
use torrust_index.Parse.{Bencode, decode_and_validate_torrent_file, canonical_info_hash}
use torrust_index.Services.Tracker.{
  Api, TrackerConfig, whitelist_info_hash, remove_info_hash_from_whitelist,
  get_personal_announce_url, import_torrent_statistics,
}
use torrust_index.Services.Users.{get_compact, require_administrator}
use torrust_index.Services.World.{
  Action, ◌>>=◌, ◌>>◌, pure, raise, refuse_if, result, read, write, attempt, drop_result, map_error,
}
use torrust_index.Torrent.{
  Torrent, TorrentFile, include_url_as_main_tracker, set_announce_to,
  reset_announce_list_if_private,
}

pub record AddTorrentRequest : Type 0 where
  pub title : Text
  pub description : Text
  pub category_name : Text
  pub tags : List ℕ
  pub torrent_buffer : Text

pub record AddTorrentResponse : Type 0 where
  pub torrent_id : ℕ
  pub info_hash : Text
  pub original_info_hash : Text

pub record DeletedTorrentResponse : Type 0 where
  pub torrent_id : ℕ
  pub info_hash : Text

-- `TrackerMode` of src/config.rs
pub data TrackerMode : Type 0 where
  public private whitelisted private_whitelisted : TrackerMode

unfoldable pub is_open : TrackerMode → Bool
is_open public = true
is_open private = false
is_open whitelisted = true
is_open private_whitelisted = false

-- an error of the database as `?` reports it
abbrev pub db_error : DbError → ServiceError
db_error e = map_database_error_to_service_error e

abbrev pub hash_eq : InfoHash → InfoHash → Bool
hash_eq a b = text_eq a.bytes b.bytes

-- `CanonicalInfoHashGroup::find`
abbrev pub is_in_group : InfoHash → List InfoHash → Bool
is_in_group h [] = false
is_in_group h (h' ∷ hs) = if hash_eq h' h then true else is_in_group h hs

-- the tags of the database, and those of a request, in the order of `sort_unstable`
abbrev pub insert_sorted : ℕ → List ℕ → List ℕ
insert_sorted x [] = x ∷ []
insert_sorted x (y ∷ ys) = let rest = insert_sorted x ys in if leb x y then x ∷ y ∷ ys else y ∷ rest

abbrev pub sort_unstable : List ℕ → List ℕ
sort_unstable [] = []
sort_unstable (x ∷ xs) = insert_sorted x (sort_unstable xs)

module _ {S : Type 0} (database : Database S) where
  unfoldable pub validate_and_build_metadata : AddTorrentRequest → Action S ServiceError Metadata
  unfolding new_metadata from_metadata_error
  validate_and_build_metadata req = do
    refuse_if (is_empty req.category_name) missing_mandatory_metadata_fields
    category ← read (λ e. invalid_category) (database.get_category_from_name req.category_name)
    result from_metadata_error
        (new_metadata req.title req.description category.category_id req.tags)

  -- the checks on the group of the canonical info-hash, which was found
  unfoldable pub check_group :
      InfoHash → InfoHash → List InfoHash → Action S ServiceError (Unit {0})
  unfolding map_database_error_to_service_error
  check_group original canonical [] = pure tt
  check_group original canonical (h ∷ hs) =
      if is_in_group original (h ∷ hs)
      then raise info_hash_already_exists
      else (write db_error (database.add_info_hash_to_canonical_info_hash_group original canonical)
          >> raise canonical_info_hash_already_exists)

  unfoldable pub canonical_info_hash_group_checks :
      InfoHash → InfoHash → Action S ServiceError (Unit {0})
  unfolding check_group map_database_error_to_service_error
  canonical_info_hash_group_checks original canonical =
      read db_error (database.get_torrent_canonical_info_hash_group canonical)
      >>= check_group original canonical

  -- `DbTorrentInfoRepository::update`, in its four steps
  unfoldable pub update_if :
      {A : Type 0}
      → (A → S → S × Outcome DbError (Unit {0}))
      → Option A
      → Action S ServiceError (Unit {0})
  unfolding map_database_error_to_service_error
  update_if statement none = pure tt
  update_if statement (some a) = write db_error (statement a)

  unfoldable pub update_tags : ℕ → Option (List ℕ) → Action S ServiceError (Unit {0})
  unfolding map_database_error_to_service_error
  update_tags torrent_id none = pure tt
  update_tags torrent_id (some tags) = do
    current ← read db_error (database.get_tags_for_torrent_id torrent_id)
    if text_eq (sort_unstable tags) (sort_unstable (map (λ (tag : TorrentTag). tag.tag_id) current))
        then pure tt
        else (write db_error (database.delete_all_torrent_tag_links torrent_id)
            >> write db_error (database.add_torrent_tag_links torrent_id tags))

  unfoldable pub update :
      ℕ → Option Text → Option Text → Option ℕ → Option (List ℕ) → Action S ServiceError (Unit {0})
  unfolding update_if update_tags
  update torrent_id title description category_id tags = do
    update_if (database.update_torrent_title torrent_id) title
    update_if (database.update_torrent_description torrent_id) description
    update_if (database.update_torrent_category torrent_id) category_id
    update_tags torrent_id tags

  unfoldable pub category_of : Option ℕ → Action S ServiceError (Option Category)
  unfolding map_database_error_to_service_error
  category_of none = pure none
  category_of (some category_id) = do
    category ← read db_error (database.get_category_from_id category_id)
    pure (some category)

  unfoldable pub update_torrent_info :
      InfoHash
      → Option Text
      → Option Text
      → Option ℕ
      → Option (List ℕ)
      → ℕ
      → Action S ServiceError TorrentResponse
  unfolding get_compact update category_of from_listing map_database_error_to_service_error
  update_torrent_info info_hash title description category_id tags user_id = do
    updater ← get_compact database user_id
    torrent_listing ← read db_error (database.get_torrent_listing_from_info_hash info_hash)
    refuse_if (not (text_eq torrent_listing.uploader updater.username || updater.administrator))
        unauthorized
    update torrent_listing.torrent_id title description category_id tags
    updated ← read db_error (database.get_torrent_listing_from_id torrent_listing.torrent_id)
    category ← category_of updated.category_id
    pure (from_listing updated category)

module _ {S : Type 0} (database : Database S) (api : Api) (cfg : TrackerConfig) (mode : TrackerMode)
    (codec : Binascii) where
  -- the URL that comes first in a torrent's trackers
  unfoldable pub main_tracker : ℕ → Option ℕ → Action S ServiceError Text
  unfolding get_personal_announce_url from_tracker_error is_open
  main_tracker now opt_user_id = if is_open mode then pure cfg.url else (elim opt_user_id [
    | some user_id ↦
        map_error from_tracker_error (get_personal_announce_url database api cfg now user_id)
    | none ↦ pure cfg.url
  ])

  unfoldable pub get_torrent : ℕ → InfoHash → Option ℕ → Action S ServiceError Torrent
  unfolding main_tracker include_url_as_main_tracker map_database_error_to_service_error
  get_torrent now info_hash opt_user_id = do
    torrent ← read db_error (database.get_torrent_from_info_hash info_hash)
    url ← main_tracker now opt_user_id
    pure (include_url_as_main_tracker url torrent)

  unfoldable pub delete_torrent : InfoHash → ℕ → Action S ServiceError DeletedTorrentResponse
  unfolding require_administrator remove_info_hash_from_whitelist to_hex_string
      map_database_error_to_service_error
  delete_torrent info_hash user_id = do
    require_administrator database user_id
    torrent_listing ← read db_error (database.get_torrent_listing_from_info_hash info_hash)
    write db_error (database.delete_torrent torrent_listing.torrent_id)
    hex ← result (λ e. e) (to_hex_string codec info_hash)
    drop_result (remove_info_hash_from_whitelist database api cfg hex)
    pure (record { torrent_id = torrent_listing.torrent_id; info_hash = torrent_listing.info_hash })

  module _ (bencode : Bencode) where
    unfoldable pub customize_announcement_info_for : Torrent → Torrent
    unfolding set_announce_to reset_announce_list_if_private
    customize_announcement_info_for torrent =
        reset_announce_list_if_private (set_announce_to cfg.url torrent)

    -- The torrent is put on the tracker's list; else it is deleted again.
    unfoldable pub whitelist_or_delete : ℕ → Text → Action S ServiceError (Unit {0})
    unfolding whitelist_info_hash from_tracker_error
    whitelist_or_delete torrent_id hex = do
      outcome ← attempt {E = TrackerApiError} (whitelist_info_hash database api cfg hex)
      elim outcome [
        | ok u ↦ pure tt
        | err e ↦
            drop_result {E = DbError} (write (λ e. e) (database.delete_torrent torrent_id))
            >> raise (from_tracker_error e)
        | panic ↦ λ w. (w, panic)
      ]

    -- The first half of `add_torrent`: an upload that may be stored, with its metadata and its
    -- original and canonical info-hashes.
    unfoldable pub check_upload :
        AddTorrentRequest → ℕ → Action S ServiceError ((Metadata × Torrent) × (InfoHash × InfoHash))
    unfolding get_compact validate_and_build_metadata decode_and_validate_torrent_file
        from_decode_error customize_announcement_info_for canonical_info_hash
        canonical_info_hash_group_checks
    check_upload req user_id = do
      user ← get_compact database user_id
      metadata ← validate_and_build_metadata database req
      (uploaded, original) ←
          result from_decode_error (decode_and_validate_torrent_file bencode req.torrent_buffer)
      let torrent = customize_announcement_info_for uploaded
      canonical ← result (λ e. e) (canonical_info_hash bencode torrent)
      canonical_info_hash_group_checks database original canonical
      pure ((metadata, torrent), (original, canonical))

    -- The second half: it is stored, its numbers are imported, and the tracker is told.
    unfoldable pub store_upload :
        (Metadata × Torrent) × (InfoHash × InfoHash) → ℕ → Action S ServiceError AddTorrentResponse
    unfolding to_hex_string import_torrent_statistics whitelist_or_delete
        map_database_error_to_service_error
    store_upload ((metadata, torrent), (original, canonical)) user_id = do
      torrent_id ←
          write db_error (database.insert_torrent_and_get_id original torrent user_id metadata)
      hex ← result (λ e. e) (to_hex_string codec canonical)
      drop_result (import_torrent_statistics database api cfg torrent_id hex)
      whitelist_or_delete torrent_id hex
      original_hex ← result (λ e. e) (to_hex_string codec original)
      pure (record { torrent_id = torrent_id; info_hash = hex; original_info_hash = original_hex })

    unfoldable pub add_torrent : AddTorrentRequest → ℕ → Action S ServiceError AddTorrentResponse
    unfolding check_upload store_upload
    add_torrent req user_id = check_upload req user_id >>= λ upload. store_upload upload user_id
