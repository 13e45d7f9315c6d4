-- ===== src/Services/Information.antt =====
-- The page of a torrent: `Index::get_torrent_info` of src/services/torrent.rs.
mod Tests
use torrust_index.Base.{
  ℕ, List, [], ◌∷◌, ◌++◌, map, Text, bytes, flatten, length, ◌==◌, if◌then◌else◌, Option, Outcome,
  ok, err, panic,
}
use torrust_index.Database.{Database}
use torrust_index.Errors.{ServiceError, TrackerApiError, map_database_error_to_service_error}
use torrust_index.InfoHash.{InfoHash}
use torrust_index.InfoHash.Codec.{Binascii}
use torrust_index.Listing.{TorrentResponse, from_listing, include_url_in_response}
use torrust_index.Models.{TorrentInfo}
use torrust_index.Services.Index.{TrackerMode, db_error, category_of, main_tracker}
use torrust_index.Services.Tracker.{Api, TrackerConfig, import_torrent_statistics}
use torrust_index.Services.World.{Action, ◌>>=◌, ◌>>◌, pure, read, attempt}
use torrust_index.Torrent.{TorrentFile}

-- the loop that adds the trackers to the link; `encode` is that of the crate `urlencoding`
unfoldable pub add_trackers : (Text → Text) → Text → List Text → Text
add_trackers encode magnet [] = magnet
add_trackers encode magnet (tracker ∷ trackers) =
    add_trackers encode (magnet ++ bytes "&tr=" ++ encode tracker) trackers

unfoldable pub magnet_of : (Text → Text) → TorrentResponse → Text
unfolding add_trackers
magnet_of encode r =
    add_trackers encode
      (bytes "magnet:?xt=urn:btih:" ++ r.info_hash ++ bytes "&dn=" ++ encode r.title) r.trackers

-- the numbers of the tracker, if it gave any
unfoldable pub with_numbers :
    Outcome TrackerApiError TorrentInfo → TorrentResponse → TorrentResponse
with_numbers (ok info) r = record r { seeders = info.seeders; leechers = info.leechers }
with_numbers (err e) r = r
with_numbers panic r = r

module _ {S : Type 0} (database : Database S) (api : Api) (cfg : TrackerConfig) (mode : TrackerMode)
    (codec : Binascii) (encode : Text → Text) where
  -- The only file of a torrent gets the torrent's name.
  unfoldable pub named_files :
      InfoHash → List TorrentFile → Action S ServiceError (List TorrentFile)
  unfolding map_database_error_to_service_error
  named_files info_hash files =
      if length files == 1
      then (read db_error (database.get_torrent_info_from_info_hash info_hash) >>= λ info. pure (
          map (λ (f : TorrentFile). let f' : TorrentFile = record f { path = info.name ∷ [] } in f')
            files))
      else pure files

  unfoldable pub get_torrent_info : ℕ → InfoHash → Option ℕ → Action S ServiceError TorrentResponse
  unfolding map_database_error_to_service_error category_of named_files main_tracker from_listing
      include_url_in_response magnet_of with_numbers import_torrent_statistics
  get_torrent_info now info_hash opt_user_id = do
    torrent_listing ← read db_error (database.get_torrent_listing_from_info_hash info_hash)
    category ← category_of database torrent_listing.category_id
    found ← read db_error (database.get_torrent_files_from_id torrent_listing.torrent_id)
    files ← named_files info_hash found
    urls ← read db_error (database.get_torrent_announce_urls_from_id torrent_listing.torrent_id)
    url ← main_tracker database api cfg mode codec now opt_user_id
    let page : TorrentResponse = record (from_listing torrent_listing category) {
      files = files;
      trackers = flatten urls;
    }
    let tracked : TorrentResponse = include_url_in_response url page
    let linked : TorrentResponse = record tracked { magnet_link = magnet_of encode tracked }
    numbers ←
        attempt {E = TrackerApiError}
          (import_torrent_statistics database api cfg linked.torrent_id linked.info_hash)
    tags ← read db_error (database.get_tags_for_torrent_id torrent_listing.torrent_id)
    pure (record (with_numbers numbers linked) { tags = tags })
