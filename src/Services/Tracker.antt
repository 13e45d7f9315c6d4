-- ===== src/Services/Tracker.antt =====
-- The tracker's API as the index uses it: src/tracker/service.rs and
-- src/tracker/statistics_importer.rs.
pub mod Answers
pub mod Keys
pub mod Statistics
mod Tests
use torrust_index.Base.{
  ℕ, Bool, List, [], ◌∷◌, ◌++◌, Text, bytes, text_eq, Option, none, some, Outcome, ok, err, panic,
  ◌==◌, if◌then◌else◌,
}
use torrust_index.Database.{Database}
use torrust_index.DbError.{DbError}
use torrust_index.Errors.{
  TrackerApiError, offline, invalid_token, internal, unexpected_response_status,
  cannot_save_user_key, not_found, missing_response_body, failed_to_parse_tracker_response,
}
use torrust_index.Models.{TrackerKey, TorrentInfo}
use torrust_index.Services.World.{
  World, Action, ApiRequest, whitelist_torrent, remove_torrent_from_whitelist,
  get_torrent_info as info_request, retrieve_new_tracker_key as key_request, ◌>>=◌, ◌>>◌, pure,
  raise, result, write, attempt, drop_result, map_error,
}

-- what `reqwest` gives for a request: an error, or a status and a body that may be unreadable
pub data Reply : Type 0 where
  no_reply : Reply
  reply : ℕ → Option Text → Reply

-- The tracker, whose answer may depend on all requests before, and `serde_json` on its answers.
pub record Api : Type 0 where
  pub answer : List ApiRequest → ApiRequest → Reply
  pub parse_torrent_info : Text → Option TorrentInfo
  pub parse_tracker_key : Text → Option TrackerKey

abbrev pub invalid_token_body : Text
invalid_token_body = bytes "Unhandled rejection: Err { reason: \"token not valid\" }"

abbrev pub torrent_not_known_body : Text
torrent_not_known_body = bytes "\"torrent not known\""

-- a status of 500, by its body
unfoldable pub server_error : {A : Type 0} → Text → Outcome TrackerApiError A
server_error body = if text_eq body invalid_token_body then err invalid_token else err internal

-- what the two whitelist requests make of an answer
unfoldable pub whitelist_result : Reply → Outcome TrackerApiError (Unit {0})
unfolding server_error
whitelist_result no_reply = err offline
whitelist_result (reply status none) = err missing_response_body
whitelist_result (reply status (some body)) =
    if status == 200
    then ok tt
    else if status == 500
    then server_error body
    else err unexpected_response_status

-- a value that was parsed from the body
unfoldable pub parsed : {A : Type 0} → Text → Option A → Outcome TrackerApiError A
parsed body none = err (failed_to_parse_tracker_response body)
parsed body (some a) = ok a

unfoldable pub torrent_info_result : Api → Reply → Outcome TrackerApiError TorrentInfo
unfolding server_error parsed
torrent_info_result api no_reply = err offline
torrent_info_result api (reply status none) = err missing_response_body
torrent_info_result api (reply status (some body)) =
    if status == 404
    then err not_found
    else if status == 200
    then (if text_eq body torrent_not_known_body
        then err not_found
        else parsed body (api.parse_torrent_info body))
    else if status == 500
    then server_error body
    else err unexpected_response_status

unfoldable pub tracker_key_result : Api → Reply → Outcome TrackerApiError TrackerKey
unfolding server_error parsed
tracker_key_result api no_reply = err offline
tracker_key_result api (reply status none) = err missing_response_body
tracker_key_result api (reply status (some body)) =
    if status == 200
    then parsed body (api.parse_tracker_key body)
    else if status == 500
    then server_error body
    else err unexpected_response_status

-- the configuration that the tracker service and the importer read
pub record TrackerConfig : Type 0 where
  pub url : Text
  pub token_valid_seconds : ℕ

module _ {S : Type 0} (database : Database S) (api : Api) (cfg : TrackerConfig) where
  unfoldable pub send : {E : Type 0} → ApiRequest → Action S E Reply
  send request w = (record w { sent = request ∷ w.sent }, ok (api.answer w.sent request))

  unfoldable pub whitelist_info_hash : Text → Action S TrackerApiError (Unit {0})
  unfolding send whitelist_result
  whitelist_info_hash info_hash = do
    answer ← send (whitelist_torrent info_hash)
    result (λ e. e) (whitelist_result answer)

  unfoldable pub remove_info_hash_from_whitelist : Text → Action S TrackerApiError (Unit {0})
  unfolding send whitelist_result
  remove_info_hash_from_whitelist info_hash = do
    answer ← send (remove_torrent_from_whitelist info_hash)
    result (λ e. e) (whitelist_result answer)

  unfoldable pub get_torrent_info : Text → Action S TrackerApiError TorrentInfo
  unfolding send torrent_info_result
  get_torrent_info info_hash = do
    answer ← send (info_request info_hash)
    result (λ e. e) (torrent_info_result api answer)

  unfoldable pub retrieve_new_tracker_key : ℕ → Action S TrackerApiError TrackerKey
  unfolding send tracker_key_result
  retrieve_new_tracker_key user_id = do
    answer ← send (key_request cfg.token_valid_seconds)
    tracker_key ← result (λ e. e) (tracker_key_result api answer)
    write (λ e. cannot_save_user_key) (database.add_tracker_key user_id tracker_key)
    pure tracker_key

  unfoldable pub announce_url_with_key : TrackerKey → Text
  announce_url_with_key tracker_key = cfg.url ++ b'/' ∷ tracker_key.key

  -- `now` is the time at which the database compares the keys' expiry.
  unfoldable pub get_personal_announce_url : ℕ → ℕ → Action S TrackerApiError Text
  unfolding retrieve_new_tracker_key announce_url_with_key
  get_personal_announce_url now user_id w = elim (database.get_user_tracker_key now user_id w.db) [
    | some tracker_key ↦ (w, ok (announce_url_with_key tracker_key))
    | none ↦
        map_error (λ e. offline)
          (retrieve_new_tracker_key user_id >>= λ key. pure (announce_url_with_key key)) w
  ]

  unfoldable pub save_statistics :
      ℕ → Outcome TrackerApiError TorrentInfo → Action S TrackerApiError TorrentInfo
  save_statistics torrent_id (ok info) = do
    drop_result (
        write (λ e. e) (database.update_tracker_info torrent_id cfg.url info.seeders info.leechers))
    pure info
  save_statistics torrent_id (err e) = do
    drop_result (write (λ e'. e') (database.update_tracker_info torrent_id cfg.url 0 0))
    raise e
  save_statistics torrent_id panic = λ w. (w, panic)

  unfoldable pub import_torrent_statistics : ℕ → Text → Action S TrackerApiError TorrentInfo
  unfolding get_torrent_info save_statistics
  import_torrent_statistics torrent_id info_hash =
      attempt {F = TrackerApiError} (get_torrent_info info_hash) >>= save_statistics torrent_id

  -- the loop of `import_all_torrents_statistics`, whose errors are only logged
  unfoldable pub import_each : List (ℕ × Text) → Action S DbError (Unit {0})
  unfolding import_torrent_statistics
  import_each [] = pure tt
  import_each ((torrent_id, info_hash) ∷ torrents) =
      drop_result (import_torrent_statistics torrent_id info_hash) >> import_each torrents

  unfoldable pub import_all_torrents_statistics : Action S DbError (Unit {0})
  unfolding import_each
  import_all_torrents_statistics w =
      (result (λ e. e) (database.get_all_torrents_compact w.db) >>= import_each) w
