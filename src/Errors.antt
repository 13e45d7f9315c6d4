-- ===== src/Errors.antt =====
-- Errors of the services and what they become: src/errors.rs. A `StatusCode` is its number.
use torrust_index.Base.{ℕ, Text}
use torrust_index.DbError.{DbError}

pub data ServiceError : Type 0 where
  internal_server_error closed_for_registration email_missing email_invalid : ServiceError
  not_a_url wrong_password_or_username username_not_found user_not_found : ServiceError
  account_not_found profanity_error blacklist_error username_case_mapped_error : ServiceError
  password_too_short password_too_long passwords_dont_match username_taken : ServiceError
  username_invalid email_taken email_not_verified token_not_found token_expired : ServiceError
  token_invalid invalid_torrent_file invalid_torrent_pieces_length invalid_file_type : ServiceError
  invalid_torrent_title_length missing_mandatory_metadata_fields invalid_category : ServiceError
  invalid_tag unauthorized info_hash_already_exists : ServiceError
  canonical_info_hash_already_exists torrent_title_already_exists whitelisting_error : ServiceError
  failed_to_send_verification_email category_already_exists category_name_empty : ServiceError
  tag_already_exists tag_name_empty torrent_not_found category_not_found : ServiceError
  tag_not_found database_error logged_in_user_not_found tracker_offline : ServiceError
  tracker_response_error tracker_unknown_response torrent_not_found_in_tracker : ServiceError
  invalid_tracker_token : ServiceError

-- `MetadataError` of src/models/torrent.rs
pub data MetadataError : Type 0 where
  missing_torrent_title invalid_title_length : MetadataError

-- `DecodeTorrentFileError` of src/utils/parse_torrent.rs
pub data DecodeTorrentFileError : Type 0 where
  invalid_bencode_data invalid_info_dictionary invalid_pieces_length : DecodeTorrentFileError
  cannot_bencode_info_dict : DecodeTorrentFileError

-- `TrackerAPIError` of src/tracker/service.rs
pub data TrackerApiError : Type 0 where
  offline invalid_token internal unexpected_response_status cannot_save_user_key : TrackerApiError
  not_found missing_response_body : TrackerApiError
  failed_to_parse_tracker_response : Text → TrackerApiError

unfoldable pub from_metadata_error : MetadataError → ServiceError
from_metadata_error missing_torrent_title = missing_mandatory_metadata_fields
from_metadata_error invalid_title_length = invalid_torrent_title_length

unfoldable pub from_decode_error : DecodeTorrentFileError → ServiceError
from_decode_error invalid_pieces_length = invalid_torrent_title_length
from_decode_error cannot_bencode_info_dict = invalid_torrent_file
from_decode_error invalid_info_dictionary = invalid_torrent_file
from_decode_error invalid_bencode_data = invalid_torrent_file

unfoldable pub from_tracker_error : TrackerApiError → ServiceError
from_tracker_error offline = tracker_offline
from_tracker_error internal = tracker_response_error
from_tracker_error not_found = torrent_not_found_in_tracker
from_tracker_error unexpected_response_status = tracker_unknown_response
from_tracker_error missing_response_body = tracker_unknown_response
from_tracker_error (failed_to_parse_tracker_response body) = tracker_unknown_response
from_tracker_error cannot_save_user_key = database_error
from_tracker_error invalid_token = invalid_tracker_token

unfoldable pub http_status_code_for_service_error : ServiceError → ℕ
http_status_code_for_service_error closed_for_registration = 403
http_status_code_for_service_error email_invalid = 400
http_status_code_for_service_error not_a_url = 400
http_status_code_for_service_error wrong_password_or_username = 403
http_status_code_for_service_error username_not_found = 404
http_status_code_for_service_error user_not_found = 404
http_status_code_for_service_error account_not_found = 404
http_status_code_for_service_error profanity_error = 400
http_status_code_for_service_error blacklist_error = 400
http_status_code_for_service_error username_case_mapped_error = 400
http_status_code_for_service_error password_too_short = 400
http_status_code_for_service_error password_too_long = 400
http_status_code_for_service_error passwords_dont_match = 400
http_status_code_for_service_error username_taken = 400
http_status_code_for_service_error username_invalid = 400
http_status_code_for_service_error email_taken = 400
http_status_code_for_service_error email_not_verified = 403
http_status_code_for_service_error token_not_found = 401
http_status_code_for_service_error token_expired = 401
http_status_code_for_service_error token_invalid = 401
http_status_code_for_service_error torrent_not_found = 404
http_status_code_for_service_error invalid_torrent_file = 400
http_status_code_for_service_error invalid_torrent_pieces_length = 400
http_status_code_for_service_error invalid_file_type = 400
http_status_code_for_service_error invalid_torrent_title_length = 400
http_status_code_for_service_error missing_mandatory_metadata_fields = 400
http_status_code_for_service_error invalid_category = 400
http_status_code_for_service_error invalid_tag = 400
http_status_code_for_service_error unauthorized = 403
http_status_code_for_service_error info_hash_already_exists = 400
http_status_code_for_service_error canonical_info_hash_already_exists = 400
http_status_code_for_service_error torrent_title_already_exists = 400
http_status_code_for_service_error tracker_offline = 503
http_status_code_for_service_error category_name_empty = 400
http_status_code_for_service_error category_already_exists = 400
http_status_code_for_service_error tag_name_empty = 400
http_status_code_for_service_error tag_already_exists = 400
http_status_code_for_service_error internal_server_error = 500
http_status_code_for_service_error email_missing = 404
http_status_code_for_service_error failed_to_send_verification_email = 500
http_status_code_for_service_error whitelisting_error = 500
http_status_code_for_service_error database_error = 500
http_status_code_for_service_error category_not_found = 404
http_status_code_for_service_error tag_not_found = 404
http_status_code_for_service_error tracker_response_error = 500
http_status_code_for_service_error tracker_unknown_response = 500
http_status_code_for_service_error torrent_not_found_in_tracker = 404
http_status_code_for_service_error invalid_tracker_token = 500
http_status_code_for_service_error logged_in_user_not_found = 401

unfoldable pub map_database_error_to_service_error : DbError → ServiceError
map_database_error_to_service_error DbError.error = internal_server_error
map_database_error_to_service_error (DbError.error_with_text text) = internal_server_error
map_database_error_to_service_error DbError.username_taken = username_taken
map_database_error_to_service_error DbError.email_taken = email_taken
map_database_error_to_service_error DbError.user_not_found = user_not_found
map_database_error_to_service_error DbError.category_not_found = invalid_category
map_database_error_to_service_error DbError.tag_already_exists = tag_already_exists
map_database_error_to_service_error DbError.tag_not_found = invalid_tag
map_database_error_to_service_error DbError.torrent_not_found = torrent_not_found
map_database_error_to_service_error DbError.torrent_already_exists = info_hash_already_exists
map_database_error_to_service_error DbError.torrent_title_already_exists =
    torrent_title_already_exists
map_database_error_to_service_error DbError.unrecognized_database_driver = internal_server_error
map_database_error_to_service_error DbError.torrent_info_hash_not_found = torrent_not_found
