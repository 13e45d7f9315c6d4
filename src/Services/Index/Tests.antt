-- ===== src/Services/Index/Tests.antt =====
-- Tests of the torrents' service on a sample (src/services/torrent.rs).
use torrust_index.Base.{
  ℕ, ◌≡◌, ◌≢◌, refl, ◌⊎◌, true, false, Text, bytes, text_eq, List, [], ◌∷◌, Option, none, some,
  Outcome, ok, err, arith,
}
use torrust_index.DbError.{DbError}
use torrust_index.Errors.{
  ServiceError, TrackerApiError, unauthorized, info_hash_already_exists,
  canonical_info_hash_already_exists, map_database_error_to_service_error, from_tracker_error,
}
use torrust_index.Hex.Digits.{lower_digit}
use torrust_index.InfoHash.{InfoHash, to_hex_string, expected}
use torrust_index.InfoHash.Codec.{Binascii, hex, unhex}
use torrust_index.Listing.{Metadata, new_metadata, validate_format}
use torrust_index.Models.{UserCompact}
use torrust_index.Parse.{
  decode_and_validate_torrent_file, canonical_info_hash, calculate_info_hash,
  calculate_info_hash_as_bytes, has_bad_pieces, or_error,
}
use torrust_index.InfoHash
use torrust_index.Samples.{database, api, tracker, bencode, world, hash, torrent, common, listing}
use torrust_index.Services.Accounts.{ban_user}
use torrust_index.Services.Catalog.{add_category, delete_category, add_tag, delete_tag}
use torrust_index.Services.Index.{
  AddTorrentRequest, private, is_open, check_upload, store_upload, get_torrent, main_tracker,
  delete_torrent, update_torrent_info, canonical_info_hash_group_checks, check_group, is_in_group,
  validate_and_build_metadata, customize_announcement_info_for,
}
use torrust_index.Services.Index.Downloads.{get_torrent_ok, delete_torrent_lem}
use torrust_index.Services.Index.Groups.{group_checks_lem}
use torrust_index.Services.Index.Stored.{store_upload_lem, listed, asked, numbered}
use torrust_index.Services.Index.Uploads.{Described, check_upload_ok}
use torrust_index.Services.Refusals.{admin_only, only_uploader_or_admin}
use torrust_index.Services.Tracker.{get_personal_announce_url}
use torrust_index.Services.Tracker.Statistics.{Calm}
use torrust_index.Services.Users.{require_administrator, get_compact}
use torrust_index.Services.World.{
  World, remove_torrent_from_whitelist, retrieve_new_tracker_key as key_request,
}
use torrust_index.Torrent.{
  Torrent, include_url_as_main_tracker, set_announce_to, reset_announce_list_if_private, is_private,
}

program : Unit {0}
unfolding text_eq check_upload get_torrent main_tracker is_open get_personal_announce_url
    include_url_as_main_tracker require_administrator get_compact to_hex_string expected hex unhex
    new_metadata validate_format decode_and_validate_torrent_file canonical_info_hash
    calculate_info_hash calculate_info_hash_as_bytes has_bad_pieces or_error
    canonical_info_hash_group_checks check_group validate_and_build_metadata
    customize_announcement_info_for set_announce_to reset_announce_list_if_private is_private
    InfoHash.from_bytes lower_digit
program = tt

abbrev codec : Binascii
codec = record {
  bin2hex = λ bs n. ok (hex bs);
  hex2bin = λ s n. unhex s;
  bin2hex_lem = λ bs n e. refl;
  hex2bin_lem = λ s n e. refl;
}

admin_only_example :
    (add_category database (bytes "movies") 2 world ≡ (world, err unauthorized))
    × (delete_category database (bytes "movies") 2 world ≡ (world, err unauthorized))
    × (add_tag database (bytes "movies") 2 world ≡ (world, err unauthorized))
    × (delete_tag database 5 2 world ≡ (world, err unauthorized))
    × (ban_user database (bytes "movies") 2 world ≡ (world, err unauthorized))
    × (delete_torrent database api tracker private codec hash 2 world ≡ (world, err unauthorized))
admin_only_example =
    admin_only database 2 common world refl refl (bytes "movies") 5 api tracker private codec hash

only_uploader_or_admin_example :
    update_torrent_info database hash (some (bytes "Mine")) none none none 2 world
    ≡ (world, err unauthorized)
unfolding program
only_uploader_or_admin_example =
    only_uploader_or_admin database 2 common hash listing world refl refl refl (some (bytes "Mine"))
      none none none

abbrev group : List InfoHash
group = hash ∷ []

abbrev other_hash : InfoHash
other_hash = record { bytes = 21 ∷ [] }

-- A known canonical info-hash with an original one that is new.
abbrev busy : World ℕ
busy = record { db = 3; sent = [] }

abbrev written : Outcome DbError (Unit {0})
written = ok tt

group_checks_lem_example :
    (group ≡ []) × (canonical_info_hash_group_checks database other_hash hash busy ≡ (busy, ok tt))
    ⊎ (is_in_group other_hash group ≡ true)
      × (canonical_info_hash_group_checks database other_hash hash busy
          ≡ (busy, err info_hash_already_exists))
    ⊎ (group ≢ [])
      × (is_in_group other_hash group ≡ false)
      × ((written ≡ ok tt)
            × (canonical_info_hash_group_checks database other_hash hash busy
                ≡ (record { db = 4; sent = [] }, err canonical_info_hash_already_exists))
          ⊎ ((e : DbError) × (written ≡ err e)
              × (canonical_info_hash_group_checks database other_hash hash busy
                  ≡ (record { db = 4; sent = [] }, err (map_database_error_to_service_error e)))))
group_checks_lem_example =
    group_checks_lem database other_hash hash group busy refl 4 written refl
      (λ e. ground (arith, e))

abbrev request : AddTorrentRequest
request = record {
  title = bytes "Sample";
  description = [];
  category_name = bytes "software";
  tags = [];
  torrent_buffer = bytes "d4:infoe";
}

abbrev metadata : Metadata
metadata = record { title = bytes "Sample"; description = []; category_id = 4; tags = [] }

abbrev customized : Torrent
customized = record torrent { announce = some (bytes "udp://t") }

check_upload_ok_example :
    ((user : UserCompact) × (database.get_user_compact_from_id 2 0 ≡ ok user))
    × (world ≡ world)
    × Described database api tracker private codec bencode request metadata world
    × ((uploaded : Torrent) × (decode_and_validate_torrent_file bencode (bytes "d4:infoe")
          ≡ ok (uploaded, hash))
        × (customized
            ≡ customize_announcement_info_for database api tracker private codec bencode uploaded))
    × (canonical_info_hash bencode {E = ServiceError} customized ≡ ok hash)
    × (database.get_torrent_canonical_info_hash_group hash 0 ≡ ok [])
unfolding program
check_upload_ok_example =
    check_upload_ok database api tracker private codec bencode request 2 metadata customized hash
      hash world world refl

calm : Calm database api tracker
calm torrent_id seeders leechers s e = ground (arith, e)

abbrev hash_text : Text
hash_text = bytes "0102030405060708090a0b0c0d0e0f1011121314"

store_upload_lem_example :
    let (w', r) =
      store_upload database api tracker private codec bencode
        ((metadata, customized), (hash, hash))
        2
        world in
    (w'.sent ≡ asked database api tracker private codec bencode hash_text world)
    × ((listed database api tracker private codec bencode hash_text world ≡ ok tt)
          × (w'.db ≡ numbered database api tracker private codec bencode 9 hash_text 1 world)
          × (r
              ≡ ok (record {
                torrent_id = 9;
                info_hash = hash_text;
                original_info_hash = hash_text;
              }))
        ⊎ (w'.db
            ≡ (database.delete_torrent 9
                (numbered database api tracker private codec bencode 9 hash_text 1 world)).0)
          × ((e : TrackerApiError) × (listed database api tracker private codec bencode hash_text
                  world
                ≡ err e)
              × (r ≡ err (from_tracker_error e))))
unfolding program
store_upload_lem_example =
    store_upload_lem database api tracker private codec bencode calm metadata customized hash hash 2
      9 1 hash_text hash_text world (λ s e. ground (arith, e)) refl refl refl

abbrev user : Option ℕ
user = some 2

-- On a private tracker, the user gets a URL of its own.
get_torrent_ok_example :
    (stored : Torrent) × (database.get_torrent_from_info_hash hash 0 ≡ ok stored)
    × (((is_open private ≡ true) ⊎ (user ≡ none))
          × (include_url_as_main_tracker (bytes "udp://t/key") torrent
              ≡ include_url_as_main_tracker tracker.url stored)
          × (record { db = 1; sent = key_request 7 ∷ [] } ≡ world)
        ⊎ (is_open private ≡ false)
          × ((user_id : ℕ) × (url : Text) × (user ≡ some user_id)
              × (get_personal_announce_url database api tracker 100 user_id world
                  ≡ (record { db = 1; sent = key_request 7 ∷ [] }, ok url))
              × (include_url_as_main_tracker (bytes "udp://t/key") torrent
                  ≡ include_url_as_main_tracker url stored)))
unfolding program
get_torrent_ok_example =
    get_torrent_ok database api tracker private codec 100 hash user
      (include_url_as_main_tracker (bytes "udp://t/key") torrent) world
      (record { db = 1; sent = key_request 7 ∷ [] }) refl

delete_torrent_lem_example : delete_torrent database api tracker private codec hash 1 world ≡ (
  record { db = 1; sent = remove_torrent_from_whitelist hash_text ∷ [] },
  ok (record { torrent_id = 9; info_hash = bytes "0102" }),
)
unfolding program
delete_torrent_lem_example =
    delete_torrent_lem database api tracker private codec hash 1 listing 1 hash_text world refl refl
      refl refl
