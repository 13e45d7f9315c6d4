-- ===== src/Samples.antt =====
-- Sample data for the tests: a torrent, and a database that counts its statements and answers its
-- queries with fixed rows (src/databases/database.rs).
use torrust_index.Base.{
  ℕ, suc, refl, true, false, [], ◌∷◌, Text, bytes, Option, none, some, Outcome, ok, err, ◌==◌, leb,
  text_eq, if◌then◌else◌,
}
use torrust_index.Database.{Database}
use torrust_index.DbError.{DbError}
use torrust_index.InfoHash.{InfoHash}
use torrust_index.Listing.{Category, TorrentListing}
use torrust_index.Models.{
  TrackerKey, TorrentInfo, UserAuthentication, UserClaims, UserCompact, UserProfile,
}
use torrust_index.Parse.{Bencode}
use torrust_index.Services.Accounts.{RegistrationForm}
use torrust_index.Services.Login.{Crypto, AuthConfig, required}
use torrust_index.Services.Tracker.{Api, TrackerConfig, reply}
use torrust_index.Services.World.{World}
use torrust_index.Torrent.{Torrent, TorrentFile, TorrentInfoDictionary, DbTorrent}

abbrev pub twenty : Text
twenty =
    1 ∷ 2 ∷ 3 ∷ 4 ∷ 5 ∷ 6 ∷ 7 ∷ 8 ∷ 9 ∷ 10 ∷ 11 ∷ 12 ∷ 13 ∷ 14 ∷ 15 ∷ 16 ∷ 17 ∷ 18 ∷ 19 ∷ 20 ∷ []

abbrev pub hash : InfoHash
hash = record { bytes = twenty }

abbrev pub file_a : TorrentFile
file_a = record { path = bytes "dir" ∷ bytes "a" ∷ []; length = 3; md5sum = none }

abbrev pub file_b : TorrentFile
file_b = record { path = bytes "b" ∷ []; length = 4; md5sum = none }

abbrev pub info : TorrentInfoDictionary
info = record {
  name = bytes "sample";
  pieces = some twenty;
  piece_length = 16384;
  md5sum = none;
  length = some 5;
  files = none;
  private = none;
  path = none;
  root_hash = none;
  source = some (bytes "site");
}

abbrev pub torrent : Torrent
torrent = record {
  info = info;
  announce = some (bytes "udp://a");
  nodes = none;
  encoding = none;
  httpseeds = none;
  announce_list = some ((bytes "udp://b" ∷ bytes "udp://t" ∷ []) ∷ (bytes "udp://t" ∷ []) ∷ []);
  creation_date = none;
  comment = none;
  created_by = none;
}

-- User 1 is an administrator, user 2 is not.
abbrev pub admin : UserCompact
admin = record { user_id = 1; username = bytes "alice"; administrator = true }

abbrev pub common : UserCompact
common = record { user_id = 2; username = bytes "bob"; administrator = false }

abbrev pub profile : UserProfile
profile = record {
  user_id = 2;
  username = bytes "bob";
  email = bytes "bob@index.org";
  email_verified = true;
  bio = [];
  avatar = [];
}

abbrev pub authentication : UserAuthentication
authentication = record { user_id = 2; password_hash = bytes "hash" }

abbrev pub software : Category
software = record { category_id = 4; name = bytes "software"; num_torrents = 0 }

abbrev pub listing : TorrentListing
listing = record {
  torrent_id = 9;
  uploader = bytes "carol";
  info_hash = bytes "0102";
  title = bytes "Sample";
  description = none;
  category_id = none;
  date_uploaded = bytes "2024-01-01";
  file_size = 5;
  seeders = 0;
  leechers = 0;
  name = bytes "sample";
  comment = none;
  creation_date = none;
  created_by = none;
  encoding = none;
}

abbrev pub db_torrent : DbTorrent
db_torrent = record {
  torrent_id = 9;
  info_hash = bytes "0102";
  name = bytes "sample";
  pieces = [];
  piece_length = 16384;
  private = none;
  root_hash = 0;
  comment = none;
  creation_date = none;
  created_by = none;
  encoding = none;
}

abbrev pub done : ℕ → ℕ × Outcome DbError (Unit {0})
done s = (suc s, ok tt)

abbrev pub inserted : ℕ → ℕ → ℕ × Outcome DbError ℕ
inserted id s = (suc s, ok id)

-- The only category is `software`; no torrent has been uploaded when the state is 0.
abbrev pub database : Database ℕ
database = record {
  insert_user_and_get_id = λ name email password_hash s. inserted 3 s;
  get_user_authentication_from_id = λ id s. ok authentication;
  get_user_profile_from_username = λ name s. ok profile;
  get_user_compact_from_id = λ id s.
      if id == 1 then ok admin else if id == 2 then ok common else err DbError.user_not_found;
  get_user_tracker_key = λ now id s. none;
  ban_user = λ id reason date s. done s;
  grant_admin_role = λ id s. done s;
  verify_email = λ id s. done s;
  add_tracker_key = λ id key s. done s;
  delete_user = λ id s. done s;
  insert_category_and_get_id = λ name s. inserted 5 s;
  get_category_from_id = λ id s. ok software;
  get_category_from_name = λ name s.
      if text_eq name (bytes "software") then ok software else err DbError.category_not_found;
  delete_category = λ name s. done s;
  insert_torrent_and_get_id = λ original torrent uploader metadata s. inserted 9 s;
  get_torrent_from_info_hash = λ h s. ok torrent;
  get_torrent_canonical_info_hash_group = λ h s. if s == 0 then ok [] else ok (hash ∷ []);
  add_info_hash_to_canonical_info_hash_group = λ original canonical s. done s;
  get_torrent_info_from_info_hash = λ h s. ok db_torrent;
  get_torrent_files_from_id = λ id s. ok [];
  get_torrent_announce_urls_from_id = λ id s. ok [];
  get_torrent_listing_from_id = λ id s. ok listing;
  get_torrent_listing_from_info_hash = λ h s. ok listing;
  get_all_torrents_compact = λ s. ok ((9, bytes "0102") ∷ (10, bytes "0304") ∷ []);
  update_torrent_title = λ id title s. done s;
  update_torrent_description = λ id description s. done s;
  update_torrent_category = λ id category s. done s;
  insert_tag_and_get_id = λ name s. inserted 6 s;
  delete_tag = λ id s. done s;
  add_torrent_tag_links = λ id tags s. done s;
  delete_all_torrent_tag_links = λ id s. done s;
  get_tags_for_torrent_id = λ id s. ok [];
  update_tracker_info = λ id url seeders leechers s. done s;
  delete_torrent = λ id s. done s;
}

abbrev pub world : World ℕ
world = record { db = 0; sent = [] }

-- a tracker that has listed what it is asked to, and knows no torrent
abbrev pub key : TrackerKey
key = record { key = bytes "key"; valid_until = 1000 }

abbrev pub numbers : TorrentInfo
numbers = record { info_hash = bytes "0102"; seeders = 2; completed = 1; leechers = 3 }

abbrev pub api : Api
api = record {
  answer = λ sent request. reply 200 (some (bytes "{}"));
  parse_torrent_info = λ body. some numbers;
  parse_tracker_key = λ body. some key;
}

abbrev pub tracker : TrackerConfig
tracker = record { url = bytes "udp://t"; token_valid_seconds = 7 }

abbrev pub settings : AuthConfig
settings = record {
  email_on_signup = required;
  min_password_length = 6;
  max_password_length = 64;
  secret_key = bytes "k";
  email_verification_enabled = true;
}

abbrev pub form : RegistrationForm
form = record {
  username = bytes "dave";
  email = some (bytes "dave@index.org");
  password = bytes "secret password";
  confirm_password = bytes "secret password";
}

-- a hash function that gives the same digest for all texts, and a codec for one torrent
abbrev pub bencode : Bencode
bencode = record {
  Value = Text;
  torrent_of = λ bs. some torrent;
  info_of = λ bs. some bs;
  value_to_bytes = λ v. some v;
  info_to_bytes = λ i. some i.name;
  sha1 = λ bs. twenty;
  length-sha1 = λ bs. refl;
}

-- A token spells its claims out.
abbrev pub spelled : UserClaims → Text
spelled claims =
    claims.exp
    ∷ claims.user.user_id
    ∷ (if claims.user.administrator then 1 else 0)
    ∷ claims.user.username

abbrev pub claims_of : Text → Option UserClaims
claims_of (exp ∷ id ∷ role ∷ name) = some (record {
  user = record { user_id = id; username = name; administrator = role == 1 };
  exp = exp;
})
claims_of _ = none

abbrev pub in_time : ℕ → Option UserClaims → Option UserClaims
in_time now none = none
in_time now (some claims) = if leb now claims.exp then some claims else none

-- one password is accepted
abbrev pub crypto : Crypto
crypto = record {
  algorithm = λ h. some (bytes "argon2id");
  argon2_verify = λ password h. text_eq password (bytes "secret password");
  pbkdf2_verify = λ password h. false;
  argon2_hash = λ salt password. some (bytes "hash");
  encode = λ key claims. some (spelled claims);
  decode = λ key now token. in_time now (claims_of token);
  decode_verify = λ key now token. none;
}
