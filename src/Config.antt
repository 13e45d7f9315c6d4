-- ===== src/Config.antt =====
-- The settings of the application, src/config.rs. The crate config and its readers of TOML are a function from a
-- text to settings, and the crate url a function from a text to the scheme of its URL.
pub mod Secrets
mod Tests
use torrust_index.Base.{
  ℕ, Bool, true, false, not, ◌||◌, ◌&&◌, Option, none, some, List, [], Text, bytes, text_eq,
  Outcome, ok, err, panic, if◌then◌else◌,
}
use torrust_index.Services.Index.{
  TrackerMode, public, private, whitelisted, private_whitelisted, is_open,
}
use torrust_index.Services.Login.{EmailOnSignup, optional}

pub record Website : Type 0 where
  pub name : Text

unfoldable pub is_close : TrackerMode → Bool
unfolding is_open
is_close mode = not (is_open mode)

pub record Tracker : Type 0 where
  pub url : Text
  pub mode : TrackerMode
  pub api_url : Text
  pub token : Text
  pub token_valid_seconds : ℕ

pub record Network : Type 0 where
  pub port : ℕ
  pub base_url : Option Text

pub record Auth : Type 0 where
  pub email_on_signup : EmailOnSignup
  pub min_password_length : ℕ
  pub max_password_length : ℕ
  pub secret_key : Text

pub record DatabaseSettings : Type 0 where
  pub connect_url : Text

pub record Mail : Type 0 where
  pub email_verification_enabled : Bool
  pub from : Text
  pub reply_to : Text
  pub username : Text
  pub password : Text
  pub server : Text
  pub port : ℕ

pub record ImageCache : Type 0 where
  pub max_request_timeout_ms : ℕ
  pub capacity : ℕ
  pub entry_size_limit : ℕ
  pub user_quota_period_seconds : ℕ
  pub user_quota_bytes : ℕ

pub record ApiSettings : Type 0 where
  pub default_torrent_page_size : ℕ
  pub max_torrent_page_size : ℕ

pub record TrackerStatisticsImporter : Type 0 where
  pub torrent_info_update_interval : ℕ
  pub port : ℕ

pub record TorrustIndex : Type 0 where
  pub log_level : Option Text
  pub website : Website
  pub tracker : Tracker
  pub net : Network
  pub auth : Auth
  pub database : DatabaseSettings
  pub mail : Mail
  pub image_cache : ImageCache
  pub api : ApiSettings
  pub tracker_statistics_importer : TrackerStatisticsImporter

-- `Default` of each part
abbrev pub default_tracker : Tracker
default_tracker = record {
  url = bytes "udp://localhost:6969";
  mode = public;
  api_url = bytes "http://localhost:1212";
  token = bytes "MyAccessToken";
  token_valid_seconds = 7257600;
}

abbrev pub default_auth : Auth
default_auth = record {
  email_on_signup = optional;
  min_password_length = 6;
  max_password_length = 64;
  secret_key = bytes "MaxVerstappenWC2021";
}

abbrev pub default_mail : Mail
default_mail = record {
  email_verification_enabled = false;
  from = bytes "example@email.com";
  reply_to = bytes "noreply@email.com";
  username = [];
  password = [];
  server = [];
  port = 25;
}

abbrev pub default_image_cache : ImageCache
default_image_cache = record {
  max_request_timeout_ms = 1000;
  capacity = 128000000;
  entry_size_limit = 4000000;
  user_quota_period_seconds = 3600;
  user_quota_bytes = 64000000;
}

abbrev pub default_settings : TorrustIndex
default_settings = record {
  log_level = none;
  website = record { name = bytes "Torrust" };
  tracker = default_tracker;
  net = record { port = 3001; base_url = none };
  auth = default_auth;
  database = record { connect_url = bytes "sqlite://data.db?mode=rwc" };
  mail = default_mail;
  image_cache = default_image_cache;
  api = record { default_torrent_page_size = 10; max_torrent_page_size = 30 };
  tracker_statistics_importer = record { torrent_info_update_interval = 3600; port = 3002 };
}

unfoldable pub override_tracker_api_token : Text → TorrustIndex → TorrustIndex
override_tracker_api_token tracker_api_token c = record c {
  tracker = record c.tracker { token = tracker_api_token };
}

unfoldable pub override_auth_secret_key : Text → TorrustIndex → TorrustIndex
override_auth_secret_key auth_secret_key c = record c {
  auth = record c.auth { secret_key = auth_secret_key };
}

abbrev pub stars : Text
stars = bytes "***"

unfoldable pub remove_secrets : TorrustIndex → TorrustIndex
remove_secrets c = record c {
  tracker = record c.tracker { token = stars };
  database = record { connect_url = stars };
  mail = record c.mail { password = stars };
  auth = record c.auth { secret_key = stars };
}

pub record Info : Type 0 where
  pub index_toml : Text
  pub tracker_api_token : Option Text
  pub auth_secret_key : Option Text

-- `Error` and `ValidationError`, less the causes that are only shown
pub data ConfigError : Type 0 where
  unable_to_load_from_environment_variable unable_to_load_from_config_file config_error infallible :
      ConfigError

pub data ValidationError : Type 0 where
  invalid_tracker_url udp_trackers_in_private_mode_not_supported : ValidationError

-- `Info::new`: the settings come from the first variable, else from the file that the second one
-- names, else from the default file.
unfoldable pub info_of :
    (Text → Option Text)
    → (Text → Option Text)
    → Text
    → Text
    → Text
    → Text
    → Text
    → Outcome ConfigError Info
info_of var read_to_string config path_config default_path token secret =
    let with_text : Text → Info = λ toml. record {
      index_toml = toml;
      tracker_api_token = var token;
      auth_secret_key = var secret;
    } in
    elim (var config) [
      | some toml ↦ ok (with_text toml)
      | none ↦
          elim (read_to_string
            (elim (var path_config) [ some path ↦ path | none ↦ default_path ])) [
              | some toml ↦ ok (with_text toml)
              | none ↦ err unable_to_load_from_config_file
            ]
    ]

abbrev pub overridden :
    (Text → TorrustIndex → TorrustIndex) → Option Text → TorrustIndex → TorrustIndex
overridden f none c = c
overridden f (some text) c = f text c

-- `Configuration::load`
unfoldable pub load : (Text → Option TorrustIndex) → Info → Outcome ConfigError TorrustIndex
unfolding override_tracker_api_token override_auth_secret_key
load parse info = elim (parse info.index_toml) [
  | none ↦ err config_error
  | some index_config ↦ ok (
      overridden override_auth_secret_key info.auth_secret_key
        (overridden override_tracker_api_token info.tracker_api_token index_config))
]

pub record ConfigurationPublic : Type 0 where
  pub website_name : Text
  pub tracker_url : Text
  pub tracker_mode : TrackerMode
  pub email_on_signup : EmailOnSignup

unfoldable pub get_public : TorrustIndex → ConfigurationPublic
get_public c = record {
  website_name = c.website.name;
  tracker_url = c.tracker.url;
  tracker_mode = c.tracker.mode;
  email_on_signup = c.auth.email_on_signup;
}

unfoldable pub get_site_name : TorrustIndex → Text
get_site_name c = c.website.name

unfoldable pub get_api_base_url : TorrustIndex → Option Text
get_api_base_url c = c.net.base_url

unfoldable pub validate_tracker_config :
    (Text → Option Text) → TorrustIndex → Outcome ValidationError (Unit {0})
unfolding is_close
validate_tracker_config scheme_of c = elim (scheme_of c.tracker.url) [
  | none ↦ err invalid_tracker_url
  | some scheme ↦
      if is_close c.tracker.mode
        && (not (text_eq scheme (bytes "http")) && not (text_eq scheme (bytes "https")))
      then err udp_trackers_in_private_mode_not_supported
      else ok tt
]
