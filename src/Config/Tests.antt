-- ===== src/Config/Tests.antt =====
-- Tests of the settings (src/config.rs).
use torrust_index.Base.{◌≡◌, ◌⊎◌, ◌↔◌, true, false, some, Text, bytes, ok, err}
use torrust_index.Config.{
  default_settings, get_public, get_site_name, get_api_base_url, validate_tracker_config,
}
use torrust_index.Config.Secrets.{with_secrets, validate_tracker_config_iff}
use torrust_index.Errors.{unauthorized}
use torrust_index.Models.{UserCompact}
use torrust_index.Samples.{database, world}
use torrust_index.Services.Index.{is_open}
use torrust_index.Services.Settings.{get_all, get_all_masking_secrets, secrets_stay_hidden}

program : Unit {0}
unfolding is_open
program = tt

validate_tracker_config_iff_example :
    (validate_tracker_config (λ url. some (bytes "udp")) default_settings ≡ ok tt) ↔ (
      (scheme : Text) × (some (bytes "udp") ≡ some scheme)
      × ((is_open default_settings.tracker.mode ≡ true)
          ⊎ (scheme ≡ bytes "http")
          ⊎ (scheme ≡ bytes "https")))
validate_tracker_config_iff_example =
    validate_tracker_config_iff (λ url. some (bytes "udp")) default_settings

secrets_stay_hidden_example :
    let c' = with_secrets (bytes "t") (bytes "u") (bytes "p") (bytes "k") default_settings in
    (get_all_masking_secrets database c' 1 world
      ≡ get_all_masking_secrets database default_settings 1 world)
    × (get_public c' ≡ get_public default_settings)
    × (get_site_name c' ≡ get_site_name default_settings)
    × (get_api_base_url c' ≡ get_api_base_url default_settings)
    × ((user : UserCompact)
        → database.get_user_compact_from_id 1 world.db ≡ ok user
        → user.administrator ≡ false
        → (get_all_masking_secrets database default_settings 1 world ≡ (world, err unauthorized))
          × (get_all database default_settings 1 world ≡ (world, err unauthorized)))
secrets_stay_hidden_example =
    secrets_stay_hidden database (bytes "t") (bytes "u") (bytes "p") (bytes "k") default_settings 1
      world
