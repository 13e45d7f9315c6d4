-- ===== src/Services/Settings.antt =====
-- The settings for the API, src/services/settings.rs: the configuration is an argument.
use torrust_index.Base.{ℕ, ◌≡◌, refl, arith, false, Text, ok, err}
use torrust_index.Config.{TorrustIndex, remove_secrets, get_public, get_site_name, get_api_base_url}
use torrust_index.Config.Secrets.{with_secrets}
use torrust_index.Database.{Database}
use torrust_index.Errors.{ServiceError, unauthorized}
use torrust_index.Models.{UserCompact}
use torrust_index.Services.Users.{require_administrator}
use torrust_index.Services.World.{World, Action, ◌>>◌, pure}

module _ {S : Type 0} (database : Database S) where
  unfoldable pub get_all : TorrustIndex → ℕ → Action S ServiceError TorrustIndex
  unfolding require_administrator
  get_all configuration user_id = do require_administrator database user_id; pure configuration

  unfoldable pub get_all_masking_secrets : TorrustIndex → ℕ → Action S ServiceError TorrustIndex
  unfolding require_administrator remove_secrets
  get_all_masking_secrets configuration user_id = do
    require_administrator database user_id
    pure (remove_secrets configuration)

module _ {S : Type 0} (database : Database S) where
  -- Other secrets in the configuration change nothing of what an administrator is shown with masked secrets, nor of what
  -- anyone is shown; who is no administrator is shown the masked settings as little as the plain ones.
  pub secrets_stay_hidden :
      (token connect_url password secret_key : Text) (c : TorrustIndex) (user_id : ℕ) (w : World S)
      → let c' = with_secrets token connect_url password secret_key c in
        (get_all_masking_secrets database c' user_id w
          ≡ get_all_masking_secrets database c user_id w)
        × (get_public c' ≡ get_public c)
        × (get_site_name c' ≡ get_site_name c)
        × (get_api_base_url c' ≡ get_api_base_url c)
        × ((user : UserCompact)
            → database.get_user_compact_from_id user_id w.db ≡ ok user
            → user.administrator ≡ false
            → (get_all_masking_secrets database c user_id w ≡ (w, err unauthorized))
              × (get_all database c user_id w ≡ (w, err unauthorized)))
  unfolding get_all_masking_secrets get_all get_public get_site_name get_api_base_url
  secrets_stay_hidden token connect_url password secret_key c user_id w =
      (refl, refl, refl, refl, λ user e n. (ground (arith, e, n), ground (arith, e, n)))
