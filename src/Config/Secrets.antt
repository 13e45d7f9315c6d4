-- ===== src/Config/Secrets.antt =====
-- What readers of the settings see of their secrets (src/config.rs, src/services/settings.rs).
use torrust_index.Base.{
  ◌≡◌, refl, ◌⊎◌, inl, inr, ◌↔◌, true, Option, some, Text, bytes, text_eq, text_eq_iff,
  eq_of_text_eq, Option-cases, Bool-cases, ok, arith,
}
use torrust_index.Config.{TorrustIndex, Info, remove_secrets, load, validate_tracker_config}
use torrust_index.Services.Index.{is_open}

-- the same settings with other secrets
abbrev pub with_secrets : Text → Text → Text → Text → TorrustIndex → TorrustIndex
with_secrets token connect_url password secret_key c = record c {
  tracker = record c.tracker { token = token };
  database = record { connect_url = connect_url };
  mail = record c.mail { password = password };
  auth = record c.auth { secret_key = secret_key };
}

remove_secrets_hides :
    (token connect_url password secret_key : Text) (c : TorrustIndex)
    → remove_secrets (with_secrets token connect_url password secret_key c) ≡ remove_secrets c
unfolding remove_secrets
remove_secrets_hides token connect_url password secret_key c = refl

-- The settings that `load` gives are those of the file, but a token or a key of the environment stands
-- in place of the file's.
pub load_overrides :
    (parse : Text → Option TorrustIndex) (info : Info) (file : TorrustIndex)
    (token secret_key : Text)
    → parse info.index_toml ≡ some file
    → load parse (record info { tracker_api_token = some token; auth_secret_key = some secret_key })
      ≡ ok (with_secrets token file.database.connect_url file.mail.password secret_key file)
unfolding load
load_overrides parse info file token secret_key h = rw (h, load) refl

-- The settings are valid exactly when the URL of the tracker is one and, for a private tracker, is not
-- of UDP but of HTTP or HTTPS.
pub validate_tracker_config_iff :
    (scheme_of : Text → Option Text) (c : TorrustIndex)
    → (validate_tracker_config scheme_of c ≡ ok tt) ↔ (
        (scheme : Text) × (scheme_of c.tracker.url ≡ some scheme)
        × ((is_open c.tracker.mode ≡ true) ⊎ (scheme ≡ bytes "http") ⊎ (scheme ≡ bytes "https")))
unfolding validate_tracker_config
validate_tracker_config_iff scheme_of c = (
  (λ h. elim (Option-cases (scheme_of c.tracker.url)) [
    | inl n ↦ ground (arith, n, h)
    | inr (scheme, e) ↦ (scheme, e, allowed scheme e h)
  ]),
  λ (scheme, e, d).
      ground (arith, e, d, text_eq_iff scheme (bytes "http"), text_eq_iff scheme (bytes "https")),
)
  where
    allowed :
        (scheme : Text)
        → scheme_of c.tracker.url ≡ some scheme
        → validate_tracker_config scheme_of c ≡ ok tt
        → (is_open c.tracker.mode ≡ true) ⊎ (scheme ≡ bytes "http") ⊎ (scheme ≡ bytes "https")
    allowed scheme e h = elim (Bool-cases (is_open c.tracker.mode)) [
      | inl o ↦ inl o
      | inr o ↦ elim (Bool-cases (text_eq scheme (bytes "http"))) [
        | inl a ↦ inr (inl (eq_of_text_eq scheme (bytes "http") a))
        | inr a ↦ elim (Bool-cases (text_eq scheme (bytes "https"))) [
          | inl b ↦ inr (inr (eq_of_text_eq scheme (bytes "https") b))
          | inr b ↦ ground (arith, e, h, o, a, b)
        ]
      ]
    ]
