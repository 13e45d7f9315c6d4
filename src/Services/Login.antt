-- ===== src/Services/Login.antt =====
-- Authentication: src/services/authentication.rs. Each reading of the clock is an argument; a time is
-- a `u64`, whose arithmetic wraps in a release build.
pub mod Tokens
mod Tests
use torrust_index.Base.{
  ℕ, ◌+◌, ◌-◌, ◌%◌, ◌^◌, ◌&&◌, not, Bool, Text, bytes, text_eq, Option, none, some, Outcome, ok,
  err, panic, ltb, if◌then◌else◌, refuse_if as refused,
}
use torrust_index.Database.{Database}
use torrust_index.DbError.{DbError}
use torrust_index.Errors.{
  ServiceError, wrong_password_or_username, internal_server_error, email_not_verified,
  token_expired, token_invalid,
}
use torrust_index.Models.{UserAuthentication, UserClaims, UserCompact}
use torrust_index.Services.Users.{get_compact}
use torrust_index.Services.World.{Action, ◌>>=◌, ◌>>◌, pure, refuse_if, result, read}

-- The claims of a verification mail: `VerifyClaims` of src/mailer.rs.
pub record VerifyClaims : Type 0 where
  pub iss : Text
  pub sub : ℕ
  pub exp : ℕ

-- The crates `argon2`, `pbkdf2` and `jsonwebtoken`. A hash whose text cannot be parsed has no
-- algorithm. `decode` with `Validation::new(HS256)` checks the signature and the expiry, so it takes
-- the time; it gives `none` for any error.
pub record Crypto : Type 0 where
  pub algorithm : Text → Option Text
  pub argon2_verify : Text → Text → Bool
  pub pbkdf2_verify : Text → Text → Bool
  pub argon2_hash : Text → Text → Option Text
  pub encode : Text → UserClaims → Option Text
  pub decode : Text → ℕ → Text → Option UserClaims
  pub decode_verify : Text → ℕ → Text → Option VerifyClaims

-- the settings that authentication and registration read
pub data EmailOnSignup : Type 0 where
  required optional no_email : EmailOnSignup

pub record AuthConfig : Type 0 where
  pub email_on_signup : EmailOnSignup
  pub min_password_length : ℕ
  pub max_password_length : ℕ
  pub secret_key : Text
  pub email_verification_enabled : Bool

abbrev pub u64_mod : ℕ
u64_mod = 2 ^ 64

abbrev pub two_weeks : ℕ
two_weeks = 1209600

abbrev pub one_week_in_seconds : ℕ
one_week_in_seconds = 604800

module _ (crypto : Crypto) (cfg : AuthConfig) where
  -- the `match` on the algorithm of the parsed hash
  unfoldable pub verify_with : Option Text → Text → Text → Outcome ServiceError (Unit {0})
  verify_with none password password_hash = err internal_server_error
  verify_with (some algorithm) password password_hash =
      if text_eq algorithm (bytes "argon2id")
      then refused (not (crypto.argon2_verify password password_hash)) wrong_password_or_username
      else if text_eq algorithm (bytes "pbkdf2-sha256")
      then refused (not (crypto.pbkdf2_verify password password_hash)) wrong_password_or_username
      else err wrong_password_or_username

  unfoldable pub verify_password : Text → UserAuthentication → Outcome ServiceError (Unit {0})
  unfolding verify_with
  verify_password password user_authentication =
      verify_with (crypto.algorithm user_authentication.password_hash) password
        user_authentication.password_hash

  -- `JsonWebToken::sign`, whose `expect` panics
  unfoldable pub sign : ℕ → UserCompact → Outcome ServiceError Text
  sign now user =
      elim (crypto.encode cfg.secret_key
        (record { user = user; exp = (now + two_weeks) % u64_mod })) [
          | some token ↦ ok token
          | none ↦ panic
        ]

  -- `JsonWebToken::verify`, whose decoder and whose own test read the clock
  unfoldable pub verify : ℕ → ℕ → Text → Outcome ServiceError UserClaims
  verify decoded_at now token = elim (crypto.decode cfg.secret_key decoded_at token) [
    | none ↦ err token_invalid
    | some claims ↦ if ltb claims.exp now then err token_expired else ok claims
  ]

  module _ {S : Type 0} (database : Database S) where
    unfoldable pub login : ℕ → Text → Text → Action S ServiceError (Text × UserCompact)
    unfolding verify_password sign get_compact
    login now username password = do
      user_profile ←
          read (λ e. wrong_password_or_username) (database.get_user_profile_from_username username)
      user_authentication ←
          read (λ e. internal_server_error)
            (database.get_user_authentication_from_id user_profile.user_id)
      result (λ e. e) (verify_password password user_authentication)
      refuse_if (cfg.email_verification_enabled && not user_profile.email_verified)
          email_not_verified
      user_compact ← get_compact database user_profile.user_id
      token ← result (λ e. e) (sign now user_compact)
      pure (token, user_compact)

    -- the `match` on the time that is left to the token
    unfoldable pub renewed : ℕ → ℕ → Text → UserClaims → UserCompact → Outcome ServiceError Text
    unfolding sign
    renewed now signed_at token claims user_compact =
        if ltb ((claims.exp + u64_mod - now) % u64_mod) one_week_in_seconds
        then sign signed_at user_compact
        else ok token

    unfoldable pub renew_token : ℕ → ℕ → ℕ → ℕ → Text → Action S ServiceError (Text × UserCompact)
    unfolding verify renewed get_compact
    renew_token decoded_at verified_at now signed_at token = do
      claims ← result (λ e. e) (verify decoded_at verified_at token)
      user_compact ← get_compact database claims.user.user_id
      token' ← result (λ e. e) (renewed now signed_at token claims user_compact)
      pure (token', user_compact)
