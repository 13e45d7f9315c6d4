-- ===== src/Services/Accounts.antt =====
-- Registration, verification of e-mail addresses, and bans: src/services/user.rs and
-- src/utils/validation.rs.
pub mod Registered
mod Tests
use torrust_index.Base.{
  ℕ, ◌==◌, ◌&&◌, not, Bool, true, false, Text, bytes, text_eq, length, List, [], ◌∷◌, Option, none,
  some, Outcome, ok, err, panic, ltb, leb, if◌then◌else◌,
}
use torrust_index.Database.{Database}
use torrust_index.DbError.{DbError}
use torrust_index.Errors.{
  ServiceError, email_missing, email_invalid, passwords_dont_match, password_too_short,
  password_too_long, internal_server_error, username_invalid, failed_to_send_verification_email,
  database_error, map_database_error_to_service_error,
}
use torrust_index.Services.Login.{
  Crypto, AuthConfig, EmailOnSignup, required, optional, no_email, VerifyClaims,
}
use torrust_index.Services.Users.{require_administrator}
use torrust_index.Services.World.{
  Action, ◌>>=◌, ◌>>◌, pure, raise, refuse_if, result, read, write, drop_result,
}

pub record RegistrationForm : Type 0 where
  pub username : Text
  pub email : Option Text
  pub password : Text
  pub confirm_password : Text

abbrev pub contains : ℕ → Text → Bool
contains c [] = false
contains c (x ∷ s) = if x == c then true else contains c s

abbrev pub min_domain_length : ℕ
min_domain_length = 4

-- The pattern `.*\..*` matches a text exactly when it has a dot.
unfoldable pub domain_has_extension : Text → Bool
domain_has_extension domain =
    if ltb (length domain) min_domain_length then false else contains b'.' domain

-- The crate `email_address` gives the domain of an address that is valid.
unfoldable pub validate_email_address : (Text → Option Text) → Text → Bool
unfolding domain_has_extension
validate_email_address domain_of email = elim (domain_of email) [
  | none ↦ false
  | some domain ↦ domain_has_extension domain
]

unfoldable pub accepted_email : EmailOnSignup → Option Text → Outcome ServiceError (Option Text)
accepted_email required none = err email_missing
accepted_email required (some email) = ok (some email)
accepted_email no_email email = ok none
accepted_email optional email = ok email

abbrev pub email_text : Option Text → Text
email_text none = []
email_text (some email) = email

-- the guard on the address in the form, which is read whatever the settings say
unfoldable pub is_invalid : (Text → Option Text) → Option Text → Bool
unfolding validate_email_address
is_invalid domain_of none = false
is_invalid domain_of (some email) = not (validate_email_address domain_of email)

module _ {S : Type 0} (database : Database S) (crypto : Crypto) (cfg : AuthConfig)
    (domain_of : Text → Option Text) (is_sent : Text → Text → ℕ → Bool) where
  -- the hash of the password, with the salt that was generated
  unfoldable pub hash_password : Text → Text → Outcome ServiceError Text
  hash_password salt password = elim (crypto.argon2_hash salt password) [
    | some h ↦ ok h
    | none ↦ err internal_server_error
  ]

  -- the verification mail, sent when it is enabled and there is an address
  unfoldable pub verification_mail :
      Bool → Option Text → Text → ℕ → Action S ServiceError (Unit {0})
  verification_mail false opt_email username user_id = pure tt
  verification_mail true none username user_id = pure tt
  verification_mail true (some email) username user_id =
      if is_sent email username user_id
      then pure tt
      else (drop_result {E = DbError} (write (λ e. e) (database.delete_user user_id))
          >> raise failed_to_send_verification_email)

  -- the first account gets administrator rights
  unfoldable pub grant_first : ℕ → Action S ServiceError (Unit {0})
  grant_first user_id =
      if user_id == 1
      then drop_result {E = DbError} (write (λ e. e) (database.grant_admin_role user_id))
      else pure tt

  -- the guards on the password, its length counted in bytes
  unfoldable pub password_guards : RegistrationForm → Action S ServiceError (Unit {0})
  password_guards form = do
    refuse_if (not (text_eq form.password form.confirm_password)) passwords_dont_match
    refuse_if (leb (length form.password) cfg.min_password_length) password_too_short
    refuse_if (leb cfg.max_password_length (length form.password)) password_too_long

  unfoldable pub register_user : Text → RegistrationForm → Action S ServiceError ℕ
  unfolding accepted_email is_invalid password_guards hash_password grant_first verification_mail
      map_database_error_to_service_error
  register_user salt form = do
    opt_email ← result (λ e. e) (accepted_email cfg.email_on_signup form.email)
    refuse_if (is_invalid domain_of form.email) email_invalid
    password_guards form
    password_hash ← result (λ e. e) (hash_password salt form.password)
    refuse_if (contains b'@' form.username) username_invalid
    user_id ←
        write map_database_error_to_service_error
          (database.insert_user_and_get_id form.username (email_text opt_email) password_hash)
    grant_first user_id
    verification_mail cfg.email_verification_enabled opt_email form.username user_id
    pure user_id

  -- the claims of a token that is good and comes from a verification mail
  unfoldable pub email_claims : Option VerifyClaims → Option VerifyClaims
  email_claims none = none
  email_claims (some claims) =
      if text_eq claims.iss (bytes "email-verification") then some claims else none

  unfoldable pub verify_claims : Option VerifyClaims → Action S ServiceError Bool
  verify_claims none = pure false
  verify_claims (some claims) =
      write (λ e. database_error) (database.verify_email claims.sub) >> pure true

  unfoldable pub verify_email : ℕ → Text → Action S ServiceError Bool
  unfolding email_claims verify_claims
  verify_email now token =
      verify_claims (email_claims (crypto.decode_verify cfg.secret_key now token))

module _ {S : Type 0} (database : Database S) where
  -- `DbBannedUserList::add`
  unfoldable pub add_to_banned : ℕ → Action S ServiceError (Unit {0})
  unfolding map_database_error_to_service_error
  add_to_banned user_id =
      write map_database_error_to_service_error
        (database.ban_user user_id (bytes "no reason") (bytes "9999-01-01 00:00:00"))

  unfoldable pub ban_user : Text → ℕ → Action S ServiceError (Unit {0})
  unfolding require_administrator add_to_banned map_database_error_to_service_error
  ban_user username_to_be_banned user_id = do
    require_administrator database user_id
    user_profile ←
        read map_database_error_to_service_error
          (database.get_user_profile_from_username username_to_be_banned)
    add_to_banned user_profile.user_id
