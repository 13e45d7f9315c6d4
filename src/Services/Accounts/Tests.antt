-- ===== src/Services/Accounts/Tests.antt =====
-- Tests of the registration on a sample (src/services/user.rs).
use torrust_index.Base.{
  ◌≡◌, refl, ◌<◌, true, false, some, Option, Text, bytes, text_eq, ok, err, arith, [],
}
use torrust_index.Errors.{failed_to_send_verification_email}
use torrust_index.Samples.{database, crypto, settings, form, world}
use torrust_index.Services.Accounts.{
  register_user, accepted_email, email_text, contains, is_invalid, password_guards, hash_password,
  grant_first, verification_mail, validate_email_address, domain_has_extension,
}
use torrust_index.Services.Accounts.Registered.{register_user_ok, no_mail_no_account}

program : Unit {0}
unfolding register_user accepted_email is_invalid password_guards hash_password grant_first
    verification_mail validate_email_address domain_has_extension text_eq
program = tt

abbrev domain_of : Text → Option Text
domain_of email = some (bytes "index.org")

register_user_ok_example :
    (6 < 15)
    × (15 < 64)
    × (form.password ≡ form.confirm_password)
    × (contains b'@' form.username ≡ false)
    × (is_invalid domain_of form.email ≡ false)
    × ((opt_email : Option Text) × (password_hash : Text) × (accepted_email settings.email_on_signup
            form.email
          ≡ ok opt_email)
        × (crypto.argon2_hash (bytes "salt") form.password ≡ some password_hash)
        × ((database.insert_user_and_get_id form.username (email_text opt_email) password_hash 0).1
            ≡ ok 3))
unfolding program
register_user_ok_example =
    register_user_ok database crypto settings domain_of (λ email name id. true) (bytes "salt") form
      world (record { db = 1; sent = [] }) 3 refl

-- The mail server refuses the mail: the account is inserted and deleted, two statements.
no_mail_no_account_example :
    register_user database crypto settings domain_of
      (λ email name id. false)
      (bytes "salt")
      form
      world
    ≡ (record { db = 2; sent = [] }, err failed_to_send_verification_email)
unfolding program
no_mail_no_account_example =
    no_mail_no_account database crypto settings domain_of (λ email name id. false) (bytes "salt")
      form world (bytes "dave@index.org") (bytes "hash") 3 1 refl refl refl (omega arith)
      (omega arith) refl refl refl refl refl (λ e. ground (arith, e)) (λ e. ground (arith, e))
