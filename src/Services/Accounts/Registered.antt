-- ===== src/Services/Accounts/Registered.antt =====
-- What the registration of a user guarantees (src/services/user.rs).
use torrust_index.Base.{
  ℕ, ◌≡◌, ◌≢◌, refl, inl, inr, ◌<◌, Bool, true, false, Text, text_eq, length, Option, some, ok, err,
  panic, ◌==◌, Bool-cases, Option-cases, Outcome-cases, if◌then◌else◌, arith, eq_of_text_eq,
  text_eq_refl, subst,
}
use torrust_index.Database.{Database}
use torrust_index.Errors.{failed_to_send_verification_email}
use torrust_index.Services.Accounts.{
  RegistrationForm, register_user, password_guards, accepted_email, email_text, contains,
  is_invalid, hash_password, grant_first, verification_mail,
}
use torrust_index.Services.Login.{Crypto, AuthConfig}
use torrust_index.Services.Steps.{dropped, dropped_then}
use torrust_index.Services.World.{World, raise}

module _ {S : Type 0} (database : Database S) (crypto : Crypto) (cfg : AuthConfig)
    (domain_of : Text → Option Text) (is_sent : Text → Text → ℕ → Bool) where
  -- Who is registered has passed every guard: the password is longer in bytes than the minimum and
  -- shorter than the maximum, the confirmation is equal to it, the name has no `@`, and an address in
  -- the form is good. The account was inserted with the address that the settings ask for and the
  -- hash of the password.
  pub register_user_ok :
      (salt : Text) (form : RegistrationForm) (w w' : World S) (user_id : ℕ)
      → register_user database crypto cfg domain_of is_sent salt form w ≡ (w', ok user_id)
      → (cfg.min_password_length < length form.password)
        × (length form.password < cfg.max_password_length)
        × (form.password ≡ form.confirm_password)
        × (contains b'@' form.username ≡ false)
        × (is_invalid domain_of form.email ≡ false)
        × ((opt_email : Option Text) × (password_hash : Text) × (accepted_email cfg.email_on_signup
                form.email
              ≡ ok opt_email)
            × (crypto.argon2_hash salt form.password ≡ some password_hash)
            × ((database.insert_user_and_get_id form.username
                  (email_text opt_email)
                  password_hash
                  w.db).1
                ≡ ok user_id))
  unfolding register_user password_guards hash_password
  register_user_ok salt form w w' user_id h = (
    ground (arith, h),
    ground (arith, h),
    ground (arith, h, eq_of_text_eq form.password form.confirm_password),
    ground (arith, h),
    ground (arith, h),
    elim (Outcome-cases (accepted_email cfg.email_on_signup form.email)) [
      | inl (opt_email, e) ↦ elim (Option-cases (crypto.argon2_hash salt form.password)) [
        | inr (password_hash, p) ↦ (opt_email, password_hash, e, p, ground (arith, h, e, p))
        | inl p ↦ ground (arith, h, e, p)
      ]
      | inr (inl (x, e)) ↦ ground (arith, h, e)
      | inr (inr e) ↦ ground (arith, h, e)
    ],
  )

  -- the state after the first account got its rights
  abbrev pub with_rights : ℕ → S → S
  with_rights user_id s = if user_id == 1 then (database.grant_admin_role user_id s).0 else s

  guards_lem :
      (form : RegistrationForm) (w : World S)
      → form.password ≡ form.confirm_password
      → cfg.min_password_length < length form.password
      → length form.password < cfg.max_password_length
      → password_guards database crypto cfg domain_of is_sent form w ≡ (w, ok tt)
  unfolding password_guards
  guards_lem form w p n m =
      ground
        (arith, n, m, subst (λ q. text_eq form.password q ≡ true) p (text_eq_refl form.password))

  grant_lem :
      (user_id : ℕ) (w : World S)
      → (database.grant_admin_role user_id w.db).1 ≢ panic
      → grant_first database crypto cfg domain_of is_sent user_id w
        ≡ (record w { db = with_rights user_id w.db }, ok tt)
  unfolding grant_first
  grant_lem user_id w g = elim (Bool-cases (user_id == 1)) [
    | inl e ↦ rw (e, grant_first) (dropped (database.grant_admin_role user_id) w g)
    | inr e ↦ rw (e, grant_first) refl
  ]

  unsent_lem :
      (email username : Text) (user_id : ℕ) (w : World S)
      → is_sent email username user_id ≡ false
      → (database.delete_user user_id w.db).1 ≢ panic
      → verification_mail database crypto cfg domain_of is_sent true (some email) username user_id w
        ≡ (
          record w { db = (database.delete_user user_id w.db).0 },
          err failed_to_send_verification_email,
        )
  unfolding verification_mail
  unsent_lem email username user_id w f d =
      rw (f, verification_mail)
        (dropped_then (database.delete_user user_id) (raise failed_to_send_verification_email) w d)

  -- With verification enabled, an account whose verification mail cannot be sent is deleted again,
  -- and the answer is `FailedToSendVerificationEmail`. The database must not panic.
  pub no_mail_no_account :
      (salt : Text) (form : RegistrationForm) (w : World S) (email password_hash : Text)
      (user_id : ℕ) (s : S)
      → accepted_email cfg.email_on_signup form.email ≡ ok (some email)
      → is_invalid domain_of form.email ≡ false
      → form.password ≡ form.confirm_password
      → cfg.min_password_length < length form.password
      → length form.password < cfg.max_password_length
      → crypto.argon2_hash salt form.password ≡ some password_hash
      → contains b'@' form.username ≡ false
      → cfg.email_verification_enabled ≡ true
      → database.insert_user_and_get_id form.username email password_hash w.db ≡ (s, ok user_id)
      → is_sent email form.username user_id ≡ false
      → (database.grant_admin_role user_id s).1 ≢ panic
      → (database.delete_user user_id (with_rights user_id s)).1 ≢ panic
      → register_user database crypto cfg domain_of is_sent salt form w ≡ (
        record { db = (database.delete_user user_id (with_rights user_id s)).0; sent = w.sent },
        err failed_to_send_verification_email,
      )
  unfolding register_user
  no_mail_no_account salt form w email password_hash user_id s a v p n m h u e i f g d =
      let w1 : World S = record { db = s; sent = w.sent } in
      let w2 : World S = record { db = with_rights user_id s; sent = w.sent } in
      ground (
        arith,
        a,
        v,
        guards_lem form w p n m,
        h,
        u,
        e,
        i,
        grant_lem user_id w1 g,
        unsent_lem email form.username user_id w2 f d,
      )
