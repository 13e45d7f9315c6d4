-- ===== src/Services/Login/Tokens.antt =====
-- What a login and the renewal of a token guarantee (src/services/authentication.rs).
use torrust_index.Base.{
  ℕ, ◌≡◌, ap, sym, ◌∙◌, ◌⊎◌, inl, inr, ◌<◌, ◌≤◌, ◌+◌, ◌-◌, ◌%◌, ltb, leb, leb→le, true, false, ◌&&◌,
  not, Text, bytes, text_eq, eq_of_text_eq, Option, none, some, ok, err, Bool-cases, Option-cases,
  Outcome-cases, arith,
}
use torrust_index.Database.{Database}
use torrust_index.Errors.{token_expired, token_invalid}
use torrust_index.Models.{UserAuthentication, UserClaims, UserCompact, UserProfile}
use torrust_index.Services.Login.{
  Crypto, AuthConfig, sign, verify, verify_password, verify_with, login, renewed, renew_token,
  two_weeks, one_week_in_seconds, u64_mod,
}
use torrust_index.Services.World.{World}

module _ (crypto : Crypto) (cfg : AuthConfig) where
  exp_lem :
      (signed_at : ℕ)
      → signed_at + two_weeks < u64_mod
      → (signed_at + two_weeks) % u64_mod ≡ signed_at + two_weeks
  exp_lem signed_at small = ground arith

  -- what was encoded
  encoded :
      (signed_at : ℕ) (user : UserCompact) (token : Text)
      → signed_at + two_weeks < u64_mod
      → sign crypto cfg signed_at user ≡ ok token
      → crypto.encode cfg.secret_key (record { user = user; exp = signed_at + two_weeks })
        ≡ some token
  unfolding sign
  encoded signed_at user token small signed =
      let same =
        ap (λ (t : ℕ). crypto.encode cfg.secret_key (record { user = user; exp = t }))
          (exp_lem signed_at small) in
      elim (Option-cases (
        crypto.encode cfg.secret_key
          (record { user = user; exp = (signed_at + two_weeks) % u64_mod }))) [
            | inl e ↦ ground (arith, signed, e)
            | inr (token', e) ↦ sym same ∙ e ∙ ap some (ground (arith, signed, e))
          ]

  expired :
      (decoded_at now : ℕ) (token : Text) (claims : UserClaims)
      → crypto.decode cfg.secret_key decoded_at token ≡ some claims
      → claims.exp < now
      → verify crypto cfg decoded_at now token ≡ err token_expired
  unfolding verify
  expired decoded_at now token claims d old = ground (arith, d, old)

  -- A token is good for two weeks from its signing: until then it gives back its user's claims. The
  -- decoder must give back what was encoded as long as
  -- it has not expired, and never other claims.
  pub verify-sign :
      ((claims : UserClaims) (token : Text) (t : ℕ)
        → crypto.encode cfg.secret_key claims ≡ some token
        → t ≤ claims.exp
        → crypto.decode cfg.secret_key t token ≡ some claims)
      → ((claims claims' : UserClaims) (token : Text) (t : ℕ)
          → crypto.encode cfg.secret_key claims ≡ some token
          → crypto.decode cfg.secret_key t token ≡ some claims'
          → claims' ≡ claims)
      → (signed_at : ℕ) (user : UserCompact) (token : Text) → signed_at + two_weeks < u64_mod
      → sign crypto cfg signed_at user ≡ ok token
      → (decoded_at now : ℕ) → decoded_at ≤ now
      → (now ≤ signed_at + two_weeks)
          × (verify crypto cfg decoded_at now token
              ≡ ok (record { user = user; exp = signed_at + two_weeks }))
        ⊎ (signed_at + two_weeks < now)
          × ((verify crypto cfg decoded_at now token ≡ err token_expired)
              ⊎ (verify crypto cfg decoded_at now token ≡ err token_invalid))
  unfolding verify
  verify-sign decodes only signed_at user token small signed decoded_at now later =
      let claims : UserClaims = record { user = user; exp = signed_at + two_weeks } in
      let e = encoded signed_at user token small signed in
      elim (Bool-cases (leb now (signed_at + two_weeks))) [
        | inl good ↦
            let fresh = leb→le now (signed_at + two_weeks) good in
            inl (
              fresh,
              ground
                  (arith, decodes claims token decoded_at e (omega (arith, later, fresh)), fresh),
            )
        | inr old ↦
            let after : signed_at + two_weeks < now = ground (arith, old) in
            inr (
              after,
              elim (Option-cases (crypto.decode cfg.secret_key decoded_at token)) [
                | inl d ↦ inr (ground (arith, d))
                | inr (claims', d) ↦ inl (
                    expired decoded_at now token claims' d (
                      omega (
                        arith,
                        ap (λ (c : UserClaims). c.exp) (only claims claims' token decoded_at e d),
                        after,
                      )))
              ],
            )
      ]

  verify_with_ok :
      (algorithm : Option Text) (password password_hash : Text)
      → verify_with crypto cfg algorithm password password_hash ≡ ok tt
      → (algorithm ≡ some (bytes "argon2id")) × (crypto.argon2_verify password password_hash ≡ true)
        ⊎ (algorithm ≡ some (bytes "pbkdf2-sha256"))
          × (crypto.pbkdf2_verify password password_hash ≡ true)
  unfolding verify_with
  verify_with_ok none password password_hash h = ground (arith, h)
  verify_with_ok (some algorithm) password password_hash h =
      elim (Bool-cases (text_eq algorithm (bytes "argon2id"))) [
        | inl e ↦ inl (ap some (eq_of_text_eq algorithm _ e), ground (arith, h, e))
        | inr n ↦ elim (Bool-cases (text_eq algorithm (bytes "pbkdf2-sha256"))) [
          | inl e ↦ inr (ap some (eq_of_text_eq algorithm _ e), ground (arith, h, n, e))
          | inr m ↦ ground (arith, h, n, m)
        ]
      ]

  verify_password_ok :
      (password : Text) (a : UserAuthentication)
      → verify_password crypto cfg password a ≡ ok tt
      → (crypto.algorithm a.password_hash ≡ some (bytes "argon2id"))
          × (crypto.argon2_verify password a.password_hash ≡ true)
        ⊎ (crypto.algorithm a.password_hash ≡ some (bytes "pbkdf2-sha256"))
          × (crypto.pbkdf2_verify password a.password_hash ≡ true)
  unfolding verify_password
  verify_password_ok password a h =
      verify_with_ok (crypto.algorithm a.password_hash) password a.password_hash h

  -- Only who gives the password logs in: the account of the name has a hash by one of the two known
  -- algorithms, which accepts the password; with verification enabled the address is verified. The
  -- user is the account's, the token is freshly signed, and neither database nor tracker changes.
  pub login_ok :
      {S : Type 0} (database : Database S) (now : ℕ) (username password token : Text)
      (user : UserCompact) (w w' : World S)
      → login crypto cfg database now username password w ≡ (w', ok (token, user))
      → (w' ≡ w)
        × ((profile : UserProfile) × (authentication : UserAuthentication)
            × (database.get_user_profile_from_username username w.db ≡ ok profile)
            × (database.get_user_authentication_from_id profile.user_id w.db ≡ ok authentication)
            × ((crypto.algorithm authentication.password_hash ≡ some (bytes "argon2id"))
                  × (crypto.argon2_verify password authentication.password_hash ≡ true)
                ⊎ (crypto.algorithm authentication.password_hash ≡ some (bytes "pbkdf2-sha256"))
                  × (crypto.pbkdf2_verify password authentication.password_hash ≡ true))
            × ((cfg.email_verification_enabled && not profile.email_verified) ≡ false)
            × (database.get_user_compact_from_id profile.user_id w.db ≡ ok user)
            × (sign crypto cfg now user ≡ ok token))
  unfolding login
  login_ok database now username password token user w w' h = (
    ground (arith, h),
    elim (Outcome-cases (database.get_user_profile_from_username username w.db)) [
      | inr (inl (x, e)) ↦ ground (arith, h, e)
      | inr (inr e) ↦ ground (arith, h, e)
      | inl (profile, e) ↦
          elim (Outcome-cases (database.get_user_authentication_from_id profile.user_id w.db)) [
            | inr (inl (x, a)) ↦ ground (arith, h, e, a)
            | inr (inr a) ↦ ground (arith, h, e, a)
            | inl (authentication, a) ↦ (
              profile,
              authentication,
              e,
              a,
              verify_password_ok password authentication (ground (arith, h, e, a)),
              ground (arith, h, e, a),
              ground (arith, h, e, a),
              ground (arith, h, e, a),
            )
          ]
    ],
  )

  left_lem : (t now : ℕ) → now ≤ t → t < u64_mod → (t + u64_mod - now) % u64_mod ≡ t - now
  left_lem t now before small = ground arith

  long_lem :
      (t now : ℕ)
      → now ≤ t
      → t < u64_mod
      → now + one_week_in_seconds ≤ t
      → ltb ((t + u64_mod - now) % u64_mod) one_week_in_seconds ≡ false
  long_lem t now before small long = ground (arith, left_lem t now before small)

  short_lem :
      (t now : ℕ)
      → now ≤ t
      → t < u64_mod
      → t < now + one_week_in_seconds
      → ltb ((t + u64_mod - now) % u64_mod) one_week_in_seconds ≡ true
  short_lem t now before small short = ground (arith, left_lem t now before small)

  left_wrapped :
      (t now : ℕ)
      → t < now
      → now + one_week_in_seconds ≤ u64_mod
      → ltb ((t + u64_mod - now) % u64_mod) one_week_in_seconds ≡ false
  left_wrapped t now passed early =
      let wrapped : (t + u64_mod - now) % u64_mod ≡ t + u64_mod - now = ground arith in
      ground (arith, wrapped)

  -- A renewal of a token that is good, for the user that is read anew, returns the same token when a week or
  -- more is left to it, and a fresh one when less is left. When the token expires between the
  -- test and the second reading of the clock, the unsigned difference wraps, and the same expired
  -- token is returned. The expiry has 64 bits, and the clock is a week or more below
  -- their end.
  pub renew_token_ok :
      {S : Type 0} (database : Database S) (decoded_at verified_at now signed_at : ℕ)
      (token token' : Text) (user : UserCompact) (claims : UserClaims) (w w' : World S)
      → verify crypto cfg decoded_at verified_at token ≡ ok claims
      → now + one_week_in_seconds ≤ u64_mod
      → claims.exp < u64_mod
      → renew_token crypto cfg database decoded_at verified_at now signed_at token w
        ≡ (w', ok (token', user))
      → (w' ≡ w)
        × (database.get_user_compact_from_id claims.user.user_id w.db ≡ ok user)
        × ((now + one_week_in_seconds ≤ claims.exp) × (token' ≡ token)
            ⊎ ((now ≤ claims.exp)
                  × (claims.exp < now + one_week_in_seconds)
                  × (sign crypto cfg signed_at user ≡ ok token')
                ⊎ (claims.exp < now) × (token' ≡ token)))
  unfolding renew_token renewed
  renew_token_ok database decoded_at verified_at now signed_at token token' user claims w w' good
        early small h =
      (
        ground (arith, h, good),
        ground (arith, h, good),
        elim (Bool-cases (leb (now + one_week_in_seconds) claims.exp)) [
          | inl long ↦ inl (
            leb→le (now + one_week_in_seconds) claims.exp long,
            ground (
              arith,
              h,
              good,
              long_lem claims.exp now (ground (arith, long)) small
                  (leb→le (now + one_week_in_seconds) claims.exp long),
            ),
          )
          | inr short ↦ elim (Bool-cases (leb now claims.exp)) [
            | inl within ↦
                let before : now ≤ claims.exp = leb→le now claims.exp within in
                let soon : claims.exp < now + one_week_in_seconds = ground (arith, short) in
                inr (
                  inl (
                    before,
                    soon,
                    ground (arith, h, good, short_lem claims.exp now before small soon),
                  ))
            | inr passed ↦
                let late : claims.exp < now = ground (arith, passed) in
                inr (inr (late, ground (arith, h, good, left_wrapped claims.exp now late early)))
          ]
        ],
      )
