-- ===== src/Services/Login/Tests.antt =====
-- Tests of the authentication on a sample (src/services/authentication.rs).
use torrust_index.Base.{
  ℕ, ◌≡◌, refl, ◌≤◌, ◌<◌, ◌+◌, ◌⊎◌, ◌&&◌, not, true, false, Option, some, ◌∷◌, Text, bytes, text_eq,
  subst, Bool-cases, inl, inr, ok, err, arith,
}
use torrust_index.Errors.{token_expired, token_invalid}
use torrust_index.Models.{UserClaims, UserProfile, UserAuthentication}
use torrust_index.Samples.{database, crypto, settings, common, world, spelled, claims_of, in_time}
use torrust_index.Services.Login.{
  sign, verify, verify_password, verify_with, login, renewed, renew_token, two_weeks,
  one_week_in_seconds,
}
use torrust_index.Services.Login.Tokens.{verify-sign, login_ok, renew_token_ok}
use torrust_index.Services.Users.{get_compact}

program : Unit {0}
unfolding sign verify verify_password verify_with login renewed renew_token get_compact text_eq
program = tt

-- the user 2's token until `exp`
abbrev token_until : ℕ → Text
token_until exp = exp ∷ 2 ∷ 0 ∷ bytes "bob"

abbrev token : Text
token = token_until 1209700

claims_of-spelled : (claims : UserClaims) → claims_of (spelled claims) ≡ some claims
claims_of-spelled claims = elim (Bool-cases claims.user.administrator) [
  | inl e ↦ rw e refl
  | inr e ↦ rw e refl
]

in_time-spelled :
    (claims : UserClaims) (t : ℕ)
    → t ≤ claims.exp
    → in_time t (claims_of (spelled claims)) ≡ some claims
in_time-spelled claims t h = rw (claims_of-spelled claims) (ground (arith, h))

decode-encode :
    (claims : UserClaims) (token : Text) (t : ℕ)
    → crypto.encode settings.secret_key claims ≡ some token
    → t ≤ claims.exp
    → crypto.decode settings.secret_key t token ≡ some claims
decode-encode claims k t e h =
    let same : spelled claims ≡ k = ground (arith, e) in
    subst (λ (k : Text). in_time t (claims_of k) ≡ some claims) same (in_time-spelled claims t h)

decode-only :
    (claims claims' : UserClaims) (token : Text) (t : ℕ)
    → crypto.encode settings.secret_key claims ≡ some token
    → crypto.decode settings.secret_key t token ≡ some claims'
    → claims' ≡ claims
decode-only claims claims' k t e d =
    let same : k ≡ spelled claims = ground (arith, e) in
    let d' = subst (λ (k : Text). in_time t (claims_of k) ≡ some claims') same d in
    let d'' =
      subst (λ (o : Option UserClaims). in_time t o ≡ some claims') (claims_of-spelled claims) d' in
    ground (arith, d'')

-- A token signed at 100 is good at 1000.
verify-sign_example :
    (1000 ≤ 100 + two_weeks)
      × (verify crypto settings 1000 1000 token ≡ ok (record { user = common; exp = 1209700 }))
    ⊎ (100 + two_weeks < 1000)
      × ((verify crypto settings 1000 1000 token ≡ err token_expired)
          ⊎ (verify crypto settings 1000 1000 token ≡ err token_invalid))
unfolding program
verify-sign_example =
    verify-sign crypto settings decode-encode decode-only 100 common token (omega arith) refl 1000
      1000 (omega arith)

login_ok_example :
    (world ≡ world)
    × ((profile : UserProfile) × (authentication : UserAuthentication)
        × (database.get_user_profile_from_username (bytes "bob") 0 ≡ ok profile)
        × (database.get_user_authentication_from_id profile.user_id 0 ≡ ok authentication)
        × ((crypto.algorithm authentication.password_hash ≡ some (bytes "argon2id"))
              × (crypto.argon2_verify (bytes "secret password") authentication.password_hash ≡ true)
            ⊎ (crypto.algorithm authentication.password_hash ≡ some (bytes "pbkdf2-sha256"))
              × (crypto.pbkdf2_verify (bytes "secret password") authentication.password_hash
                  ≡ true))
        × ((settings.email_verification_enabled && not profile.email_verified) ≡ false)
        × (database.get_user_compact_from_id profile.user_id 0 ≡ ok common)
        × (sign crypto settings 100 common ≡ ok token))
unfolding program
login_ok_example =
    login_ok crypto settings database 100 (bytes "bob") (bytes "secret password") token common world
      world refl

-- A token that is good until 700000 is kept at time 100 and renewed at time 200000.
renew_token_ok_example :
    (world ≡ world)
    × (database.get_user_compact_from_id 2 0 ≡ ok common)
    × ((200000 + one_week_in_seconds ≤ 700000) × (token_until 1409600 ≡ token_until 700000)
        ⊎ ((200000 ≤ 700000)
              × (700000 < 200000 + one_week_in_seconds)
              × (sign crypto settings 200000 common ≡ ok (token_until 1409600))
            ⊎ (700000 < 200000) × (token_until 1409600 ≡ token_until 700000)))
unfolding program
renew_token_ok_example =
    renew_token_ok crypto settings database 200000 200000 200000 200000 (token_until 700000)
      (token_until 1409600) common (record { user = common; exp = 700000 }) world world refl
      (omega arith) (omega arith) refl
