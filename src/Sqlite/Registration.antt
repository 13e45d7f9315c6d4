-- ===== src/Sqlite/Registration.antt =====
-- What the transaction of a new user does to valid tables (src/databases/sqlite.rs).
use torrust_index.Base.{
  ℕ, ◌+◌, ◌≡◌, refl, sym, ap, ◌∙◌, false, inl, inr, none, [], ◌∷◌, ◌++◌, Text, ok, err,
  if◌then◌else◌, Bool-cases, arith,
}
use torrust_index.DbError.{DbError}
use torrust_index.Sql.{number_eq, text_column_eq, has}
use torrust_index.Sql.Laws.{has_insert_new, first_insert_new}
use torrust_index.Sql.Constraints.{fresh, fresh_child}
use torrust_index.Sqlite.{ProfileRow, Users, Statement, ◌>>◌, pure, rolled_back, null_if_empty}
use torrust_index.Sqlite.Steps.{then-ok, then-err}
use torrust_index.Sqlite.Accounts.{
  user_key, authentication_key, profile_key, username_key, has_email, text_of, insert_user,
  insert_authentication, insert_profile, insert_user_and_get_id, get_user_authentication_from_id,
  get_user_profile_from_username, get_user_compact_from_id,
}
use torrust_index.Sqlite.Schema.{UsersAreValid}

abbrev pub with_user : Text → Text → Text → Users → Users
with_user username email password_hash t =
    let user_id = t.last_user + 1 in
    record t {
      users = t.users ++ record { user_id = user_id; administrator = false } ∷ [];
      last_user = user_id;
      authentications =
          t.authentications ++ record { user_id = user_id; password_hash = password_hash } ∷ [];
      profiles =
          t.profiles
          ++ record {
            user_id = user_id;
            username = username;
            email = null_if_empty email;
            email_verified = false;
            bio = none;
            avatar = none;
          }
            ∷ [];
    }

-- the tables after the first two statements
abbrev before_profile : Text → Users → Users
before_profile password_hash t =
    let user_id = t.last_user + 1 in
    record t {
      users = t.users ++ record { user_id = user_id; administrator = false } ∷ [];
      last_user = user_id;
      authentications =
          t.authentications ++ record { user_id = user_id; password_hash = password_hash } ∷ [];
    }

module _ (username email password_hash : Text) (t : Users) (v : UsersAreValid t) where
  authentication_added :
      insert_authentication (t.last_user + 1) password_hash (insert_user t).0
      ≡ (before_profile password_hash t, ok tt)
  unfolding insert_user insert_authentication
  authentication_added =
      rw
        (
          fresh_child user_key authentication_key t.last_user t.authentications t.users
              v.users.given v.authentications.owners,
          has_insert_new user_key t.users
              (record { user_id = t.last_user + 1; administrator = false }),
        )
        refl

  -- the statement of the profile, after the first two
  abbrev profile_step : Statement Users ℕ
  profile_step = insert_profile (t.last_user + 1) username email >> pure (t.last_user + 1)

  profile_refused :
      (e : DbError)
      → insert_profile (t.last_user + 1) username email (before_profile password_hash t)
        ≡ (before_profile password_hash t, err e)
      → insert_user_and_get_id username email password_hash t ≡ (t, err e)
  unfolding insert_user_and_get_id insert_user
  profile_refused e h = ap (rolled_back t) (
      then-ok (insert_authentication (t.last_user + 1) password_hash) (λ _. profile_step)
        (insert_user t).0 (before_profile password_hash t) tt authentication_added
      ∙ then-err (insert_profile (t.last_user + 1) username email) (λ _. pure (t.last_user + 1))
          (before_profile password_hash t) (before_profile password_hash t) e h)

  profile_added :
      insert_profile (t.last_user + 1) username email (before_profile password_hash t)
        ≡ (with_user username email password_hash t, ok tt)
      → insert_user_and_get_id username email password_hash t
        ≡ (with_user username email password_hash t, ok (t.last_user + 1))
  unfolding insert_user_and_get_id insert_user
  profile_added h = ap (rolled_back t) (
      then-ok (insert_authentication (t.last_user + 1) password_hash) (λ _. profile_step)
        (insert_user t).0 (before_profile password_hash t) tt authentication_added
      ∙ then-ok (insert_profile (t.last_user + 1) username email) (λ _. pure (t.last_user + 1))
          (before_profile password_hash t) (with_user username email password_hash t) tt h)

  -- On valid tables, a taken address is reported before a taken username, and then nothing is changed; a
  -- free username with a free or empty address gives the user, the password and the profile under the next id.
  pub insert_user_and_get_id_lem : insert_user_and_get_id username email password_hash t ≡ (
      if has_email (null_if_empty email) t.profiles
      then (t, err DbError.email_taken)
      else if has username_key username t.profiles
      then (t, err DbError.username_taken)
      else (with_user username email password_hash t, ok (t.last_user + 1)))
  unfolding insert_profile
  insert_user_and_get_id_lem =
      let p =
        fresh_child user_key profile_key t.last_user t.profiles t.users v.users.given
          v.profiles.owners in
      let u =
        has_insert_new user_key t.users
          (record { user_id = t.last_user + 1; administrator = false }) in
      elim (Bool-cases (has_email (null_if_empty email) t.profiles)) [
        | inl e ↦ rw e (profile_refused DbError.email_taken (rw (p, e) refl))
        | inr e ↦ elim (Bool-cases (has username_key username t.profiles)) [
          | inl n ↦ rw (n, e) (profile_refused DbError.username_taken (rw (p, n, e) refl))
          | inr n ↦ rw (n, e) (profile_added (rw (p, n, e, u) refl))
        ]
      ]

  registered :
      (t' : Users) (user_id : ℕ)
      → insert_user_and_get_id username email password_hash t ≡ (t', ok user_id)
      → (has username_key username t.profiles ≡ false)
        × (t' ≡ with_user username email password_hash t)
        × (user_id ≡ t.last_user + 1)
  registered t' user_id h =
      let e = sym insert_user_and_get_id_lem ∙ h in
      elim (Bool-cases (has_email (null_if_empty email) t.profiles)) [
        | inl m ↦ ground (arith, m, e)
        | inr m ↦ elim (Bool-cases (has username_key username t.profiles)) [
          | inl n ↦ ground (arith, n, m, e)
          | inr n ↦
              let added : (with_user username email password_hash t, ok (t.last_user + 1))
                  ≡ (t', ok user_id) =
                rw (n, m) at e in
              (n, sym (ap (λ r. r.0) added), ground (arith, ap (λ r. r.1) added))
        ]
      ]

  -- what the rows of a new user answer
  found :
      has username_key username t.profiles ≡ false
      → let t' = with_user username email password_hash t in
        let user_id = t.last_user + 1 in
        (get_user_profile_from_username username t'
          ≡ ok (record {
            user_id = user_id;
            username = username;
            email = text_of (null_if_empty email);
            email_verified = false;
            bio = [];
            avatar = [];
          }))
        × (get_user_authentication_from_id user_id t'
            ≡ ok (record { user_id = user_id; password_hash = password_hash }))
        × (get_user_compact_from_id user_id t'
            ≡ ok (record { user_id = user_id; username = username; administrator = false }))
  unfolding get_user_profile_from_username get_user_authentication_from_id get_user_compact_from_id
  found n =
      let id : ℕ = t.last_user + 1 in
      let profile : ProfileRow = record {
        user_id = id;
        username = username;
        email = null_if_empty email;
        email_verified = false;
        bio = none;
        avatar = none;
      } in
      (
        rw (first_insert_new username_key t.profiles profile n) refl,
        rw
            (first_insert_new authentication_key t.authentications
              (record { user_id = id; password_hash = password_hash })
              (fresh_child user_key authentication_key t.last_user t.authentications t.users
                v.users.given v.authentications.owners))
            refl,
        rw
            (
              first_insert_new user_key t.users (record { user_id = id; administrator = false })
                  (fresh user_key t.last_user t.users v.users.given),
              first_insert_new profile_key t.profiles profile (
                  fresh_child user_key profile_key t.last_user t.profiles t.users v.users.given
                    v.profiles.owners),
            )
            refl,
      )

  -- After a registration that succeeds, the username leads to the profile, and the new id to the password and to a
  -- user who is no administrator.
  pub new_user_is_found :
      (t' : Users) (user_id : ℕ)
      → insert_user_and_get_id username email password_hash t ≡ (t', ok user_id)
      → (get_user_profile_from_username username t'
          ≡ ok (record {
            user_id = user_id;
            username = username;
            email = text_of (null_if_empty email);
            email_verified = false;
            bio = [];
            avatar = [];
          }))
        × (get_user_authentication_from_id user_id t'
            ≡ ok (record { user_id = user_id; password_hash = password_hash }))
        × (get_user_compact_from_id user_id t'
            ≡ ok (record { user_id = user_id; username = username; administrator = false }))
  new_user_is_found t' user_id h =
      let (n, e1, e2) = registered t' user_id h in rw (e1, e2) (found n)
