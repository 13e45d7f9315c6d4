-- ===== src/Sqlite/Accounts.antt =====
-- Users, profiles, keys and bans in SQLite (src/databases/sqlite.rs).
use torrust_index.Base.{
  ℕ, ◌+◌, ◌-◌, ◌^◌, Bool, true, false, not, ◌||◌, Option, none, some, List, [], ◌∷◌, ◌++◌, Text,
  text_eq, retain, Outcome, ok, err, ltb, ◌==◌, length, if◌then◌else◌,
}
use torrust_index.DbError.{DbError}
use torrust_index.Models.{TrackerKey, UserAuthentication, UserCompact, UserProfile}
use torrust_index.Sql.{number_eq, text_column_eq, has, first, cascade, update_where}
use torrust_index.Sqlite.{
  UserRow, ProfileRow, KeyRow, BanRow, Users, Statement, ◌>>=◌, ◌>>◌, pure, transaction, fetch_one,
  affected, null_if_empty,
}

abbrev pub user_key : UserRow → ℕ
user_key r = r.user_id

abbrev pub authentication_key : UserAuthentication → ℕ
authentication_key r = r.user_id

abbrev pub profile_key : ProfileRow → ℕ
profile_key r = r.user_id

abbrev pub username_key : ProfileRow → Text
username_key r = r.username

abbrev pub key_user : KeyRow → ℕ
key_user r = r.user_id

abbrev pub ban_user_key : BanRow → ℕ
ban_user_key r = r.user_id

-- the address is taken: `NULL` is equal to nothing
unfoldable pub has_email : Option Text → List ProfileRow → Bool
has_email none rs = false
has_email (some email) [] = false
has_email (some email) (r ∷ rs) =
    (elim r.email [ none ↦ false | some email' ↦ text_eq email' email ])
    || has_email (some email) rs

unfoldable pub insert_user : Statement Users ℕ
insert_user t =
    let user_id = t.last_user + 1 in
    (
      record t {
        users = t.users ++ record { user_id = user_id; administrator = false } ∷ [];
        last_user = user_id;
      },
      ok user_id,
    )

unfoldable pub insert_authentication : ℕ → Text → Statement Users (Unit {0})
insert_authentication user_id password_hash t =
    if has authentication_key user_id t.authentications || not (has user_key user_id t.users)
    then (t, err DbError.error)
    else (
      record t {
        authentications =
            t.authentications ++ record { user_id = user_id; password_hash = password_hash } ∷ [];
      },
      ok tt,
    )

-- The message of the engine names the column whose constraint fails: the index of the address is tested
-- before the one of the username.
unfoldable pub insert_profile : ℕ → Text → Text → Statement Users (Unit {0})
unfolding has_email
insert_profile user_id username email t =
    if has profile_key user_id t.profiles
    then (t, err DbError.error)
    else if has_email (null_if_empty email) t.profiles
    then (t, err DbError.email_taken)
    else if has username_key username t.profiles
    then (t, err DbError.username_taken)
    else if not (has user_key user_id t.users)
    then (t, err DbError.error)
    else (
      record t {
        profiles =
            t.profiles
            ++ record {
              user_id = user_id;
              username = username;
              email = null_if_empty email;
              email_verified = false;
              bio = none;
              avatar = none;
            }
              ∷ [];
      },
      ok tt,
    )

unfoldable pub insert_user_and_get_id : Text → Text → Text → Statement Users ℕ
unfolding insert_user insert_authentication insert_profile
insert_user_and_get_id username email password_hash = transaction (do
  user_id ← insert_user
  insert_authentication user_id password_hash
  insert_profile user_id username email
  pure user_id)

unfoldable pub get_user_authentication_from_id : ℕ → Users → Outcome DbError UserAuthentication
get_user_authentication_from_id user_id t =
    fetch_one DbError.user_not_found (first authentication_key user_id t.authentications)

-- a column that is decoded into a `String`: `NULL` is read as the empty text
abbrev pub text_of : Option Text → Text
text_of none = []
text_of (some s) = s

abbrev pub profile_of : ProfileRow → UserProfile
profile_of r = record {
  user_id = r.user_id;
  username = r.username;
  email = text_of r.email;
  email_verified = r.email_verified;
  bio = text_of r.bio;
  avatar = text_of r.avatar;
}

abbrev pub some_profile : Option ProfileRow → Option UserProfile
some_profile none = none
some_profile (some r) = some (profile_of r)

unfoldable pub get_user_profile_from_username : Text → Users → Outcome DbError UserProfile
get_user_profile_from_username username t =
    fetch_one DbError.user_not_found (some_profile (first username_key username t.profiles))

-- the join of a user and the profile
abbrev pub joined : Option UserRow → Option ProfileRow → Option UserCompact
joined none p = none
joined (some u) none = none
joined (some u) (some p) =
    some (record { user_id = u.user_id; username = p.username; administrator = u.administrator })

unfoldable pub get_user_compact_from_id : ℕ → Users → Outcome DbError UserCompact
get_user_compact_from_id user_id t =
    fetch_one DbError.user_not_found
      (joined (first user_key user_id t.users) (first profile_key user_id t.profiles))

-- `ORDER BY date_expiry DESC`, of which the first row is taken
unfoldable pub latest : List KeyRow → Option TrackerKey
latest [] = none
latest (r ∷ rs) =
    let key : TrackerKey = record { key = r.tracker_key; valid_until = r.date_expiry } in
    elim (latest rs) [
      | none ↦ some key
      | some other ↦ if ltb r.date_expiry other.valid_until then some other else some key
    ]

abbrev pub hour_in_seconds : ℕ
hour_in_seconds = 3600

abbrev pub i64_max : ℕ
i64_max = 2 ^ 63 - 1

abbrev pub saturating_add : ℕ → ℕ → ℕ
saturating_add a b = if ltb i64_max (a + b) then i64_max else a + b

-- The key must be good for an hour from `now`.
unfoldable pub get_user_tracker_key : ℕ → ℕ → Users → Option TrackerKey
unfolding latest
get_user_tracker_key now user_id t = latest (
    retain
      (λ r.
        if r.user_id == user_id
        then ltb (saturating_add now hour_in_seconds) r.date_expiry
        else false)
      t.tracker_keys)

unfoldable pub count_users : Users → ℕ
count_users t = length t.users

unfoldable pub ban_user : ℕ → Text → Text → Statement Users (Unit {0})
ban_user user_id reason date_expiry t =
    if has user_key user_id t.users
    then (
      record t {
        bans =
            t.bans ++ record { user_id = user_id; reason = reason; date_expiry = date_expiry } ∷ [];
      },
      ok tt,
    )
    else (t, err DbError.error)

abbrev pub as_administrator : UserRow → UserRow
as_administrator r = record r { administrator = true }

unfoldable pub grant_admin_role : ℕ → Statement Users (Unit {0})
grant_admin_role user_id t = (
  record t { users = update_where user_key user_id as_administrator t.users },
  affected DbError.user_not_found (has user_key user_id t.users),
)

abbrev pub as_verified : ProfileRow → ProfileRow
as_verified r = record r { email_verified = true }

unfoldable pub verify_email : ℕ → Statement Users (Unit {0})
verify_email user_id t =
    (record t { profiles = update_where profile_key user_id as_verified t.profiles }, ok tt)

unfoldable pub add_tracker_key : ℕ → TrackerKey → Statement Users (Unit {0})
add_tracker_key user_id tracker_key t =
    if has user_key user_id t.users
    then (
      record t {
        tracker_keys =
            t.tracker_keys
            ++ record {
              user_id = user_id;
              tracker_key = tracker_key.key;
              date_expiry = tracker_key.valid_until;
            }
              ∷ [];
      },
      ok tt,
    )
    else (t, err DbError.error)

-- The rows of other tables that refer to a deleted user go too.
unfoldable pub delete_user_rows : ℕ → Users → Users
delete_user_rows user_id t =
    let deleted = retain (λ r. user_key r == user_id) t.users in
    record t {
      users = retain (λ r. not (user_key r == user_id)) t.users;
      authentications = cascade user_key authentication_key deleted t.authentications;
      profiles = cascade user_key profile_key deleted t.profiles;
      tracker_keys = cascade user_key key_user deleted t.tracker_keys;
      bans = cascade user_key ban_user_key deleted t.bans;
    }
