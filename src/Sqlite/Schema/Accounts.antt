-- ===== src/Sqlite/Schema/Accounts.antt =====
-- The statements on the tables of users keep their constraints (src/databases/sqlite.rs).
use torrust_index.Base.{
  ℕ, ◌+◌, ◌≡◌, refl, ◌∙◌, inl, inr, false, Option, none, some, List, [], ◌∷◌, Text, ◌==◌,
  Bool-cases, arith,
}
use torrust_index.Models.{TrackerKey, UserAuthentication}
use torrust_index.Sql.{number_eq, text_column_eq, has, update_where}
use torrust_index.Sql.Laws.{Unique-insert}
use torrust_index.Sql.Constraints.{
  fresh, Within-step, Within-insert, References-insert, References-insert_parent,
  Unique-update_where, Within-update_where, References-update_parent, References-update_child,
}
use torrust_index.Sqlite.{
  UserRow, ProfileRow, KeyRow, BanRow, Users, Statement, ◌>>=◌, ◌>>◌, pure, null_if_empty,
}
use torrust_index.Sqlite.Accounts.{
  user_key, authentication_key, profile_key, username_key, key_user, ban_user_key, has_email,
  insert_user, insert_authentication, insert_profile, insert_user_and_get_id, ban_user,
  grant_admin_role, as_administrator, verify_email, as_verified, add_tracker_key,
}
use torrust_index.Sqlite.Steps.{After-keep, After-then, After-transaction}
use torrust_index.Sqlite.Schema.{UniqueEmails, UsersAreValid}
use torrust_index.Sqlite.Schema.Profiles.{ProfileTable-insert}

-- a new user, who has nothing yet
insert_user-UsersAreValid : (t : Users) → UsersAreValid t → UsersAreValid (insert_user t).0
unfolding insert_user
insert_user-UsersAreValid t v =
    let row : UserRow = record { user_id = t.last_user + 1; administrator = false } in
    record {
      users = record {
        ids =
            Unique-insert user_key t.users row v.users.ids
              (fresh user_key t.last_user t.users v.users.given);
        given =
            Within-insert user_key (t.last_user + 1) t.users row
              (Within-step user_key t.last_user t.users v.users.given) (omega arith);
      };
      authentications = record {
        ids = v.authentications.ids;
        owners =
            References-insert_parent user_key authentication_key t.authentications t.users row
              v.authentications.owners;
      };
      profiles = record {
        ids = v.profiles.ids;
        owners =
            References-insert_parent user_key profile_key t.profiles t.users row v.profiles.owners;
        usernames = v.profiles.usernames;
        emails = v.profiles.emails;
      };
      keys = References-insert_parent user_key key_user t.tracker_keys t.users row v.keys;
      bans = References-insert_parent user_key ban_user_key t.bans t.users row v.bans;
    }

insert_authentication-UsersAreValid :
    (user_id : ℕ) (password_hash : Text) (t : Users)
    → UsersAreValid t
    → UsersAreValid (insert_authentication user_id password_hash t).0
unfolding insert_authentication
insert_authentication-UsersAreValid user_id password_hash t v =
    let row : UserAuthentication = record { user_id = user_id; password_hash = password_hash } in
    ground (
      arith,
      v,
      Unique-insert authentication_key t.authentications row v.authentications.ids,
      References-insert user_key authentication_key t.authentications t.users row
          v.authentications.owners,
    )

insert_profile-UsersAreValid :
    (user_id : ℕ) (username email : Text) (t : Users)
    → UsersAreValid t
    → UsersAreValid (insert_profile user_id username email t).0
unfolding insert_profile
insert_profile-UsersAreValid user_id username email t v =
    let row : ProfileRow = record {
      user_id = user_id;
      username = username;
      email = null_if_empty email;
      email_verified = false;
      bio = none;
      avatar = none;
    } in
    elim (Bool-cases (has profile_key user_id t.profiles)) [
      | inl a ↦ rw (a, insert_profile) v
      | inr a ↦ elim (Bool-cases (has_email (null_if_empty email) t.profiles)) [
        | inl b ↦ rw (a, b, insert_profile) v
        | inr b ↦ elim (Bool-cases (has username_key username t.profiles)) [
          | inl c ↦ rw (a, b, c, insert_profile) v
          | inr c ↦ elim (Bool-cases (has user_key user_id t.users)) [
            | inr d ↦ rw (a, b, c, d, insert_profile) v
            | inl d ↦
                rw (a, b, c, d, insert_profile)
                  (record {
                    users = v.users;
                    authentications = v.authentications;
                    profiles = ProfileTable-insert t.users t.profiles row v.profiles a c b d;
                    keys = v.keys;
                    bans = v.bans;
                  })
          ]
        ]
      ]
    ]

pub insert_user_and_get_id-UsersAreValid :
    (username email password_hash : Text) (t : Users)
    → UsersAreValid t
    → UsersAreValid (insert_user_and_get_id username email password_hash t).0
unfolding insert_user_and_get_id
insert_user_and_get_id-UsersAreValid username email password_hash t v =
    let profile_step : ℕ → Statement Users ℕ =
      λ user_id. insert_profile user_id username email >> pure user_id in
    let steps : ℕ → Statement Users ℕ =
      λ user_id. insert_authentication user_id password_hash >> profile_step user_id in
    let IsKept : (A : Type 0) → A → Users → Type 0 = λ A a. UsersAreValid in
    After-transaction UsersAreValid (insert_user >>= steps) t v (
      After-then (IsKept ℕ) (IsKept ℕ) insert_user steps t (insert_user-UsersAreValid t v)
        λ user_id t1 v1.
          After-then (IsKept Unit) (IsKept ℕ) (insert_authentication user_id password_hash)
            (λ _. profile_step user_id) t1
            (After-keep UsersAreValid (insert_authentication user_id password_hash) t1
              (insert_authentication-UsersAreValid user_id password_hash t1 v1))
            λ _ t2 v2.
              After-then (IsKept Unit) (IsKept ℕ) (insert_profile user_id username email)
                (λ _. pure user_id) t2
                (After-keep UsersAreValid (insert_profile user_id username email) t2
                  (insert_profile-UsersAreValid user_id username email t2 v2))
                λ _ t3 v3. v3)

pub ban_user-UsersAreValid :
    (user_id : ℕ) (reason date_expiry : Text) (t : Users)
    → UsersAreValid t
    → UsersAreValid (ban_user user_id reason date_expiry t).0
unfolding ban_user
ban_user-UsersAreValid user_id reason date_expiry t v =
    let row : BanRow = record { user_id = user_id; reason = reason; date_expiry = date_expiry } in
    ground (arith, v, References-insert user_key ban_user_key t.bans t.users row v.bans)

pub add_tracker_key-UsersAreValid :
    (user_id : ℕ) (tracker_key : TrackerKey) (t : Users)
    → UsersAreValid t
    → UsersAreValid (add_tracker_key user_id tracker_key t).0
unfolding add_tracker_key
add_tracker_key-UsersAreValid user_id tracker_key t v =
    let row : KeyRow = record {
      user_id = user_id;
      tracker_key = tracker_key.key;
      date_expiry = tracker_key.valid_until;
    } in
    ground (arith, v, References-insert user_key key_user t.tracker_keys t.users row v.keys)

pub grant_admin_role-UsersAreValid :
    (user_id : ℕ) (t : Users) → UsersAreValid t → UsersAreValid (grant_admin_role user_id t).0
unfolding grant_admin_role
grant_admin_role-UsersAreValid user_id t v = record {
  users = record {
    ids =
        Unique-update_where user_key user_key user_id as_administrator t.users (λ r. refl)
          v.users.ids;
    given =
        Within-update_where user_key user_key t.last_user user_id as_administrator t.users
          (λ r. refl) v.users.given;
  };
  authentications = record {
    ids = v.authentications.ids;
    owners =
        References-update_parent user_key authentication_key user_key user_id as_administrator
          t.authentications t.users (λ r. refl) v.authentications.owners;
  };
  profiles = record {
    ids = v.profiles.ids;
    owners =
        References-update_parent user_key profile_key user_key user_id as_administrator t.profiles
          t.users (λ r. refl) v.profiles.owners;
    usernames = v.profiles.usernames;
    emails = v.profiles.emails;
  };
  keys =
      References-update_parent user_key key_user user_key user_id as_administrator t.tracker_keys
        t.users (λ r. refl) v.keys;
  bans =
      References-update_parent user_key ban_user_key user_key user_id as_administrator t.bans
        t.users (λ r. refl) v.bans;
}

has_email-update_where :
    (e : Option Text) (user_id : ℕ) (rs : List ProfileRow)
    → has_email e (update_where profile_key user_id as_verified rs) ≡ has_email e rs
unfolding has_email update_where
has_email-update_where none user_id rs = refl
has_email-update_where (some e) user_id [] = refl
has_email-update_where (some e) user_id (r ∷ rs) = elim (Bool-cases (r.user_id == user_id)) [
  | inl h ↦ rw (h, has_email-update_where (some e) user_id rs) refl
  | inr h ↦ rw (h, has_email-update_where (some e) user_id rs) refl
]

UniqueEmails-update_where :
    (user_id : ℕ) (rs : List ProfileRow)
    → UniqueEmails rs
    → UniqueEmails (update_where profile_key user_id as_verified rs)
unfolding update_where
UniqueEmails-update_where user_id [] u = tt
UniqueEmails-update_where user_id (r ∷ rs) (new, u) = (
  elim (Bool-cases (r.user_id == user_id)) [
    | inl h ↦ rw h (has_email-update_where r.email user_id rs ∙ new)
    | inr h ↦ rw h (has_email-update_where r.email user_id rs ∙ new)
  ],
  UniqueEmails-update_where user_id rs u,
)

pub verify_email-UsersAreValid :
    (user_id : ℕ) (t : Users) → UsersAreValid t → UsersAreValid (verify_email user_id t).0
unfolding verify_email
verify_email-UsersAreValid user_id t v = record {
  users = v.users;
  authentications = v.authentications;
  profiles = record {
    ids =
        Unique-update_where profile_key profile_key user_id as_verified t.profiles (λ r. refl)
          v.profiles.ids;
    owners =
        References-update_child user_key profile_key profile_key user_id as_verified t.profiles
          t.users (λ r. refl) v.profiles.owners;
    usernames =
        Unique-update_where profile_key username_key user_id as_verified t.profiles (λ r. refl)
          v.profiles.usernames;
    emails = UniqueEmails-update_where user_id t.profiles v.profiles.emails;
  };
  keys = v.keys;
  bans = v.bans;
}
