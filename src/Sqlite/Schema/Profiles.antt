-- ===== src/Sqlite/Schema/Profiles.antt =====
-- The table of profiles keeps its constraints (src/databases/sqlite.rs).
use torrust_index.Base.{
  ◌≡◌, refl, true, false, ◌||◌, Option, none, some, List, [], ◌∷◌, ◌++◌, Text, text_eq, text_eq_iff,
  arith,
}
use torrust_index.Sql.{number_eq, text_column_eq, has}
use torrust_index.Sql.Laws.{Unique-insert}
use torrust_index.Sql.Constraints.{References-insert}
use torrust_index.Sqlite.{UserRow, ProfileRow}
use torrust_index.Sqlite.Accounts.{user_key, profile_key, username_key, has_email}
use torrust_index.Sqlite.Schema.{UniqueEmails, ProfileTable}

pub has_email-insert :
    (e : Option Text) (rs : List ProfileRow) (r : ProfileRow)
    → has_email e (rs ++ r ∷ []) ≡ (has_email e rs || has_email e (r ∷ []))
unfolding has_email
has_email-insert none rs r = refl
has_email-insert (some e) [] r = refl
has_email-insert (some e) (s ∷ rs) r = ground (arith, has_email-insert (some e) rs r)

pub has_email_one : (r s : ProfileRow) → has_email r.email (s ∷ []) ≡ has_email s.email (r ∷ [])
unfolding has_email
has_email_one r s = same_email r.email s.email refl refl
  where
    same_email :
        (a b : Option Text)
        → r.email ≡ a
        → s.email ≡ b
        → has_email a (s ∷ []) ≡ has_email b (r ∷ [])
    same_email none none p q = refl
    same_email none (some y) p q = rw (p, text_eq) refl
    same_email (some x) none p q = rw (q, text_eq) refl
    same_email (some x) (some y) p q = rw (p, q) (ground (arith, text_eq_iff x y, text_eq_iff y x))

pub has_email_cons :
    (e : Option Text) (s : ProfileRow) (rs : List ProfileRow)
    → has_email e (s ∷ rs) ≡ false
    → has_email e (s ∷ []) ≡ false
unfolding has_email
has_email_cons none s rs h = refl
has_email_cons (some e) s rs h = ground (arith, h)

pub has_email_tail :
    (e : Option Text) (s : ProfileRow) (rs : List ProfileRow)
    → has_email e (s ∷ rs) ≡ false
    → has_email e rs ≡ false
unfolding has_email
has_email_tail none s rs h = refl
has_email_tail (some e) s rs h = ground (arith, h)

pub UniqueEmails-insert :
    (rs : List ProfileRow) (r : ProfileRow)
    → UniqueEmails rs
    → has_email r.email rs ≡ false
    → UniqueEmails (rs ++ r ∷ [])
unfolding has_email
UniqueEmails-insert [] r u h = (has_email-none r.email, tt)
  where
    has_email-none : (e : Option Text) → has_email e [] ≡ false
    has_email-none none = refl
    has_email-none (some e) = refl
UniqueEmails-insert (s ∷ rs) r (new, u) h = (
  ground
      (arith, new, has_email-insert s.email rs r, has_email_one r s, has_email_cons r.email s rs h),
  UniqueEmails-insert rs r u (has_email_tail r.email s rs h),
)

pub ProfileTable-insert :
    (users : List UserRow) (rs : List ProfileRow) (r : ProfileRow)
    → ProfileTable users rs
    → has profile_key r.user_id rs ≡ false
    → has username_key r.username rs ≡ false
    → has_email r.email rs ≡ false
    → has user_key r.user_id users ≡ true
    → ProfileTable users (rs ++ r ∷ [])
ProfileTable-insert users rs r v i n e o = record {
  ids = Unique-insert profile_key rs r v.ids i;
  owners = References-insert user_key profile_key rs users r v.owners o;
  usernames = Unique-insert username_key rs r v.usernames n;
  emails = UniqueEmails-insert rs r v.emails e;
}
