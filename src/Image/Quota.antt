-- ===== src/Image/Quota.antt =====
-- `ImageCacheQuota` and the `HashMap` of quotas (src/cache/image/manager.rs). Sizes are `usize`
-- and times `u64`; user ids are only compared.
use torrust_index.Base.{
  ℕ, ◌+◌, ◌-◌, ◌%◌, ◌^◌, ◌<◌, ◌≡◌, refl, Bool, List, [], ◌∷◌, Option, none, some, ltb, leb, ◌==◌,
  if◌then◌else◌, Outcome, ok, err, arith,
}
use Prim.Native.Nat.{min}

pub data ImageError : Type 0 where
  url_is_unreachable url_is_not_an_image image_too_big user_quota_met unauthenticated : ImageError

pub record Quota : Type 0 where
  pub user_id : ℕ
  pub usage : ℕ
  pub max_usage : ℕ
  pub date_start_secs : ℕ
  pub period_secs : ℕ

abbrev pub word : ℕ
word = 2 ^ 64

-- What `now_in_secs` returns at each of its calls while an image is charged to a user.
pub record Clock : Type 0 where
  pub created_at : ℕ
  pub tested_at : ℕ
  pub reset_at : ℕ

-- `ImageCacheQuota::new`
unfoldable pub new_quota : ℕ → ℕ → ℕ → ℕ → Quota
new_quota now user_id max_usage period_secs = record {
  user_id = user_id;
  usage = 0;
  max_usage = max_usage;
  date_start_secs = now;
  period_secs = period_secs;
}

unfoldable pub is_reached : Quota → Bool
is_reached q = leb q.max_usage q.usage

unfoldable pub reset : ℕ → Quota → Quota
reset now q = record q { usage = 0; date_start_secs = now }

-- The part of `add_usage` behind the reset.
unfoldable pub add_to : ℕ → Quota → Quota × Outcome ImageError (Unit {0})
unfolding is_reached
add_to amount q =
    if is_reached q
    then (q, err user_quota_met)
    else (record q { usage = min (q.usage + amount) (word - 1) }, ok tt)

unfoldable pub add_usage : Clock → ℕ → Quota → Quota × Outcome ImageError (Unit {0})
unfolding add_to reset
add_usage now amount q = add_to amount (
    if ltb q.period_secs ((now.tested_at + word - q.date_start_secs) % word)
    then reset now.reset_at q
    else q)

abbrev pub UserQuotas : Type 0
UserQuotas = List (ℕ × Quota)

-- `HashMap::get`
unfoldable pub find : ℕ → UserQuotas → Option Quota
find user [] = none
find user ((j, q) ∷ qs) = if j == user then some q else find user qs

-- `HashMap::insert`
unfoldable pub insert : ℕ → Quota → UserQuotas → UserQuotas
insert user q [] = (user, q) ∷ []
insert user q ((j, r) ∷ qs) = if j == user then (user, q) ∷ qs else (j, r) ∷ insert user q qs

pub find-insert :
    (i j : ℕ) (q : Quota) (qs : UserQuotas)
    → find j (insert i q qs) ≡ (if i == j then some q else find j qs)
unfolding find insert
find-insert i j q [] = refl
find-insert i j q ((k, r) ∷ qs) = ground (arith, find-insert i j q qs)

-- A quota that has been started at `start` and whose period is over at `now` is reset before the
-- usage is counted, so the amount is accepted if the quota allows any usage.
pub add_usage_fresh :
    (now : Clock) (amount : ℕ) (q : Quota)
    → q.period_secs < now.tested_at - q.date_start_secs
    → now.tested_at < word
    → 0 < q.max_usage
    → (add_usage now amount q).1 ≡ ok tt
unfolding add_usage
add_usage_fresh now amount q p w m =
    let e : (now.tested_at + word - q.date_start_secs) % word ≡ now.tested_at - q.date_start_secs =
      omega arith in
    ground (arith, e)
