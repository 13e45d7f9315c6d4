-- ===== src/Image/Service.antt =====
-- `ImageCacheService` (src/cache/image/manager.rs): the handler `get_image_by_url` and its parts.
use torrust_index.Base.{
  Option, none, some, Text, bytes, text_eq, length, ltb, ◌||◌, if◌then◌else◌, Outcome, ok, err,
  panic, ◌>>=◌, ◌>>◌, refuse_if, ℕ,
}
use torrust_index.Cache
use torrust_index.Cache.{BytesCache, BytesCacheEntry, CacheError, IndexMap}
use torrust_index.Image.Quota.{
  ImageError, url_is_unreachable, url_is_not_an_image, image_too_big, user_quota_met,
  unauthenticated, Quota, Clock, UserQuotas, new_quota, is_reached, add_usage, find, insert,
}

-- the settings that the service reads
pub record Settings : Type 0 where
  pub entry_size_limit : ℕ
  pub user_quota_bytes : ℕ
  pub user_quota_period_seconds : ℕ

pub record Service (M : Type 0) : Type 0 where
  pub image_cache : BytesCache M
  pub user_quotas : UserQuotas
  pub cfg : Settings

-- what `reqwest` returns for the URL: no answer, or an answer with its `Content-Type` header, if
-- it has one, and its body, if that can be read
pub data Fetched : Type 0 where
  no_answer : Fetched
  answer : Option Text → Option Text → Fetched

unfoldable pub image_body : Option Text → Outcome ImageError Text
image_body none = err url_is_not_an_image
image_body (some body) = ok body

unfoldable pub get_image_from_url_as_bytes : Fetched → Outcome ImageError Text
unfolding image_body
get_image_from_url_as_bytes no_answer = err url_is_unreachable
get_image_from_url_as_bytes (answer none body) = err url_is_not_an_image
get_image_from_url_as_bytes (answer (some content_type) body) =
    if text_eq content_type (bytes "image/jpeg") || text_eq content_type (bytes "image/png")
    then image_body body
    else err url_is_not_an_image

unfoldable pub quota_check : Option Quota → Outcome ImageError (Unit {0})
unfolding is_reached
quota_check none = ok tt
quota_check (some quota) = if is_reached quota then err user_quota_met else ok tt

module _ {M : Type 0} (map : IndexMap M) where
  unfoldable pub check_user_quota : Service M → ℕ → Outcome ImageError (Unit {0})
  unfolding quota_check
  check_user_quota s user = quota_check (find user s.user_quotas)

  unfoldable pub check_image_size : Service M → Text → Outcome ImageError (Unit {0})
  check_image_size s image = refuse_if (ltb s.cfg.entry_size_limit (length image)) image_too_big

  -- `is_err` of the result of `set`
  unfoldable pub stored :
      Service M
      → BytesCache M × Outcome CacheError (Option BytesCacheEntry)
      → Service M × Outcome ImageError (Unit {0})
  stored s (cache, ok previous) = (record s { image_cache = cache }, ok tt)
  stored s (cache, err e) = (record s { image_cache = cache }, err image_too_big)
  stored s (cache, panic) = (record s { image_cache = cache }, panic)

  unfoldable pub update_image_cache :
      Service M → Text → Text → Option (Service M × Outcome ImageError (Unit {0}))
  unfolding stored
  update_image_cache s url image = elim (Cache.set map s.image_cache url image) [
    | none ↦ none
    | some r ↦ some (stored s r)
  ]

  -- the quota of the user, or a new one
  unfoldable pub quota_of : Option Quota → ℕ → Settings → Clock → Quota
  unfolding new_quota
  quota_of none user cfg now =
      new_quota now.created_at user cfg.user_quota_bytes cfg.user_quota_period_seconds
  quota_of (some quota) user cfg now = quota

  unfoldable pub update_user_quota : Service M → ℕ → ℕ → Clock → Service M
  unfolding quota_of
  update_user_quota s user amount now =
      let quota = quota_of (find user s.user_quotas) user s.cfg now in
      record s { user_quotas = insert user (add_usage now amount quota).0 s.user_quotas }

  -- the last two steps of the handler, after the cache has answered
  unfoldable pub charge :
      ℕ
      → Text
      → Clock
      → Service M × Outcome ImageError (Unit {0})
      → Service M × Outcome ImageError Text
  charge user image now (s, ok _) = (update_user_quota s user (length image) now, ok image)
  charge user image now (s, err e) = (s, err e)
  charge user image now (s, panic) = (s, panic)

  -- The checks and the download, which change nothing.
  unfoldable pub fetch : Service M → ℕ → Fetched → Outcome ImageError Text
  unfolding check_user_quota check_image_size get_image_from_url_as_bytes
  fetch s user fetched = do
    check_user_quota s user
    image ← get_image_from_url_as_bytes fetched
    check_image_size s image
    ok image

  unfoldable pub keep :
      Service M
      → Text
      → ℕ
      → Clock
      → Outcome ImageError Text
      → Option (Service M × Outcome ImageError Text)
  unfolding charge
  keep s url user now (ok image) = elim (update_image_cache s url image) [
    | none ↦ none
    | some r ↦ some (charge user image now r)
  ]
  keep s url user now (err e) = some (s, err e)
  keep s url user now panic = some (s, panic)

  unfoldable pub on_miss :
      Service M → Text → Option ℕ → Fetched → Clock → Option (Service M × Outcome ImageError Text)
  unfolding keep
  on_miss s url none fetched now = some (s, err unauthenticated)
  on_miss s url (some user) fetched now = keep s url user now (fetch s user fetched)

  -- `none` means that the loop of the cache ran out of fuel.
  unfoldable pub get_image_by_url :
      Service M → Text → Option ℕ → Fetched → Clock → Option (Service M × Outcome ImageError Text)
  unfolding on_miss
  get_image_by_url s url opt_user fetched now = elim (Cache.get map s.image_cache url) [
    | some entry ↦ some (s, ok entry.bytes)
    | none ↦ on_miss s url opt_user fetched now
  ]
