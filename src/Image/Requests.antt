-- ===== src/Image/Requests.antt =====
-- What users may do through the image proxy (src/cache/image/manager.rs).
use torrust_index.Base.{
  ℕ, ◌≡◌, refl, ◌∙◌, ap, ◌≢◌, inl, inr, true, List, [], ◌∷◌, Option, none, some, Text, length, ltb,
  ltb→lt, arith, Bool-cases, Option-cases, Outcome, ok, err, panic,
}
use torrust_index.Cache
use torrust_index.Cache.{BytesCache, BytesCacheEntry, IndexMap}
use torrust_index.Cache.Correct
use torrust_index.Base.{◌>>=?◌}
use torrust_index.Image.Quota.{
  ImageError, image_too_big, unauthenticated, user_quota_met, Quota, Clock, is_reached, find,
  find-insert,
}
use torrust_index.Image.Service.{
  Service, Fetched, no_answer, answer, get_image_by_url, on_miss, keep, fetch, charge, stored,
  update_image_cache, update_user_quota,
}

module _ {M : Type 0} (map : IndexMap M) where
  -- what the answer to a request is when the image is cached, or when nobody is logged in
  abbrev pub cached_or : Option BytesCacheEntry → Outcome ImageError Text
  cached_or none = err unauthenticated
  cached_or (some entry) = ok entry.bytes

  -- Without a user the service answers from the cache alone: the image if it is cached, and
  -- `Unauthenticated` if not, whatever the remote server would say; nothing in the service changes.
  pub get_image-anonymous :
      (s : Service M) (url : Text) (fetched : Fetched) (now : Clock)
      → get_image_by_url map s url none fetched now
        ≡ some (s, cached_or (Cache.get map s.image_cache url))
  unfolding get_image_by_url
  get_image-anonymous s url fetched now = elim (Option-cases (Cache.get map s.image_cache url)) [
    | inl miss ↦ rw (miss, get_image_by_url)
    | inr (entry, hit) ↦ rw (hit, get_image_by_url)
  ]

  -- the quota that is stored for the user is used up
  abbrev pub IsLocked : Service M → ℕ → Quota → Type 0
  IsLocked s user q = (find user s.user_quotas ≡ some q) × (is_reached q ≡ true)

  -- a request: the URL, the user, what the remote server answers, and the readings of the clock
  abbrev pub Request : Type 0
  Request = Text × Option ℕ × Fetched × Clock

  locked-refused :
      (s : Service M) (user : ℕ) (q : Quota) (url : Text) (fetched : Fetched) (now : Clock)
      → IsLocked s user q
      → Cache.get map s.image_cache url ≡ none
      → get_image_by_url map s url (some user) fetched now ≡ some (s, err user_quota_met)
  unfolding get_image_by_url fetch
  locked-refused s user q url fetched now l miss = rw (miss, get_image_by_url) (rw (l.0, l.1) refl)

  -- How a request ends. `kept` holds what the cache was asked to do and what became of the quota.
  pub data Answer (s : Service M) (url : Text) (opt_user : Option ℕ) (fetched : Fetched)
      (now : Clock) (r : Service M × Outcome ImageError Text) : Type 0 where
    hit :
        (entry : BytesCacheEntry)
        → Cache.get map s.image_cache url ≡ some entry
        → r ≡ (s, ok entry.bytes)
        → Answer s url opt_user fetched now r
    refused :
        (e : ImageError)
        → Cache.get map s.image_cache url ≡ none
        → r ≡ (s, err e)
        → Answer s url opt_user fetched now r
    kept :
        (user : ℕ) (image : Text) (cache : BytesCache M)
        → opt_user ≡ some user
        → Cache.get map s.image_cache url ≡ none
        → fetch map s user fetched ≡ ok image
        → Correct.IsValid map cache
        → Cache.get map cache url ≡ some (record { bytes = image })
        → r ≡ (
          update_user_quota map (record s { image_cache = cache }) user (length image) now,
          ok image,
        )
        → Answer s url opt_user fetched now r

  fetch-ne-panic : (s : Service M) (user : ℕ) (fetched : Fetched) → fetch map s user fetched ≢ panic
  unfolding fetch
  fetch-ne-panic s user no_answer = ground arith
  fetch-ne-panic s user (answer none body) = ground arith
  fetch-ne-panic s user (answer (some t) body) = ground arith

  keep-Answer :
      (s : Service M) (url : Text) (user : ℕ) (fetched : Fetched) (now : Clock)
      (o : Outcome ImageError Text)
      → Correct.IsValid map s.image_cache
      → Cache.get map s.image_cache url ≡ none
      → fetch map s user fetched ≡ o
      → (r : Service M × Outcome ImageError Text) × (keep map s url user now o ≡ some r)
        × Answer s url (some user) fetched now r
  unfolding keep charge stored update_image_cache
  keep-Answer s url user fetched now (ok image) v miss e =
      elim (Bool-cases (ltb s.image_cache.entry_size_limit (length image))) [
        | inl big ↦
            let run = Correct.set_refused map s.image_cache url image (ltb→lt _ _ big) in
            (
              (s, err image_too_big),
              rw (run, keep, update_image_cache) refl,
              refused image_too_big miss refl,
            )
        | inr small ↦
            let (cache, run, v', _, got) =
              Correct.set_ok map s.image_cache url image v
                (Correct.not_ltb→le s.image_cache.entry_size_limit (length image) small) in
            (
              (
                update_user_quota map (record s { image_cache = cache }) user (length image) now,
                ok image,
              ),
              rw (run, keep, update_image_cache) refl,
              kept user image cache refl miss e v' got refl,
            )
      ]
  keep-Answer s url user fetched now (err x) v miss e = ((s, err x), refl, refused x miss refl)
  keep-Answer s url user fetched now panic v miss e = absurd (fetch-ne-panic s user fetched e)

  -- Every request on a valid cache returns, with an image or an error and never a panic. The
  -- service changes only when a user's download was stored: then the cache is valid still and
  -- holds the image, and the image is charged to that user.
  pub get_image-Answer :
      (s : Service M) (url : Text) (opt_user : Option ℕ) (fetched : Fetched) (now : Clock)
      → Correct.IsValid map s.image_cache
      → (r : Service M × Outcome ImageError Text) × (get_image_by_url map s url opt_user fetched now
          ≡ some r)
        × Answer s url opt_user fetched now r
  unfolding get_image_by_url on_miss
  get_image-Answer s url opt_user fetched now v =
      elim (Option-cases (Cache.get map s.image_cache url)) [
        | inr (entry, found) ↦
            ((s, ok entry.bytes), rw (found, get_image_by_url) refl, hit entry found refl)
        | inl miss ↦ missed opt_user miss
      ]
    where
      missed :
          (o : Option ℕ)
          → Cache.get map s.image_cache url ≡ none
          → (r : Service M × Outcome ImageError Text) × (get_image_by_url map s url o fetched now
              ≡ some r)
            × Answer s url o fetched now r
      missed none miss = (
        (s, err unauthenticated),
        rw (miss, get_image_by_url) refl,
        refused unauthenticated miss refl,
      )
      missed (some user) miss =
          let (r, run, a) =
            keep-Answer s url user fetched now (fetch map s user fetched) v miss refl in
          (r, rw (miss, get_image_by_url) run, a)

  update-find :
      (s : Service M) (user j amount : ℕ) (now : Clock) (q : Quota)
      → j ≢ user
      → find j s.user_quotas ≡ some q
      → find j (update_user_quota map s user amount now).user_quotas ≡ some q
  unfolding update_user_quota
  update-find s user j amount now q ne h = rw find-insert (ground (arith, h))

  locked-fetch :
      (s : Service M) (user : ℕ) (q : Quota) (fetched : Fetched)
      → IsLocked s user q
      → fetch map s user fetched ≡ err user_quota_met
  unfolding fetch
  locked-fetch s user q fetched l = rw (l.0, l.1) refl

  Answer-IsLocked :
      (s : Service M) (user : ℕ) (q : Quota) (url : Text) (opt_user : Option ℕ) (fetched : Fetched)
      (now : Clock) {r : Service M × Outcome ImageError Text}
      → Correct.IsValid map s.image_cache
      → IsLocked s user q
      → Answer s url opt_user fetched now r
      → Correct.IsValid map r.0.image_cache × IsLocked r.0 user q
  unfolding update_user_quota
  Answer-IsLocked s user q url o fetched now v l (hit entry found e) = rw e (v, l)
  Answer-IsLocked s user q url o fetched now v l (refused x miss e) = rw e (v, l)
  Answer-IsLocked s user q url o fetched now v l (kept u image cache ou miss f v' got e) = rw e (
    kept_valid,
    (update-find (record s { image_cache = cache }) u user (length image) now q other l.0, l.1),
  )
    where
      other : user ≢ u
      other same = ground (arith, locked-fetch s user q fetched l, f)

      kept_valid :
          Correct.IsValid map
            (update_user_quota map
              (record s { image_cache = cache })
              u
              (length image)
              now).image_cache
      kept_valid = v'

  -- requests served one after another
  pub serve : List Request → Service M → Option (Service M)
  serve [] s = some s
  serve ((url, opt_user, fetched, now) ∷ reqs) s =
      get_image_by_url map s url opt_user fetched now >>=? λ r. serve reqs r.0

  serve-IsLocked :
      (reqs : List Request) (s : Service M) (user : ℕ) (q : Quota)
      → Correct.IsValid map s.image_cache
      → IsLocked s user q
      → (s' : Service M) × (serve reqs s ≡ some s') × IsLocked s' user q
  unfolding serve
  serve-IsLocked [] s user q v l = (s, refl, l)
  serve-IsLocked ((url, opt_user, fetched, now) ∷ reqs) s user q v l =
      let (r, run, a) = get_image-Answer s url opt_user fetched now v in
      let (v', l') = Answer-IsLocked s user q url opt_user fetched now v l a in
      let (s', runs, locked) = serve-IsLocked reqs r.0 user q v' l' in
      (
        s',
        ap (λ o. o >>=? λ (x : Service M × Outcome ImageError Text). serve reqs x.0) run ∙ runs,
        locked,
      )

  -- Once the quota of a user is used up it is never given back. After any further requests, of any
  -- users at any times, however long after the quota's period is over, the user's request for an
  -- image that is not cached is refused with `UserQuotaMet` and changes nothing.
  pub quota_stays_met :
      (reqs : List Request) (s : Service M) (user : ℕ) (q : Quota)
      → Correct.IsValid map s.image_cache
      → IsLocked s user q
      → (s' : Service M) × (serve reqs s ≡ some s')
        × ((url : Text) (fetched : Fetched) (now : Clock)
            → Cache.get map s'.image_cache url ≡ none
            → get_image_by_url map s' url (some user) fetched now ≡ some (s', err user_quota_met))
  quota_stays_met reqs s user q v l =
      let (s', run, locked) = serve-IsLocked reqs s user q v l in
      (s', run, λ url fetched now miss. locked-refused s' user q url fetched now locked miss)
