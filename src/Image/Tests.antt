-- ===== src/Image/Tests.antt =====
-- The image proxy on concrete requests.
use torrust_index.Base.{
  ℕ, ◌≡◌, refl, [], ◌∷◌, none, some, Text, bytes, text_eq, Outcome, ok, err, arith,
}
use torrust_index.Cache
use torrust_index.Cache.{BytesCacheEntry, Entries, BytesCache}
use torrust_index.Cache.Correct
use torrust_index.Cache.ListMap.{list_map}
use torrust_index.Cache.Table.{lookup, remove, upsert}
use torrust_index.Image.Quota.{
  ImageError, user_quota_met, Quota, Clock, is_reached, add_usage, find, insert,
}
use torrust_index.Image.Requests.{Answer, get_image-Answer, serve, quota_stays_met}
use torrust_index.Image.Service.{
  Service, Settings, Fetched, answer, get_image_by_url, fetch, update_image_cache,
  update_user_quota,
}

program : Unit {0}
unfolding lookup remove upsert text_eq Cache.set Cache.get Cache.total_size Cache.free_size
    Cache.free_loop Cache.insert_after Cache.sum_sizes Cache.pop is_reached add_usage find insert
    get_image_by_url fetch update_image_cache update_user_quota
program = tt

abbrev at : ℕ → Clock
at now = record { created_at = now; tested_at = now; reset_at = now }

abbrev settings : Settings
settings = record { entry_size_limit = 5; user_quota_bytes = 6; user_quota_period_seconds = 60 }

abbrev entry : Text × BytesCacheEntry
entry = (bytes "u1", record { bytes = bytes "abc" })

abbrev cache : BytesCache Entries
cache = record { bytes_table = entry ∷ []; total_capacity = 10; entry_size_limit = 5 }

-- User 7 has used its six bytes up, in a period that began at 100.
abbrev met : Quota
met = record { user_id = 7; usage = 6; max_usage = 6; date_start_secs = 100; period_secs = 60 }

abbrev service : Service Entries
service = record { image_cache = cache; user_quotas = (7, met) ∷ []; cfg = settings }

abbrev png : Fetched
png = answer (some (bytes "image/png")) (some (bytes "xyzw"))

cache-IsValid : Correct.IsValid list_map cache
unfolding program
cache-IsValid = record {
  word = omega arith;
  limit = omega arith;
  fits = record { room = omega arith; distinct = (refl, tt); within = omega arith };
}

-- A user with a quota left gets the image, at time 200.
get_image-downloaded :
    get_image_by_url list_map service (bytes "u2") (some 8) png (at 200)
    ≡ some (
      record service {
        image_cache = record cache {
          bytes_table = entry ∷ (bytes "u2", record { bytes = bytes "xyzw" }) ∷ [];
        };
        user_quotas =
            (7, met)
            ∷ (
              8,
              record {
                user_id = 8;
                usage = 4;
                max_usage = 6;
                date_start_secs = 200;
                period_secs = 60;
              },
            )
            ∷ [];
      },
      ok (bytes "xyzw"),
    )
unfolding program
get_image-downloaded = refl

get_image-Answer_example :
    (r : Service Entries × Outcome ImageError Text) × (get_image_by_url list_map service
        (bytes "u2")
        (some 8)
        png
        (at 200)
      ≡ some r)
    × Answer list_map service (bytes "u2") (some 8) png (at 200) r
get_image-Answer_example =
    get_image-Answer list_map service (bytes "u2") (some 8) png (at 200) cache-IsValid

-- The period of 60 seconds is long over at time 5000.
quota_stays_met_example :
    (s : Service Entries) × (serve list_map
        ((bytes "u2", some 8, png, at 200) ∷ (bytes "u3", some 7, png, at 4000) ∷ [])
        service
      ≡ some s)
    × ((url : Text) (fetched : Fetched) (now : Clock)
        → Cache.get list_map s.image_cache url ≡ none
        → get_image_by_url list_map s url (some 7) fetched now ≡ some (s, err user_quota_met))
unfolding program
quota_stays_met_example =
    quota_stays_met list_map
      ((bytes "u2", some 8, png, at 200) ∷ (bytes "u3", some 7, png, at 4000) ∷ []) service 7 met
      cache-IsValid (refl, refl)
