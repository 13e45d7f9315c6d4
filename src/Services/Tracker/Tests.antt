-- ===== src/Services/Tracker/Tests.antt =====
-- Tests of the tracker's service on a sample (src/tracker/service.rs).
use torrust_index.Base.{ℕ, ◌≡◌, refl, ◌⊎◌, bytes, text_eq, [], ◌∷◌, none, some, ok, arith}
use torrust_index.Models.{TrackerKey}
use torrust_index.Samples.{database, api, tracker, world}
use torrust_index.Services.Tracker.{
  announce_url_with_key, get_personal_announce_url, import_all_torrents_statistics,
}
use torrust_index.Services.Tracker.Keys.{NewKey, personal_announce_url_lem}
use torrust_index.Services.Tracker.Statistics.{Calm, import_all_lem}
use torrust_index.Services.World.{
  retrieve_new_tracker_key as key_request, get_torrent_info as info_request,
}

program : Unit {0}
unfolding get_personal_announce_url text_eq
program = tt

-- A new key is asked for, saved, and made an announce URL.
personal_announce_url_run :
    get_personal_announce_url database api tracker 100 2 world
    ≡ (record { db = 1; sent = key_request 7 ∷ [] }, ok (bytes "udp://t/key"))
unfolding program
personal_announce_url_run = refl

personal_announce_url_lem_example :
    let (w', r) = get_personal_announce_url database api tracker 100 2 world in
    ((key : TrackerKey) × (database.get_user_tracker_key 100 2 0 ≡ some key)
      × (get_personal_announce_url database api tracker 100 2 world
          ≡ (world, ok (announce_url_with_key database api tracker key))))
    ⊎ ((database.get_user_tracker_key 100 2 0 ≡ none)
        × (w'.sent ≡ key_request 7 ∷ [])
        × NewKey database api tracker 100 2 world w' r)
personal_announce_url_lem_example =
    personal_announce_url_lem database api tracker 100 2 world (λ key e. ground (arith, e))

abbrev found : ℕ
found = 200

calm : Calm database api tracker
calm torrent_id seeders leechers s e = ground (arith, e)

import_all_lem_example :
    (s : ℕ) × (import_all_torrents_statistics database api tracker world ≡ (
      record { db = s; sent = info_request (bytes "0304") ∷ info_request (bytes "0102") ∷ [] },
      ok tt,
    ))
import_all_lem_example =
    import_all_lem database api tracker calm ((9, bytes "0102") ∷ (10, bytes "0304") ∷ []) world
      refl
