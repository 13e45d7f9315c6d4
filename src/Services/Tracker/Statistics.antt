-- ===== src/Services/Tracker/Statistics.antt =====
-- The import of the tracker's numbers (src/tracker/statistics_importer.rs).
use torrust_index.Base.{
  ℕ, ◌≡◌, ◌≢◌, refl, ◌⊎◌, inl, inr, List, [], ◌∷◌, Text, ok, err, panic, Outcome-cases, arith,
}
use torrust_index.Database.{Database}
use torrust_index.Errors.{TrackerApiError}
use torrust_index.Models.{TorrentInfo}
use torrust_index.Services.Tracker.Answers.{info_result-ne-panic}
use torrust_index.Services.Tracker.{
  Api, TrackerConfig, torrent_info_result, get_torrent_info, send, save_statistics,
  import_torrent_statistics, import_each, import_all_torrents_statistics,
}
use torrust_index.Services.Steps.{dropped_then}
use torrust_index.Services.World.{World, pure, raise, ApiRequest, get_torrent_info as info_request}

module _ {S : Type 0} (database : Database S) (api : Api) (cfg : TrackerConfig) where
  -- The database's update of a torrent's numbers may fail, but does not panic.
  abbrev pub Calm : Type 0
  Calm =
      (torrent_id seeders leechers : ℕ) (s : S)
      → (database.update_tracker_info torrent_id cfg.url seeders leechers s).1 ≢ panic

  abbrev asked : Text → World S → World S
  asked info_hash w = record w { sent = info_request info_hash ∷ w.sent }

  save_ok :
      Calm
      → (torrent_id : ℕ) (info : TorrentInfo) (w : World S)
      → save_statistics database api cfg torrent_id (ok info) w ≡ (
        record w {
          db = (database.update_tracker_info torrent_id cfg.url info.seeders info.leechers w.db).0;
        },
        ok info,
      )
  unfolding save_statistics
  save_ok calm torrent_id info w =
      dropped_then (database.update_tracker_info torrent_id cfg.url info.seeders info.leechers)
        (pure info) w (calm torrent_id info.seeders info.leechers w.db)

  save_err :
      Calm
      → (torrent_id : ℕ) (e : TrackerApiError) (w : World S)
      → save_statistics database api cfg torrent_id (err e) w
        ≡ (record w { db = (database.update_tracker_info torrent_id cfg.url 0 0 w.db).0 }, err e)
  unfolding save_statistics
  save_err calm torrent_id e w =
      dropped_then (database.update_tracker_info torrent_id cfg.url 0 0) (raise e) w
        (calm torrent_id 0 0 w.db)

  -- An import sends one request and writes one pair of numbers, the tracker's, or zeros when it gave
  -- none; whether the statement succeeds does not matter, and an error is the tracker's.
  pub import_torrent_statistics_lem :
      Calm
      → (torrent_id : ℕ) (info_hash : Text) (w : World S)
      → let answer = torrent_info_result api (api.answer w.sent (info_request info_hash)) in
        ((info : TorrentInfo) × (answer ≡ ok info)
          × (import_torrent_statistics database api cfg torrent_id info_hash w ≡ (
            record {
              db =
                  (database.update_tracker_info torrent_id cfg.url info.seeders info.leechers
                    w.db).0;
              sent = info_request info_hash ∷ w.sent;
            },
            ok info,
          )))
        ⊎ ((e : TrackerApiError) × (answer ≡ err e)
            × (import_torrent_statistics database api cfg torrent_id info_hash w ≡ (
              record {
                db = (database.update_tracker_info torrent_id cfg.url 0 0 w.db).0;
                sent = info_request info_hash ∷ w.sent;
              },
              err e,
            )))
  unfolding import_torrent_statistics get_torrent_info send
  import_torrent_statistics_lem calm torrent_id info_hash w =
      elim (Outcome-cases (torrent_info_result api (api.answer w.sent (info_request info_hash)))) [
        | inl (info, e) ↦
            inl (info, e, ground (arith, e, save_ok calm torrent_id info (asked info_hash w)))
        | inr (inl (x, e)) ↦
            inr (x, e, ground (arith, e, save_err calm torrent_id x (asked info_hash w)))
        | inr (inr e) ↦
            elim (info_result-ne-panic api (api.answer w.sent (info_request info_hash)) e) [ ]
      ]

  -- the requests of an import, the latest first
  abbrev pub requests : List (ℕ × Text) → List ApiRequest → List ApiRequest
  requests [] sent = sent
  requests ((torrent_id, info_hash) ∷ torrents) sent =
      requests torrents (info_request info_hash ∷ sent)

  import_each_ok :
      Calm
      → (torrents : List (ℕ × Text)) (w : World S)
      → (s : S) × (import_each database api cfg torrents w
          ≡ (record { db = s; sent = requests torrents w.sent }, ok tt))
  unfolding import_each
  import_each_ok calm [] w = (w.db, refl)
  import_each_ok calm ((torrent_id, info_hash) ∷ torrents) w =
      elim (import_torrent_statistics_lem calm torrent_id info_hash w) [
        | inl (info, e, h) ↦
            let (s, rest) =
              import_each_ok calm torrents
                (import_torrent_statistics database api cfg torrent_id info_hash w).0 in
            (s, ground (arith, h, rest))
        | inr (x, e, h) ↦
            let (s, rest) =
              import_each_ok calm torrents
                (import_torrent_statistics database api cfg torrent_id info_hash w).0 in
            (s, ground (arith, h, rest))
      ]

  -- The import of all torrents always ends well once it has its list: it asks the tracker for each
  -- torrent once, in order, whatever the tracker answers for the others.
  pub import_all_lem :
      Calm
      → (torrents : List (ℕ × Text)) (w : World S)
      → database.get_all_torrents_compact w.db ≡ ok torrents
      → (s : S) × (import_all_torrents_statistics database api cfg w
          ≡ (record { db = s; sent = requests torrents w.sent }, ok tt))
  unfolding import_all_torrents_statistics
  import_all_lem calm torrents w e =
      let (s, h) = import_each_ok calm torrents w in (s, ground (arith, e, h))
