-- ===== src/Services/Index/Stored.antt =====
-- The second half of an upload: it is stored and put on the tracker's list
-- (src/services/torrent.rs).
use torrust_index.Base.{
  ℕ, ◌≡◌, ◌≢◌, ap, ◌∙◌, ◌⊎◌, inl, inr, List, ◌∷◌, Text, Outcome, ok, err, panic, Outcome-cases,
  arith,
}
use torrust_index.Database.{Database}
use torrust_index.DbError.{DbError}
use torrust_index.Errors.{ServiceError, from_tracker_error, TrackerApiError}
use torrust_index.InfoHash.{InfoHash, to_hex_string}
use torrust_index.InfoHash.Codec.{Binascii}
use torrust_index.Listing.{Metadata}
use torrust_index.Parse.{Bencode}
use torrust_index.Services.Index.{
  AddTorrentResponse, TrackerMode, store_upload, whitelist_or_delete,
}
use torrust_index.Services.Tracker.Answers.{whitelist_result-ne-panic}
use torrust_index.Services.Tracker.Statistics.{Calm, import_torrent_statistics_lem}
use torrust_index.Services.Tracker.{
  Api, TrackerConfig, whitelist_result, whitelist_info_hash, import_torrent_statistics, send,
}
use torrust_index.Services.Steps.{dropped_then, step_ok}
use torrust_index.Services.World.{
  World, ApiRequest, whitelist_torrent, Action, ◌>>=◌, ◌>>◌, pure, result, raise, write,
  get_torrent_info as info_request, drop_result,
}
use torrust_index.Torrent.{Torrent}

module _ {S : Type 0} (database : Database S) (api : Api) (cfg : TrackerConfig) (mode : TrackerMode)
    (codec : Binascii) (bencode : Bencode) where
  -- the tracker's answer about a new torrent, after its numbers were asked for
  abbrev pub listed : Text → World S → Outcome TrackerApiError (Unit {0})
  listed hex w = whitelist_result (api.answer (info_request hex ∷ w.sent) (whitelist_torrent hex))

  -- the requests of an upload
  abbrev pub asked : Text → World S → List ApiRequest
  asked hex w = whitelist_torrent hex ∷ info_request hex ∷ w.sent

  deleted_lem :
      (torrent_id : ℕ) (hex : Text) (e : TrackerApiError) (s : S) (w : World S)
      → (database.delete_torrent torrent_id s).1 ≢ panic
      → (drop_result {E = DbError} (write (λ e. e) (database.delete_torrent torrent_id))
            >> raise {A = Unit {0}} (from_tracker_error e))
          (record { db = s; sent = asked hex w })
        ≡ (
          record { db = (database.delete_torrent torrent_id s).0; sent = asked hex w },
          err (from_tracker_error e),
        )
  deleted_lem torrent_id hex e s w calm =
      dropped_then (database.delete_torrent torrent_id) (raise (from_tracker_error e))
        (record { db = s; sent = asked hex w }) calm

  whitelist_lem :
      (torrent_id : ℕ) (hex : Text) (s : S) (w : World S)
      → ((s : S) → (database.delete_torrent torrent_id s).1 ≢ panic)
      → let w1 : World S = record { db = s; sent = info_request hex ∷ w.sent } in
        (listed hex w ≡ ok tt)
          × (whitelist_or_delete database api cfg mode codec bencode torrent_id hex w1
              ≡ (record { db = s; sent = asked hex w }, ok tt))
        ⊎ ((e : TrackerApiError) × (listed hex w ≡ err e)
            × (whitelist_or_delete database api cfg mode codec bencode torrent_id hex w1 ≡ (
              record { db = (database.delete_torrent torrent_id s).0; sent = asked hex w },
              err (from_tracker_error e),
            )))
  unfolding whitelist_or_delete whitelist_info_hash send
  whitelist_lem torrent_id hex s w calm = elim (Outcome-cases (listed hex w)) [
    | inl (u, e) ↦ inl (e, ground (arith, e))
    | inr (inl (x, e)) ↦ inr (x, e, ground (arith, e, deleted_lem torrent_id hex x s w (calm s)))
    | inr (inr e) ↦
        elim (whitelist_result-ne-panic
          (api.answer (info_request hex ∷ w.sent) (whitelist_torrent hex)) e) [ ]
  ]

  -- the state after the numbers of a new torrent were imported
  abbrev pub numbered : ℕ → Text → S → World S → S
  numbered torrent_id hex s w =
      (import_torrent_statistics database api cfg torrent_id hex
        (record { db = s; sent = w.sent })).0.db

  import_lem :
      Calm database api cfg
      → (torrent_id : ℕ) (hex : Text) (s : S) (w : World S)
      → drop_result {F = ServiceError}
          (import_torrent_statistics database api cfg torrent_id hex)
          (record { db = s; sent = w.sent })
        ≡ (record { db = numbered torrent_id hex s w; sent = info_request hex ∷ w.sent }, ok tt)
  import_lem calm torrent_id hex s w =
      elim (import_torrent_statistics_lem database api cfg calm torrent_id hex
        (record { db = s; sent = w.sent })) [
          | inl (info, e, h) ↦ ground (arith, h)
          | inr (x, e, h) ↦ ground (arith, h)
        ]

  -- what `store_upload` does after the torrent was inserted
  rest : ℕ → InfoHash → Text → Action S ServiceError AddTorrentResponse
  rest torrent_id original hex = do
    whitelist_or_delete database api cfg mode codec bencode torrent_id hex
    original_hex ← result (λ e. e) (to_hex_string codec original)
    pure (record { torrent_id = torrent_id; info_hash = hex; original_info_hash = original_hex })

  store_lem :
      (metadata : Metadata) (torrent : Torrent) (original canonical : InfoHash)
      (user_id torrent_id : ℕ) (s : S) (hex : Text) (w : World S)
      → database.insert_torrent_and_get_id original torrent user_id metadata w.db
        ≡ (s, ok torrent_id)
      → to_hex_string codec {E = ServiceError} canonical ≡ ok hex
      → store_upload database api cfg mode codec bencode
          ((metadata, torrent), (original, canonical))
          user_id
          w
        ≡ (drop_result {F = ServiceError}
                (import_torrent_statistics database api cfg torrent_id hex)
              >> rest torrent_id original hex)
            (record { db = s; sent = w.sent })
  unfolding store_upload rest
  store_lem metadata torrent original canonical user_id torrent_id s hex w i x =
      ground (arith, i, x)

  rest_ok :
      (torrent_id : ℕ) (original : InfoHash) (hex original_hex : Text) (w w' : World S)
      → whitelist_or_delete database api cfg mode codec bencode torrent_id hex w ≡ (w', ok tt)
      → to_hex_string codec {E = ServiceError} original ≡ ok original_hex
      → rest torrent_id original hex w ≡ (
        w',
        ok (record { torrent_id = torrent_id; info_hash = hex; original_info_hash = original_hex }),
      )
  unfolding rest
  rest_ok torrent_id original hex original_hex w w' h y = ground (arith, h, y)

  rest_err :
      (torrent_id : ℕ) (original : InfoHash) (hex : Text) (e : ServiceError) (w w' : World S)
      → whitelist_or_delete database api cfg mode codec bencode torrent_id hex w ≡ (w', err e)
      → rest torrent_id original hex w ≡ (w', err e)
  unfolding rest
  rest_err torrent_id original hex e w w' h = ground (arith, h)

  -- A torrent that was checked and inserted is kept exactly when the tracker puts it on its list: else
  -- it is deleted again, and the tracker's error is reported. In both cases the tracker was asked for
  -- the torrent's numbers first, and only that and its listing.
  pub store_upload_lem :
      Calm database api cfg
      → (metadata : Metadata) (torrent : Torrent) (original canonical : InfoHash)
        (user_id torrent_id : ℕ) (s : S) (hex original_hex : Text) (w : World S)
      → ((s' : S) → (database.delete_torrent torrent_id s').1 ≢ panic)
      → database.insert_torrent_and_get_id original torrent user_id metadata w.db
        ≡ (s, ok torrent_id)
      → to_hex_string codec {E = ServiceError} canonical ≡ ok hex
      → to_hex_string codec {E = ServiceError} original ≡ ok original_hex
      → let (w', r) =
          store_upload database api cfg mode codec bencode
            ((metadata, torrent), (original, canonical))
            user_id
            w in
        (w'.sent ≡ asked hex w)
        × ((listed hex w ≡ ok tt)
              × (w'.db ≡ numbered torrent_id hex s w)
              × (r
                  ≡ ok (record {
                    torrent_id = torrent_id;
                    info_hash = hex;
                    original_info_hash = original_hex;
                  }))
            ⊎ (w'.db ≡ (database.delete_torrent torrent_id (numbered torrent_id hex s w)).0)
              × ((e : TrackerApiError) × (listed hex w ≡ err e) × (r ≡ err (from_tracker_error e))))
  store_upload_lem calm metadata torrent original canonical user_id torrent_id s hex original_hex w
        kind i x y =
      let w1 : World S = record { db = s; sent = w.sent } in
      let w2 : World S = record {
        db = numbered torrent_id hex s w;
        sent = info_request hex ∷ w.sent;
      } in
      let until =
        store_lem metadata torrent original canonical user_id torrent_id s hex w i x
        ∙ step_ok (drop_result (import_torrent_statistics database api cfg torrent_id hex))
            (λ _. rest torrent_id original hex) w1 w2 tt (import_lem calm torrent_id hex s w) in
      elim (whitelist_lem torrent_id hex (numbered torrent_id hex s w) w kind) [
        | inl (e, h) ↦
            let all = until ∙ rest_ok torrent_id original hex original_hex w2 _ h y in
            (ap (λ p. p.0.sent) all, inl (e, ap (λ p. p.0.db) all, ap (λ p. p.1) all))
        | inr (z, e, h) ↦
            let all = until ∙ rest_err torrent_id original hex (from_tracker_error z) w2 _ h in
            (ap (λ p. p.0.sent) all, inr (ap (λ p. p.0.db) all, (z, e, ap (λ p. p.1) all)))
      ]
