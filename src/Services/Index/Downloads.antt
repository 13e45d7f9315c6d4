-- ===== src/Services/Index/Downloads.antt =====
-- The torrent files that the index gives out, and deletion (src/services/torrent.rs).
use torrust_index.Base.{
  ℕ, ◌≡◌, ◌⊎◌, inl, inr, ◌∷◌, true, false, Text, Option, none, some, ok, Bool-cases, Option-cases,
  Outcome-cases, arith,
}
use torrust_index.Database.{Database}
use torrust_index.Errors.{ServiceError}
use torrust_index.InfoHash.{InfoHash, to_hex_string}
use torrust_index.InfoHash.Codec.{Binascii}
use torrust_index.Listing.{TorrentListing}
use torrust_index.Services.Index.{get_torrent, main_tracker, delete_torrent, TrackerMode, is_open}
use torrust_index.Services.Tracker.{
  Api, TrackerConfig, get_personal_announce_url, remove_info_hash_from_whitelist, send,
  whitelist_result,
}
use torrust_index.Services.Tracker.Answers.{whitelist_result-ne-panic}
use torrust_index.Services.Users.{require_administrator}
use torrust_index.Services.World.{World, remove_torrent_from_whitelist}
use torrust_index.Torrent.{Torrent, include_url_as_main_tracker}

module _ {S : Type 0} (database : Database S) (api : Api) (cfg : TrackerConfig) (mode : TrackerMode)
    (codec : Binascii) where
  -- A downloaded torrent is the stored one with one tracker put first: the user's personal URL when
  -- the tracker is not open and there is a user, else the URL of the settings, and then neither
  -- database nor tracker changes.
  pub get_torrent_ok :
      (now : ℕ) (info_hash : InfoHash) (opt_user_id : Option ℕ) (torrent : Torrent) (w w' : World S)
      → get_torrent database api cfg mode codec now info_hash opt_user_id w ≡ (w', ok torrent)
      → (stored : Torrent) × (database.get_torrent_from_info_hash info_hash w.db ≡ ok stored)
        × (((is_open mode ≡ true) ⊎ (opt_user_id ≡ none))
              × (torrent ≡ include_url_as_main_tracker cfg.url stored)
              × (w' ≡ w)
            ⊎ (is_open mode ≡ false)
              × ((user_id : ℕ) × (url : Text) × (opt_user_id ≡ some user_id)
                  × (get_personal_announce_url database api cfg now user_id w ≡ (w', ok url))
                  × (torrent ≡ include_url_as_main_tracker url stored)))
  unfolding get_torrent main_tracker
  get_torrent_ok now info_hash opt_user_id torrent w w' h =
      elim (Outcome-cases (database.get_torrent_from_info_hash info_hash w.db)) [
        | inr (inl (x, e)) ↦ ground (arith, h, e)
        | inr (inr e) ↦ ground (arith, h, e)
        | inl (stored, e) ↦ (
          stored,
          e,
          elim (Bool-cases (is_open mode)) [
            | inl o ↦ inl (inl o, ground (arith, h, e, o), ground (arith, h, e, o))
            | inr c ↦ elim (Option-cases opt_user_id) [
              | inl n ↦ inl (inr n, ground (arith, h, e, c, n), ground (arith, h, e, c, n))
              | inr (user_id, u) ↦
                  elim (Outcome-cases
                    (get_personal_announce_url database api cfg now user_id w).1) [
                      | inl (url, o) ↦ inr (
                        c,
                        (
                          user_id,
                          url,
                          u,
                          ground (arith, h, e, c, u, o),
                          ground (arith, h, e, c, u, o),
                        ),
                      )
                      | inr (inl (x, o)) ↦ ground (arith, h, e, c, u, o)
                      | inr (inr o) ↦ ground (arith, h, e, c, u, o)
                    ]
            ]
          ],
        )
      ]

  -- An administrator deletes a torrent that is listed and that the database deletes, whatever the
  -- tracker answers: its failure to take the torrent off its list is not reported.
  pub delete_torrent_lem :
      (info_hash : InfoHash) (user_id : ℕ) (listing : TorrentListing) (s : S) (hex : Text)
      (w : World S)
      → require_administrator database user_id w ≡ (w, ok tt)
      → database.get_torrent_listing_from_info_hash info_hash w.db ≡ ok listing
      → database.delete_torrent listing.torrent_id w.db ≡ (s, ok tt)
      → to_hex_string codec {E = ServiceError} info_hash ≡ ok hex
      → delete_torrent database api cfg mode codec info_hash user_id w ≡ (
        record { db = s; sent = remove_torrent_from_whitelist hex ∷ w.sent },
        ok (record { torrent_id = listing.torrent_id; info_hash = listing.info_hash }),
      )
  unfolding delete_torrent remove_info_hash_from_whitelist send
  delete_torrent_lem info_hash user_id listing s hex w a l d x =
      elim (Outcome-cases
        (whitelist_result (api.answer w.sent (remove_torrent_from_whitelist hex)))) [
          | inl (u, o) ↦ ground (arith, a, l, d, x, o)
          | inr (inl (u, o)) ↦ ground (arith, a, l, d, x, o)
          | inr (inr o) ↦
              elim (whitelist_result-ne-panic
                (api.answer w.sent (remove_torrent_from_whitelist hex)) o) [ ]
        ]
