-- ===== src/Services/Index/Uploads.antt =====
-- The first half of an upload, its checks: `Index::add_torrent` of src/services/torrent.rs.
use torrust_index.Base.{
  ℕ, ◌≡◌, refl, ap, subst, ◌∙◌, inl, inr, List, [], ◌∷◌, ok, Outcome-cases, arith,
}
use torrust_index.Database.{Database}
use torrust_index.Errors.{ServiceError, from_decode_error}
use torrust_index.InfoHash.{InfoHash}
use torrust_index.InfoHash.Codec.{Binascii}
use torrust_index.Listing.{Metadata, Category, new_metadata}
use torrust_index.Models.{UserCompact}
use torrust_index.Parse.{Bencode, decode_and_validate_torrent_file, canonical_info_hash}
use torrust_index.Services.Index.{
  AddTorrentRequest, TrackerMode, check_upload, validate_and_build_metadata,
  customize_announcement_info_for, canonical_info_hash_group_checks, check_group,
}
use torrust_index.Services.Tracker.{Api, TrackerConfig}
use torrust_index.Services.Users.{get_compact}
use torrust_index.Services.World.{World, Action, ◌>>=◌, ◌>>◌, pure, result}
use torrust_index.Torrent.{Torrent}

module _ {S : Type 0} (database : Database S) (api : Api) (cfg : TrackerConfig) (mode : TrackerMode)
    (codec : Binascii) (bencode : Bencode) where
  check_group_ok :
      (original canonical : InfoHash) (group : List InfoHash) (w w' : World S)
      → check_group database original canonical group w ≡ (w', ok tt)
      → (group ≡ []) × (w' ≡ w)
  unfolding check_group
  check_group_ok original canonical [] w w' h = (refl, ground (arith, h))
  check_group_ok original canonical (x ∷ xs) w w' h = ground (arith, h)

  group_ok :
      (original canonical : InfoHash) (w w' : World S)
      → canonical_info_hash_group_checks database original canonical w ≡ (w', ok tt)
      → (database.get_torrent_canonical_info_hash_group canonical w.db ≡ ok []) × (w' ≡ w)
  unfolding canonical_info_hash_group_checks
  group_ok original canonical w w' h =
      elim (Outcome-cases (database.get_torrent_canonical_info_hash_group canonical w.db)) [
        | inl (group, e) ↦
            let (none_yet, same) =
              check_group_ok original canonical group w w' (ground (arith, h, e)) in
            (e ∙ ap ok none_yet, same)
        | inr (inl (x, e)) ↦ ground (arith, h, e)
        | inr (inr e) ↦ ground (arith, h, e)
      ]

  -- the metadata are those of the request, with the id of its category
  abbrev pub Described : AddTorrentRequest → Metadata → World S → Type 0
  Described req metadata w =
      (category : Category) × (database.get_category_from_name req.category_name w.db ≡ ok category)
      × (new_metadata req.title req.description category.category_id req.tags ≡ ok metadata)

  metadata_ok :
      (req : AddTorrentRequest) (metadata : Metadata) (w w' : World S)
      → validate_and_build_metadata database req w ≡ (w', ok metadata)
      → (w' ≡ w) × Described req metadata w
  unfolding validate_and_build_metadata
  metadata_ok req metadata w w' h = (
    ground (arith, h),
    elim (Outcome-cases (database.get_category_from_name req.category_name w.db)) [
      | inl (category, e) ↦ (category, e, ground (arith, h, e))
      | inr (inl (x, e)) ↦ ground (arith, h, e)
      | inr (inr e) ↦ ground (arith, h, e)
    ],
  )

  -- what the checks after the user's do, step by step
  hashed :
      (metadata : Metadata)
      → Torrent × InfoHash
      → Action S ServiceError ((Metadata × Torrent) × (InfoHash × InfoHash))
  hashed metadata (uploaded, original) = do
    let torrent = customize_announcement_info_for database api cfg mode codec bencode uploaded
    canonical ← result (λ e. e) (canonical_info_hash bencode torrent)
    canonical_info_hash_group_checks database original canonical
    pure ((metadata, torrent), (original, canonical))

  described :
      AddTorrentRequest → Action S ServiceError ((Metadata × Torrent) × (InfoHash × InfoHash))
  unfolding hashed
  described req = do
    metadata ← validate_and_build_metadata database req
    upload ← result from_decode_error (decode_and_validate_torrent_file bencode req.torrent_buffer)
    hashed metadata upload

  hashed_ok :
      (m metadata : Metadata) (uploaded torrent : Torrent) (o original canonical : InfoHash)
      (w w' : World S)
      → hashed m (uploaded, o) w ≡ (w', ok ((metadata, torrent), (original, canonical)))
      → (m ≡ metadata)
        × (o ≡ original)
        × (w' ≡ w)
        × (torrent ≡ customize_announcement_info_for database api cfg mode codec bencode uploaded)
        × (canonical_info_hash bencode {E = ServiceError} torrent ≡ ok canonical)
        × (database.get_torrent_canonical_info_hash_group canonical w.db ≡ ok [])
  unfolding hashed
  hashed_ok m metadata uploaded torrent o original canonical w w' h =
      let t = customize_announcement_info_for database api cfg mode codec bencode uploaded in
      elim (Outcome-cases (canonical_info_hash bencode {E = ServiceError} t)) [
        | inr (inl (x, e)) ↦ ground (arith, h, e)
        | inr (inr e) ↦ ground (arith, h, e)
        | inl (c, e) ↦ elim (Outcome-cases (canonical_info_hash_group_checks database o c w).1) [
          | inr (inl (x, g)) ↦ ground (arith, h, e, g)
          | inr (inr g) ↦ ground (arith, h, e, g)
          | inl (u, g) ↦
              let (none_yet, same) =
                group_ok o c w (canonical_info_hash_group_checks database o c w).0
                  (ground (arith, g)) in
              (
                ground (arith, h, e, g),
                ground (arith, h, e, g),
                ground (arith, h, e, g, same),
                ground (arith, h, e, g),
                ground (arith, h, e, g),
                ground (arith, h, e, g, none_yet),
              )
        ]
      ]

  described_ok :
      (req : AddTorrentRequest) (metadata : Metadata) (torrent : Torrent)
      (original canonical : InfoHash) (w w' : World S)
      → described req w ≡ (w', ok ((metadata, torrent), (original, canonical)))
      → (w' ≡ w)
        × Described req metadata w
        × ((uploaded : Torrent) × (decode_and_validate_torrent_file bencode req.torrent_buffer
              ≡ ok (uploaded, original))
            × (torrent
                ≡ customize_announcement_info_for database api cfg mode codec bencode uploaded))
        × (canonical_info_hash bencode {E = ServiceError} torrent ≡ ok canonical)
        × (database.get_torrent_canonical_info_hash_group canonical w.db ≡ ok [])
  unfolding described
  described_ok req metadata torrent original canonical w w' h =
      elim (Outcome-cases (validate_and_build_metadata database req w).1) [
        | inr (inl (x, e)) ↦ ground (arith, h, e)
        | inr (inr e) ↦ ground (arith, h, e)
        | inl (m, e) ↦
            elim (Outcome-cases (decode_and_validate_torrent_file bencode req.torrent_buffer)) [
              | inr (inl (x, d)) ↦ ground (arith, h, e, d)
              | inr (inr d) ↦ ground (arith, h, e, d)
              | inl ((uploaded, o), d) ↦
                  let (same, cat) =
                    metadata_ok req m w (validate_and_build_metadata database req w).0
                      (ground (arith, e)) in
                  let (em, eo, ew, t, c, g) =
                    hashed_ok m metadata uploaded torrent o original canonical w w'
                      (ground (arith, h, e, d, same)) in
                  (
                    ew,
                    subst (λ n. Described req n w) em cat,
                    (uploaded, d ∙ ap (λ (i : InfoHash). ok (uploaded, i)) eo, t),
                    c,
                    g,
                  )
            ]
      ]

  -- An upload that may be stored comes from a user that exists. Its metadata are good and name a
  -- category that exists; the file is a torrent, to which the index's tracker is put; no torrent has
  -- its canonical info-hash. The checks change nothing.
  pub check_upload_ok :
      (req : AddTorrentRequest) (user_id : ℕ) (metadata : Metadata) (torrent : Torrent)
      (original canonical : InfoHash) (w w' : World S)
      → check_upload database api cfg mode codec bencode req user_id w
        ≡ (w', ok ((metadata, torrent), (original, canonical)))
      → ((user : UserCompact) × (database.get_user_compact_from_id user_id w.db ≡ ok user))
        × (w' ≡ w)
        × Described req metadata w
        × ((uploaded : Torrent) × (decode_and_validate_torrent_file bencode req.torrent_buffer
              ≡ ok (uploaded, original))
            × (torrent
                ≡ customize_announcement_info_for database api cfg mode codec bencode uploaded))
        × (canonical_info_hash bencode {E = ServiceError} torrent ≡ ok canonical)
        × (database.get_torrent_canonical_info_hash_group canonical w.db ≡ ok [])
  unfolding check_upload get_compact described hashed
  check_upload_ok req user_id metadata torrent original canonical w w' h =
      elim (Outcome-cases (database.get_user_compact_from_id user_id w.db)) [
        | inr (inl (x, u)) ↦ ground (arith, h, u)
        | inr (inr u) ↦ ground (arith, h, u)
        | inl (user, u) ↦
            let (ew, d, file, c, g) =
              described_ok req metadata torrent original canonical w w' (ground (arith, h, u)) in
            ((user, u), ew, d, file, c, g)
      ]
