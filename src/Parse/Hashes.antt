-- ===== src/Parse/Hashes.antt =====
-- What an upload that is accepted guarantees, and the info-hash of a torrent
-- (src/utils/parse_torrent.rs, src/models/torrent_file.rs).
use torrust_index.Base.{
  true, false, ◌≡◌, ◌≢◌, ap, sym, subst, ◌∙◌, ◌%◌, ◌⊎◌, inl, inr, Text, length, none, some, Outcome,
  ok, err, panic, Bool-cases, Option-cases, arith,
}
use torrust_index.Errors.{
  DecodeTorrentFileError, invalid_bencode_data, invalid_info_dictionary, invalid_pieces_length,
  cannot_bencode_info_dict,
}
use torrust_index.InfoHash.{InfoHash, from_bytes}
use torrust_index.Parse.{
  Bencode, or_error, calculate_info_hash, has_bad_pieces, decode_and_validate_torrent_file,
  canonical_info_hash, calculate_info_hash_as_bytes,
}
use torrust_index.Torrent.{Torrent}

module _ (b : Bencode) where
  -- what is known of an upload, by the result of the call
  pub data Upload (bs : Text) : Outcome DecodeTorrentFileError (Torrent × InfoHash) → Type 0 where
    accepted :
        (t : Torrent) (v : b.Value) (dict : Text)
        → b.torrent_of bs ≡ some t
        → b.info_of bs ≡ some v
        → b.value_to_bytes v ≡ some dict
        → ((pieces : Text) → t.info.pieces ≡ some pieces → length pieces % 20 ≡ 0)
        → Upload bs (ok (t, record { bytes = b.sha1 dict }))
    no_info : b.info_of bs ≡ none → Upload bs (err invalid_info_dictionary)
    no_dict :
        (v : b.Value)
        → b.info_of bs ≡ some v
        → b.value_to_bytes v ≡ none
        → Upload bs (err cannot_bencode_info_dict)
    no_torrent :
        (v : b.Value) (dict : Text)
        → b.info_of bs ≡ some v
        → b.value_to_bytes v ≡ some dict
        → b.torrent_of bs ≡ none
        → Upload bs (err invalid_bencode_data)
    bad_pieces :
        (t : Torrent) (pieces : Text) (v : b.Value) (dict : Text)
        → b.info_of bs ≡ some v
        → b.value_to_bytes v ≡ some dict
        → b.torrent_of bs ≡ some t
        → t.info.pieces ≡ some pieces
        → length pieces % 20 ≢ 0
        → Upload bs (err invalid_pieces_length)

  good_pieces :
      (t : Torrent)
      → has_bad_pieces b t ≡ false
      → (pieces : Text) → t.info.pieces ≡ some pieces
      → length pieces % 20 ≡ 0
  unfolding has_bad_pieces
  good_pieces t h pieces e = ground (arith, h, e)

  some_bad_pieces :
      (t : Torrent)
      → has_bad_pieces b t ≡ true
      → (pieces : Text) × (t.info.pieces ≡ some pieces) × (length pieces % 20 ≢ 0)
  unfolding has_bad_pieces
  some_bad_pieces t h = elim (Option-cases t.info.pieces) [
    | inl e ↦ ground (arith, h, e)
    | inr (pieces, e) ↦ (pieces, e, ground (arith, h, e))
  ]

  ends :
      (bs : Text) {r r' : Outcome DecodeTorrentFileError (Torrent × InfoHash)}
      → r ≡ r'
      → Upload bs r'
      → Upload bs r
  ends bs e u = subst (λ o. Upload bs o) (sym e) u

  -- the two last steps, once the info-hash is known
  checked :
      (bs : Text) (v : b.Value) (dict : Text)
      → b.info_of bs ≡ some v
      → b.value_to_bytes v ≡ some dict
      → calculate_info_hash b bs ≡ ok (record { bytes = b.sha1 dict })
      → Upload bs (decode_and_validate_torrent_file b bs)
  unfolding decode_and_validate_torrent_file or_error
  checked bs v dict i d h = elim (Option-cases (b.torrent_of bs)) [
    | inl e ↦ ends bs (ground (arith, h, e)) (no_torrent v dict i d e)
    | inr (t, e) ↦ elim (Bool-cases (has_bad_pieces b t)) [
      | inl bad ↦
          let (pieces, p, not_whole) = some_bad_pieces t bad in
          ends bs (ground (arith, h, e, bad)) (bad_pieces t pieces v dict i d e p not_whole)
      | inr good ↦
          ends bs (ground (arith, h, e, good)) (accepted t v dict e i d (good_pieces t good))
    ]
  ]

  hash_lem :
      (bs : Text) (v : b.Value) (dict : Text)
      → b.info_of bs ≡ some v
      → b.value_to_bytes v ≡ some dict
      → calculate_info_hash b bs ≡ ok (record { bytes = b.sha1 dict })
  unfolding calculate_info_hash or_error from_bytes
  hash_lem bs v dict i d = ground (arith, i, d, b.length-sha1 dict)

  -- An upload is accepted exactly when its info dictionary can be read and written again, it is a
  -- torrent, and its pieces are whole; the info-hash is then the SHA-1 of the dictionary as the
  -- file has it. Else the error names the first of these that failed, and the call never panics.
  pub upload_lem : (bs : Text) → Upload bs (decode_and_validate_torrent_file b bs)
  unfolding decode_and_validate_torrent_file calculate_info_hash or_error from_bytes
  upload_lem bs = elim (Option-cases (b.info_of bs)) [
    | inl e ↦ ends bs (ground (arith, e)) (no_info e)
    | inr (v, e) ↦ elim (Option-cases (b.value_to_bytes v)) [
      | inl d ↦ ends bs (ground (arith, e, d)) (no_dict v e d)
      | inr (dict, d) ↦ checked bs v dict e d (hash_lem bs v dict e d)
    ]
  ]

  -- The canonical info-hash depends on the info dictionary alone: two torrents with the same one
  -- have the same hash, whatever trackers and other keys they have. It has 20 bytes, and the one
  -- panic is that of a dictionary that cannot be written.
  pub canonical_info_hash_lem :
      (t : Torrent)
      → (b.info_to_bytes t.info ≡ none)
          × (canonical_info_hash b {E = DecodeTorrentFileError} t ≡ panic)
        ⊎ ((h : InfoHash) × (length h.bytes ≡ 20)
            × ((t' : Torrent)
                → t'.info ≡ t.info
                → canonical_info_hash b {E = DecodeTorrentFileError} t' ≡ ok h))
  unfolding canonical_info_hash calculate_info_hash_as_bytes
  canonical_info_hash_lem t = elim (Option-cases (b.info_to_bytes t.info)) [
    | inl e ↦ inl (e, ground (arith, e))
    | inr (dict, e) ↦ inr (
      record { bytes = b.sha1 dict },
      b.length-sha1 dict,
      λ t' same. ground (arith, ap b.info_to_bytes same ∙ e, b.length-sha1 dict),
    )
  ]
