-- ===== src/Parse.antt =====
-- Torrent files that are uploaded: src/utils/parse_torrent.rs, and the info-hash of a torrent in
-- src/models/torrent_file.rs.
pub mod Hashes
mod Tests
use torrust_index.Base.{
  ℕ, Bool, false, ◌≡◌, ◌%◌, Text, length, Option, none, some, Outcome, ok, err, panic, ◌==◌, not,
  if◌then◌else◌, refuse_if, ◌>>=◌, ◌>>◌,
}
use torrust_index.Errors.{
  DecodeTorrentFileError, invalid_bencode_data, invalid_info_dictionary, invalid_pieces_length,
  cannot_bencode_info_dict,
}
use torrust_index.InfoHash.{InfoHash, from_bytes, from_slice}
use torrust_index.Torrent.{Torrent, TorrentInfoDictionary}

-- The crates `serde_bencode` and `sha1`. `Value` is the type of any bencoded value; a digest has
-- 20 bytes.
pub record Bencode : Type 1 where
  pub Value : Type 0
  pub torrent_of : Text → Option Torrent
  pub info_of : Text → Option Value
  pub value_to_bytes : Value → Option Text
  pub info_to_bytes : TorrentInfoDictionary → Option Text
  pub sha1 : Text → Text
  pub length-sha1 : (bs : Text) → length (sha1 bs) ≡ 20

module _ (b : Bencode) where
  -- an error that was turned into another one
  unfoldable pub or_error :
      {A : Type 0} → DecodeTorrentFileError → Option A → Outcome DecodeTorrentFileError A
  or_error e none = err e
  or_error e (some a) = ok a

  -- The hash of the info dictionary as the file has it, with keys that the index does not know.
  unfoldable pub calculate_info_hash : Text → Outcome DecodeTorrentFileError InfoHash
  unfolding or_error
  calculate_info_hash bs = do
    metainfo ← or_error invalid_info_dictionary (b.info_of bs)
    info_dict_bytes ← or_error cannot_bencode_info_dict (b.value_to_bytes metainfo)
    from_bytes (b.sha1 info_dict_bytes)

  -- the guard on the pieces, of 20 bytes each
  unfoldable pub has_bad_pieces : Torrent → Bool
  has_bad_pieces torrent = elim torrent.info.pieces [
    | none ↦ false
    | some pieces ↦ not (length pieces % 20 == 0)
  ]

  unfoldable pub decode_and_validate_torrent_file :
      Text → Outcome DecodeTorrentFileError (Torrent × InfoHash)
  unfolding calculate_info_hash or_error has_bad_pieces
  decode_and_validate_torrent_file bs = do
    original_info_hash ← calculate_info_hash bs
    torrent ← or_error invalid_bencode_data (b.torrent_of bs)
    refuse_if (has_bad_pieces torrent) invalid_pieces_length
    ok (torrent, original_info_hash)

  -- `calculate_info_hash_as_bytes`: the `expect` panics, and so does a copy of another length.
  unfoldable pub calculate_info_hash_as_bytes : {E : Type 0} → Torrent → Outcome E Text
  calculate_info_hash_as_bytes t = elim (b.info_to_bytes t.info) [
    | none ↦ panic
    | some info_bencoded ↦
        if length (b.sha1 info_bencoded) == 20 then ok (b.sha1 info_bencoded) else panic
  ]

  unfoldable pub canonical_info_hash : {E : Type 0} → Torrent → Outcome E InfoHash
  unfolding calculate_info_hash_as_bytes
  canonical_info_hash t = calculate_info_hash_as_bytes t >>= λ bs. ok (record { bytes = bs })
