-- ===== src/Torrent/Reload.antt =====
-- What a torrent file is after it has been stored and loaded again, as for a download
-- (src/models/torrent_file.rs, src/databases/sqlite.rs).
use torrust_index.Base.{
  ℕ, ◌≡◌, refl, ap, ◌≢◌, Bool, true, not, ◌&&◌, Option, none, some, List, [], ◌∷◌, map, Text, all,
  length, is_empty, ok, arith, if◌then◌else◌,
}
use torrust_index.Hex.Digits.{AllBytes}
use torrust_index.Hex.RoundTrip.{into_bytes-from_bytes}
use torrust_index.Torrent.{Torrent, TorrentFile, TorrentInfoDictionary, from_database}
use torrust_index.Torrent.Paths.{no_slash, split_path-join_path}
use torrust_index.Torrent.Rows.{
  pieces_columns, file_rows, file_row, announce_rows, torrent_file, torrent_files, announce_tiers,
  torrent_row, reload,
}

-- a path with a part, and no slash in any part
abbrev pub good_path : TorrentFile → Bool
good_path f = not (is_empty f.path) && all no_slash f.path

torrent_file-file_row : (f : TorrentFile) → good_path f ≡ true → torrent_file (file_row f) ≡ f
unfolding torrent_file file_row
torrent_file-file_row f h =
    ap (λ (p : List Text). let f' : TorrentFile = record f { path = p } in f')
      (split_path-join_path f.path (ground arith) (ground arith))

torrent_files-file_rows :
    (fs : List TorrentFile) → all good_path fs ≡ true → torrent_files (map file_row fs) ≡ fs
unfolding torrent_files
torrent_files-file_rows [] h = refl
torrent_files-file_rows (f ∷ fs) h =
    rw (torrent_file-file_row f (ground arith))
      (ap (◌∷◌ f) (torrent_files-file_rows fs (ground arith)))

-- the root of the file apart from the info dictionary, after a reload
abbrev pub reloaded : Torrent → List Text → TorrentInfoDictionary → Torrent
reloaded t urls info = record t {
  info = info;
  announce = none;
  nodes = none;
  httpseeds = none;
  announce_list = some (announce_tiers urls);
}

-- A torrent with a list of files, of which there is not exactly one, comes back with that list and
-- its name, pieces, piece length and `private` flag; the checksum, path, `root_hash` and `source` of
-- the info dictionary are lost. The paths must have a part and no slash in a part, and the torrent
-- has pieces, no length, and an announce URL or tiers.
pub reload_multi :
    (torrent_id : ℕ) (info_hash : Text) (t : Torrent) (pieces : Text) (files : List TorrentFile)
    (urls : List Text)
    → t.info.pieces ≡ some pieces
    → AllBytes pieces
    → t.info.length ≡ none
    → t.info.files ≡ some files
    → length files ≢ 1
    → all good_path files ≡ true
    → announce_rows t ≡ ok urls
    → reload torrent_id info_hash t
      ≡ ok (
          reloaded t urls
            (record t.info { md5sum = none; path = none; root_hash = none; source = none }))
unfolding pieces_columns file_rows torrent_row from_database reload
reload_multi torrent_id info_hash t pieces [] urls p bytes l f n g a =
    rw (p, l, f, a, into_bytes-from_bytes pieces bytes) refl
reload_multi torrent_id info_hash t pieces (x ∷ []) urls p bytes l f n g a = absurd (n refl)
reload_multi torrent_id info_hash t pieces (x ∷ y ∷ files) urls p bytes l f n g a =
    rw (p, l, f, a, into_bytes-from_bytes pieces bytes, torrent_files-file_rows (x ∷ y ∷ files) g)
      refl

-- A torrent with a list of exactly one file comes back as a single-file torrent: it has a length
-- and no list of files, so it is another info dictionary, unlike the one that was uploaded.
pub reload_one_file :
    (torrent_id : ℕ) (info_hash : Text) (t : Torrent) (pieces : Text) (file : TorrentFile)
    (urls : List Text)
    → t.info.pieces ≡ some pieces
    → AllBytes pieces
    → t.info.length ≡ none
    → t.info.files ≡ some (file ∷ [])
    → good_path file ≡ true
    → announce_rows t ≡ ok urls
    → (t' : Torrent) × (reload torrent_id info_hash t ≡ ok t')
      × (t'.info.length ≡ some file.length)
      × (t'.info.files ≡ none)
      × (t'.info ≢ t.info)
unfolding pieces_columns file_rows torrent_row from_database reload
reload_one_file torrent_id info_hash t pieces file urls p bytes l f g a = by_path file.path refl
  where
    result : Option (List Text) → Torrent
    result path = reloaded t urls (record t.info {
      md5sum = file.md5sum;
      length = some file.length;
      files = none;
      path = path;
      root_hash = none;
      source = none;
    })

    by_path :
        (path : List Text)
        → file.path ≡ path
        → (t' : Torrent) × (reload torrent_id info_hash t ≡ ok t')
          × (t'.info.length ≡ some file.length)
          × (t'.info.files ≡ none)
          × (t'.info ≢ t.info)
    by_path [] e = absurd (ground arith)
    by_path (part ∷ parts) e = (
      result (if is_empty part then none else some (part ∷ parts)),
      rw (p, l, f, a, into_bytes-from_bytes pieces bytes, torrent_file-file_row file g, e) refl,
      refl,
      refl,
      λ same. ground (arith, ap (λ (i : TorrentInfoDictionary). i.files) same),
    )
