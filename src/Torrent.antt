-- ===== src/Torrent.antt =====
-- Torrent files: the types and methods of src/models/torrent_file.rs. An `i64` is its bit pattern,
-- a number below 2 ^ 64 that stands for a negative integer from 2 ^ 63 on; release builds wrap.
pub mod Paths
pub mod Trackers
pub mod Rows
pub mod Reload
mod Tests
use torrust_index.Base.{
  ℕ, ◌+◌, ◌%◌, ◌^◌, Bool, true, false, not, ◌&&◌, Option, none, some, List, [], ◌∷◌, map, Text,
  text_eq, length, retain, flatten, is_empty, ltb, ◌==◌, if◌then◌else◌, Outcome, ok, err, panic,
  ◌>>=◌,
}
use torrust_index.Hex

pub record TorrentFile : Type 0 where
  pub path : List Text
  pub length : ℕ
  pub md5sum : Option Text

pub record TorrentInfoDictionary : Type 0 where
  pub name : Text
  pub pieces : Option Text
  pub piece_length : ℕ
  pub md5sum : Option Text
  pub length : Option ℕ
  pub files : Option (List TorrentFile)
  pub private : Option ℕ
  pub path : Option (List Text)
  pub root_hash : Option Text
  pub source : Option Text

pub record Torrent : Type 0 where
  pub info : TorrentInfoDictionary
  pub announce : Option Text
  pub nodes : Option (List (Text × ℕ))
  pub encoding : Option Text
  pub httpseeds : Option (List Text)
  pub announce_list : Option (List (List Text))
  pub creation_date : Option ℕ
  pub comment : Option Text
  pub created_by : Option Text

pub record DbTorrent : Type 0 where
  pub torrent_id : ℕ
  pub info_hash : Text
  pub name : Text
  pub pieces : Text
  pub piece_length : ℕ
  pub private : Option ℕ
  pub root_hash : ℕ
  pub comment : Option Text
  pub creation_date : Option ℕ
  pub created_by : Option Text
  pub encoding : Option Text

pub record DbTorrentFile : Type 0 where
  pub path : Option Text
  pub length : ℕ
  pub md5sum : Option Text

-- `set_announce_to`
unfoldable pub set_announce_to : Text → Torrent → Torrent
set_announce_to tracker_url t = record t { announce = some tracker_url }

-- the three steps of `add_url_to_front_of_announce_list` on the list
unfoldable pub url_to_front : Text → List (List Text) → List (List Text)
url_to_front tracker_url list =
    retain (λ inner_list. not (is_empty inner_list))
      ((tracker_url ∷ []) ∷ map (retain (λ url. not (text_eq url tracker_url))) list)

unfoldable pub add_url_to_front_of_announce_list : Text → Torrent → Torrent
unfolding url_to_front
add_url_to_front_of_announce_list tracker_url t = record t {
  announce_list = elim t.announce_list [
    | none ↦ none
    | some list ↦ some (url_to_front tracker_url list)
  ];
}

unfoldable pub include_url_as_main_tracker : Text → Torrent → Torrent
unfolding set_announce_to add_url_to_front_of_announce_list
include_url_as_main_tracker tracker_url t =
    add_url_to_front_of_announce_list tracker_url (set_announce_to tracker_url t)

unfoldable pub is_private : Torrent → Bool
is_private t = elim t.info.private [ none ↦ false | some private ↦ private == 1 ]

unfoldable pub reset_announce_list_if_private : Torrent → Torrent
unfolding is_private
reset_announce_list_if_private t = if is_private t then record t { announce_list = none } else t

abbrev pub i64_mod : ℕ
i64_mod = 2 ^ 64

-- `root_hash > 0` on an `i64`
abbrev pub is_positive : ℕ → Bool
is_positive n = ltb 0 n && ltb n (2 ^ 63)

-- the loop of `file_size`
unfoldable pub add_lengths : ℕ → List TorrentFile → ℕ
add_lengths file_size [] = file_size
add_lengths file_size (file ∷ files) = add_lengths ((file_size + file.length) % i64_mod) files

unfoldable pub file_size : Torrent → ℕ
unfolding add_lengths
file_size t = elim t.info.length [
  | some length ↦ length
  | none ↦ elim t.info.files [ none ↦ 0 | some files ↦ add_lengths 0 files ]
]

unfoldable pub announce_urls : {E : Type 0} → Torrent → Outcome E (List Text)
announce_urls t = elim t.announce_list [
  | some list ↦ ok (flatten list)
  | none ↦ elim t.announce [ none ↦ panic | some url ↦ ok (url ∷ []) ]
]

unfoldable pub is_a_single_file_torrent : Torrent → Bool
is_a_single_file_torrent t = elim t.info.length [ none ↦ false | some length ↦ true ]

unfoldable pub is_a_multiple_file_torrent : Torrent → Bool
is_a_multiple_file_torrent t = elim t.info.files [ none ↦ false | some files ↦ true ]

unfoldable pub get_pieces_as_string : TorrentInfoDictionary → Text
get_pieces_as_string info = elim info.pieces [ none ↦ [] | some pieces ↦ Hex.from_bytes pieces ]

-- an error behind `expect` is a panic
abbrev pub expect : {E F A : Type 0} → Outcome F A → Outcome E A
expect (ok a) = ok a
expect (err e) = panic
expect panic = panic

-- the first half of `with`: `root_hash` or `pieces`
unfoldable pub with_pieces :
    {E : Type 0} → ℕ → Text → TorrentInfoDictionary → Outcome E TorrentInfoDictionary
with_pieces root_hash pieces info =
    if is_positive root_hash
    then ok (record info { root_hash = some pieces })
    else (expect (Hex.into_bytes pieces) >>= λ buffer. ok (record info { pieces = some buffer }))

-- the path of the only file, which is left out if its first part is empty
unfoldable pub single_path : {E : Type 0} → List Text → Outcome E (Option (List Text))
single_path [] = panic
single_path (part ∷ parts) = ok (if is_empty part then none else some (part ∷ parts))

-- the second half of `with`: a single file, or the list of files
unfoldable pub with_files :
    {E : Type 0} → List TorrentFile → TorrentInfoDictionary → Outcome E TorrentInfoDictionary
unfolding single_path
with_files (file ∷ []) info = single_path file.path >>= λ path.
    ok (record info { md5sum = file.md5sum; length = some file.length; path = path })
with_files files info = ok (record info { files = some files })

-- `TorrentInfoDictionary::with`
unfoldable pub with_fields :
    {E : Type 0}
    → Text
    → ℕ
    → Option ℕ
    → ℕ
    → Text
    → List TorrentFile
    → Outcome E TorrentInfoDictionary
unfolding with_pieces with_files
with_fields name piece_length private root_hash pieces files = do
  let info : TorrentInfoDictionary = record {
    name = name;
    pieces = none;
    piece_length = piece_length;
    md5sum = none;
    length = none;
    files = none;
    private = private;
    path = none;
    root_hash = none;
    source = none;
  }
  info' ← with_pieces root_hash pieces info
  with_files files info'

unfoldable pub from_database :
    {E : Type 0} → DbTorrent → List TorrentFile → List (List Text) → Outcome E Torrent
unfolding with_fields
from_database db_torrent torrent_files torrent_announce_urls =
    with_fields db_torrent.name db_torrent.piece_length db_torrent.private db_torrent.root_hash
      db_torrent.pieces torrent_files
    >>= λ info. ok (record {
      info = info;
      announce = none;
      nodes = none;
      encoding = db_torrent.encoding;
      httpseeds = none;
      announce_list = some torrent_announce_urls;
      creation_date = db_torrent.creation_date;
      comment = db_torrent.comment;
      created_by = db_torrent.created_by;
    })
