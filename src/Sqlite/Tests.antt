-- ===== src/Sqlite/Tests.antt =====
-- Tests of the driver on a small database (src/databases/sqlite.rs).
use torrust_index.Base.{
  ℕ, ◌+◌, leb, ◌⊎◌, Option, ◌≡◌, refl, false, none, some, List, [], ◌∷◌, bytes, text_eq, length,
  Outcome, ok, err, if◌then◌else◌, arith,
}
use torrust_index.DbError.{DbError}
use torrust_index.Hex.Digits.{lower_digit}
use torrust_index.InfoHash.Codec.{Binascii, hex, unhex}
use torrust_index.Listing.{Metadata, Sorting, TorrentListing}
use torrust_index.Samples.{hash, torrent}
use torrust_index.Sql.{number_eq, text_column_eq, has, first, rows_of}
use torrust_index.Sqlite.{TorrentRow, Users, Uploads, Tables, null_if_empty}
use torrust_index.Sqlite.Accounts.{
  insert_user_and_get_id, get_user_authentication_from_id, get_user_profile_from_username,
  get_user_compact_from_id, username_key, has_email, text_of,
}
use torrust_index.Sqlite.Deleted.{get_torrent_from_id-delete_torrent}
use torrust_index.Sqlite.Downloads.{
  get_torrent_info_from_id, get_torrent_from_id, get_torrent_from_info_hash,
}
use torrust_index.Sqlite.Catalog.{insert_category_and_get_id, insert_tag_and_get_id}
use torrust_index.Sqlite.Driver.{Change, change, new_tables, Reached, start, next}
use torrust_index.Sqlite.Registration.{with_user, insert_user_and_get_id_lem, new_user_is_found}
use torrust_index.Sqlite.Schema.{IsConsistent}
use torrust_index.Sqlite.Schema.Deletions.{emptied, delete_all_database_rows_lem}
use torrust_index.Sqlite.Schema.Reachable.{Reached-IsConsistent}
use torrust_index.Sqlite.Listings.{joined_rows, group, group_of}
use torrust_index.Sqlite.Search.{
  Quoted, Tie, like, title_pattern, found, matches, get_torrents_search_sorted_paginated,
}
use torrust_index.Sqlite.Search.Laws.{contains, like-title_pattern, unknown_filters_are_dropped}
use torrust_index.Sqlite.Search.Copies.{times, bit}
use torrust_index.Sqlite.Search.Tagged.{matches-two_tags}
use torrust_index.Sqlite.Storage.{insert-get_torrent}
use torrust_index.Sqlite.Torrents.{new_row, has_link, insert_torrent_and_get_id, to_lowercase}
use torrust_index.Sqlite.Updates.{delete_torrent, delete_all_database_rows}
use torrust_index.Torrent.{DbTorrent}
use torrust_index.Torrent.Rows.{reload}

program : Unit {0}
unfolding change has first insert_tag_and_get_id insert_category_and_get_id text_eq lower_digit like
    matches contains get_torrents_search_sorted_paginated insert_torrent_and_get_id
    insert_user_and_get_id hex reload group joined_rows rows_of
program = tt

abbrev codec : Binascii
codec = record {
  bin2hex = λ bs n. ok (hex bs);
  hex2bin = λ s n. unhex s;
  bin2hex_lem = λ bs n e. refl;
  hex2bin_lem = λ s n e. refl;
}

abbrev ana : Change
ana = Change.insert_user (bytes "ana") (bytes "a@b.c") (bytes "secret")

abbrev books : Change
books = Change.insert_category (bytes "books")

abbrev linux : Change
linux = Change.insert_tag (bytes "linux")

abbrev metadata : Metadata
metadata = record { title = bytes "Sample disc"; description = []; category_id = 1; tags = 1 ∷ [] }

abbrev upload : Change
upload = Change.insert_torrent [] (bytes "2024-01-01") hash hash torrent 1 metadata

abbrev names : Tables
names = change codec linux (change codec books (change codec ana new_tables))

names-Reached : Reached codec names
names-Reached = next (next (next start ana) books) linux

abbrev stored : Tables
stored = change codec upload names

stored-Reached : Reached codec stored
stored-Reached = next names-Reached upload

one_torrent : length stored.uploads.torrents ≡ 1
unfolding program
one_torrent = refl

stored-IsConsistent : IsConsistent stored
stored-IsConsistent = Reached-IsConsistent codec stored stored-Reached

names-IsConsistent : IsConsistent names
names-IsConsistent = Reached-IsConsistent codec names names-Reached

insert-get_torrent_example :
    get_torrent_from_info_hash codec hash stored.uploads
    ≡ reload 1 (to_lowercase (hex hash.bytes)) torrent
unfolding program
insert-get_torrent_example =
    insert-get_torrent [] names.accounts.users names.names codec (bytes "2024-01-01") hash hash
      torrent 1 metadata names.uploads stored.uploads 1 (hex hash.bytes) names-IsConsistent.uploads
      refl refl

insert_user_and_get_id_lem_example :
    insert_user_and_get_id (bytes "eva") (bytes "a@b.c") (bytes "x") names.accounts ≡ (
      if has_email (null_if_empty (bytes "a@b.c")) names.accounts.profiles
      then (names.accounts, err DbError.email_taken)
      else if has username_key (bytes "eva") names.accounts.profiles
      then (names.accounts, err DbError.username_taken)
      else (with_user (bytes "eva") (bytes "a@b.c") (bytes "x") names.accounts, ok 2))
unfolding program
insert_user_and_get_id_lem_example =
    insert_user_and_get_id_lem (bytes "eva") (bytes "a@b.c") (bytes "x") names.accounts
      names-IsConsistent.accounts

abbrev eva : Users
eva = with_user (bytes "eva") [] (bytes "x") names.accounts

new_user_is_found_example :
    (get_user_profile_from_username (bytes "eva") eva
      ≡ ok (record {
        user_id = 2;
        username = bytes "eva";
        email = text_of (null_if_empty []);
        email_verified = false;
        bio = [];
        avatar = [];
      }))
    × (get_user_authentication_from_id 2 eva
        ≡ ok (record { user_id = 2; password_hash = bytes "x" }))
    × (get_user_compact_from_id 2 eva
        ≡ ok (record { user_id = 2; username = bytes "eva"; administrator = false }))
unfolding program
new_user_is_found_example =
    new_user_is_found (bytes "eva") [] (bytes "x") names.accounts names-IsConsistent.accounts eva 2
      refl

delete_all_database_rows_lem_example : delete_all_database_rows stored ≡ emptied stored
delete_all_database_rows_lem_example = delete_all_database_rows_lem stored stored-IsConsistent

-- the engine's answer to a query that it cannot read
abbrev refused : Quoted
refused _ = err DbError.error

-- ties in the order of the ids
abbrev older : Tie
older a b = leb a.torrent_id b.torrent_id

abbrev search_all : ℕ → ℕ → Outcome DbError (ℕ × List TorrentListing)
search_all offset limit =
    get_torrents_search_sorted_paginated refused older none none none Sorting.uploaded_desc offset
      limit stored

like-title_pattern_example :
    like (title_pattern (some (bytes "DISC"))) (bytes "Sample disc")
    ≡ contains (to_lowercase (bytes "DISC")) (to_lowercase (bytes "Sample disc"))
like-title_pattern_example = like-title_pattern (bytes "DISC") (bytes "Sample disc") refl

unknown_filters_are_dropped_example :
    get_torrents_search_sorted_paginated refused older none
      (some (bytes "maps" ∷ []))
      (some (bytes "bsd" ∷ []))
      Sorting.uploaded_desc
      0
      10
      stored
    ≡ search_all 0 10
unfolding program
unknown_filters_are_dropped_example =
    unknown_filters_are_dropped refused older none (bytes "maps" ∷ []) (bytes "bsd" ∷ [])
      Sorting.uploaded_desc 0 10 stored (refl, tt) (refl, tt)

abbrev row : TorrentRow
row = new_row 1 1 1 (hex hash.bytes) (bytes "2024-01-01") ([], false) torrent

abbrev two_tagged : Tables
two_tagged = change codec (Change.insert_tag (bytes "bsd")) stored

-- The torrent has the tag 1 and not the tag 2.
matches-two_tags_example :
    matches none none (some (bytes "linux" ∷ bytes "bsd" ∷ [])) two_tagged
    ≡ found
        (λ r.
          times
            (bit (has_link r.torrent_id 1 stored.uploads.tag_links)
              + bit (has_link r.torrent_id 2 stored.uploads.tag_links))
            (group_of two_tagged (some r)))
        (title_pattern none)
        stored.uploads.torrents
unfolding program
matches-two_tags_example =
    matches-two_tags none (bytes "linux") (bytes "bsd")
      (record { tag_id = 1; name = bytes "linux" }) (record { tag_id = 2; name = bytes "bsd" })
      two_tagged refl refl (omega arith) stored-IsConsistent.uploads.links.links

-- With both of its tags in the filter, its three seeders are six.
abbrev twice : Uploads
twice = record stored.uploads {
  tag_links = record { torrent_id = 1; tag_id = 1 } ∷ record { torrent_id = 1; tag_id = 2 } ∷ [];
  stats = record { torrent_id = 1; tracker_url = bytes "udp://t"; seeders = 3; leechers = 1 } ∷ [];
}

abbrev seeders_shown : Option TorrentListing → ℕ
seeders_shown none = 0
seeders_shown (some l) = l.seeders

shown_twice :
    seeders_shown
      (group stored.accounts twice (joined_rows stored.names twice [] (1 ∷ 2 ∷ []) row) row)
    ≡ 6
unfolding program
shown_twice = refl

get_torrent_from_id-delete_torrent_example :
    let (t', r) = delete_torrent 1 stored.uploads in
    (get_torrent_from_id 1 t' ≡ err DbError.torrent_not_found)
    × (get_torrent_from_id 2 t' ≡ get_torrent_from_id 2 stored.uploads)
    × (((found : DbTorrent) × (get_torrent_info_from_id 1 stored.uploads ≡ ok found) × (r ≡ ok tt))
        ⊎ (get_torrent_info_from_id 1 stored.uploads ≡ err DbError.torrent_not_found)
          × (r ≡ err DbError.torrent_not_found))
get_torrent_from_id-delete_torrent_example =
    get_torrent_from_id-delete_torrent 1 2 stored.uploads (omega arith)
