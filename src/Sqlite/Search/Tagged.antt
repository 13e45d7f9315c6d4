-- ===== src/Sqlite/Search/Tagged.antt =====
-- A search by two tags (src/databases/sqlite.rs).
use torrust_index.Base.{◌+◌, ◌≡◌, ◌≢◌, refl, Option, none, some, List, [], ◌∷◌, Text, ok, arith}
use torrust_index.Listing.{TorrentListing, TorrentTag}
use torrust_index.Sqlite.{TorrentRow, Names, Tables}
use torrust_index.Sqlite.Catalog.{get_tag_from_name}
use torrust_index.Sqlite.Listings.{group_of}
use torrust_index.Sqlite.Schema.{UniqueLinks}
use torrust_index.Sqlite.Search.{title_pattern, known_tags, found, matches}
use torrust_index.Sqlite.Search.Copies.{times, bit, group-two_tags}
use torrust_index.Sqlite.Torrents.{has_link}

found-same :
    (f g : TorrentRow → Option TorrentListing) (title : Text) (rs : List TorrentRow)
    → ((r : TorrentRow) → f r ≡ g r)
    → found f title rs ≡ found g title rs
unfolding found
found-same f g title [] same = refl
found-same f g title (r ∷ rs) same = ground (arith, same r, found-same f g title rs same)

two_known_tags :
    (name name' : Text) (tag tag' : TorrentTag) (names : Names)
    → get_tag_from_name name names ≡ ok tag
    → get_tag_from_name name' names ≡ ok tag'
    → known_tags names (name ∷ name' ∷ []) ≡ tag.tag_id ∷ tag'.tag_id ∷ []
unfolding known_tags
two_known_tags name name' tag tag' names k k' = rw (k, k', known_tags) refl

-- A search for two different tags that exist, whatever its title, finds a torrent that has neither not at all, and one
-- that has one of them as the listing of the torrent alone shows it; a torrent that has both
-- shows twice the seeders and the leechers of that listing. No torrent has the same tag twice.
pub matches-two_tags :
    (title : Option Text) (name name' : Text) (tag tag' : TorrentTag) (t : Tables)
    → get_tag_from_name name t.names ≡ ok tag
    → get_tag_from_name name' t.names ≡ ok tag'
    → tag.tag_id ≢ tag'.tag_id
    → UniqueLinks t.uploads.tag_links
    → matches title none (some (name ∷ name' ∷ [])) t
      ≡ found
          (λ r.
            times
              (bit (has_link r.torrent_id tag.tag_id t.uploads.tag_links)
                + bit (has_link r.torrent_id tag'.tag_id t.uploads.tag_links))
              (group_of t (some r)))
          (title_pattern title)
          t.uploads.torrents
unfolding matches group_of
matches-two_tags title name name' tag tag' t k k' n u =
    rw (two_known_tags name name' tag tag' t.names k k') (
      found-same _ _ (title_pattern title) t.uploads.torrents
        (λ r. group-two_tags t.accounts t.names t.uploads tag.tag_id tag'.tag_id r n u))
