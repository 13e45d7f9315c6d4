-- ===== src/Listing/Tests.antt =====
-- Tests of the listings (src/services/torrent.rs, src/models/response.rs).
use torrust_index.Base.{ℕ, ◌≡◌, ◌+◌, ◌*◌, ◌≤◌, ◌<◌, List, [], ◌∷◌, none, some, Text, bytes, flatten}
use torrust_index.Listing.{
  ListingRequest, listing_specification_from_user_request, u32_mod, TorrentResponse, from_listing,
}
use torrust_index.Listing.Pages.{pages_tile}
use torrust_index.Samples.{listing}

abbrev request : ListingRequest
request = record {
  page_size = some 50;
  page = none;
  sort = none;
  categories = none;
  tags = none;
  search = none;
}

-- Pages of 30 torrents, the maximum, though 50 are asked for.
pages_tile_example :
    let spec =
      λ (n : ℕ). listing_specification_from_user_request 10 30 (record request { page = some n }) in
    ((spec 2).page_size ≤ 30)
    × ((spec 2).offset < u32_mod)
    × ((spec 0).offset ≡ 0)
    × ((2 + 1) * (spec 2).page_size < u32_mod
        → (spec (2 + 1)).offset ≡ (spec 2).offset + (spec 2).page_size)
pages_tile_example = pages_tile 10 30 2 request

abbrev tiers : List (List Text)
tiers = (bytes "udp://b" ∷ bytes "udp://t" ∷ []) ∷ (bytes "udp://t" ∷ []) ∷ []

abbrev response : TorrentResponse
response = record (from_listing listing none) { trackers = flatten tiers }
