-- ===== src/Listing/Pages.antt =====
-- The pages of a listing (src/services/torrent.rs).
use torrust_index.Base.{ℕ, ◌+◌, ◌*◌, ◌%◌, ◌≤◌, ◌<◌, ◌≡◌, some, arith}
use torrust_index.Listing.{
  ListingRequest, listing_specification_from_user_request, capped, unwrap_or, u32_mod,
}

capped-le : (size max_size : ℕ) → capped size max_size ≤ max_size
unfolding capped
capped-le size max_size = ground arith

tile :
    (page size : ℕ)
    → (page + 1) * size < u32_mod
    → (page + 1) * size % u32_mod ≡ page * size % u32_mod + size
tile page size h = omega arith

-- The page size never exceeds the configured maximum, and the offset is a `u32`. As long as the
-- end of a page is below 2 ^ 32, the page starts where the one before it ends, and page 0 starts
-- at 0: consecutive pages leave no torrent out and show none twice.
pub pages_tile :
    (default_size max_size page : ℕ) (request : ListingRequest)
    → let spec = λ (n : ℕ).
      listing_specification_from_user_request default_size max_size
        (record request { page = some n }) in
      ((spec page).page_size ≤ max_size)
      × ((spec page).offset < u32_mod)
      × ((spec 0).offset ≡ 0)
      × ((page + 1) * (spec page).page_size < u32_mod
          → (spec (page + 1)).offset ≡ (spec page).offset + (spec page).page_size)
unfolding listing_specification_from_user_request
pages_tile default_size max_size page request =
    let size = capped (unwrap_or request.page_size default_size) max_size in
    (
      capped-le (unwrap_or request.page_size default_size) max_size,
      omega arith,
      omega arith,
      tile page size,
    )
