-- ===== src/Listing/Responses.antt =====
-- Titles, and the trackers of a response (src/models/torrent.rs, src/models/response.rs).
use torrust_index.Base.{
  ℕ, ◌≡◌, refl, ap, ◌∙◌, sym, ◌≤◌, ◌<◌, ◌⊎◌, inl, inr, some, List, [], ◌∷◌, Text, length, flatten,
  retain, ok, err, arith,
}
use torrust_index.Errors.{missing_torrent_title, invalid_title_length}
use torrust_index.Listing.{new_metadata, TorrentResponse, include_url_in_response}
use torrust_index.Torrent.{Torrent, include_url_as_main_tracker, url_to_front}
use torrust_index.Torrent.Trackers.{other, flatten-url_to_front}

-- Metadata are accepted exactly when the title has three bytes or more, and hold what was given;
-- an empty title and one that is too short have an error each.
pub new_metadata_lem :
    (title description : Text) (category_id : ℕ) (tags : List ℕ)
    → (3 ≤ length title)
        × (new_metadata title description category_id tags
            ≡ ok (record {
              title = title;
              description = description;
              category_id = category_id;
              tags = tags;
            }))
      ⊎ (length title ≡ 0)
        × (new_metadata title description category_id tags ≡ err missing_torrent_title)
      ⊎ (0 < length title)
        × (length title < 3)
        × (new_metadata title description category_id tags ≡ err invalid_title_length)
unfolding new_metadata
new_metadata_lem [] description category_id tags = inr (inl (refl, refl))
new_metadata_lem (c ∷ title) description category_id tags = ground arith

-- The two places that put the index's tracker first agree: the trackers of the information page are
-- those of the downloaded file, if they were before.
pub trackers_agree :
    (url : Text) (t : Torrent) (r : TorrentResponse) (list : List (List Text))
    → t.announce_list ≡ some list
    → r.trackers ≡ flatten list
    → (list' : List (List Text)) × ((include_url_as_main_tracker url t).announce_list ≡ some list')
      × ((include_url_in_response url r).trackers ≡ flatten list')
unfolding include_url_as_main_tracker include_url_in_response
trackers_agree url t r list e f = (
  url_to_front url list,
  rw e refl,
  ap (λ (l : List Text). url ∷ retain (other url) l) f ∙ sym (flatten-url_to_front url list),
)
