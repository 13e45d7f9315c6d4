-- ===== src/Services/Information/Tests.antt =====
-- A torrent's page on a sample (src/services/torrent.rs).
use torrust_index.Base.{◌≡◌, refl, [], ◌∷◌, none, bytes, ok, text_eq}
use torrust_index.Samples.{database, api, tracker, world, hash, listing}
use torrust_index.InfoHash.Codec.{Binascii, hex, unhex}
use torrust_index.Listing.{from_listing, include_url_in_response}
use torrust_index.Services.Index.{public, is_open, main_tracker, category_of}
use torrust_index.Services.Information.{
  get_torrent_info, named_files, magnet_of, add_trackers, with_numbers,
}
use torrust_index.Services.Tracker.{
  import_torrent_statistics, get_torrent_info as ask, send, torrent_info_result, parsed,
  save_statistics,
}
use torrust_index.Services.World.{get_torrent_info as info_request}

abbrev codec : Binascii
codec = record {
  bin2hex = λ bs n. ok (hex bs);
  hex2bin = λ s n. unhex s;
  bin2hex_lem = λ bs n e. refl;
  hex2bin_lem = λ s n e. refl;
}

-- The numbers are the tracker's, and its URL is in the link.
page_run : get_torrent_info database api tracker public codec (λ s. s) 100 hash none world ≡ (
  record { db = 1; sent = info_request (bytes "0102") ∷ [] },
  ok (record (from_listing listing none) {
    seeders = 2;
    leechers = 3;
    trackers = bytes "udp://t" ∷ [];
    magnet_link = bytes "magnet:?xt=urn:btih:0102&dn=Sample&tr=udp://t";
  }),
)
unfolding get_torrent_info named_files magnet_of add_trackers with_numbers import_torrent_statistics
    ask send torrent_info_result parsed save_statistics is_open main_tracker category_of
    from_listing include_url_in_response text_eq
page_run = refl
