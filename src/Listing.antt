-- ===== src/Listing.antt =====
-- Torrent listings: src/models/torrent.rs, src/models/response.rs, `AsCSV` of src/lib.rs and the
-- listing specification of src/services/torrent.rs.
pub mod Pages
pub mod Responses
mod Tests
use torrust_index.Base.{
  ℕ, ◌*◌, ◌%◌, ◌^◌, Bool, true, false, not, Option, none, some, List, [], ◌∷◌, map, Text, text_eq,
  length, is_empty, retain, trim, split_at, ltb, if◌then◌else◌, Outcome, ok, err, refuse_if, ◌>>=◌,
  ◌>>◌,
}
use torrust_index.Errors.{MetadataError, missing_torrent_title, invalid_title_length}
use torrust_index.Torrent.{TorrentFile}

pub record TorrentListing : Type 0 where
  pub torrent_id : ℕ
  pub uploader : Text
  pub info_hash : Text
  pub title : Text
  pub description : Option Text
  pub category_id : Option ℕ
  pub date_uploaded : Text
  pub file_size : ℕ
  pub seeders : ℕ
  pub leechers : ℕ
  pub name : Text
  pub comment : Option Text
  pub creation_date : Option ℕ
  pub created_by : Option Text
  pub encoding : Option Text

pub record Metadata : Type 0 where
  pub title : Text
  pub description : Text
  pub category_id : ℕ
  pub tags : List ℕ

abbrev pub min_torrent_title_length : ℕ
min_torrent_title_length = 3

unfoldable pub validate_format : Text → Outcome MetadataError (Unit {0})
validate_format title = do
  refuse_if (is_empty title) missing_torrent_title
  refuse_if (ltb (length title) min_torrent_title_length) invalid_title_length

-- `Metadata::new`
unfoldable pub new_metadata : Text → Text → ℕ → List ℕ → Outcome MetadataError Metadata
unfolding validate_format
new_metadata title description category_id tag_ids = do
  validate_format title
  ok (record {
    title = title;
    description = description;
    category_id = category_id;
    tags = tag_ids;
  })

-- `databases::database::Category`
pub record Category : Type 0 where
  pub category_id : ℕ
  pub name : Text
  pub num_torrents : ℕ

-- `models::torrent_tag::TorrentTag`
pub record TorrentTag : Type 0 where
  pub tag_id : ℕ
  pub name : Text

pub record TorrentResponse : Type 0 where
  pub torrent_id : ℕ
  pub uploader : Text
  pub info_hash : Text
  pub title : Text
  pub description : Option Text
  pub category : Option Category
  pub upload_date : Text
  pub file_size : ℕ
  pub seeders : ℕ
  pub leechers : ℕ
  pub files : List TorrentFile
  pub trackers : List Text
  pub magnet_link : Text
  pub tags : List TorrentTag
  pub name : Text
  pub comment : Option Text
  pub creation_date : Option ℕ
  pub created_by : Option Text
  pub encoding : Option Text

unfoldable pub from_listing : TorrentListing → Option Category → TorrentResponse
from_listing listing category = record {
  torrent_id = listing.torrent_id;
  uploader = listing.uploader;
  info_hash = listing.info_hash;
  title = listing.title;
  description = listing.description;
  category = category;
  upload_date = listing.date_uploaded;
  file_size = listing.file_size;
  seeders = listing.seeders;
  leechers = listing.leechers;
  files = [];
  trackers = [];
  magnet_link = [];
  tags = [];
  name = listing.name;
  comment = listing.comment;
  creation_date = listing.creation_date;
  created_by = listing.created_by;
  encoding = listing.encoding;
}

-- `TorrentResponse::include_url_as_main_tracker`
unfoldable pub include_url_in_response : Text → TorrentResponse → TorrentResponse
include_url_in_response tracker_url r = record r {
  trackers = tracker_url ∷ retain (λ tracker. not (text_eq tracker tracker_url)) r.trackers;
}

-- `AsCSV::as_csv::<String>`, which never fails
unfoldable pub as_csv : Option Text → Option (List Text)
as_csv none = none
as_csv (some s) = if is_empty (trim s) then none else some (map trim (split_at b',' s))

pub data Sorting : Type 0 where
  uploaded_asc uploaded_desc seeders_asc seeders_desc leechers_asc leechers_desc : Sorting
  name_asc name_desc size_asc size_desc : Sorting

pub record ListingRequest : Type 0 where
  pub page_size : Option ℕ
  pub page : Option ℕ
  pub sort : Option Sorting
  pub categories : Option Text
  pub tags : Option Text
  pub search : Option Text

pub record ListingSpecification : Type 0 where
  pub search : Option Text
  pub categories : Option (List Text)
  pub tags : Option (List Text)
  pub sort : Sorting
  pub offset : ℕ
  pub page_size : ℕ

abbrev pub unwrap_or : {A : Type 0} → Option A → A → A
unwrap_or none a = a
unwrap_or (some b) a = b

abbrev pub u32_mod : ℕ
u32_mod = 2 ^ 32

-- The guard on the page size; the product of `page` and the size is a `u32` and wraps.
unfoldable pub capped : ℕ → ℕ → ℕ
capped page_size max_torrent_page_size =
    if ltb max_torrent_page_size page_size then max_torrent_page_size else page_size

unfoldable pub listing_specification_from_user_request :
    ℕ → ℕ → ListingRequest → ListingSpecification
unfolding capped as_csv
listing_specification_from_user_request default_torrent_page_size max_torrent_page_size request =
    let page_size =
      capped (unwrap_or request.page_size default_torrent_page_size) max_torrent_page_size in
    record {
      search = request.search;
      categories = as_csv request.categories;
      tags = as_csv request.tags;
      sort = unwrap_or request.sort uploaded_desc;
      offset = unwrap_or request.page 0 * page_size % u32_mod;
      page_size = page_size;
    }
