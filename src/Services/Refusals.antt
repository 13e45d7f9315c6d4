-- ===== src/Services/Refusals.antt =====
-- Operations that only administrators may call (src/services).
use torrust_index.Base.{ℕ, ◌≡◌, false, ◌||◌, Text, text_eq, Option, List, ok, err, arith}
use torrust_index.Database.{Database}
use torrust_index.Errors.{unauthorized}
use torrust_index.InfoHash.{InfoHash}
use torrust_index.InfoHash.Codec.{Binascii}
use torrust_index.Listing.{TorrentListing}
use torrust_index.Models.{UserCompact}
use torrust_index.Services.Accounts.{ban_user}
use torrust_index.Services.Catalog.{add_category, delete_category, add_tag, delete_tag}
use torrust_index.Services.Index.{delete_torrent, update_torrent_info, TrackerMode}
use torrust_index.Services.Tracker.{Api, TrackerConfig}
use torrust_index.Services.World.{World}

module _ {S : Type 0} (database : Database S) where
  -- Who is no administrator can neither add nor delete a category or a tag, nor ban a user, nor
  -- delete a torrent: each operation answers `Unauthorized`, with no change of the database and no
  -- request to the tracker, whatever its other arguments.
  pub admin_only :
      (user_id : ℕ) (user : UserCompact) (w : World S)
      → database.get_user_compact_from_id user_id w.db ≡ ok user
      → user.administrator ≡ false
      → (name : Text) (tag_id : ℕ) (api : Api) (cfg : TrackerConfig) (mode : TrackerMode)
        (codec : Binascii) (info_hash : InfoHash)
      → (add_category database name user_id w ≡ (w, err unauthorized))
        × (delete_category database name user_id w ≡ (w, err unauthorized))
        × (add_tag database name user_id w ≡ (w, err unauthorized))
        × (delete_tag database tag_id user_id w ≡ (w, err unauthorized))
        × (ban_user database name user_id w ≡ (w, err unauthorized))
        × (delete_torrent database api cfg mode codec info_hash user_id w ≡ (w, err unauthorized))
  unfolding add_category delete_category add_tag delete_tag ban_user delete_torrent
  admin_only user_id user w found common name tag_id api cfg mode codec info_hash = (
    ground (arith, found, common),
    ground (arith, found, common),
    ground (arith, found, common),
    ground (arith, found, common),
    ground (arith, found, common),
    ground (arith, found, common),
  )

  -- Who neither uploaded a torrent nor is an administrator cannot change it: the answer is
  -- `Unauthorized`, with no change of the database and no request to the tracker.
  pub only_uploader_or_admin :
      (user_id : ℕ) (user : UserCompact) (info_hash : InfoHash) (listing : TorrentListing)
      (w : World S)
      → database.get_user_compact_from_id user_id w.db ≡ ok user
      → database.get_torrent_listing_from_info_hash info_hash w.db ≡ ok listing
      → (text_eq listing.uploader user.username || user.administrator) ≡ false
      → (title description : Option Text) (category_id : Option ℕ) (tags : Option (List ℕ))
      → update_torrent_info database info_hash title description category_id tags user_id w
        ≡ (w, err unauthorized)
  unfolding update_torrent_info
  only_uploader_or_admin user_id user info_hash listing w found listed other title description
        category_id tags =
      ground (arith, found, listed, other)
