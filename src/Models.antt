-- ===== src/Models.antt =====
-- The users and tracker keys that services and database exchange: src/models/user.rs,
-- src/models/tracker_key.rs and the types of src/tracker/service.rs. Ids are only compared, so
-- they are naturals.
use torrust_index.Base.{ℕ, Bool, Text}

pub record UserAuthentication : Type 0 where
  pub user_id : ℕ
  pub password_hash : Text

pub record UserProfile : Type 0 where
  pub user_id : ℕ
  pub username : Text
  pub email : Text
  pub email_verified : Bool
  pub bio : Text
  pub avatar : Text

pub record UserCompact : Type 0 where
  pub user_id : ℕ
  pub username : Text
  pub administrator : Bool

pub record UserClaims : Type 0 where
  pub user : UserCompact
  pub exp : ℕ

pub record TrackerKey : Type 0 where
  pub key : Text
  pub valid_until : ℕ

-- `TorrentInfo` of the tracker's API, less the list of peers, which no service reads
pub record TorrentInfo : Type 0 where
  pub info_hash : Text
  pub seeders : ℕ
  pub completed : ℕ
  pub leechers : ℕ
