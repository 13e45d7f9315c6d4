-- ===== src/DbError.antt =====
-- The errors of the database: src/databases/database.rs.
use torrust_index.Base.{Text}

-- `database::Error`
pub data DbError : Type 0 where
  error : DbError
  error_with_text : Text → DbError
  unrecognized_database_driver username_taken email_taken user_not_found : DbError
  category_not_found tag_already_exists tag_not_found torrent_not_found : DbError
  torrent_already_exists torrent_title_already_exists torrent_info_hash_not_found : DbError
