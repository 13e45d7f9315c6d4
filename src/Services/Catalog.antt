-- ===== src/Services/Catalog.antt =====
-- Categories and tags: src/services/category.rs and src/services/tag.rs.
pub mod Added
mod Tests
use torrust_index.Base.{ℕ, Text, trim, is_empty, Outcome, ok, err, panic}
use torrust_index.Database.{Database}
use torrust_index.DbError.{DbError}
use torrust_index.Errors.{
  ServiceError, category_name_empty, category_already_exists, category_not_found, tag_name_empty,
  tag_already_exists, tag_not_found, database_error,
}
use torrust_index.Listing.{Category}
use torrust_index.Services.Users.{require_administrator}
use torrust_index.Services.World.{Action, ◌>>=◌, ◌>>◌, raise, refuse_if, read, write, attempt}

-- the errors of the database as `delete_category`, `add_tag` and `delete_tag` report them
unfoldable pub delete_category_error : DbError → ServiceError
delete_category_error DbError.category_not_found = category_not_found
delete_category_error _ = database_error

unfoldable pub add_tag_error : DbError → ServiceError
add_tag_error DbError.tag_already_exists = tag_already_exists
add_tag_error _ = database_error

unfoldable pub delete_tag_error : DbError → ServiceError
delete_tag_error DbError.tag_not_found = tag_not_found
delete_tag_error _ = database_error

module _ {S : Type 0} (database : Database S) where
  -- the `match` on the search for a category of the same name
  unfoldable pub add_if_missing : Text → Outcome DbError Category → Action S ServiceError ℕ
  add_if_missing trimmed_name (ok category) = raise category_already_exists
  add_if_missing trimmed_name (err DbError.category_not_found) =
      write (λ e. database_error) (database.insert_category_and_get_id trimmed_name)
  add_if_missing trimmed_name (err _) = raise database_error
  add_if_missing trimmed_name panic = λ w. (w, panic)

  unfoldable pub add_category : Text → ℕ → Action S ServiceError ℕ
  unfolding require_administrator add_if_missing
  add_category category_name user_id = do
    require_administrator database user_id
    refuse_if (is_empty (trim category_name)) category_name_empty
    found ←
        attempt {E = DbError} (read (λ e. e) (database.get_category_from_name (trim category_name)))
    add_if_missing (trim category_name) found

  unfoldable pub delete_category : Text → ℕ → Action S ServiceError (Unit {0})
  unfolding require_administrator delete_category_error
  delete_category category_name user_id = do
    require_administrator database user_id
    write delete_category_error (database.delete_category category_name)

  unfoldable pub add_tag : Text → ℕ → Action S ServiceError ℕ
  unfolding require_administrator add_tag_error
  add_tag tag_name user_id = do
    require_administrator database user_id
    refuse_if (is_empty (trim tag_name)) tag_name_empty
    write add_tag_error (database.insert_tag_and_get_id (trim tag_name))

  unfoldable pub delete_tag : ℕ → ℕ → Action S ServiceError (Unit {0})
  unfolding require_administrator delete_tag_error
  delete_tag tag_id user_id = do
    require_administrator database user_id
    write delete_tag_error (database.delete_tag tag_id)
