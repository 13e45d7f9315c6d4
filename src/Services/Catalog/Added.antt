-- ===== src/Services/Catalog/Added.antt =====
-- What the services for categories and tags guarantee (src/services/category.rs, src/services/tag.rs).
use torrust_index.Base.{ℕ, ◌≡◌, false, Text, trim, is_empty, ok, err, arith}
use torrust_index.Database.{Database}
use torrust_index.DbError.{DbError}
use torrust_index.Errors.{category_already_exists}
use torrust_index.Listing.{Category}
use torrust_index.Services.Catalog.{add_category, add_if_missing}
use torrust_index.Services.Users.{require_administrator}
use torrust_index.Services.World.{World}

module _ {S : Type 0} (database : Database S) where
  -- A category is added only by an administrator, under the trimmed name, which is not empty and which
  -- no category had. The state is that after the one insertion, and no request is sent.
  pub add_category_ok :
      (name : Text) (user_id category_id : ℕ) (w w' : World S)
      → add_category database name user_id w ≡ (w', ok category_id)
      → (require_administrator database user_id w ≡ (w, ok tt))
        × (is_empty (trim name) ≡ false)
        × (database.get_category_from_name (trim name) w.db ≡ err DbError.category_not_found)
        × (database.insert_category_and_get_id (trim name) w.db ≡ (w'.db, ok category_id))
        × (w'.sent ≡ w.sent)
  unfolding add_category add_if_missing require_administrator
  add_category_ok name user_id category_id w w' h = (
    ground (arith, h),
    ground (arith, h),
    ground (arith, h),
    ground (arith, h),
    ground (arith, h),
  )

  -- A name that is taken is refused, and nothing is written.
  pub add_category_again :
      (name : Text) (user_id : ℕ) (category : Category) (w : World S)
      → require_administrator database user_id w ≡ (w, ok tt)
      → is_empty (trim name) ≡ false
      → database.get_category_from_name (trim name) w.db ≡ ok category
      → add_category database name user_id w ≡ (w, err category_already_exists)
  unfolding add_category add_if_missing
  add_category_again name user_id category w a n c = ground (arith, a, n, c)
