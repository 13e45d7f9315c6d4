-- ===== src/Services/Catalog/Tests.antt =====
-- Tests of the categories on a sample (src/services/category.rs).
use torrust_index.Base.{◌≡◌, refl, bytes, text_eq, trim, err}
use torrust_index.Errors.{category_already_exists, category_name_empty}
use torrust_index.Samples.{database, world}
use torrust_index.Services.Catalog.{add_category, add_if_missing}
use torrust_index.Services.Users.{require_administrator}

program : Unit {0}
unfolding add_category add_if_missing require_administrator trim text_eq
program = tt

taken : add_category database (bytes " software") 1 world ≡ (world, err category_already_exists)
unfolding program
taken = refl

empty : add_category database (bytes "  ") 1 world ≡ (world, err category_name_empty)
unfolding program
empty = refl
