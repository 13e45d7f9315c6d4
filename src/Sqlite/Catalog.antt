-- ===== src/Sqlite/Catalog.antt =====
-- Categories and tags in SQLite (src/databases/sqlite.rs).
use torrust_index.Base.{
  ℕ, ◌+◌, Bool, false, not, Option, none, some, List, [], ◌∷◌, ◌++◌, map, Text, ◌==◌, retain,
  length, Outcome, ok, err, if◌then◌else◌,
}
use torrust_index.DbError.{DbError}
use torrust_index.Listing.{Category, TorrentTag}
use torrust_index.Sql.{number_eq, text_column_eq, has, first, cascade}
use torrust_index.Sqlite.{
  CategoryRow, TagRow, TagLinkRow, TorrentRow, Names, Statement, fetch_one, affected,
}

abbrev pub category_key : CategoryRow → ℕ
category_key r = r.category_id

abbrev pub category_name : CategoryRow → Text
category_name r = r.name

abbrev pub tag_key : TagRow → ℕ
tag_key r = r.tag_id

abbrev pub tag_name : TagRow → Text
tag_name r = r.name

abbrev pub link_tag : TagLinkRow → ℕ
link_tag r = r.tag_id

unfoldable pub insert_category_and_get_id : Text → Statement Names ℕ
insert_category_and_get_id name t =
    if has category_name name t.categories
    then (t, err DbError.error)
    else let category_id = t.last_category + 1 in
      (
        record t {
          categories = t.categories ++ record { category_id = category_id; name = name } ∷ [];
          last_category = category_id;
        },
        ok category_id,
      )

abbrev pub is_in : ℕ → TorrentRow → Bool
is_in category_id r = elim r.category_id [ none ↦ false | some id ↦ id == category_id ]

-- the subquery that counts a category's torrents
unfoldable pub num_torrents : ℕ → List TorrentRow → ℕ
num_torrents category_id torrents = length (retain (is_in category_id) torrents)

abbrev pub with_count : List TorrentRow → CategoryRow → Category
with_count torrents r = record {
  category_id = r.category_id;
  name = r.name;
  num_torrents = num_torrents r.category_id torrents;
}

abbrev pub counted : List TorrentRow → Option CategoryRow → Option Category
counted torrents none = none
counted torrents (some r) = some (with_count torrents r)

unfoldable pub get_category_from_id : ℕ → Names → List TorrentRow → Outcome DbError Category
unfolding num_torrents
get_category_from_id category_id t torrents =
    fetch_one DbError.category_not_found
      (counted torrents (first category_key category_id t.categories))

unfoldable pub get_category_from_name : Text → Names → List TorrentRow → Outcome DbError Category
unfolding num_torrents
get_category_from_name name t torrents =
    fetch_one DbError.category_not_found (counted torrents (first category_name name t.categories))

-- Names are unique, so the groups by name are the categories; SQL leaves their order open.
unfoldable pub get_categories : Names → List TorrentRow → List Category
unfolding num_torrents
get_categories t torrents = map (with_count torrents) t.categories

-- `ON DELETE SET NULL`, given the categories that were deleted
abbrev pub set_null : List CategoryRow → TorrentRow → TorrentRow
set_null deleted r = elim r.category_id [
  | none ↦ r
  | some id ↦ if has category_key id deleted then record r { category_id = none } else r
]

unfoldable pub delete_category :
    Text → Names × List TorrentRow → (Names × List TorrentRow) × Outcome DbError (Unit {0})
delete_category name (t, torrents) =
    let deleted = retain (λ r. has category_name name (r ∷ [])) t.categories in
    (
      (
        record t { categories = retain (λ r. not (has category_name name (r ∷ []))) t.categories },
        map (set_null deleted) torrents,
      ),
      affected DbError.category_not_found (has category_name name t.categories),
    )

unfoldable pub insert_tag_and_get_id : Text → Statement Names ℕ
insert_tag_and_get_id name t =
    if has tag_name name t.tags
    then (t, err DbError.tag_already_exists)
    else let tag_id = t.last_tag + 1 in
      (
        record t {
          tags = t.tags ++ record { tag_id = tag_id; name = name } ∷ [];
          last_tag = tag_id;
        },
        ok tag_id,
      )

-- Its links to torrents go with a tag.
unfoldable pub delete_tag :
    ℕ → Names × List TagLinkRow → (Names × List TagLinkRow) × Outcome DbError (Unit {0})
delete_tag tag_id (t, links) =
    let deleted = retain (λ r. tag_key r == tag_id) t.tags in
    (
      (
        record t { tags = retain (λ r. not (tag_key r == tag_id)) t.tags },
        cascade tag_key link_tag deleted links,
      ),
      ok tt,
    )

abbrev pub tag_of : TagRow → TorrentTag
tag_of r = record { tag_id = r.tag_id; name = r.name }

abbrev pub some_tag : Option TagRow → Option TorrentTag
some_tag none = none
some_tag (some r) = some (tag_of r)

unfoldable pub get_tag_from_name : Text → Names → Outcome DbError TorrentTag
get_tag_from_name name t = fetch_one DbError.tag_not_found (some_tag (first tag_name name t.tags))

unfoldable pub get_tags : Names → List TorrentTag
get_tags t = map tag_of t.tags
