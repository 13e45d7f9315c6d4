-- ===== src/Sqlite/Schema/Named.antt =====
-- The tables of categories and tags keep their constraints (src/databases/sqlite.rs).
use torrust_index.Base.{ℕ, ◌+◌, ◌≡◌, Bool, false, not, List, [], ◌∷◌, ◌++◌, Text, ◌==◌, arith}
use torrust_index.Sql.{number_eq, text_column_eq, has}
use torrust_index.Sql.Laws.{Unique-insert, Unique-retain}
use torrust_index.Sql.Constraints.{fresh, Within-step, Within-insert, Within-retain}
use torrust_index.Sqlite.{CategoryRow, TagRow, TorrentRow, TagLinkRow, Names}
use torrust_index.Sqlite.Catalog.{
  category_key, category_name, tag_key, tag_name, insert_category_and_get_id, delete_category,
  insert_tag_and_get_id, delete_tag,
}
use torrust_index.Sqlite.Schema.{CategoryTable, TagTable, NamesAreValid}

pub CategoryTable-insert :
    (rs : List CategoryRow) (last : ℕ) (name : Text)
    → CategoryTable rs last
    → has category_name name rs ≡ false
    → CategoryTable (rs ++ record { category_id = last + 1; name = name } ∷ []) (last + 1)
CategoryTable-insert rs last name v new =
    let row : CategoryRow = record { category_id = last + 1; name = name } in
    record {
      ids = Unique-insert category_key rs row v.ids (fresh category_key last rs v.given);
      given =
          Within-insert category_key (last + 1) rs row (Within-step category_key last rs v.given)
            (omega arith);
      category_names = Unique-insert category_name rs row v.category_names new;
    }

pub insert_category-NamesAreValid :
    (name : Text) (t : Names)
    → NamesAreValid t
    → NamesAreValid (insert_category_and_get_id name t).0
unfolding insert_category_and_get_id
insert_category-NamesAreValid name t v =
    ground (arith, v, CategoryTable-insert t.categories t.last_category name v.categories)

pub TagTable-insert :
    (rs : List TagRow) (last : ℕ) (name : Text)
    → TagTable rs last
    → has tag_name name rs ≡ false
    → TagTable (rs ++ record { tag_id = last + 1; name = name } ∷ []) (last + 1)
TagTable-insert rs last name v new =
    let row : TagRow = record { tag_id = last + 1; name = name } in
    record {
      ids = Unique-insert tag_key rs row v.ids (fresh tag_key last rs v.given);
      given =
          Within-insert tag_key (last + 1) rs row (Within-step tag_key last rs v.given)
            (omega arith);
      tag_names = Unique-insert tag_name rs row v.tag_names new;
    }

pub insert_tag-NamesAreValid :
    (name : Text) (t : Names) → NamesAreValid t → NamesAreValid (insert_tag_and_get_id name t).0
unfolding insert_tag_and_get_id
insert_tag-NamesAreValid name t v = ground (arith, v, TagTable-insert t.tags t.last_tag name v.tags)

pub delete_category-NamesAreValid :
    (name : Text) (t : Names) (torrents : List TorrentRow)
    → NamesAreValid t
    → NamesAreValid (delete_category name (t, torrents)).0.0
unfolding delete_category
delete_category-NamesAreValid name t torrents v =
    let stays : CategoryRow → Bool = λ r. not (has category_name name (r ∷ [])) in
    record {
      categories = record {
        ids = Unique-retain category_key stays t.categories v.categories.ids;
        given = Within-retain category_key t.last_category stays t.categories v.categories.given;
        category_names = Unique-retain category_name stays t.categories v.categories.category_names;
      };
      tags = v.tags;
    }

pub delete_tag-NamesAreValid :
    (tag_id : ℕ) (t : Names) (links : List TagLinkRow)
    → NamesAreValid t
    → NamesAreValid (delete_tag tag_id (t, links)).0.0
unfolding delete_tag
delete_tag-NamesAreValid tag_id t links v =
    let stays : TagRow → Bool = λ r. not (tag_key r == tag_id) in
    record {
      categories = v.categories;
      tags = record {
        ids = Unique-retain tag_key stays t.tags v.tags.ids;
        given = Within-retain tag_key t.last_tag stays t.tags v.tags.given;
        tag_names = Unique-retain tag_name stays t.tags v.tags.tag_names;
      };
    }
