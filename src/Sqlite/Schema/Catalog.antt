-- ===== src/Sqlite/Schema/Catalog.antt =====
-- The statements on categories and tags keep the constraints (src/databases/sqlite.rs).
use torrust_index.Base.{
  ℕ, ◌≡◌, refl, ◌∙◌, inl, inr, Bool, true, false, not, Option, none, some, List, [], ◌∷◌, ◌++◌, map,
  Text, ◌==◌, retain, Bool-cases, arith,
}
use torrust_index.Sql.{Eq, number_eq, text_column_eq, has, Unique, Within, References, cascade}
use torrust_index.Sql.Laws.{has_insert_old, has-split}
use torrust_index.Sql.Constraints.{References-insert_parent, References-retain, References-cascade}
use torrust_index.Sqlite.{UserRow, CategoryRow, TorrentRow, TagLinkRow, Names, Uploads}
use torrust_index.Sqlite.Accounts.{user_key}
use torrust_index.Sqlite.Catalog.{
  category_key, category_name, tag_key, tag_name, link_tag, insert_category_and_get_id, set_null,
  delete_category, insert_tag_and_get_id, delete_tag,
}
use torrust_index.Sqlite.Torrents.{
  torrent_key, hash_key, canonical_key, file_torrent, url_torrent, info_torrent, stats_torrent,
  link_torrent, category_exists, has_link,
}
use torrust_index.Sqlite.Schema.{Categorized, uploader, UploadsAreValid, UniqueLinks}

-- The rows of torrents keep their constraints when those that they refer to are still there.
pub UploadsAreValid-parents :
    (users users' : List UserRow) (names names' : Names) (t : Uploads)
    → UploadsAreValid users names t
    → References user_key uploader t.torrents users'
    → Categorized t.torrents names'.categories
    → References tag_key link_tag t.tag_links names'.tags
    → UploadsAreValid users' names' t
UploadsAreValid-parents users users' names names' t v uploaders categorized tags = record {
  torrents = record {
    ids = v.torrents.ids;
    given = v.torrents.given;
    hashes = v.torrents.hashes;
    uploaders = uploaders;
    categorized = categorized;
  };
  info_hashes = v.info_hashes;
  files = v.files;
  urls = v.urls;
  infos = v.infos;
  stats = v.stats;
  links = record { links = v.links.links; owners = v.links.owners; linked_tags = tags };
}

pub Categorized-insert_parent :
    (rs : List TorrentRow) (categories : List CategoryRow) (c : CategoryRow)
    → Categorized rs categories
    → Categorized rs (categories ++ c ∷ [])
Categorized-insert_parent [] categories c h = tt
Categorized-insert_parent (r ∷ rs) categories c (found, rest) =
    (still_there r.category_id found, Categorized-insert_parent rs categories c rest)
  where
    still_there :
        (id : Option ℕ)
        → category_exists id categories ≡ true
        → category_exists id (categories ++ c ∷ []) ≡ true
    still_there none h = refl
    still_there (some id) h = has_insert_old category_key id categories c h

pub insert_category-UploadsAreValid :
    (users : List UserRow) (name : Text) (names : Names) (t : Uploads)
    → UploadsAreValid users names t
    → UploadsAreValid users (insert_category_and_get_id name names).0 t
unfolding insert_category_and_get_id
insert_category-UploadsAreValid users name names t v =
    elim (Bool-cases (has category_name name names.categories)) [
      | inl h ↦ rw (h, insert_category_and_get_id) v
      | inr h ↦
          rw (h, insert_category_and_get_id)
            (UploadsAreValid-parents users users names _ t v v.torrents.uploaders
              (Categorized-insert_parent t.torrents names.categories _ v.torrents.categorized)
              v.links.linked_tags)
    ]

pub insert_tag-UploadsAreValid :
    (users : List UserRow) (name : Text) (names : Names) (t : Uploads)
    → UploadsAreValid users names t
    → UploadsAreValid users (insert_tag_and_get_id name names).0 t
unfolding insert_tag_and_get_id
insert_tag-UploadsAreValid users name names t v = elim (Bool-cases (has tag_name name names.tags)) [
  | inl h ↦ rw (h, insert_tag_and_get_id) v
  | inr h ↦
      rw (h, insert_tag_and_get_id)
        (UploadsAreValid-parents users users names _ t v v.torrents.uploaders v.torrents.categorized
          (References-insert_parent tag_key link_tag t.tag_links names.tags _ v.links.linked_tags))
]

pub UniqueLinks-retain :
    (p : TagLinkRow → Bool) (rs : List TagLinkRow) → UniqueLinks rs → UniqueLinks (retain p rs)
unfolding has_link
UniqueLinks-retain p [] u = tt
UniqueLinks-retain p (r ∷ rs) (new, u) =
    ground (arith, UniqueLinks-retain p rs u, has_link-retain p r.torrent_id r.tag_id rs new)
  where
    has_link-retain :
        (p : TagLinkRow → Bool) (torrent_id tag_id : ℕ) (rs : List TagLinkRow)
        → has_link torrent_id tag_id rs ≡ false
        → has_link torrent_id tag_id (retain p rs) ≡ false
    has_link-retain p torrent_id tag_id [] h = h
    has_link-retain p torrent_id tag_id (r ∷ rs) h =
        ground (arith, has_link-retain p torrent_id tag_id rs)

pub delete_tag-UploadsAreValid :
    (users : List UserRow) (tag_id : ℕ) (names : Names) (t : Uploads)
    → UploadsAreValid users names t
    → let after = (delete_tag tag_id (names, t.tag_links)).0 in
      UploadsAreValid users after.0 (record t { tag_links = after.1 })
unfolding delete_tag cascade
delete_tag-UploadsAreValid users tag_id names t v =
    let stays : TagLinkRow → Bool =
      λ r. not (has tag_key r.tag_id (retain (λ r. tag_key r == tag_id) names.tags)) in
    record {
      torrents = v.torrents;
      info_hashes = v.info_hashes;
      files = v.files;
      urls = v.urls;
      infos = v.infos;
      stats = v.stats;
      links = record {
        links = UniqueLinks-retain stays t.tag_links v.links.links;
        owners =
            References-retain torrent_key link_torrent stays t.tag_links t.torrents v.links.owners;
        linked_tags =
            References-cascade tag_key link_tag (λ r. tag_key r == tag_id) t.tag_links names.tags
              v.links.linked_tags;
      };
    }

-- A torrent of a deleted category has none.
Categorized-set_null :
    (goes : CategoryRow → Bool) (rs : List TorrentRow) (categories : List CategoryRow)
    → Categorized rs categories
    → Categorized
        (map (set_null (retain goes categories)) rs)
        (retain (λ r. not (goes r)) categories)
Categorized-set_null goes [] categories h = tt
Categorized-set_null goes (r ∷ rs) categories (found, rest) =
    (nulled r r.category_id refl found, Categorized-set_null goes rs categories rest)
  where
    nulled :
        (r : TorrentRow) (id : Option ℕ)
        → r.category_id ≡ id
        → category_exists id categories ≡ true
        → category_exists
            (set_null (retain goes categories) r).category_id
            (retain (λ r. not (goes r)) categories)
          ≡ true
    nulled r none e h = rw e refl
    nulled r (some id) e h = ground (arith, e, h, has-split category_key id goes categories)

set_null_keeps :
    {B : Type 0} (deleted : List CategoryRow) (column : TorrentRow → B)
    → ((r : TorrentRow) → column (record r { category_id = none }) ≡ column r)
    → (r : TorrentRow) → column (set_null deleted r) ≡ column r
set_null_keeps deleted column same r = kept r.category_id refl
  where
    kept : (id : Option ℕ) → r.category_id ≡ id → column (set_null deleted r) ≡ column r
    kept none e = rw e refl
    kept (some id) e = rw e (elim (Bool-cases (has category_key id deleted)) [
      | inl h ↦ rw h (same (record r { category_id = some id }))
      | inr h ↦ rw h refl
    ])

-- a change of torrents that leaves all columns but the category
module _ (f : TorrentRow → TorrentRow) where
  module _ {K : Type 0} ⦃q : Eq K⦄ (column : TorrentRow → K)
      (same : (r : TorrentRow) → column (f r) ≡ column r) where
    has-map : (k : K) (rs : List TorrentRow) → has column k (map f rs) ≡ has column k rs
    unfolding has
    has-map k [] = refl
    has-map k (r ∷ rs) = ground (arith, same r, has-map k rs)

    Unique-map : (rs : List TorrentRow) → Unique column rs → Unique column (map f rs)
    Unique-map [] u = tt
    Unique-map (r ∷ rs) (new, u) =
        (ground (arith, new, same r, has-map (column r) rs), Unique-map rs u)

    References-map_parent :
        {B : Type 0} (foreign : B → K) (children : List B) (rs : List TorrentRow)
        → References column foreign children rs
        → References column foreign children (map f rs)
    References-map_parent foreign [] rs h = tt
    References-map_parent foreign (c ∷ cs) rs (found, rest) =
        (has-map (foreign c) rs ∙ found, References-map_parent foreign cs rs rest)

  Within-map :
      (same : (r : TorrentRow) → torrent_key (f r) ≡ torrent_key r) (n : ℕ) (rs : List TorrentRow)
      → Within torrent_key n rs
      → Within torrent_key n (map f rs)
  Within-map same n [] w = tt
  Within-map same n (r ∷ rs) (le, w) = (ground (arith, le, same r), Within-map same n rs w)

  References-map_child :
      (users : List UserRow) (same : (r : TorrentRow) → uploader (f r) ≡ uploader r)
      (rs : List TorrentRow)
      → References user_key uploader rs users
      → References user_key uploader (map f rs) users
  References-map_child users same [] h = tt
  References-map_child users same (r ∷ rs) (found, rest) =
      (ground (arith, found, same r), References-map_child users same rs rest)

pub delete_category-UploadsAreValid :
    (users : List UserRow) (name : Text) (names : Names) (t : Uploads)
    → UploadsAreValid users names t
    → let after = (delete_category name (names, t.torrents)).0 in
      UploadsAreValid users after.0 (record t { torrents = after.1 })
unfolding delete_category
delete_category-UploadsAreValid users name names t v =
    let goes : CategoryRow → Bool = λ r. has category_name name (r ∷ []) in
    let f : TorrentRow → TorrentRow = set_null (retain goes names.categories) in
    let same_id : (r : TorrentRow) → torrent_key (f r) ≡ torrent_key r =
      set_null_keeps (retain goes names.categories) torrent_key (λ r. refl) in
    let same_hash : (r : TorrentRow) → hash_key (f r) ≡ hash_key r =
      set_null_keeps (retain goes names.categories) hash_key (λ r. refl) in
    let same_uploader : (r : TorrentRow) → uploader (f r) ≡ uploader r =
      set_null_keeps (retain goes names.categories) uploader (λ r. refl) in
    record {
      torrents = record {
        ids = Unique-map f torrent_key same_id t.torrents v.torrents.ids;
        given = Within-map f same_id t.last_torrent t.torrents v.torrents.given;
        hashes = Unique-map f hash_key same_hash t.torrents v.torrents.hashes;
        uploaders = References-map_child f users same_uploader t.torrents v.torrents.uploaders;
        categorized = Categorized-set_null goes t.torrents names.categories v.torrents.categorized;
      };
      info_hashes = record {
        originals = v.info_hashes.originals;
        canonicals =
            References-map_parent f hash_key same_hash canonical_key t.info_hashes t.torrents
              v.info_hashes.canonicals;
      };
      files = References-map_parent f torrent_key same_id file_torrent t.files t.torrents v.files;
      urls =
          References-map_parent f torrent_key same_id url_torrent t.announce_urls t.torrents v.urls;
      infos = record {
        ids = v.infos.ids;
        owners =
            References-map_parent f torrent_key same_id info_torrent t.infos t.torrents
              v.infos.owners;
        titles = v.infos.titles;
      };
      stats = record {
        ids = v.stats.ids;
        owners =
            References-map_parent f torrent_key same_id stats_torrent t.stats t.torrents
              v.stats.owners;
      };
      links = record {
        links = v.links.links;
        owners =
            References-map_parent f torrent_key same_id link_torrent t.tag_links t.torrents
              v.links.owners;
        linked_tags = v.links.linked_tags;
      };
    }
