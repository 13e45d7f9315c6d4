-- ===== src/Sqlite/Schema/Deletions.antt =====
-- Deletions, with the rows that go along, keep the constraints (src/databases/sqlite.rs).
use torrust_index.Base.{
  ℕ, ◌≡◌, refl, Bool, true, false, not, Option, none, some, List, [], ◌∷◌, Text, ◌==◌, retain,
  arith,
}
use torrust_index.Sql.{number_eq, text_column_eq, has, References, cascade}
use torrust_index.Sql.Laws.{has-split, Unique-retain}
use torrust_index.Sql.Constraints.{Within-retain, References-retain, References-cascade}
use torrust_index.Sqlite.{
  UserRow, ProfileRow, TorrentRow, InfoHashRow, CategoryRow, Users, Names, Uploads, Tables,
}
use torrust_index.Sqlite.Accounts.{
  user_key, authentication_key, profile_key, username_key, key_user, ban_user_key, has_email,
  delete_user_rows,
}
use torrust_index.Sqlite.Catalog.{tag_key, link_tag}
use torrust_index.Sqlite.Torrents.{
  torrent_key, hash_key, original_key, canonical_key, file_torrent, url_torrent, info_torrent,
  title_key, stats_torrent, link_torrent,
}
use torrust_index.Sqlite.Updates.{
  delete_torrent_rows, delete_torrent, delete_user, delete_all_database_rows,
}
use torrust_index.Sqlite.Schema.{
  UniqueEmails, Categorized, uploader, UsersAreValid, UploadsAreValid, IsConsistent,
}
use torrust_index.Sqlite.Schema.Catalog.{UniqueLinks-retain, UploadsAreValid-parents}

Categorized-retain :
    (p : TorrentRow → Bool) (rs : List TorrentRow) (categories : List CategoryRow)
    → Categorized rs categories
    → Categorized (retain p rs) categories
Categorized-retain p [] categories h = tt
Categorized-retain p (r ∷ rs) categories (found, h) =
    ground (arith, found, Categorized-retain p rs categories h)

delete_torrent_rows-UploadsAreValid :
    (users : List UserRow) (names : Names) (goes : TorrentRow → Bool) (t : Uploads)
    → UploadsAreValid users names t
    → UploadsAreValid users names (delete_torrent_rows goes t)
unfolding delete_torrent_rows cascade
delete_torrent_rows-UploadsAreValid users names goes t v =
    let stays : TorrentRow → Bool = λ r. not (goes r) in
    let deleted : List TorrentRow = retain goes t.torrents in
    record {
      torrents = record {
        ids = Unique-retain torrent_key stays t.torrents v.torrents.ids;
        given = Within-retain torrent_key t.last_torrent stays t.torrents v.torrents.given;
        hashes = Unique-retain hash_key stays t.torrents v.torrents.hashes;
        uploaders = References-retain user_key uploader stays t.torrents users v.torrents.uploaders;
        categorized = Categorized-retain stays t.torrents names.categories v.torrents.categorized;
      };
      info_hashes = record {
        originals =
            Unique-retain original_key (λ r. not (has hash_key r.canonical_info_hash deleted))
              t.info_hashes v.info_hashes.originals;
        canonicals =
            References-cascade hash_key canonical_key goes t.info_hashes t.torrents
              v.info_hashes.canonicals;
      };
      files = References-cascade torrent_key file_torrent goes t.files t.torrents v.files;
      urls = References-cascade torrent_key url_torrent goes t.announce_urls t.torrents v.urls;
      infos = record {
        ids =
            Unique-retain info_torrent (λ r. not (has torrent_key r.torrent_id deleted)) t.infos
              v.infos.ids;
        owners = References-cascade torrent_key info_torrent goes t.infos t.torrents v.infos.owners;
        titles =
            Unique-retain title_key (λ r. not (has torrent_key r.torrent_id deleted)) t.infos
              v.infos.titles;
      };
      stats = record {
        ids =
            Unique-retain stats_torrent (λ r. not (has torrent_key r.torrent_id deleted)) t.stats
              v.stats.ids;
        owners =
            References-cascade torrent_key stats_torrent goes t.stats t.torrents v.stats.owners;
      };
      links = record {
        links =
            UniqueLinks-retain (λ r. not (has torrent_key r.torrent_id deleted)) t.tag_links
              v.links.links;
        owners =
            References-cascade torrent_key link_torrent goes t.tag_links t.torrents v.links.owners;
        linked_tags =
            References-retain tag_key link_tag (λ r. not (has torrent_key r.torrent_id deleted))
              t.tag_links names.tags v.links.linked_tags;
      };
    }

pub delete_torrent-UploadsAreValid :
    (users : List UserRow) (names : Names) (torrent_id : ℕ) (t : Uploads)
    → UploadsAreValid users names t
    → UploadsAreValid users names (delete_torrent torrent_id t).0
unfolding delete_torrent
delete_torrent-UploadsAreValid users names torrent_id t v =
    delete_torrent_rows-UploadsAreValid users names (λ r. torrent_key r == torrent_id) t v

UniqueEmails-retain :
    (p : ProfileRow → Bool) (rs : List ProfileRow) → UniqueEmails rs → UniqueEmails (retain p rs)
unfolding has_email
UniqueEmails-retain p [] u = tt
UniqueEmails-retain p (r ∷ rs) (new, u) =
    ground (arith, UniqueEmails-retain p rs u, has_email-retain r.email rs new)
  where
    has_email-retain :
        (e : Option Text) (rs : List ProfileRow)
        → has_email e rs ≡ false
        → has_email e (retain p rs) ≡ false
    has_email-retain none rs h = refl
    has_email-retain (some e) [] h = refl
    has_email-retain (some e) (r ∷ rs) h = ground (arith, has_email-retain (some e) rs)

delete_user_rows-UsersAreValid :
    (user_id : ℕ) (t : Users) → UsersAreValid t → UsersAreValid (delete_user_rows user_id t)
unfolding delete_user_rows cascade
delete_user_rows-UsersAreValid user_id t v =
    let goes : UserRow → Bool = λ r. user_key r == user_id in
    let stays : UserRow → Bool = λ r. not (goes r) in
    let deleted : List UserRow = retain goes t.users in
    record {
      users = record {
        ids = Unique-retain user_key stays t.users v.users.ids;
        given = Within-retain user_key t.last_user stays t.users v.users.given;
      };
      authentications = record {
        ids =
            Unique-retain authentication_key (λ r. not (has user_key r.user_id deleted))
              t.authentications v.authentications.ids;
        owners =
            References-cascade user_key authentication_key goes t.authentications t.users
              v.authentications.owners;
      };
      profiles = record {
        ids =
            Unique-retain profile_key (λ r. not (has user_key r.user_id deleted)) t.profiles
              v.profiles.ids;
        owners = References-cascade user_key profile_key goes t.profiles t.users v.profiles.owners;
        usernames =
            Unique-retain username_key (λ r. not (has user_key r.user_id deleted)) t.profiles
              v.profiles.usernames;
        emails =
            UniqueEmails-retain (λ r. not (has user_key r.user_id deleted)) t.profiles
              v.profiles.emails;
      };
      keys = References-cascade user_key key_user goes t.tracker_keys t.users v.keys;
      bans = References-cascade user_key ban_user_key goes t.bans t.users v.bans;
    }

-- the torrents of users that stay
uploaders_stay :
    (goes : UserRow → Bool) (rs : List TorrentRow) (users : List UserRow)
    → References user_key uploader rs users
    → References user_key uploader
        (retain (λ r. not (has user_key r.uploader_id (retain goes users))) rs)
        (retain (λ r. not (goes r)) users)
unfolding cascade
uploaders_stay goes rs users h = References-cascade user_key uploader goes rs users h

-- A user goes with everything of that user.
pub delete_user-IsConsistent :
    (user_id : ℕ) (t : Tables) → IsConsistent t → IsConsistent (delete_user user_id t).0
unfolding delete_user delete_user_rows delete_torrent_rows
delete_user-IsConsistent user_id t v =
    let users : List UserRow = t.accounts.users in
    let goes : UserRow → Bool = λ u. user_key u == user_id in
    let goes_torrent : TorrentRow → Bool = λ r. has user_key r.uploader_id (retain goes users) in
    let after : Uploads = delete_torrent_rows goes_torrent t.uploads in
    let w : UploadsAreValid users t.names after =
      delete_torrent_rows-UploadsAreValid users t.names goes_torrent t.uploads v.uploads in
    record {
      accounts = delete_user_rows-UsersAreValid user_id t.accounts v.accounts;
      names = v.names;
      uploads =
          UploadsAreValid-parents users _ t.names t.names after w
            (uploaders_stay goes t.uploads.torrents users v.uploads.torrents.uploaders)
            w.torrents.categorized w.links.linked_tags;
    }

-- With every torrent go all of their info-hashes.
cascade_all :
    (children : List InfoHashRow) (parents : List TorrentRow)
    → References hash_key canonical_key children parents
    → cascade hash_key canonical_key (retain (λ _. true) parents) children ≡ []
unfolding cascade has
cascade_all [] parents h = refl
cascade_all (c ∷ cs) parents (found, rest) = ground (
  arith,
  found,
  has-split hash_key c.canonical_info_hash (λ _. true) parents,
  retain_none parents,
  cascade_all cs parents rest,
)
  where
    retain_none :
        (rs : List TorrentRow) → has hash_key c.canonical_info_hash (retain (λ _. false) rs) ≡ false
    retain_none [] = refl
    retain_none (r ∷ rs) = retain_none rs

abbrev pub emptied : Tables → Tables
emptied t = record {
  accounts = record {
    users = [];
    last_user = t.accounts.last_user;
    authentications = [];
    profiles = [];
    tracker_keys = [];
    bans = [];
  };
  names = record {
    categories = [];
    last_category = t.names.last_category;
    tags = [];
    last_tag = t.names.last_tag;
  };
  uploads = record {
    torrents = [];
    last_torrent = t.uploads.last_torrent;
    info_hashes = [];
    files = [];
    announce_urls = [];
    infos = [];
    stats = [];
    tag_links = [];
  };
}

-- The loop over the tables to truncate empties every table of consistent tables, the info-hashes,
-- which are not in that list, included.
pub delete_all_database_rows_lem :
    (t : Tables) → IsConsistent t → delete_all_database_rows t ≡ emptied t
unfolding delete_all_database_rows cascade
delete_all_database_rows_lem t v = simp (
  retain_none t.uploads.torrents,
  cascade_all t.uploads.info_hashes t.uploads.torrents v.uploads.info_hashes.canonicals,
)
  where
    retain_none : (rs : List TorrentRow) → retain (λ _. false) rs ≡ []
    retain_none [] = refl
    retain_none (r ∷ rs) = retain_none rs

pub delete_all_database_rows-IsConsistent :
    (t : Tables) → IsConsistent t → IsConsistent (delete_all_database_rows t)
delete_all_database_rows-IsConsistent t v = rw (delete_all_database_rows_lem t v) (record {
  accounts = record {
    users = record { ids = tt; given = tt };
    authentications = record { ids = tt; owners = tt };
    profiles = record { ids = tt; owners = tt; usernames = tt; emails = tt };
    keys = tt;
    bans = tt;
  };
  names = record {
    categories = record { ids = tt; given = tt; category_names = tt };
    tags = record { ids = tt; given = tt; tag_names = tt };
  };
  uploads = record {
    torrents = record { ids = tt; given = tt; hashes = tt; uploaders = tt; categorized = tt };
    info_hashes = record { originals = tt; canonicals = tt };
    files = tt;
    urls = tt;
    infos = record { ids = tt; owners = tt; titles = tt };
    stats = record { ids = tt; owners = tt };
    links = record { links = tt; owners = tt; linked_tags = tt };
  };
})
