-- ===== src/Sqlite/Schema/Titles.antt =====
-- The titles of torrents stay unique (src/databases/sqlite.rs).
use torrust_index.Base.{
  ℕ, ◌≡◌, refl, inl, inr, false, List, [], ◌∷◌, Text, text_eq, text_eq_iff, ◌==◌, ==_iff,
  Bool-cases, arith,
}
use torrust_index.Sql.{number_eq, text_column_eq, has, update_where, Unique}
use torrust_index.Sql.Laws.{update_where-none}
use torrust_index.Sqlite.{TorrentInfoRow}
use torrust_index.Sqlite.Torrents.{info_torrent, title_key}
use torrust_index.Sqlite.Updates.{with_title, title_taken}

-- No other torrent has the title, and the torrent is not there.
pub title_free :
    (torrent_id : ℕ) (title : Text) (rs : List TorrentInfoRow)
    → has info_torrent torrent_id rs ≡ false
    → title_taken torrent_id title rs ≡ false
    → has title_key title rs ≡ false
unfolding has title_taken
title_free torrent_id title [] h n = refl
title_free torrent_id title (r ∷ rs) h n = ground (arith, title_free torrent_id title rs, h, n)

pub other_title :
    (k : Text) (torrent_id : ℕ) (title : Text) (rs : List TorrentInfoRow)
    → has title_key k rs ≡ false
    → text_eq title k ≡ false
    → has title_key k (update_where info_torrent torrent_id (with_title title) rs) ≡ false
unfolding has update_where
other_title k torrent_id title [] h n = refl
other_title k torrent_id title (r ∷ rs) h n =
    ground (arith, other_title k torrent_id title rs, h, n)

pub titles-update_where :
    (torrent_id : ℕ) (title : Text) (rs : List TorrentInfoRow)
    → Unique info_torrent rs
    → Unique title_key rs
    → title_taken torrent_id title rs ≡ false
    → Unique title_key (update_where info_torrent torrent_id (with_title title) rs)
unfolding title_taken update_where
titles-update_where torrent_id title [] i u n = tt
titles-update_where torrent_id title (r ∷ rs) (new_id, i) (new, u) n =
    elim (Bool-cases (r.torrent_id == torrent_id)) [
      | inl h ↦
          let gone : has info_torrent torrent_id rs ≡ false =
            ground (arith, new_id, h, ==_iff r.torrent_id torrent_id) in
          rw (h, update_where-none info_torrent torrent_id (with_title title) rs gone)
            (title_free torrent_id title rs gone (ground (arith, n)), u)
      | inr h ↦ rw h (
        other_title r.title torrent_id title rs new
            (ground (arith, n, h, text_eq_iff r.title title, text_eq_iff title r.title)),
        titles-update_where torrent_id title rs i u (ground (arith, n)),
      )
    ]
