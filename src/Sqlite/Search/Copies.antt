-- ===== src/Sqlite/Search/Copies.antt =====
-- What the join of a filter of tags does to the numbers of a torrent (src/databases/sqlite.rs).
use torrust_index.Base.{
  ℕ, zero, suc, ◌+◌, ◌*◌, ◌≡◌, ◌≢◌, refl, ap, sym, ◌∙◌, Bool, true, false, ◌&&◌, inl, inr, Option,
  none, some, List, [], ◌∷◌, ◌++◌, map, ◌==◌, retain, length, Bool-cases, Option-cases, arith,
}
use torrust_index.Listing.{TorrentListing}
use torrust_index.Sql.{number_eq, text_column_eq, first, rows_of}
use torrust_index.Sqlite.{TorrentRow, StatsRow, TagLinkRow, CategoryRow, Names, Users, Uploads}
use torrust_index.Sqlite.Accounts.{profile_key}
use torrust_index.Sqlite.Listings.{
  JoinedRow, a_tag_of, tag_rows, left_join, with_tags, product, joined_rows, seeders_of,
  leechers_of, sum_seeders, sum_leechers, group,
}
use torrust_index.Sqlite.Schema.{UniqueLinks}
use torrust_index.Sqlite.Torrents.{has_link, info_torrent, stats_torrent}

abbrev pub scaled : ℕ → Option TorrentListing → Option TorrentListing
scaled n none = none
scaled n (some l) = some (record l { seeders = n * l.seeders; leechers = n * l.leechers })

-- a torrent that is found so many times: none is not found
abbrev pub times : ℕ → Option TorrentListing → Option TorrentListing
times zero l = none
times (suc n) l = scaled (suc n) l

abbrev pub bit : Bool → ℕ
bit false = 0
bit true = 1

-- the sums of a column over rows of statistics
abbrev column_sum : (Option StatsRow → ℕ) → List (Option StatsRow) → ℕ
column_sum column [] = 0
column_sum column (s ∷ ss) = column s + column_sum column ss

abbrev joined_with : Option CategoryRow → Option TagLinkRow → Option StatsRow → JoinedRow
joined_with c l s = record { category = c; tag_link = l; stats = s }

sum_seeders-map :
    (c : Option CategoryRow) (l : Option TagLinkRow) (ss : List (Option StatsRow))
    (js : List JoinedRow)
    → sum_seeders (map (joined_with c l) ss ++ js) ≡ column_sum seeders_of ss + sum_seeders js
unfolding sum_seeders
sum_seeders-map c l [] js = omega arith
sum_seeders-map c l (s ∷ ss) js = omega (arith, sum_seeders-map c l ss js)

sum_leechers-map :
    (c : Option CategoryRow) (l : Option TagLinkRow) (ss : List (Option StatsRow))
    (js : List JoinedRow)
    → sum_leechers (map (joined_with c l) ss ++ js) ≡ column_sum leechers_of ss + sum_leechers js
unfolding sum_leechers
sum_leechers-map c l [] js = omega arith
sum_leechers-map c l (s ∷ ss) js = omega (arith, sum_leechers-map c l ss js)

one_more : (k n m : ℕ) → n ≡ k * m → m + n ≡ suc k * m
one_more k n m h = grind (arith, h)

sum_seeders_end : (js : List JoinedRow) → sum_seeders (js ++ []) ≡ sum_seeders js
unfolding sum_seeders
sum_seeders_end [] = refl
sum_seeders_end (j ∷ js) = omega (arith, sum_seeders_end js)

sum_leechers_end : (js : List JoinedRow) → sum_leechers (js ++ []) ≡ sum_leechers js
unfolding sum_leechers
sum_leechers_end [] = refl
sum_leechers_end (j ∷ js) = omega (arith, sum_leechers_end js)

module _ (c : Option CategoryRow) (ss : List (Option StatsRow)) where
  seeders-with_tags :
      (links : List (Option TagLinkRow))
      → sum_seeders (with_tags c links ss) ≡ length links * column_sum seeders_of ss
  unfolding sum_seeders
  seeders-with_tags [] = omega arith
  seeders-with_tags (l ∷ links) =
      sum_seeders-map c l ss (with_tags c links ss)
      ∙ one_more (length links) _ _ (seeders-with_tags links)

  leechers-with_tags :
      (links : List (Option TagLinkRow))
      → sum_leechers (with_tags c links ss) ≡ length links * column_sum leechers_of ss
  unfolding sum_leechers
  leechers-with_tags [] = omega arith
  leechers-with_tags (l ∷ links) =
      sum_leechers-map c l ss (with_tags c links ss)
      ∙ one_more (length links) _ _ (leechers-with_tags links)

module _ (users : Users) (t : Uploads) (r : TorrentRow) where
  -- groups of the same torrent differ by their sums
  group-scaled :
      (n : ℕ) (j k : JoinedRow) (js ks : List JoinedRow)
      → sum_seeders (j ∷ js) ≡ n * sum_seeders (k ∷ ks)
      → sum_leechers (j ∷ js) ≡ n * sum_leechers (k ∷ ks)
      → group users t (j ∷ js) r ≡ scaled n (group users t (k ∷ ks) r)
  unfolding group
  group-scaled n j k js ks s l =
      elim (Option-cases (first profile_key r.uploader_id users.profiles)) [
        | inl p ↦ rw (p, group) refl
        | inr (profile, p) ↦ elim (Option-cases (first info_torrent r.torrent_id t.infos)) [
          | inl m ↦ rw (p, m, group) refl
          | inr (info, m) ↦ rw (p, m, group, s, l) refl
        ]
      ]

  -- as many groups' worth as there are links
  links-times :
      (links : List (Option TagLinkRow)) (s : Option StatsRow) (ss : List (Option StatsRow))
      → group users t (product (none ∷ []) links (s ∷ ss)) r
        ≡ times (length links) (group users t (product (none ∷ []) (none ∷ []) (s ∷ ss)) r)
  unfolding group
  links-times [] s ss = refl
  links-times (l ∷ links) s ss =
      group-scaled (suc (length links)) (joined_with none l s) (joined_with none none s) _ _
        (sum_seeders_end (with_tags none (l ∷ links) (s ∷ ss))
          ∙ seeders-with_tags none (s ∷ ss) (l ∷ links)
          ∙ sym (ap (λ n. suc (length links) * n) own_seeders))
        (sum_leechers_end (with_tags none (l ∷ links) (s ∷ ss))
          ∙ leechers-with_tags none (s ∷ ss) (l ∷ links)
          ∙ sym (ap (λ n. suc (length links) * n) own_leechers))
    where
      own_seeders :
          sum_seeders (product (none ∷ []) (none ∷ []) (s ∷ ss)) ≡ column_sum seeders_of (s ∷ ss)
      own_seeders =
          sum_seeders_end (with_tags none (none ∷ []) (s ∷ ss))
          ∙ seeders-with_tags none (s ∷ ss) (none ∷ [])
          ∙ omega arith

      own_leechers :
          sum_leechers (product (none ∷ []) (none ∷ []) (s ∷ ss)) ≡ column_sum leechers_of (s ∷ ss)
      own_leechers =
          sum_leechers_end (with_tags none (none ∷ []) (s ∷ ss))
          ∙ leechers-with_tags none (s ∷ ss) (none ∷ [])
          ∙ omega arith

  left_join-times :
      (links : List (Option TagLinkRow)) (stats : List StatsRow)
      → group users t (product (none ∷ []) links (left_join stats)) r
        ≡ times (length links) (group users t (product (none ∷ []) (none ∷ []) (left_join stats)) r)
  left_join-times links [] = links-times links none []
  left_join-times links (s ∷ stats) = links-times links (some s) (map some stats)

length-map-some : (ls : List TagLinkRow) → length (map some ls) ≡ length ls
length-map-some [] = refl
length-map-some (l ∷ ls) = omega (arith, length-map-some ls)

has_link-here :
    (id a : ℕ) (l : TagLinkRow) (ls : List TagLinkRow)
    → l.torrent_id == id ≡ true
    → l.tag_id == a ≡ true
    → has_link l.torrent_id l.tag_id ls ≡ false
    → has_link id a ls ≡ false
has_link-here id a l ls t g h =
    let same : l.torrent_id ≡ id = ground (arith, t) in
    let tag : l.tag_id ≡ a = ground (arith, g) in rw (same, tag) at h

-- the links of a torrent to one of two tags
two_tags :
    (id a b : ℕ) (ls : List TagLinkRow)
    → a ≢ b
    → UniqueLinks ls
    → length (retain (λ l. l.torrent_id == id && a_tag_of (a ∷ b ∷ []) l.tag_id) ls)
      ≡ bit (has_link id a ls) + bit (has_link id b ls)
unfolding has_link
two_tags id a b [] n u = omega arith
two_tags id a b (l ∷ ls) n (new, u) = elim (Bool-cases (l.torrent_id == id)) [
  | inr t ↦ ground (arith, t, two_tags id a b ls n u)
  | inl t ↦ elim (Bool-cases (l.tag_id == a)) [
    | inl g ↦ ground (arith, t, g, n, has_link-here id a l ls t g new, two_tags id a b ls n u)
    | inr g ↦ elim (Bool-cases (l.tag_id == b)) [
      | inl k ↦ ground (arith, t, g, k, has_link-here id b l ls t k new, two_tags id a b ls n u)
      | inr k ↦ ground (arith, t, g, k, two_tags id a b ls n u)
    ]
  ]
]

-- a torrent in the join of two tags, beside the torrent alone
pub group-two_tags :
    (users : Users) (names : Names) (t : Uploads) (a b : ℕ) (r : TorrentRow)
    → a ≢ b
    → UniqueLinks t.tag_links
    → group users t (joined_rows names t [] (a ∷ b ∷ []) r) r
      ≡ times
          (bit (has_link r.torrent_id a t.tag_links) + bit (has_link r.torrent_id b t.tag_links))
          (group users t (joined_rows names t [] [] r) r)
unfolding joined_rows
group-two_tags users names t a b r n u =
    left_join-times users t r (tag_rows t (a ∷ b ∷ []) r)
      (rows_of stats_torrent r.torrent_id t.stats)
    ∙ ap (λ k. times k (group users t (joined_rows names t [] [] r) r))
        (length-map-some (
            retain (λ l. l.torrent_id == r.torrent_id && a_tag_of (a ∷ b ∷ []) l.tag_id)
              t.tag_links)
          ∙ two_tags r.torrent_id a b t.tag_links n u)
