-- ===== src/Sqlite/Search/Paged.antt =====
-- The pages of a search are slices of one sorted list of its matches (src/databases/sqlite.rs).
use torrust_index.Base.{
  ◌≡◌, refl, Bool, true, false, inl, inr, List, [], ◌∷◌, Text, retain, length, Bool-cases, arith,
}
use torrust_index.Listing.{TorrentListing, Sorting}
use torrust_index.Sqlite.Search.{text_leb, before, Tie, precedes, insert_row, order_by}

text_leb_total : (xs ys : Text) → text_leb xs ys ≡ false → text_leb ys xs ≡ true
unfolding text_leb
text_leb_total [] ys h = ground arith
text_leb_total (x ∷ xs) [] h = refl
text_leb_total (x ∷ xs) (y ∷ ys) h = ground (arith, text_leb_total xs ys)

before_total :
    (sort : Sorting) (a b : TorrentListing) → before sort a b ≡ false → before sort b a ≡ true
unfolding before
before_total Sorting.uploaded_asc a b h = text_leb_total a.date_uploaded b.date_uploaded h
before_total Sorting.uploaded_desc a b h = text_leb_total b.date_uploaded a.date_uploaded h
before_total Sorting.seeders_asc a b h = ground arith
before_total Sorting.seeders_desc a b h = ground arith
before_total Sorting.leechers_asc a b h = ground arith
before_total Sorting.leechers_desc a b h = ground arith
before_total Sorting.name_asc a b h = text_leb_total a.title b.title h
before_total Sorting.name_desc a b h = text_leb_total b.title a.title h
before_total Sorting.size_asc a b h = ground arith
before_total Sorting.size_desc a b h = ground arith

-- Each row may stand before the next one.
abbrev pub IsSorted : Sorting → List TorrentListing → Type 0
IsSorted sort [] = Unit {0}
IsSorted sort (a ∷ []) = Unit {0}
IsSorted sort (a ∷ b ∷ rest) = (before sort a b ≡ true) × IsSorted sort (b ∷ rest)

precedes_sorted :
    (tie : Tie) (sort : Sorting) (a b : TorrentListing)
    → precedes tie sort a b ≡ true
    → before sort a b ≡ true
unfolding precedes
precedes_sorted tie sort a b h = ground (arith, h)

precedes_total :
    (tie : Tie) (sort : Sorting) (a b : TorrentListing)
    → precedes tie sort a b ≡ false
    → before sort b a ≡ true
unfolding precedes
precedes_total tie sort a b h = elim (Bool-cases (before sort a b)) [
  | inr n ↦ before_total sort a b n
  | inl n ↦ ground (arith, h, n)
]

insert_row-IsSorted :
    (tie : Tie) (sort : Sorting) (a : TorrentListing) (bs : List TorrentListing)
    → IsSorted sort bs
    → IsSorted sort (insert_row tie sort a bs)
unfolding insert_row
insert_row-IsSorted tie sort a [] s = tt
insert_row-IsSorted tie sort a (b ∷ []) s = elim (Bool-cases (precedes tie sort a b)) [
  | inl h ↦ rw h (precedes_sorted tie sort a b h, tt)
  | inr h ↦ rw h (precedes_total tie sort a b h, tt)
]
insert_row-IsSorted tie sort a (b ∷ c ∷ rest) (bc, s) = elim (Bool-cases (precedes tie sort a b)) [
  | inl h ↦ rw h (precedes_sorted tie sort a b h, (bc, s))
  | inr h ↦
      rw h (after (precedes_total tie sort a b h) (insert_row-IsSorted tie sort a (c ∷ rest) s))
]
  where
    after :
        before sort b a ≡ true
        → IsSorted sort (insert_row tie sort a (c ∷ rest))
        → IsSorted sort (b ∷ insert_row tie sort a (c ∷ rest))
    after ba k = elim (Bool-cases (precedes tie sort a c)) [
      | inl h ↦ rw h (ba, rw h at k)
      | inr h ↦ rw h (bc, rw h at k)
    ]

pub order_by-IsSorted :
    (tie : Tie) (sort : Sorting) (rows : List TorrentListing)
    → IsSorted sort (order_by tie sort rows)
unfolding order_by
order_by-IsSorted tie sort [] = tt
order_by-IsSorted tie sort (a ∷ rows) =
    insert_row-IsSorted tie sort a (order_by tie sort rows) (order_by-IsSorted tie sort rows)

insert_row_count :
    (p : TorrentListing → Bool) (tie : Tie) (sort : Sorting) (a : TorrentListing)
    (bs : List TorrentListing)
    → length (retain p (insert_row tie sort a bs)) ≡ length (retain p (a ∷ bs))
unfolding insert_row
insert_row_count p tie sort a [] = refl
insert_row_count p tie sort a (b ∷ bs) = ground (arith, insert_row_count p tie sort a bs)

pub order_by_count :
    (p : TorrentListing → Bool) (tie : Tie) (sort : Sorting) (rows : List TorrentListing)
    → length (retain p (order_by tie sort rows)) ≡ length (retain p rows)
unfolding order_by
order_by_count p tie sort [] = refl
order_by_count p tie sort (a ∷ rows) =
    ground (
      arith,
      insert_row_count p tie sort a (order_by tie sort rows),
      order_by_count p tie sort rows,
    )
