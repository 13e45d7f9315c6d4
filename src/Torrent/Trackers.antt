-- ===== src/Torrent/Trackers.antt =====
-- The trackers of a torrent file (src/models/torrent_file.rs) after the index has put its own
-- tracker first.
use torrust_index.Base.{
  ◌≡◌, refl, ap, sym, ◌∙◌, Bool, true, not, Option, none, some, List, [], ◌∷◌, ◌++◌, map, Text,
  text_eq, text_eq_refl, retain, retain-append, retain_idem, ◌⊎◌, inl, inr, flatten, is_empty, all,
  all-retain, arith,
}
use torrust_index.Torrent.{Torrent, url_to_front, include_url_as_main_tracker}

-- the test of the two `retain` calls: another URL
abbrev pub other : Text → Text → Bool
other tracker_url url = not (text_eq url tracker_url)

flatten-retain_nonempty :
    (list : List (List Text)) → flatten (retain (λ l. not (is_empty l)) list) ≡ flatten list
flatten-retain_nonempty [] = refl
flatten-retain_nonempty ([] ∷ list) = flatten-retain_nonempty list
flatten-retain_nonempty ((u ∷ us) ∷ list) =
    ap (λ (l : List Text). (u ∷ us) ++ l) (flatten-retain_nonempty list)

flatten-map-retain :
    (p : Text → Bool) (list : List (List Text))
    → flatten (map (retain p) list) ≡ retain p (flatten list)
flatten-map-retain p [] = refl
flatten-map-retain p (l ∷ list) =
    ap (λ (r : List Text). retain p l ++ r) (flatten-map-retain p list)
    ∙ sym (retain-append p l (flatten list))

pub flatten-url_to_front :
    (url : Text) (list : List (List Text))
    → flatten (url_to_front url list) ≡ url ∷ retain (other url) (flatten list)
unfolding url_to_front
flatten-url_to_front url list =
    ap (◌∷◌ url) (
      flatten-retain_nonempty (map (retain (other url)) list) ∙ flatten-map-retain (other url) list)

drop_first : (url : Text) (l : List Text) → retain (other url) (url ∷ l) ≡ retain (other url) l
drop_first url l = rw (text_eq_refl url) refl

all-url_to_front :
    (url : Text) (list : List (List Text))
    → all (λ tier. not (is_empty tier)) (url_to_front url list) ≡ true
unfolding url_to_front
all-url_to_front url list =
    all-retain (λ tier. not (is_empty tier)) ((url ∷ []) ∷ map (retain (other url)) list)

tiers_idem :
    (url : Text) (list : List (List Text))
    → let clean = λ (l : List (List Text)).
      retain (λ tier. not (is_empty tier)) (map (retain (other url)) l) in
      clean (clean list) ≡ clean list
tiers_idem url [] = refl
tiers_idem url (l ∷ list) = ground (arith, tiers_idem url list, retain_idem (other url) l)

url_to_front_idem :
    (url : Text) (list : List (List Text))
    → url_to_front url (url_to_front url list) ≡ url_to_front url list
unfolding url_to_front
url_to_front_idem url list = rw (drop_first url []) (ap (◌∷◌ (url ∷ [])) (tiers_idem url list))

-- With the index's tracker included, the announce URL is that tracker; the tiers, if the torrent
-- has any, list it first and once and keep every other URL, in order, and none of them is empty; a
-- torrent without tiers gets none. The info dictionary stays.
pub include_url_lem :
    (url : Text) (t : Torrent)
    → let t' = include_url_as_main_tracker url t in
      (t'.announce ≡ some url)
      × (t'.info ≡ t.info)
      × ((t.announce_list ≡ none) × (t'.announce_list ≡ none)
          ⊎ ((list : List (List Text)) × (list' : List (List Text)) × (t.announce_list ≡ some list)
              × (t'.announce_list ≡ some list')
              × (flatten list' ≡ url ∷ retain (other url) (flatten list))
              × (all (λ tier. not (is_empty tier)) list' ≡ true)))
unfolding include_url_as_main_tracker
include_url_lem url t = (refl, refl, by_list t.announce_list refl)
  where
    by_list :
        (o : Option (List (List Text)))
        → t.announce_list ≡ o
        → let t' = include_url_as_main_tracker url t in
          (t.announce_list ≡ none) × (t'.announce_list ≡ none)
          ⊎ ((list : List (List Text)) × (list' : List (List Text)) × (t.announce_list ≡ some list)
              × (t'.announce_list ≡ some list')
              × (flatten list' ≡ url ∷ retain (other url) (flatten list))
              × (all (λ tier. not (is_empty tier)) list' ≡ true))
    by_list none e = inl (e, rw e refl)
    by_list (some list) e = inr (
      list,
      url_to_front url list,
      e,
      rw e refl,
      flatten-url_to_front url list,
      all-url_to_front url list,
    )

-- Including the same tracker twice is including it once.
pub include_url_idem :
    (url : Text) (t : Torrent)
    → include_url_as_main_tracker url (include_url_as_main_tracker url t)
      ≡ include_url_as_main_tracker url t
unfolding include_url_as_main_tracker
include_url_idem url t = by_list t.announce_list refl
  where
    by_list :
        (o : Option (List (List Text)))
        → t.announce_list ≡ o
        → include_url_as_main_tracker url (include_url_as_main_tracker url t)
          ≡ include_url_as_main_tracker url t
    by_list none e = rw e refl
    by_list (some list) e = rw e (
        ap
          (λ (l : List (List Text)).
            let t' : Torrent = record t { announce = some url; announce_list = some l } in t')
          (url_to_front_idem url list))
