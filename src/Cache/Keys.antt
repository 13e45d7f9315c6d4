-- ===== src/Cache/Keys.antt =====
-- The entries of the byte cache (src/cache/mod.rs): keys listed once, sizes within the limit, and
-- what taking out, appending and evicting an entry does to both.
use torrust_index.Base.{
  ℕ, ◌≤◌, ◌≡◌, refl, ◌≢◌, [], ◌∷◌, ◌++◌, none, some, Text, text_eq_iff, length, arith,
}
use torrust_index.Cache.Eviction.{sizes}
use torrust_index.Cache.Table.{BytesCacheEntry, Entries, lookup, remove, upsert}

-- no key is listed twice
abbrev pub Distinct : Entries → Type 0
Distinct [] = Unit {0}
Distinct ((k, e) ∷ es) = (lookup k es ≡ none) × Distinct es

-- every entry is within the entry size limit
abbrev pub Within : ℕ → Entries → Type 0
Within limit [] = Unit {0}
Within limit ((k, e) ∷ es) = (length e.bytes ≤ limit) × Within limit es

pub sizes-remove-le : (k : Text) (es : Entries) → sizes (remove k es) ≤ sizes es
unfolding remove
sizes-remove-le k [] = omega arith
sizes-remove-le k (x ∷ es) = ground (arith, sizes-remove-le k es)

pub lookup-remove-none :
    (j k : Text) (es : Entries) → lookup j es ≡ none → lookup j (remove k es) ≡ none
unfolding lookup remove
lookup-remove-none j k [] h = refl
lookup-remove-none j k (x ∷ es) h = ground (arith, lookup-remove-none j k es)

pub lookup-remove_self : (k : Text) (es : Entries) → Distinct es → lookup k (remove k es) ≡ none
unfolding lookup remove
lookup-remove_self k [] d = refl
lookup-remove_self k (x ∷ es) d = ground (arith, lookup-remove_self k es, text_eq_iff x.0 k, d.0)

pub Distinct-remove : (k : Text) (es : Entries) → Distinct es → Distinct (remove k es)
unfolding remove
Distinct-remove k [] d = tt
Distinct-remove k (x ∷ es) d =
    ground (arith, Distinct-remove k es d.1, lookup-remove-none x.0 k es d.0)

pub Within-remove : (n : ℕ) (k : Text) (es : Entries) → Within n es → Within n (remove k es)
unfolding remove
Within-remove n k [] w = tt
Within-remove n k (x ∷ es) w = ground (arith, Within-remove n k es w.1)

pub lookup-append_none :
    (k : Text) (xs ys : Entries)
    → lookup k (xs ++ ys) ≡ none
    → (lookup k xs ≡ none) × (lookup k ys ≡ none)
unfolding lookup
lookup-append_none k [] ys h = (refl, h)
lookup-append_none k (x ∷ xs) ys h = ground (arith, lookup-append_none k xs ys)

pub Distinct-append_right : (xs ys : Entries) → Distinct (xs ++ ys) → Distinct ys
Distinct-append_right [] ys d = d
Distinct-append_right (x ∷ xs) ys d = Distinct-append_right xs ys d.1

pub Within-append_right : (n : ℕ) (xs ys : Entries) → Within n (xs ++ ys) → Within n ys
Within-append_right n [] ys w = w
Within-append_right n (x ∷ xs) ys w = Within-append_right n xs ys w.1

pub upsert_new :
    (k : Text) (e : BytesCacheEntry) (es : Entries)
    → lookup k es ≡ none
    → upsert k e es ≡ es ++ (k, e) ∷ []
unfolding upsert lookup
upsert_new k e [] h = refl
upsert_new k e (x ∷ es) h = ground (arith, upsert_new k e es)

pub lookup_last :
    (k : Text) (e : BytesCacheEntry) (es : Entries)
    → lookup k es ≡ none
    → lookup k (es ++ (k, e) ∷ []) ≡ some e
unfolding lookup
lookup_last k e [] h = ground (arith, text_eq_iff k k)
lookup_last k e (x ∷ es) h = ground (arith, lookup_last k e es)

pub lookup-append_ne :
    (j k : Text) (e : BytesCacheEntry) (es : Entries)
    → lookup j es ≡ none
    → k ≢ j
    → lookup j (es ++ (k, e) ∷ []) ≡ none
unfolding lookup
lookup-append_ne j k e [] h ne = ground (arith, text_eq_iff k j)
lookup-append_ne j k e (x ∷ es) h ne = ground (arith, lookup-append_ne j k e es)

pub Distinct-snoc :
    (k : Text) (e : BytesCacheEntry) (es : Entries)
    → Distinct es
    → lookup k es ≡ none
    → Distinct (es ++ (k, e) ∷ [])
unfolding lookup
Distinct-snoc k e [] d h = (refl, tt)
Distinct-snoc k e ((j, f) ∷ es) d h =
    ground (arith, Distinct-snoc k e es d.1, lookup-append_ne j k e es d.0, text_eq_iff j k)

pub Within-snoc :
    (n : ℕ) (k : Text) (e : BytesCacheEntry) (es : Entries)
    → Within n es
    → length e.bytes ≤ n
    → Within n (es ++ (k, e) ∷ [])
Within-snoc n k e [] w h = (h, tt)
Within-snoc n k e (x ∷ es) w h = (w.0, Within-snoc n k e es w.1 h)
