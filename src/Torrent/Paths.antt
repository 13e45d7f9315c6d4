-- ===== src/Torrent/Paths.antt =====
-- The path of a file as it is stored, `path.join("/")`, and read back, `split('/')`
-- (src/databases/sqlite.rs).
use torrust_index.Base.{
  ◌≡◌, refl, ap, Bool, true, false, not, List, [], ◌∷◌, ◌++◌, Text, ◌==◌, split_at, all, is_empty,
  arith,
}

-- `[String]::join("/")`
unfoldable pub join_path : List Text → Text
join_path [] = []
join_path (part ∷ []) = part
join_path (part ∷ part' ∷ parts) = part ++ b'/' ∷ join_path (part' ∷ parts)

-- `split('/')`
unfoldable pub split_path : Text → List Text
unfolding split_at
split_path = split_at b'/'

-- a part of a path, as `std::path` would have it
abbrev pub no_slash : Text → Bool
no_slash part = all (λ c. not (c == b'/')) part

split_path_part : (part : Text) → no_slash part ≡ true → split_path part ≡ part ∷ []
unfolding split_path
split_path_part [] h = refl
split_path_part (c ∷ s) h = ground (arith, split_path_part s)

split_path-append :
    (part s : Text) → no_slash part ≡ true → split_path (part ++ b'/' ∷ s) ≡ part ∷ split_path s
unfolding split_path
split_path-append [] s h = refl
split_path-append (c ∷ part) s h = ground (arith, split_path-append part s)

-- A stored path is read back as it was, if it has a part and no part contains a slash.
pub split_path-join_path :
    (parts : List Text)
    → is_empty parts ≡ false
    → all no_slash parts ≡ true
    → split_path (join_path parts) ≡ parts
unfolding join_path
split_path-join_path [] ne h = cc
split_path-join_path (part ∷ []) ne h = split_path_part part (ground arith)
split_path-join_path (part ∷ part' ∷ parts) ne h =
    rw (split_path-append part (join_path (part' ∷ parts)) (ground arith))
      (ap (◌∷◌ part) (split_path-join_path (part' ∷ parts) refl (ground arith)))
