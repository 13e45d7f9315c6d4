-- ===== src/Services/Index/Groups.antt =====
-- The groups of info-hashes with one canonical info-hash (src/services/torrent.rs).
use torrust_index.Base.{
  ◌≡◌, ◌≢◌, refl, ◌⊎◌, inl, inr, List, [], ◌∷◌, true, false, Outcome, ok, err, panic, Bool-cases,
  Outcome-cases, arith,
}
use torrust_index.Database.{Database}
use torrust_index.DbError.{DbError}
use torrust_index.Errors.{
  info_hash_already_exists, canonical_info_hash_already_exists, map_database_error_to_service_error,
}
use torrust_index.InfoHash.{InfoHash}
use torrust_index.Services.Index.{canonical_info_hash_group_checks, check_group, is_in_group}
use torrust_index.Services.World.{World}

module _ {S : Type 0} (database : Database S) where
  -- An upload passes the check exactly when no torrent has its canonical info-hash. Else, if its own
  -- info-hash is known, the answer is `InfoHashAlreadyExists` and nothing is written; if not, it is
  -- written to the group, and the answer is `CanonicalInfoHashAlreadyExists`, or the error of the
  -- statement.
  pub group_checks_lem :
      (original canonical : InfoHash) (group : List InfoHash) (w : World S)
      → database.get_torrent_canonical_info_hash_group canonical w.db ≡ ok group
      → (s : S) (written : Outcome DbError (Unit {0}))
      → database.add_info_hash_to_canonical_info_hash_group original canonical w.db ≡ (s, written)
      → written ≢ panic
      → (group ≡ []) × (canonical_info_hash_group_checks database original canonical w ≡ (w, ok tt))
        ⊎ (is_in_group original group ≡ true)
          × (canonical_info_hash_group_checks database original canonical w
              ≡ (w, err info_hash_already_exists))
        ⊎ (group ≢ [])
          × (is_in_group original group ≡ false)
          × ((written ≡ ok tt)
                × (canonical_info_hash_group_checks database original canonical w
                    ≡ (record w { db = s }, err canonical_info_hash_already_exists))
              ⊎ ((e : DbError) × (written ≡ err e)
                  × (canonical_info_hash_group_checks database original canonical w
                      ≡ (record w { db = s }, err (map_database_error_to_service_error e)))))
  unfolding canonical_info_hash_group_checks check_group
  group_checks_lem original canonical [] w found s written e calm =
      inl (refl, ground (arith, found))
  group_checks_lem original canonical (h ∷ hs) w found s written e calm =
      elim (Bool-cases (is_in_group original (h ∷ hs))) [
        | inl known ↦ inr (inl (known, ground (arith, found, known)))
        | inr new ↦ inr (
            inr (
              ground arith,
              new,
              elim (Outcome-cases written) [
                | inl (u, o) ↦ inl (o, ground (arith, found, new, e, o))
                | inr (inl (x, o)) ↦ inr (x, o, ground (arith, found, new, e, o))
                | inr (inr o) ↦ elim (calm o) [ ]
              ],
            ))
      ]
