-- ===== src/Services/World.antt =====
-- What a service call sees and changes: the database and the requests that have been sent to the
-- tracker. A call ends as Rust code does, and what it has written stays written.
use torrust_index.Base.{Bool, true, false, List, Text, ℕ, Outcome, ok, err, panic, map_err}
use torrust_index.DbError.{DbError}

-- a request to the tracker's API: src/tracker/api.rs
pub data ApiRequest : Type 0 where
  whitelist_torrent remove_torrent_from_whitelist get_torrent_info : Text → ApiRequest
  retrieve_new_tracker_key : ℕ → ApiRequest

-- `sent` holds the latest request first.
pub record World (S : Type 0) : Type 0 where
  pub db : S
  pub sent : List ApiRequest

abbrev pub Action : Type 0 → Type 0 → Type 0 → Type 0
Action S E A = World S → World S × Outcome E A

-- `?`
infixl 5 ◌>>=◌ ◌>>◌
abbrev pub ◌>>=◌ : {S E A B : Type 0} → Action S E A → (A → Action S E B) → Action S E B
◌>>=◌ m f w =
    let (w', o) = m w in elim o [ ok a ↦ f a w' | err e ↦ (w', err e) | panic ↦ (w', panic) ]

abbrev pub ◌>>◌ : {S E B : Type 0} → Action S E (Unit {0}) → Action S E B → Action S E B
m >> k = m >>= λ _. k

abbrev pub pure : {S E A : Type 0} → A → Action S E A
pure a w = (w, ok a)

abbrev pub raise : {S E A : Type 0} → E → Action S E A
raise e w = (w, err e)

abbrev pub refuse_if : {S E : Type 0} → Bool → E → Action S E (Unit {0})
refuse_if true e w = (w, err e)
refuse_if false e w = (w, ok tt)

-- a result that is known already, its error converted
abbrev pub result : {S E F A : Type 0} → (E → F) → Outcome E A → Action S F A
result f o w = (w, map_err f o)

-- a query, its error converted
abbrev pub read : {S F A : Type 0} → (DbError → F) → (S → Outcome DbError A) → Action S F A
read f q w = (w, map_err f (q w.db))

-- a statement that writes, its error converted
abbrev pub write : {S F A : Type 0} → (DbError → F) → (S → S × Outcome DbError A) → Action S F A
write f q w = let (db, o) = q w.db in (record w { db = db }, map_err f o)

-- the result of a call as a value, for a `match` on it or to drop it; a panic unwinds all the same
abbrev pub attempt : {S E F A : Type 0} → Action S E A → Action S F (Outcome E A)
attempt m w =
    let (w', o) = m w in
    elim o [ ok a ↦ (w', ok (ok a)) | err e ↦ (w', ok (err e)) | panic ↦ (w', panic) ]

abbrev pub drop_result : {S E F A : Type 0} → Action S E A → Action S F (Unit {0})
drop_result m = attempt m >>= λ _. pure tt

-- an action with other errors
abbrev pub map_error : {S E F A : Type 0} → (E → F) → Action S E A → Action S F A
map_error f m w = let (w', o) = m w in (w', map_err f o)
