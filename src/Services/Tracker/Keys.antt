-- ===== src/Services/Tracker/Keys.antt =====
-- Personal announce URLs (src/tracker/service.rs).
use torrust_index.Base.{
  ℕ, ◌≡◌, refl, ◌≢◌, ◌⊎◌, inl, inr, List, ◌∷◌, Text, none, some, Outcome, ok, err, panic,
  Option-cases,
}
use torrust_index.Database.{Database}
use torrust_index.DbError.{DbError}
use torrust_index.Errors.{TrackerApiError, offline, cannot_save_user_key}
use torrust_index.Models.{TrackerKey}
use torrust_index.Services.Tracker.{
  Api, TrackerConfig, tracker_key_result, announce_url_with_key, get_personal_announce_url,
  retrieve_new_tracker_key, send,
}
use torrust_index.Services.Tracker.Answers.{key_result-ne-panic}
use torrust_index.Services.World.{
  World, ApiRequest, retrieve_new_tracker_key as key_request, map_error, write, result, pure, ◌>>=◌,
  ◌>>◌,
}

module _ {S : Type 0} (database : Database S) (api : Api) (cfg : TrackerConfig) where
  -- How the request for a new key ends, in the world `w'` with the result `r`.
  pub data NewKey (now user_id : ℕ) (w w' : World S) (r : Outcome TrackerApiError Text)
      : Type 0 where
    saved :
        (key : TrackerKey)
        → tracker_key_result api (api.answer w.sent (key_request cfg.token_valid_seconds)) ≡ ok key
        → database.add_tracker_key user_id key w.db ≡ (w'.db, ok tt)
        → r ≡ ok (announce_url_with_key database api cfg key)
        → NewKey now user_id w w' r
    not_saved :
        (key : TrackerKey) (e : DbError)
        → tracker_key_result api (api.answer w.sent (key_request cfg.token_valid_seconds)) ≡ ok key
        → database.add_tracker_key user_id key w.db ≡ (w'.db, err e)
        → r ≡ err offline
        → NewKey now user_id w w' r
    not_given :
        (e : TrackerApiError)
        → tracker_key_result api (api.answer w.sent (key_request cfg.token_valid_seconds)) ≡ err e
        → w'.db ≡ w.db
        → r ≡ err offline
        → NewKey now user_id w w' r

  -- the end of the call, by what the database and the tracker answer
  with_saved : TrackerKey → Outcome DbError (Unit {0}) → Outcome TrackerApiError Text
  with_saved key (ok u) = ok (announce_url_with_key database api cfg key)
  with_saved key (err e) = err offline
  with_saved key panic = panic

  with_answer :
      ℕ → World S → Outcome TrackerApiError TrackerKey → World S × Outcome TrackerApiError Text
  unfolding with_saved
  with_answer user_id w (err e) =
      (record { db = w.db; sent = key_request cfg.token_valid_seconds ∷ w.sent }, err offline)
  with_answer user_id w panic =
      (record { db = w.db; sent = key_request cfg.token_valid_seconds ∷ w.sent }, panic)
  with_answer user_id w (ok key) =
      let (s, o) = database.add_tracker_key user_id key w.db in
      (record { db = s; sent = key_request cfg.token_valid_seconds ∷ w.sent }, with_saved key o)

  NewKey-with_saved :
      (now user_id : ℕ) (w : World S) (key : TrackerKey) (o : Outcome DbError (Unit {0}))
      (w' : World S)
      → tracker_key_result api (api.answer w.sent (key_request cfg.token_valid_seconds)) ≡ ok key
      → database.add_tracker_key user_id key w.db ≡ (w'.db, o)
      → o ≢ panic
      → NewKey now user_id w w' (with_saved key o)
  unfolding with_saved
  NewKey-with_saved now user_id w key (ok u) w' given saves calm = saved key given saves refl
  NewKey-with_saved now user_id w key (err e) w' given saves calm = not_saved key e given saves refl
  NewKey-with_saved now user_id w key panic w' given saves calm = elim (calm refl) [ ]

  NewKey-with_answer :
      (now user_id : ℕ) (w : World S)
      → ((key : TrackerKey) → (database.add_tracker_key user_id key w.db).1 ≢ panic)
      → (answer : Outcome TrackerApiError TrackerKey)
      → tracker_key_result api (api.answer w.sent (key_request cfg.token_valid_seconds)) ≡ answer
      → let (w', r) = with_answer user_id w answer in
        (w'.sent ≡ key_request cfg.token_valid_seconds ∷ w.sent) × NewKey now user_id w w' r
  unfolding with_answer
  NewKey-with_answer now user_id w calm (err e) given = (refl, not_given e given refl refl)
  NewKey-with_answer now user_id w calm panic given =
      elim (key_result-ne-panic api (api.answer w.sent (key_request cfg.token_valid_seconds))
        given) [ ]
  NewKey-with_answer now user_id w calm (ok key) given = (
    refl,
    NewKey-with_saved now user_id w key (database.add_tracker_key user_id key w.db).1 _ given refl
        (calm key),
  )

  old_key_lem :
      (now user_id : ℕ) (w : World S) (key : TrackerKey)
      → database.get_user_tracker_key now user_id w.db ≡ some key
      → get_personal_announce_url database api cfg now user_id w
        ≡ (w, ok (announce_url_with_key database api cfg key))
  unfolding get_personal_announce_url
  old_key_lem now user_id w key found = rw (found, get_personal_announce_url) refl

  saved_lem :
      (key : TrackerKey) (s : S) (sent : List ApiRequest) (o : Outcome DbError (Unit {0}))
      → map_error {S = S}
          (λ e. offline)
          ((write {S = S} (λ e. cannot_save_user_key) (λ _. (s, o)) >> pure key) >>= λ key'.
            pure (announce_url_with_key database api cfg key'))
          (record { db = s; sent = sent })
        ≡ (record { db = s; sent = sent }, with_saved key o)
  unfolding with_saved
  saved_lem key s sent (ok u) = refl
  saved_lem key s sent (err e) = refl
  saved_lem key s sent panic = refl

  answer_lem :
      (user_id : ℕ) (w : World S) (r : Outcome TrackerApiError TrackerKey)
      → map_error {S = S}
          (λ e. offline)
          ((result (λ e. e) r >>= λ key.
              (write (λ e. cannot_save_user_key) (database.add_tracker_key user_id key)
                >> pure key))
            >>= λ key. pure (announce_url_with_key database api cfg key))
          (record { db = w.db; sent = key_request cfg.token_valid_seconds ∷ w.sent })
        ≡ with_answer user_id w r
  unfolding with_answer
  answer_lem user_id w (err e) = refl
  answer_lem user_id w panic = refl
  answer_lem user_id w (ok key) =
      saved_lem key (database.add_tracker_key user_id key w.db).0
        (key_request cfg.token_valid_seconds ∷ w.sent) (database.add_tracker_key user_id key w.db).1

  new_key_lem :
      (now user_id : ℕ) (w : World S)
      → database.get_user_tracker_key now user_id w.db ≡ none
      → get_personal_announce_url database api cfg now user_id w
        ≡ with_answer user_id w
            (tracker_key_result api (api.answer w.sent (key_request cfg.token_valid_seconds)))
  unfolding get_personal_announce_url retrieve_new_tracker_key send
  new_key_lem now user_id w missing =
      rw (missing, get_personal_announce_url)
        (answer_lem user_id w
          (tracker_key_result api (api.answer w.sent (key_request cfg.token_valid_seconds))))

  -- The user of a key that is still good gets the URL with that key, and nothing is sent or
  -- written. Else one key is asked of the tracker; the user gets a URL exactly when the tracker gave
  -- a key and the database took it, and every failure is reported as `TrackerOffline`.
  pub personal_announce_url_lem :
      (now user_id : ℕ) (w : World S)
      → ((key : TrackerKey) → (database.add_tracker_key user_id key w.db).1 ≢ panic)
      → let (w', r) = get_personal_announce_url database api cfg now user_id w in
        ((key : TrackerKey) × (database.get_user_tracker_key now user_id w.db ≡ some key)
          × (get_personal_announce_url database api cfg now user_id w
              ≡ (w, ok (announce_url_with_key database api cfg key))))
        ⊎ ((database.get_user_tracker_key now user_id w.db ≡ none)
            × (w'.sent ≡ key_request cfg.token_valid_seconds ∷ w.sent)
            × NewKey now user_id w w' r)
  personal_announce_url_lem now user_id w calm =
      elim (Option-cases (database.get_user_tracker_key now user_id w.db)) [
        | inr (key, found) ↦ inl (key, found, old_key_lem now user_id w key found)
        | inl missing ↦
            let (asked, ends) =
              NewKey-with_answer now user_id w calm
                (tracker_key_result api (api.answer w.sent (key_request cfg.token_valid_seconds)))
                refl in
            inr (
              missing,
              rw (new_key_lem now user_id w missing) asked,
              rw (new_key_lem now user_id w missing) ends,
            )
      ]
