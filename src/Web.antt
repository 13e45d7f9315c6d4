-- ===== src/Web.antt =====
-- The API server, src/web/api/server/v1: who a request is from (auth.rs and the extractors), and the
-- torrents' requests.
pub mod Bearer
pub mod Payload
mod Tests
use torrust_index.Base.{
  ℕ, zero, suc, Bool, true, false, ◌&&◌, ◌||◌, ◌==◌, leb, ltb, Option, none, some, List, [], ◌∷◌,
  Text, bytes, length, all, trim, cons_first, Outcome, ok, err, panic, ◌>>=◌,
}
use torrust_index.Errors.{ServiceError, token_not_found, logged_in_user_not_found}
use torrust_index.Models.{UserClaims}
use torrust_index.Services.Login.{Crypto, AuthConfig, verify}

unfoldable pub starts_with : Text → Text → Bool
starts_with [] s = true
starts_with (p ∷ ps) [] = false
starts_with (p ∷ ps) (c ∷ s) = p == c && starts_with ps s

-- `split` at each place of the separator `p ∷ ps` that does not overlap the one before; the number is how
-- many bytes of the separator are still to be passed over.
unfoldable pub split_text : ℕ → Text → ℕ → Text → List Text
unfolding starts_with
split_text p ps n [] = [] ∷ []
split_text p ps zero (c ∷ s) = elim (starts_with (p ∷ ps) (c ∷ s)) [
  | true ↦ [] ∷ split_text p ps (length ps) s
  | false ↦ cons_first c (split_text p ps zero s)
]
split_text p ps (suc n) (c ∷ s) = split_text p ps n s

-- a byte that `HeaderValue::to_str` takes
abbrev pub is_visible : ℕ → Bool
is_visible c = (leb 32 c && ltb c 127) || c == 9

abbrev pub second : List Text → Outcome ServiceError Text
second [] = panic
second (a ∷ []) = panic
second (a ∷ b ∷ rest) = ok (trim b)

abbrev pub word_rest : Text
word_rest = bytes "earer"

-- The word is "Bearer"; `expect` panics, and so does the index of a missing part.
unfoldable pub parse_token : Text → Outcome ServiceError Text
unfolding split_text trim
parse_token authorization = elim (all is_visible authorization) [
  | false ↦ panic
  | true ↦ second (split_text b'B' word_rest 0 authorization)
]

-- `Extract::from_request_parts` on the header `Authorization`
unfoldable pub bearer_token : Option Text → Outcome ServiceError (Option Text)
unfolding parse_token
bearer_token none = ok none
bearer_token (some header) = parse_token header >>= λ token. ok (some token)

module _ (crypto : Crypto) (cfg : AuthConfig) (decoded_at now : ℕ) where
  unfoldable pub get_claims_from_bearer_token : Option Text → Outcome ServiceError UserClaims
  unfolding verify
  get_claims_from_bearer_token none = err token_not_found
  get_claims_from_bearer_token (some token) = verify crypto cfg decoded_at now token

  unfoldable pub get_user_id_from_bearer_token : Option Text → Outcome ServiceError ℕ
  unfolding get_claims_from_bearer_token
  get_user_id_from_bearer_token token =
      get_claims_from_bearer_token token >>= λ claims. ok claims.user.user_id

  -- the extractors: a user who must be logged in, and one who may be
  unfoldable pub extract_logged_in_user : Option Text → Outcome ServiceError ℕ
  unfolding bearer_token get_user_id_from_bearer_token
  extract_logged_in_user header = bearer_token header >>= λ token.
      elim (get_user_id_from_bearer_token token) [
        | ok user_id ↦ ok user_id
        | err e ↦ err logged_in_user_not_found
        | panic ↦ panic
      ]

  unfoldable pub extract_optional_logged_in_user : Option Text → Outcome ServiceError (Option ℕ)
  unfolding bearer_token get_user_id_from_bearer_token
  extract_optional_logged_in_user header = bearer_token header >>= λ token.
      elim (get_user_id_from_bearer_token token) [
        | ok user_id ↦ ok (some user_id)
        | err e ↦ ok none
        | panic ↦ panic
      ]
