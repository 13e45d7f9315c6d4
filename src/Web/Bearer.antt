-- ===== src/Web/Bearer.antt =====
-- What the header `Authorization` says of the user (src/web/api/server/v1/auth.rs).
use torrust_index.Base.{
  ℕ, zero, suc, ◌≡◌, refl, ap, ◌⊎◌, inl, inr, ◌↔◌, Bool, true, false, ◌||◌, some, List, [], ◌∷◌,
  ◌++◌, Text, bytes, length, all, trim, ok, panic, ◌>>=◌, Bool-cases, arith,
}
use torrust_index.Models.{UserClaims}
use torrust_index.Services.Login.{Crypto, AuthConfig, verify}
use torrust_index.Web.{
  starts_with, split_text, is_visible, word_rest, parse_token, get_user_id_from_bearer_token,
  get_claims_from_bearer_token, extract_logged_in_user,
}

-- "Bearer" stands somewhere in the text.
unfoldable pub has_word : Text → Bool
unfolding starts_with
has_word [] = false
has_word (c ∷ s) = starts_with (b'B' ∷ word_rest) (c ∷ s) || has_word s

split_without : (s : Text) → has_word s ≡ false → split_text b'B' word_rest 0 s ≡ s ∷ []
unfolding split_text has_word
split_without [] h = refl
split_without (c ∷ s) h = rw (parts.0, split_without s parts.1, split_text) refl
  where
    parts : (starts_with (b'B' ∷ word_rest) (c ∷ s) ≡ false) × (has_word s ≡ false)
    parts = (ground (arith, h), ground (arith, h))

split_some :
    (n : ℕ) (s : Text)
    → (a : Text) × (rest : List Text) × (split_text b'B' word_rest n s ≡ a ∷ rest)
unfolding split_text
split_some n [] = ([], [], refl)
split_some zero (c ∷ s) = elim (Bool-cases (starts_with (b'B' ∷ word_rest) (c ∷ s))) [
  | inl h ↦ ([], split_text b'B' word_rest (length word_rest) s, rw (h, split_text) refl)
  | inr h ↦ let (a, rest, e) = split_some zero s in (c ∷ a, rest, rw (h, e, split_text) refl)
]
split_some (suc n) (c ∷ s) = split_some n s

split_with :
    (s : Text)
    → has_word s ≡ true
    → (a : Text) × (b : Text) × (rest : List Text) × (split_text b'B' word_rest 0 s ≡ a ∷ b ∷ rest)
unfolding split_text has_word
split_with [] h = ground arith
split_with (c ∷ s) h = elim (Bool-cases (starts_with (b'B' ∷ word_rest) (c ∷ s))) [
  | inl w ↦
      let (b, rest, e) = split_some (length word_rest) s in
      ([], b, rest, rw (w, e, split_text) refl)
  | inr w ↦
      let (a, b, rest, e) = split_with s (ground (arith, h, w)) in
      (c ∷ a, b, rest, rw (w, e, split_text) refl)
]

-- The parser of the header panics exactly when the header has a byte that is not visible or does not have the word
-- "Bearer" in it.
pub parse_token_panic_iff :
    (header : Text)
    → (parse_token header ≡ panic) ↔ ((all is_visible header ≡ false) ⊎ (has_word header ≡ false))
unfolding parse_token
parse_token_panic_iff header = (
  (λ h. elim (Bool-cases (all is_visible header)) [
    | inr v ↦ inl v
    | inl v ↦ elim (Bool-cases (has_word header)) [
      | inr w ↦ inr w
      | inl w ↦ let (a, b, rest, e) = split_with header w in ground (arith, h, v, e)
    ]
  ]),
  λ d. elim d [
    | inl v ↦ rw (v, parse_token) refl
    | inr w ↦ elim (Bool-cases (all is_visible header)) [
      | inl v ↦ rw (v, split_without header w, parse_token) refl
      | inr v ↦ rw (v, parse_token) refl
    ]
  ],
)

parsed :
    (token : Text)
    → all is_visible token ≡ true
    → has_word token ≡ false
    → trim (b' ' ∷ token) ≡ token
    → parse_token (bytes "Bearer " ++ token) ≡ ok token
unfolding parse_token split_text starts_with has_word
parsed token v w t = rw (v, split_without (b' ' ∷ token) w, t) refl

known_user :
    (crypto : Crypto) (cfg : AuthConfig) (decoded_at now : ℕ) (token : Text) (claims : UserClaims)
    → verify crypto cfg decoded_at now token ≡ ok claims
    → get_user_id_from_bearer_token crypto cfg decoded_at now (some token) ≡ ok claims.user.user_id
unfolding get_user_id_from_bearer_token get_claims_from_bearer_token
known_user crypto cfg decoded_at now token claims e =
    ap (λ o. o >>= λ claims. ok claims.user.user_id) e

-- A header of "Bearer", a space and a good token of a user, which is visible, has no white space around it and not the
-- word itself in it, is a request of that user.
pub extract-verify :
    (crypto : Crypto) (cfg : AuthConfig) (decoded_at now : ℕ) (token : Text) (claims : UserClaims)
    → all is_visible token ≡ true
    → has_word token ≡ false
    → trim (b' ' ∷ token) ≡ token
    → verify crypto cfg decoded_at now token ≡ ok claims
    → extract_logged_in_user crypto cfg decoded_at now (some (bytes "Bearer " ++ token))
      ≡ ok claims.user.user_id
unfolding extract_logged_in_user
extract-verify crypto cfg decoded_at now token claims v w t e =
    rw (parsed token v w t) (ground (arith, known_user crypto cfg decoded_at now token claims e))
