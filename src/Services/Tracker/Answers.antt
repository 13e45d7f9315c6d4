-- ===== src/Services/Tracker/Answers.antt =====
-- What the services make of the tracker's answers (src/tracker/service.rs).
use torrust_index.Base.{
  ℕ, ◌≡◌, ◌≢◌, ◌⊎◌, inl, inr, true, false, Text, text_eq, text_eq_refl, subst, sym, Option, none,
  some, ok, err, panic, Option-cases, arith,
}
use torrust_index.Errors.{not_found}
use torrust_index.Models.{TorrentInfo}
use torrust_index.Services.Tracker.{
  Api, Reply, no_reply, reply, parsed, server_error, whitelist_result, torrent_info_result,
  tracker_key_result, torrent_not_known_body,
}

parsed-ne-panic : {A : Type 0} (body : Text) (o : Option A) → parsed body o ≢ panic
unfolding parsed
parsed-ne-panic body none e = ground arith
parsed-ne-panic body (some key) e = ground arith

pub whitelist_result-ne-panic : (r : Reply) → whitelist_result r ≢ panic
unfolding whitelist_result server_error
whitelist_result-ne-panic no_reply e = ground arith
whitelist_result-ne-panic (reply status none) e = ground arith
whitelist_result-ne-panic (reply status (some body)) e = ground arith

pub key_result-ne-panic : (api : Api) (r : Reply) → tracker_key_result api r ≢ panic
unfolding tracker_key_result server_error
key_result-ne-panic api no_reply e = ground arith
key_result-ne-panic api (reply status none) e = ground arith
key_result-ne-panic api (reply status (some body)) e =
    ground (arith, parsed-ne-panic body (api.parse_tracker_key body))

pub info_result-ne-panic : (api : Api) (r : Reply) → torrent_info_result api r ≢ panic
unfolding torrent_info_result server_error
info_result-ne-panic api no_reply e = ground arith
info_result-ne-panic api (reply status none) e = ground arith
info_result-ne-panic api (reply status (some body)) e =
    ground (arith, parsed-ne-panic body (api.parse_torrent_info body))

-- Numbers for a torrent are taken only from an answer with status 200 whose body is not the text
-- that says the torrent is not known, and they are what the body was parsed to; a status of 404 and
-- that text are both reported as `TorrentNotFound`.
pub torrent_info_result_lem :
    (api : Api) (status : ℕ) (body : Text)
    → ((info : TorrentInfo)
        → torrent_info_result api (reply status (some body)) ≡ ok info
        → (status ≡ 200)
          × (text_eq body torrent_not_known_body ≡ false)
          × (api.parse_torrent_info body ≡ some info))
      × ((status ≡ 404) ⊎ ((status ≡ 200) × (body ≡ torrent_not_known_body))
          → torrent_info_result api (reply status (some body)) ≡ err not_found)
unfolding torrent_info_result server_error parsed
torrent_info_result_lem api status body = (
  λ info h. elim (Option-cases (api.parse_torrent_info body)) [
    | inl e ↦ ground (arith, h, e)
    | inr (i, e) ↦ (ground (arith, h, e), ground (arith, h, e), ground (arith, h, e))
  ],
  λ h. elim h [
    | inl e ↦ ground (arith, e)
    | inr (e, known) ↦ ground (
      arith,
      e,
      subst (λ b. text_eq b torrent_not_known_body ≡ true) (sym known)
          (text_eq_refl torrent_not_known_body),
    )
  ],
)
