-- ===== src/Web/Tests.antt =====
-- Tests of what requests say (src/web/api/server/v1).
use torrust_index.Base.{
  ◌≡◌, refl, ◌⊎◌, ◌↔◌, false, Option, none, some, List, [], ◌∷◌, bytes, text_eq, all, trim, ok,
  panic,
}
use torrust_index.Models.{UserClaims}
use torrust_index.Samples.{common, crypto, settings}
use torrust_index.Services.Index.{AddTorrentRequest}
use torrust_index.Services.Login.{Crypto, verify}
use torrust_index.Web.{parse_token, extract_logged_in_user, is_visible}
use torrust_index.Web.Bearer.{has_word, parse_token_panic_iff, extract-verify}
use torrust_index.Web.Payload.{Field, build_add_torrent_request_from_payload}
use torrust_index.Web.Payload.Buffer.{written, torrent_data, torrent_buffer_lem}

program : Unit {0}
unfolding parse_token extract_logged_in_user has_word build_add_torrent_request_from_payload text_eq
    trim verify
program = tt

parse_token_panic_iff_example :
    (parse_token (bytes "Basic abc") ≡ panic)
    ↔ ((all is_visible (bytes "Basic abc") ≡ false) ⊎ (has_word (bytes "Basic abc") ≡ false))
parse_token_panic_iff_example = parse_token_panic_iff (bytes "Basic abc")

no_bearer_run : parse_token (bytes "Basic abc") ≡ panic
unfolding program
no_bearer_run = refl

bearer_run : parse_token (bytes "Bearer  abc") ≡ ok (bytes "abc")
unfolding program
bearer_run = refl

abbrev form : List (Option Field)
form =
    some (record {
      name = some (bytes "title");
      content_type = none;
      chunks = some (bytes "A") ∷ some (bytes "b") ∷ [];
    })
    ∷ some (record {
      name = some (bytes "torrent");
      content_type = some (bytes "application/x-bittorrent");
      chunks = some (1 ∷ 2 ∷ []) ∷ some (3 ∷ []) ∷ [];
    })
    ∷ []

abbrev request : AddTorrentRequest
request = record {
  title = bytes "Ab";
  description = [];
  category_name = [];
  tags = [];
  torrent_buffer = 1 ∷ 2 ∷ 3 ∷ [];
}

torrent_buffer_lem_example : request.torrent_buffer ≡ written (torrent_data form)
unfolding program
torrent_buffer_lem_example = torrent_buffer_lem (λ s. none) form request refl

abbrev claims : UserClaims
claims = record { user = common; exp = 100 }

abbrev one_token : Crypto
one_token = record crypto { decode = λ key now token. some claims }

extract-verify_example :
    extract_logged_in_user one_token settings 1 1 (some (bytes "Bearer abc")) ≡ ok common.user_id
unfolding program
extract-verify_example =
    extract-verify one_token settings 1 1 (bytes "abc") claims refl refl refl refl
