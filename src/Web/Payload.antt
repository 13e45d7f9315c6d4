-- ===== src/Web/Payload.antt =====
-- The form of an upload: `build_add_torrent_request_from_payload` of
-- src/web/api/server/v1/contexts/torrent/handlers.rs. A part or a chunk that cannot be read is `none`; the crate
-- serde_json is a function from a text to a list of ids.
pub mod Buffer
use torrust_index.Base.{
  ℕ, zero, suc, ◌+◌, ◌≡◌, refl, ap, ◌∙◌, Bool, true, false, not, ◌&&◌, ◌||◌, ◌==◌, leb, ltb, Option,
  none, some, List, [], ◌∷◌, ◌++◌, Text, bytes, text_eq, is_empty, length, take, drop, Outcome, ok,
  err, panic, ◌>>=◌, ◌>>◌, refuse_if, if◌then◌else◌, arith,
}
use torrust_index.Services.Index.{AddTorrentRequest}

-- src/web/api/server/v1/contexts/torrent/errors.rs
pub data Request : Type 0 where
  title_is_not_valid_utf8 description_is_not_valid_utf8 category_is_not_valid_utf8 : Request
  tags_array_is_not_valid_utf8 tags_array_is_not_valid_json invalid_file_type : Request
  cannot_write_chunk_from_uploaded_binary cannot_read_chunk_from_uploaded_binary
        invalid_info_hash_param :
      Request

unfoldable pub http_status_code_for_handler_error : Request → ℕ
http_status_code_for_handler_error cannot_write_chunk_from_uploaded_binary = 500
http_status_code_for_handler_error cannot_read_chunk_from_uploaded_binary = 500
http_status_code_for_handler_error _ = 400

pub record Field : Type 0 where
  pub name : Option Text
  pub content_type : Option Text
  pub chunks : List (Option Text)

-- `String::from_utf8`: the number of bytes that continue a character, and the least and the greatest first of them
abbrev lead : ℕ → Option (ℕ × ℕ × ℕ)
lead c =
    if ltb c 128
    then some (0, 128, 191)
    else if ltb c 194
    then none
    else if ltb c 224
    then some (1, 128, 191)
    else if c == 224
    then some (2, 160, 191)
    else if c == 237
    then some (2, 128, 159)
    else if ltb c 240
    then some (2, 128, 191)
    else if c == 240
    then some (3, 144, 191)
    else if ltb c 244
    then some (3, 128, 191)
    else if c == 244
    then some (3, 128, 143)
    else none

unfoldable pub is_utf8_from : ℕ → ℕ → ℕ → Text → Bool
is_utf8_from zero lo hi [] = true
is_utf8_from (suc n) lo hi [] = false
is_utf8_from zero lo hi (c ∷ s) = elim (lead c) [
  | none ↦ false
  | some (n, lo', hi') ↦ is_utf8_from n lo' hi' s
]
is_utf8_from (suc n) lo hi (c ∷ s) = (leb lo c && leb c hi) && is_utf8_from n 128 191 s

-- `field.bytes().await.unwrap()`
unfoldable pub all_bytes : List (Option Text) → Outcome Request Text
all_bytes [] = ok []
all_bytes (none ∷ chunks) = panic
all_bytes (some chunk ∷ chunks) = all_bytes chunks >>= λ rest. ok (chunk ++ rest)

-- the variables of the loop; the cursor is a buffer and a position in it
pub record Form : Type 0 where
  pub title : Text
  pub description : Text
  pub category : Text
  pub tags : List ℕ
  pub buffer : Text
  pub position : ℕ

-- `Cursor::write_all`
unfoldable pub write_all : Text → Form → Form
write_all chunk f = record f {
  buffer = take f.position f.buffer ++ (chunk ++ drop (f.position + length chunk) f.buffer);
  position = f.position + length chunk;
}

unfoldable pub write_chunks : List (Option Text) → Form → Outcome Request Form
unfolding write_all
write_chunks [] f = ok f
write_chunks (none ∷ chunks) f = err cannot_read_chunk_from_uploaded_binary
write_chunks (some chunk ∷ chunks) f = write_chunks chunks (write_all chunk f)

-- a text field, which changes nothing when it is empty
unfoldable pub text_field :
    List (Option Text)
    → Request
    → (Text → Form → Outcome Request Form)
    → Form
    → Outcome Request Form
unfolding all_bytes is_utf8_from
text_field chunks error set f = all_bytes chunks >>= λ data'.
    if is_empty data'
    then ok f
    else (refuse_if (not (is_utf8_from 0 128 191 data')) error >> set data' f)

abbrev pub is_torrent_file : Text → Bool
is_torrent_file content_type =
    text_eq content_type (bytes "application/x-bittorrent")
    || text_eq content_type (bytes "application/octet-stream")

abbrev pub no_form : Form
no_form = record {
  title = [];
  description = [];
  category = [];
  tags = [];
  buffer = 0 ∷ [];
  position = 0;
}

module _ (tags_of : Text → Option (List ℕ)) where
  -- a round of the loop; the `unwrap` of a name panics
  unfoldable pub read_field : Field → Form → Outcome Request Form
  unfolding text_field write_chunks
  read_field field f = elim field.name [
    | none ↦ panic
    | some name ↦
        if text_eq name (bytes "title")
        then text_field field.chunks title_is_not_valid_utf8
            (λ text f. ok (record f { title = text })) f
        else if text_eq name (bytes "description")
        then text_field field.chunks description_is_not_valid_utf8
            (λ text f. ok (record f { description = text })) f
        else if text_eq name (bytes "category")
        then text_field field.chunks category_is_not_valid_utf8
            (λ text f. ok (record f { category = text })) f
        else if text_eq name (bytes "tags")
        then text_field field.chunks tags_array_is_not_valid_utf8
            (λ text f. elim (tags_of text) [
              | none ↦ err tags_array_is_not_valid_json
              | some tags ↦ ok (record f { tags = tags })
            ])
            f
        else if text_eq name (bytes "torrent")
        then (elim field.content_type [
          | none ↦ panic
          | some content_type ↦
              if is_torrent_file content_type
              then write_chunks field.chunks f
              else err invalid_file_type
        ])
        else ok f
  ]

  unfoldable pub read_fields : List (Option Field) → Form → Outcome Request Form
  unfolding read_field
  read_fields [] f = ok f
  read_fields (none ∷ fields) f = panic
  read_fields (some field ∷ fields) f = read_field field f >>= read_fields fields

  unfoldable pub build_add_torrent_request_from_payload :
      List (Option Field) → Outcome Request AddTorrentRequest
  unfolding read_fields
  build_add_torrent_request_from_payload payload = read_fields payload no_form >>= λ f. ok (record {
    title = f.title;
    description = f.description;
    category_name = f.category;
    tags = f.tags;
    torrent_buffer = f.buffer;
  })
