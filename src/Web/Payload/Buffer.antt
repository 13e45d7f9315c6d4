-- ===== src/Web/Payload/Buffer.antt =====
-- What the form of an upload keeps of the torrent file (src/web/api/server/v1/contexts/torrent/handlers.rs).
use torrust_index.Base.{
  ℕ, zero, suc, ◌+◌, ◌≡◌, refl, sym, ap, subst, ◌∙◌, inl, inr, Bool, false, Option, none, some,
  List, [], ◌∷◌, ◌++◌, append_assoc, append-nil, Text, bytes, text_eq, eq_of_text_eq, is_empty,
  length, length-append, take, drop, Outcome, ok, err, panic, if◌then◌else◌, Bool-cases,
  Option-cases, Outcome-cases, arith,
}
use torrust_index.Services.Index.{AddTorrentRequest}
use torrust_index.Web.Payload.{
  Request, title_is_not_valid_utf8, description_is_not_valid_utf8, category_is_not_valid_utf8,
  tags_array_is_not_valid_utf8, tags_array_is_not_valid_json, is_torrent_file, Field, Form,
  write_all, write_chunks, all_bytes, is_utf8_from, text_field, read_field, read_fields, no_form,
  build_add_torrent_request_from_payload,
}

-- the chunks that are read, in their order
abbrev pub read_chunks : List (Option Text) → Text
read_chunks [] = []
read_chunks (none ∷ chunks) = read_chunks chunks
read_chunks (some chunk ∷ chunks) = chunk ++ read_chunks chunks

abbrev pub named_torrent : Field → Bool
named_torrent f = elim f.name [ none ↦ false | some name ↦ text_eq name (bytes "torrent") ]

-- the data of the fields named "torrent"
abbrev pub torrent_data : List (Option Field) → Text
torrent_data [] = []
torrent_data (none ∷ fields) = torrent_data fields
torrent_data (some f ∷ fields) =
    (if named_torrent f then read_chunks f.chunks else []) ++ torrent_data fields

-- the buffer after the data was written: the one byte that it starts with stays when there is none
abbrev pub written : Text → Text
written [] = 0 ∷ []
written (c ∷ s) = c ∷ s

-- the cursor stands at the end of the data
abbrev Wrote : Text → Form → Type 0
Wrote s f = (f.buffer ≡ written s) × (f.position ≡ length s)

take_self : (s : Text) → take (length s) s ≡ s
take_self [] = refl
take_self (c ∷ s) = ap (◌∷◌ c) (take_self s)

drop_nothing : (n : ℕ) → drop {A = ℕ} n [] ≡ []
drop_nothing zero = refl
drop_nothing (suc n) = refl

suc_plus : (m n : ℕ) → suc m + n ≡ suc (m + n)
suc_plus m n = omega arith

drop_past : (s : Text) (m n : ℕ) → m ≡ length s + n → drop m s ≡ []
drop_past [] m n e = drop_nothing m
drop_past (c ∷ s) m n e =
    ap (λ k. drop k (c ∷ s)) (e ∙ suc_plus (length s) n) ∙ drop_past s (length s + n) n refl

write_all-Wrote : (chunk s : Text) (f : Form) → Wrote s f → Wrote (s ++ chunk) (write_all chunk f)
unfolding write_all
write_all-Wrote chunk s f (b, p) =
    (rw (b, p) (new_buffer s chunk), rw p (sym (length-append s chunk)))
  where
    new_buffer :
        (s chunk : Text)
        → take (length s) (written s) ++ (chunk ++ drop (length s + length chunk) (written s))
          ≡ written (s ++ chunk)
    new_buffer [] [] = refl
    new_buffer [] (c ∷ chunk) =
        rw (drop_past (0 ∷ []) (0 + suc (length chunk)) (length chunk) (omega arith))
          (ap (◌∷◌ c) (append-nil chunk))
    new_buffer (d ∷ s) chunk =
        rw
          (
            drop_past (d ∷ s) (suc (length s) + length chunk) (length chunk) refl,
            take_self s,
            append-nil chunk,
          )
          refl

abbrev right : Form → Outcome Request Form
right = ok

same_form : (f f' : Form) → right f ≡ right f' → f ≡ f'
same_form f f' h = ap (λ o. elim o [ ok a ↦ a | err e ↦ f | panic ↦ f ]) h

write_chunks-Wrote :
    (chunks : List (Option Text)) (s : Text) (f f' : Form)
    → Wrote s f
    → write_chunks chunks f ≡ ok f'
    → Wrote (s ++ read_chunks chunks) f'
unfolding write_chunks
write_chunks-Wrote [] s f f' w h = rw (append-nil s) (subst (Wrote s) (same_form f f' h) w)
write_chunks-Wrote (none ∷ chunks) s f f' w h = ground (arith, h)
write_chunks-Wrote (some chunk ∷ chunks) s f f' w h =
    let k =
      write_chunks-Wrote chunks (s ++ chunk) (write_all chunk f) f' (write_all-Wrote chunk s f w)
        h in
    subst (λ x. Wrote x f') (append_assoc s chunk (read_chunks chunks)) k

text_field-Wrote :
    (chunks : List (Option Text)) (e : Request) (set : Text → Form → Outcome Request Form)
    (s : Text) (f f' : Form)
    → ((text : Text) (f' : Form)
        → set text f ≡ ok f'
        → (f'.buffer ≡ f.buffer) × (f'.position ≡ f.position))
    → Wrote s f
    → text_field chunks e set f ≡ ok f'
    → Wrote s f'
unfolding text_field
text_field-Wrote chunks e set s f f' keeps w h = elim (Outcome-cases (all_bytes chunks)) [
  | inr (inl (x, a)) ↦ ground (arith, a, h)
  | inr (inr a) ↦ ground (arith, a, h)
  | inl (text, a) ↦ elim (Bool-cases (is_empty text)) [
    | inl b ↦ subst (Wrote s) (same_form f f' (rw (a, b, text_field) at h)) w
    | inr b ↦ elim (Bool-cases (is_utf8_from 0 128 191 text)) [
      | inr u ↦ ground (arith, a, b, u, h)
      | inl u ↦ let (x, y) = keeps text f' (rw (a, b, u, text_field) at h) in (x ∙ w.0, y ∙ w.1)
    ]
  ]
]

module _ (tags_of : Text → Option (List ℕ)) where
  tags_kept :
      (text : Text) (f f' : Form)
      → elim (tags_of text) [
        | none ↦ err tags_array_is_not_valid_json
        | some tags ↦ ok (record f { tags = tags })
      ]
        ≡ right f'
      → (f'.buffer ≡ f.buffer) × (f'.position ≡ f.position)
  tags_kept text f f' h = elim (Option-cases (tags_of text)) [
    | inl n ↦ ground (arith, n, h)
    | inr (tags, n) ↦ ground (arith, n, h)
  ]

  -- a field that is not named "torrent"
  other_field :
      (field : Field) (name s : Text) (f f' : Form)
      → field.name ≡ some name
      → text_eq name (bytes "torrent") ≡ false
      → Wrote s f
      → read_field tags_of field f ≡ ok f'
      → Wrote s f'
  unfolding read_field
  other_field field name s f f' n t w h = elim (Bool-cases (text_eq name (bytes "title"))) [
    | inl a ↦
        text_field-Wrote field.chunks title_is_not_valid_utf8
          (λ text f. ok (record f { title = text })) s f f' (λ text f' e. ground (arith, e)) w
          (rw (n, a, read_field) at h)
    | inr a ↦ elim (Bool-cases (text_eq name (bytes "description"))) [
      | inl b ↦
          text_field-Wrote field.chunks description_is_not_valid_utf8
            (λ text f. ok (record f { description = text })) s f f' (λ text f' e. ground (arith, e))
            w (rw (n, a, b, read_field) at h)
      | inr b ↦ elim (Bool-cases (text_eq name (bytes "category"))) [
        | inl c ↦
            text_field-Wrote field.chunks category_is_not_valid_utf8
              (λ text f. ok (record f { category = text })) s f f' (λ text f' e. ground (arith, e))
              w (rw (n, a, b, c, read_field) at h)
        | inr c ↦ elim (Bool-cases (text_eq name (bytes "tags"))) [
          | inl d ↦
              text_field-Wrote field.chunks tags_array_is_not_valid_utf8
                (λ text f. elim (tags_of text) [
                  | none ↦ err tags_array_is_not_valid_json
                  | some tags ↦ ok (record f { tags = tags })
                ])
                s f f' (λ text f' e. tags_kept text f f' e) w (rw (n, a, b, c, d, read_field) at h)
          | inr d ↦ subst (Wrote s) (same_form f f' (rw (n, a, b, c, d, t, read_field) at h)) w
        ]
      ]
    ]
  ]

  torrent_field :
      (field : Field) (s : Text) (f f' : Form)
      → field.name ≡ some (bytes "torrent")
      → Wrote s f
      → read_field tags_of field f ≡ ok f'
      → Wrote (s ++ read_chunks field.chunks) f'
  unfolding read_field text_eq
  torrent_field field s f f' n w h = elim (Option-cases field.content_type) [
    | inl m ↦ ground (arith, n, m, h)
    | inr (content_type, m) ↦ elim (Bool-cases (is_torrent_file content_type)) [
      | inl i ↦ write_chunks-Wrote field.chunks s f f' w (rw (n, m, i, read_field) at h)
      | inr i ↦ ground (arith, n, m, i, h)
    ]
  ]

  read_field-Wrote :
      (field : Field) (s : Text) (f f' : Form)
      → Wrote s f
      → read_field tags_of field f ≡ ok f'
      → Wrote (s ++ (if named_torrent field then read_chunks field.chunks else [])) f'
  unfolding read_field
  read_field-Wrote field s f f' w h = elim (Option-cases field.name) [
    | inl n ↦ ground (arith, n, h)
    | inr (name, n) ↦ elim (Bool-cases (text_eq name (bytes "torrent"))) [
      | inl t ↦
          rw (n, t)
            (torrent_field field s f f' (n ∙ ap some (eq_of_text_eq name (bytes "torrent") t)) w h)
      | inr t ↦ rw (n, t, append-nil s) (other_field field name s f f' n t w h)
    ]
  ]

  read_fields-Wrote :
      (fields : List (Option Field)) (s : Text) (f f' : Form)
      → Wrote s f
      → read_fields tags_of fields f ≡ ok f'
      → Wrote (s ++ torrent_data fields) f'
  unfolding read_fields
  read_fields-Wrote [] s f f' w h = rw (append-nil s) (subst (Wrote s) (same_form f f' h) w)
  read_fields-Wrote (none ∷ fields) s f f' w h = ground (arith, h)
  read_fields-Wrote (some field ∷ fields) s f f' w h =
      elim (Outcome-cases (read_field tags_of field f)) [
        | inr (inl (x, a)) ↦ ground (arith, a, h)
        | inr (inr a) ↦ ground (arith, a, h)
        | inl (g, a) ↦
            let part : Text = if named_torrent field then read_chunks field.chunks else [] in
            let k =
              read_fields-Wrote fields (s ++ part) g f' (read_field-Wrote field s f g w a)
                (rw (a, read_fields) at h) in
            subst (λ x. Wrote x f') (append_assoc s part (torrent_data fields)) k
      ]

  -- The torrent file of a form that is accepted is the data of its fields named "torrent", in their order; without any
  -- data it is one zero byte.
  pub torrent_buffer_lem :
      (payload : List (Option Field)) (req : AddTorrentRequest)
      → build_add_torrent_request_from_payload tags_of payload ≡ ok req
      → req.torrent_buffer ≡ written (torrent_data payload)
  unfolding build_add_torrent_request_from_payload
  torrent_buffer_lem payload req h = elim (Outcome-cases (read_fields tags_of payload no_form)) [
    | inr (inl (x, a)) ↦ ground (arith, a, h)
    | inr (inr a) ↦ ground (arith, a, h)
    | inl (f, a) ↦
        let e : f.buffer ≡ req.torrent_buffer = ground (arith, a, h) in
        sym e ∙ (read_fields-Wrote payload [] no_form f (refl, refl) a).0
  ]
