-- ===== src/LlmBackend/Laws.antt =====
-- The shortcuts of the attachment gate, the request hash's view of attachments, data URIs, and the
-- two shapes of usage.
use tee_gateway.Prelude.{
  ℕ, ◌≡◌, refl, sym, ap, ◌∙◌, inl, inr, List, [], ◌∷◌, ◌++◌, append_assoc, map, drop, All,
  All-append, Bool, true, false, Option, none, some, Bool-cases, ◌==◌, ◌||◌, arith,
}
use tee_gateway.Prelude.Result.{ok}
use tee_gateway.Prelude.Text.{Text, codes, text_eq, starts_with, contains, before}
use tee_gateway.Prelude.Json.{
  Json, null, bool, int, float, str, arr, obj, Elements, elements, element, no_elements, Fields,
  get,
}
use tee_gateway.LlmBackend.Attachments.{
  Block, text_block, image_base64, image_url, file_id, file_base64, file_url, has_type, image_types,
  file_types, get_default, or_json, text_or_none, convert_content_part, canonical_part, filename_of,
  after, parse_data_uri, Entry,
}
use tee_gateway.LlmBackend.Validate.{
  iter_content_parts, is_attachment, any_attachment, not_false, refusal, scan_parts,
  validate_attachments, canonical_user_content, parts,
}

refusal_accepting : (block : Option Block) → refusal true true block ≡ none
refusal_accepting none = refl
refusal_accepting (some (text_block t)) = refl
refusal_accepting (some (image_base64 p m)) = refl
refusal_accepting (some (image_url u)) = refl
refusal_accepting (some (file_id i)) = refl
refusal_accepting (some (file_base64 p m n)) = refl
refusal_accepting (some (file_url u n)) = refl

refusal_text : (images pdfs : Bool) (text : Json) → refusal images pdfs (text_or_none text) ≡ none
refusal_text images pdfs text = ground arith

four_or :
    (a b c d : Bool)
    → (a || (b || (c || (d || false)))) ≡ false
    → ((a || (b || false)) ≡ false) × ((c || (d || false)) ≡ false)
four_or false false c d h = (refl, h)
four_or false true c d h = absurd (ground arith)
four_or true b c d h = absurd (ground arith)

-- The types of attachments, apart.
no_types :
    (type : Json)
    → has_type type (image_types ++ file_types) ≡ false
    → (has_type type image_types ≡ false) × (has_type type file_types ≡ false)
no_types (str s) h =
    four_or (text_eq s (codes "image_url")) (text_eq s (codes "image")) (text_eq s (codes "file"))
      (text_eq s (codes "input_file")) h
no_types null h = (refl, refl)
no_types (bool b) h = (refl, refl)
no_types (int n) h = (refl, refl)
no_types (float x) h = (refl, refl)
no_types (arr vs) h = (refl, refl)
no_types (obj fs) h = (refl, refl)

module _ (py_str : Json → Text) where
  -- A part that is no attachment becomes a text or nothing, which is never refused.
  refusal_plain :
      (images pdfs : Bool) (part : Fields)
      → is_attachment part ≡ false
      → refusal images pdfs (convert_content_part py_str (obj part)) ≡ none
  unfolding convert_content_part
  refusal_plain images pdfs part h =
      let (no_image, no_file) = no_types (get (codes "type") part) h in
      let text = or_json (get_default (codes "text") part (str [])) (str []) in
      elim (Bool-cases (has_type (get (codes "type") part) (codes "text" ∷ []))) [
        | inl e ↦ rw (convert_content_part, e) (refusal_text images pdfs text)
        | inr e ↦ rw (convert_content_part, e, no_image, no_file) (refusal_text images pdfs text)
      ]

  scan_accepting : (parts : List Fields) → scan_parts py_str true true parts ≡ ok tt
  unfolding scan_parts
  scan_accepting [] = refl
  scan_accepting (part ∷ rest) =
      rw (scan_parts, refusal_accepting (convert_content_part py_str (obj part)))
        (scan_accepting rest)

  scan_plain :
      (images pdfs : Bool) (parts : List Fields)
      → any_attachment parts ≡ false
      → scan_parts py_str images pdfs parts ≡ ok tt
  unfolding scan_parts
  scan_plain images pdfs [] h = refl
  scan_plain images pdfs (part ∷ rest) h = elim (Bool-cases (is_attachment part)) [
    | inl e ↦ absurd (ground (arith, h, e))
    | inr e ↦
        rw (scan_parts, refusal_plain images pdfs part e)
          (scan_plain images pdfs rest (ground (arith, h, e)))
  ]

  -- The two shortcuts, for messages without attachments and for models that accept every modality,
  -- do not change the result: it is that of converting every part and refusing the first whose
  -- block the capabilities mark as unsupported.
  pub validate_attachments-scan :
      (messages : List Json) (caps : Fields)
      → validate_attachments py_str messages caps
        ≡ scan_parts py_str
            (not_false (get (codes "image_inputs") caps))
            (not_false (get (codes "pdf_inputs") caps))
            (iter_content_parts messages)
  unfolding validate_attachments
  validate_attachments-scan messages caps =
      let parts = iter_content_parts messages in
      let images = not_false (get (codes "image_inputs") caps) in
      let pdfs = not_false (get (codes "pdf_inputs") caps) in
      elim (Bool-cases (any_attachment parts)) [
        | inr e ↦ rw (validate_attachments, e) (sym (scan_plain images pdfs parts e))
        | inl some_part ↦ elim (Bool-cases images) [
          | inr e ↦ rw (validate_attachments, some_part, e) refl
          | inl i ↦ elim (Bool-cases pdfs) [
            | inr e ↦ rw (validate_attachments, some_part, i, e) refl
            | inl p ↦ rw (validate_attachments, some_part, i, p) (sym (scan_accepting parts))
          ]
        ]
      ]

-- Two parts with one type, one text and one filename, whatever else they carry.
abbrev pub IsSameShown : Fields → Fields → Type 0
IsSameShown part part' =
    (get (codes "type") part ≡ get (codes "type") part')
    × (get_default (codes "text") part (str []) ≡ get_default (codes "text") part' (str []))
    × (filename_of part ≡ filename_of part')

-- A content of the first, or of the second, of each pair of parts.
abbrev pub first_parts : List (Fields × Fields) → Elements
first_parts [] = no_elements
first_parts (pair ∷ pairs) = element (obj pair.0) (first_parts pairs)

abbrev pub second_parts : List (Fields × Fields) → Elements
second_parts [] = no_elements
second_parts (pair ∷ pairs) = element (obj pair.1) (second_parts pairs)

module _ (py_str : Json → Text) where
  map-canonical_part :
      (pairs : List (Fields × Fields))
      → All (λ pair. IsSameShown pair.0 pair.1) pairs
      → map (canonical_part py_str) (elements (first_parts pairs))
        ≡ map (canonical_part py_str) (elements (second_parts pairs))
  map-canonical_part [] h = refl
  map-canonical_part (pair ∷ pairs) h =
      let same : canonical_part py_str (obj pair.0) ≡ canonical_part py_str (obj pair.1) =
        unfold canonical_part in rw (h.0.0, h.0.1, h.0.2) refl in
      ap (λ (e : Entry). e ∷ map (canonical_part py_str) (elements (first_parts pairs))) same
      ∙ ap (λ (es : List Entry). canonical_part py_str (obj pair.1) ∷ es)
          (map-canonical_part pairs h.1)

  -- The signed form of a content with parts depends on nothing of them but their types, texts and
  -- filenames: contents whose parts agree in these, one by one, have the same form, whatever
  -- attachments they carry.
  pub canonical_user_content-forgets :
      (pairs : List (Fields × Fields))
      → All (λ pair. IsSameShown pair.0 pair.1) pairs
      → canonical_user_content py_str (arr (first_parts pairs))
        ≡ canonical_user_content py_str (arr (second_parts pairs))
  unfolding canonical_user_content
  canonical_user_content-forgets pairs h = ap parts (map-canonical_part pairs h)

-- A separator that does not stand in the text in front of it.
before-append :
    (separator : ℕ) (front back : Text)
    → All (λ c. (c == separator) ≡ false) front
    → before separator (front ++ (separator ∷ back)) ≡ front
unfolding before
before-append separator [] back h = ground arith
before-append separator (c ∷ front) back h =
    rw h.0 (ap (λ (s : Text). c ∷ s) (before-append separator front back h.1))

after-append :
    (separator : ℕ) (front back : Text)
    → All (λ c. (c == separator) ≡ false) front
    → after separator (front ++ (separator ∷ back)) ≡ some back
unfolding after
after-append separator [] back h = ground arith
after-append separator (c ∷ front) back h = rw h.0 (after-append separator front back h.1)

or_true : (a : Bool) {b : Bool} → b ≡ true → (a || b) ≡ true
or_true true h = refl
or_true false h = h

contains-append :
    (needle front : Text) → contains needle needle ≡ true → contains needle (front ++ needle) ≡ true
unfolding contains
contains-append needle [] h = h
contains-append needle (c ∷ front) h =
    or_true (starts_with (c ∷ (front ++ needle)) needle) (contains-append needle front h)

parse_data_uri-cut :
    (head payload mime : Text)
    → All (λ c. (c == b',') ≡ false) head
    → starts_with (head ++ (b',' ∷ payload)) (codes "data:") ≡ true
    → contains (codes ";base64") head ≡ true
    → before b';' (drop 5 head) ≡ mime
    → parse_data_uri (str (head ++ (b',' ∷ payload))) ≡ some (mime, payload)
unfolding parse_data_uri
parse_data_uri-cut head payload mime plain starts marked typed =
    rw
      (
        parse_data_uri,
        starts,
        after-append b',' head payload plain,
        before-append b',' head payload plain,
        marked,
        typed,
      )
      refl

-- A data URI is read back: for a MIME type without a comma and without a semicolon and any payload,
-- the parser returns both.
pub parse-data_uri :
    (mime payload : Text)
    → All (λ c. (c == b',') ≡ false) mime
    → All (λ c. (c == b';') ≡ false) mime
    → parse_data_uri (str (codes "data:" ++ (mime ++ (codes ";base64" ++ (b',' ∷ payload)))))
      ≡ some (mime, payload)
unfolding parse_data_uri contains starts_with
parse-data_uri mime payload no_comma no_semicolon =
    let head : Text = codes "data:" ++ (mime ++ codes ";base64") in
    let uri =
      ap (λ (s : Text). codes "data:" ++ s)
        (sym (append_assoc mime (codes ";base64") (b',' ∷ payload))) in
    let plain : All (λ c. (c == b',') ≡ false) head =
      All-append (λ c. (c == b',') ≡ false) (codes "data:") (mime ++ codes ";base64")
        (refl, (refl, (refl, (refl, (refl, tt)))))
        (All-append (λ c. (c == b',') ≡ false) mime (codes ";base64") no_comma
          (refl, (refl, (refl, (refl, (refl, (refl, (refl, tt)))))))) in
    ap (λ (s : Text). parse_data_uri (str s)) uri
    ∙ parse_data_uri-cut head payload mime plain refl
        (contains-append (codes ";base64") (codes "data:" ++ mime) refl)
        (before-append b';' mime (codes "base64") no_semicolon)
