-- ===== src/LlmBackend/Validate.antt =====
-- What is signed of a user's content, what is passed on of it, and `validate_attachments`. A message
-- is its content.
use tee_gateway.Prelude.{
  List, [], ◌∷◌, ◌++◌, map, Bool, true, false, Option, none, some, ◌&&◌, ◌||◌, if◌then◌else◌,
}
use tee_gateway.Prelude.Result.{Result, ok, err}
use tee_gateway.Prelude.Text.{Text, codes}
use tee_gateway.Prelude.Json.{Json, bool, str, arr, obj, elements, Fields, get}
use tee_gateway.LlmBackend.Attachments.{
  Block, text_block, image_base64, image_url, file_id, file_base64, file_url, Entry, has_type,
  image_types, file_types, convert_content_part, canonical_part,
}

-- A content that is not a list, or its parts.
pub data Canonical : Type 0 where
  verbatim : Json → Canonical
  parts : List Entry → Canonical

-- A part that is forwarded as it is, or its block.
pub data Forwarded : Type 0 where
  kept : Json → Forwarded
  converted : Block → Forwarded

pub data AttachmentError : Type 0 where
  images_unsupported documents_unsupported : AttachmentError

-- The parts of the messages that are dicts.
abbrev pub dict_parts : List Json → List Fields
dict_parts [] = []
dict_parts (obj part ∷ rest) = part ∷ dict_parts rest
dict_parts (_ ∷ rest) = dict_parts rest

unfoldable pub iter_content_parts : List Json → List Fields
iter_content_parts [] = []
iter_content_parts (arr vs ∷ contents) = dict_parts (elements vs) ++ iter_content_parts contents
iter_content_parts (_ ∷ contents) = iter_content_parts contents

abbrev pub is_attachment : Fields → Bool
is_attachment part = has_type (get (codes "type") part) (image_types ++ file_types)

abbrev pub any_attachment : List Fields → Bool
any_attachment [] = false
any_attachment (part ∷ rest) = is_attachment part || any_attachment rest

-- caps.get(key) is not False
abbrev pub not_false : Json → Bool
not_false (bool false) = false
not_false _ = true

-- The error of one block, if there is one.
abbrev pub refusal : Bool → Bool → Option Block → Option AttachmentError
refusal images pdfs none = none
refusal images pdfs (some (text_block text)) = none
refusal images pdfs (some (image_base64 payload mime)) =
    if images then none else some images_unsupported
refusal images pdfs (some (image_url url)) = if images then none else some images_unsupported
refusal images pdfs (some (file_id id)) = if pdfs then none else some documents_unsupported
refusal images pdfs (some (file_base64 payload mime name)) =
    if pdfs then none else some documents_unsupported
refusal images pdfs (some (file_url url name)) = if pdfs then none else some documents_unsupported

module _ (py_str : Json → Text) where
  unfoldable pub canonical_user_content : Json → Canonical
  unfolding canonical_part
  canonical_user_content (str s) = verbatim (str s)
  canonical_user_content (arr vs) = parts (map (canonical_part py_str) (elements vs))
  canonical_user_content other = verbatim (str (py_str other))

  unfoldable pub normalize_part : Json → Forwarded
  unfolding convert_content_part
  normalize_part (obj part) =
      if has_type (get (codes "type") part) file_types
      then elim (convert_content_part py_str (obj part)) [
        | none ↦ kept (obj part)
        | some block ↦ converted block
      ]
      else kept (obj part)
  normalize_part other = converted (text_block (str (py_str other)))

  unfoldable pub normalize_user_content_parts : List Json → List Forwarded
  unfolding normalize_part
  normalize_user_content_parts = map normalize_part

  -- The second loop of validate_attachments.
  unfoldable pub scan_parts : Bool → Bool → List Fields → Result AttachmentError (Unit {0})
  unfolding convert_content_part
  scan_parts images pdfs [] = ok tt
  scan_parts images pdfs (part ∷ rest) =
      let more = scan_parts images pdfs rest in
      elim (refusal images pdfs (convert_content_part py_str (obj part))) [
        | some e ↦ err e
        | none ↦ more
      ]

  -- `caps` is what get_model_capabilities gives.
  unfoldable pub validate_attachments : List Json → Fields → Result AttachmentError (Unit {0})
  unfolding iter_content_parts scan_parts
  validate_attachments messages caps =
      let content_parts = iter_content_parts messages in
      let images = not_false (get (codes "image_inputs") caps) in
      let pdfs = not_false (get (codes "pdf_inputs") caps) in
      if any_attachment content_parts
      then if images && pdfs then ok tt else scan_parts images pdfs content_parts
      else ok tt
