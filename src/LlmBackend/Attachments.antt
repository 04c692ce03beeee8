-- ===== src/LlmBackend/Attachments.antt =====
-- Content parts: their conversion to LangChain blocks, their canonical form for the request hash,
-- and the gate on what the model accepts. str() is an argument.
use tee_gateway.Prelude.{
  ℕ, List, [], ◌∷◌, drop, Bool, false, Option, none, some, ◌==◌, if◌then◌else◌,
}
use tee_gateway.Prelude.Text.{Text, codes, text_mem, starts_with, contains, before, find_key}
use tee_gateway.Prelude.Json.{Json, null, str, obj, Fields, fields, no_fields, get, truthy}

-- d.get(key, default)
abbrev pub get_default : Text → Fields → Json → Json
get_default key fs default = elim (find_key key (fields fs)) [ none ↦ default | some v ↦ v ]

-- a or b
abbrev pub or_json : Json → Json → Json
or_json a b = if truthy a then a else b

-- A value that is set in the block only if it is true.
abbrev pub if_truthy : Json → Option Json
if_truthy v = if truthy v then some v else none

abbrev pub has_type : Json → List Text → Bool
has_type (str s) names = text_mem s names
has_type _ names = false

-- text.split(separator, 1)[1], if there is one
unfoldable pub after : ℕ → Text → Option Text
after separator [] = none
after separator (c ∷ s) = let rest = after separator s in if c == separator then some s else rest

-- The MIME type and the base64 text.
unfoldable pub parse_data_uri : Json → Option (Text × Text)
unfolding after starts_with contains before
parse_data_uri (str uri) =
    let head = before b',' uri in
    if starts_with uri (codes "data:")
    then elim (after b',' uri) [
      | none ↦ none
      | some payload ↦
          if contains (codes ";base64") head
          then some (before b';' (drop 5 head), payload)
          else none
    ]
    else none
parse_data_uri _ = none

-- The standard blocks, by their keys.
pub data Block : Type 0 where
  text_block : Json → Block
  image_base64 : Json → Option Json → Block
  image_url : Json → Block
  file_id : Json → Block
  file_base64 : Json → Option Json → Option Json → Block
  file_url : Json → Option Json → Block

abbrev pub image_types : List Text
image_types = codes "image_url" ∷ codes "image" ∷ []

abbrev pub file_types : List Text
file_types = codes "file" ∷ codes "input_file" ∷ []

-- A text that is true.
abbrev pub text_or_none : Json → Option Block
text_or_none text = if truthy text then some (text_block text) else none

unfoldable pub convert_image : Fields → Option Block
unfolding parse_data_uri
convert_image part =
    let image = get_default (codes "image_url") part (obj part) in
    let url : Json = elim image [ obj fs ↦ get (codes "url") fs | other ↦ other ] in
    if truthy url
    then elim (parse_data_uri url) [
      | some (mime_type, payload) ↦ some (image_base64 (str payload) (some (str mime_type)))
      | none ↦ some (image_url url)
    ]
    else if truthy (get (codes "base64") part)
    then some (image_base64 (get (codes "base64") part) (if_truthy (get (codes "mime_type") part)))
    else none

-- part.get("file", part), {} where that is no dict
abbrev pub file_object : Fields → Fields
file_object part = elim (get_default (codes "file") part (obj part)) [ obj fs ↦ fs | _ ↦ no_fields ]

unfoldable pub convert_file : Fields → Option Block
unfolding parse_data_uri
convert_file part =
    let file = file_object part in
    let id = or_json (get (codes "file_id") file) (get (codes "file_id") part) in
    let filename = or_json (get (codes "filename") file) (get (codes "filename") part) in
    let file_data =
      or_json (or_json (get (codes "file_data") file) (get (codes "base64") file))
        (get (codes "base64") part) in
    let url =
      or_json (or_json (get (codes "file_url") file) (get (codes "url") file))
        (get (codes "url") part) in
    if truthy id
    then some (file_id id)
    else if truthy file_data
    then elim (parse_data_uri file_data) [
      | some ([], payload) ↦ some (file_base64 (str payload) none (if_truthy filename))
      | some (c ∷ mime, payload) ↦
          some (file_base64 (str payload) (some (str (c ∷ mime))) (if_truthy filename))
      | none ↦ some (
          file_base64 file_data
            (if_truthy (or_json (get (codes "mime_type") part) (get (codes "mime_type") file)))
            (if_truthy filename))
    ]
    else if truthy url
    then some (file_url url (if_truthy filename))
    else none

-- The parts of a canonical content: a text, or the type of an attachment with its filename.
pub data Entry : Type 0 where
  text_entry : Json → Entry
  attachment : Json → Option Json → Entry

abbrev pub filename_of : Fields → Json
filename_of part =
    or_json (elim (get (codes "file") part) [ obj file ↦ get (codes "filename") file | _ ↦ null ])
      (get (codes "filename") part)

module _ (py_str : Json → Text) where
  unfoldable pub convert_content_part : Json → Option Block
  unfolding convert_image convert_file
  convert_content_part (obj part) =
      let type = get (codes "type") part in
      let text = text_or_none (or_json (get_default (codes "text") part (str [])) (str [])) in
      if has_type type (codes "text" ∷ [])
      then text
      else if has_type type image_types
      then convert_image part
      else if has_type type file_types
      then convert_file part
      else text
  convert_content_part other = text_or_none (str (py_str other))

  unfoldable pub canonical_part : Json → Entry
  canonical_part (obj part) =
      let type = get (codes "type") part in
      if has_type type (codes "text" ∷ [])
      then text_entry (or_json (get_default (codes "text") part (str [])) (str []))
      else attachment type (if_truthy (filename_of part))
  canonical_part other = text_entry (str (py_str other))
