-- ===== src/LlmBackend/Tests.antt =====
-- Contents and usages at concrete values.
use tee_gateway.Prelude.{◌≡◌, refl, List, [], ◌∷◌, ◌++◌, false, some}
use tee_gateway.Prelude.Int.{pos}
use tee_gateway.Prelude.Result.{ok, err}
use tee_gateway.Prelude.Text.{Text, codes, find_key}
use tee_gateway.Prelude.Json.{
  Json, bool, str, arr, obj, element, no_elements, Fields, field, no_fields, get,
}
use tee_gateway.LlmBackend.{validate_reasoning_effort}
use tee_gateway.LlmBackend.Attachments.{image_base64, convert_content_part, parse_data_uri}
use tee_gateway.LlmBackend.Validate.{
  images_unsupported, not_false, iter_content_parts, scan_parts, validate_attachments,
  canonical_user_content,
}
use tee_gateway.LlmBackend.Usage.{extract_usage}
use tee_gateway.LlmBackend.Laws.{
  first_parts, second_parts, validate_attachments-scan, canonical_user_content-forgets,
  parse-data_uri,
}
use tee_gateway.LlmBackend.Shapes.{langchain_shape, provider_shape, counted, extract_usage-shapes}

abbrev toy_str : Json → Text
toy_str json = codes "json"

abbrev image_part : Text → Fields
image_part payload = field (codes "type") (str (codes "image_url")) (
    field (codes "image_url")
      (obj (field (codes "url") (str (codes "data:image/png;base64," ++ payload)) no_fields))
      no_fields)

abbrev messages : List Json
messages = str (codes "hi") ∷ arr (element (obj (image_part (codes "AA"))) no_elements) ∷ []

abbrev no_images : Fields
no_images = field (codes "image_inputs") (bool false) no_fields

validate_attachments-scan_example :
    validate_attachments toy_str messages no_images
    ≡ scan_parts toy_str
        (not_false (get (codes "image_inputs") no_images))
        (not_false (get (codes "pdf_inputs") no_images))
        (iter_content_parts messages)
validate_attachments-scan_example = validate_attachments-scan toy_str messages no_images

image_refused : validate_attachments toy_str messages no_images ≡ err images_unsupported
unfolding validate_attachments find_key
image_refused = refl

image_converted :
    convert_content_part toy_str (obj (image_part (codes "AA")))
    ≡ some (image_base64 (str (codes "AA")) (some (str (codes "image/png"))))
unfolding convert_content_part find_key
image_converted = refl

abbrev two_images : List (Fields × Fields)
two_images = (image_part (codes "AA"), image_part (codes "BB")) ∷ []

canonical_user_content-forgets_instance :
    canonical_user_content toy_str (arr (first_parts two_images))
    ≡ canonical_user_content toy_str (arr (second_parts two_images))
unfolding find_key
canonical_user_content-forgets_instance =
    canonical_user_content-forgets toy_str two_images ((refl, refl, refl), tt)

parse-data_uri_instance :
    parse_data_uri
      (str (codes "data:" ++ (codes "a/b" ++ (codes ";base64" ++ (b',' ∷ codes "AA")))))
    ≡ some (codes "a/b", codes "AA")
parse-data_uri_instance =
    parse-data_uri (codes "a/b") (codes "AA") (refl, (refl, (refl, tt))) (refl, (refl, (refl, tt)))

extract_usage-shapes_instance :
    (extract_usage (langchain_shape (pos 7) (pos 3) (pos 10) (pos 0))
      ≡ ok (some (counted (pos 7) (pos 3) (pos 10) (pos 0))))
    × (extract_usage (provider_shape (pos 7) (pos 3) (pos 10) (pos 0))
        ≡ ok (some (counted (pos 7) (pos 3) (pos 10) (pos 0))))
extract_usage-shapes_instance = extract_usage-shapes (pos 7) (pos 3) (pos 10) (pos 0)

effort_known : validate_reasoning_effort (str (codes "low")) ≡ ok tt
unfolding validate_reasoning_effort
effort_known = refl

effort_unknown : validate_reasoning_effort (str (codes "max")) ≡ err tt
unfolding validate_reasoning_effort
effort_unknown = refl
