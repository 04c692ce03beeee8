-- ===== src/BodyPreread/Tests.antt =====
-- Uploads of three bytes.
use tee_gateway.Prelude.{◌≡◌, refl, inl, arith, [], ◌∷◌, List}
use tee_gateway.Prelude.Int.{pos}
use tee_gateway.Prelude.Text.{Text, codes, contains, starts_with, lower}
use tee_gateway.BodyPreread.{
  Environ, number, too_large, dispatched, with_body, read_body_before_responding,
}
use tee_gateway.BodyPreread.Laws.{IsAnswered, read_body_before_responding-IsAnswered}

abbrev paid_paths : List Text
paid_paths = codes "/v1/chat/completions" ∷ codes "/v1/ohttp" ∷ []

abbrev upload : Environ
upload = record {
  request_method = codes "POST";
  path_info = codes "/v1/ohttp";
  content_length = number (pos 2);
  transfer_encoding = [];
  input = 7 ∷ 8 ∷ 9 ∷ [];
}

declared_read :
    read_body_before_responding paid_paths upload
    ≡ dispatched (with_body (7 ∷ 8 ∷ []) upload) (9 ∷ [])
unfolding read_body_before_responding with_body contains starts_with lower
declared_read = refl

oversize_refused :
    read_body_before_responding paid_paths
      (record upload { content_length = number (pos 20971521) })
    ≡ too_large
unfolding read_body_before_responding with_body contains starts_with lower
oversize_refused = refl

read_body_before_responding-IsAnswered_example : IsAnswered paid_paths upload
read_body_before_responding-IsAnswered_example =
    read_body_before_responding-IsAnswered paid_paths upload refl (inl (omega arith))
