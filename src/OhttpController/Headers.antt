-- ===== src/OhttpController/Headers.antt =====
-- The headers that pass from the inner response to the outer one, and the billing data beside it.
use tee_gateway.Prelude.{
  ℕ, ◌^◌, List, [], ◌∷◌, ◌++◌, length, Bool, false, Option, none, some, ltb, ◌||◌, ◌&&◌, leb,
  if◌then◌else◌,
}
use tee_gateway.Prelude.Text.{Text, codes, text_eq, text_mem, lower, starts_with, strip, before}
use tee_gateway.Prelude.Json.{Json}
use tee_gateway.Ohttp.Bytes.{be_bytes}
use tee_gateway.Ohttp.Crypto.{Aead, Kdf}
use tee_gateway.Ohttp.Request.{DecapsulatedRequest}
use tee_gateway.Ohttp.Response.{encapsulate_response}
use tee_gateway.OhttpController.Context.{Codec, body_object, cost_of, wire}

abbrev pub Header : Type 0
Header = Text × Text

abbrev pub forwarded_header_prefixes : List Text
forwarded_header_prefixes =
    codes "x-payment"
    ∷ codes "x-upto"
    ∷ codes "x-settlement"
    ∷ codes "x-tee"
    ∷ codes "x-moderation"
    ∷ []

abbrev pub forwarded_header_names : List Text
forwarded_header_names = codes "www-authenticate" ∷ []

abbrev pub starts_with_any : Text → List Text → Bool
starts_with_any name [] = false
starts_with_any name (p ∷ ps) = starts_with name p || starts_with_any name ps

unfoldable pub should_forward_header : Text → Bool
should_forward_header name =
    text_mem (lower name) forwarded_header_names
    || starts_with_any (lower name) forwarded_header_prefixes

-- [(name, value) for name, value in headers if _should_forward_header(name)]
unfoldable pub forwarded : List Header → List Header
forwarded [] = []
forwarded (header ∷ headers) =
    let rest = forwarded headers in if should_forward_header header.0 then header ∷ rest else rest

-- next((v for k, v in sub_headers if k.lower() == "content-type"), "application/json")
unfoldable pub content_type_of : List Header → Text
content_type_of [] = codes "application/json"
content_type_of (header ∷ headers) =
    let rest = content_type_of headers in
    if text_eq (lower header.0) (codes "content-type") then header.1 else rest

abbrev pub is_success : ℕ → Bool
is_success status = leb 200 status && ltb status 300

unfoldable pub is_streaming : ℕ → List Header → Bool
unfolding content_type_of
is_streaming status headers =
    is_success status
    && text_eq (lower (strip (before b';' (content_type_of headers)))) (codes "text/event-stream")

abbrev pub billing_frame_magic : List ℕ
billing_frame_magic = 10 ∷ (codes "--opengradient-ohttp-billing-v1--" ++ (10 ∷ []))

-- A response that Flask is handed: status, headers, content type and body.
pub record Response : Type 0 where
  pub status : ℕ
  pub headers : List Header
  pub content_type : Text
  pub body : List ℕ

module _ (codec : Codec) where
  unfoldable pub extract_cost_headers : List ℕ → List Header
  extract_cost_headers body = elim (cost_of codec (body_object codec body)) [
    | none ↦ []
    | some cost ↦
        (codes "X-Inference-Cost-OPG", codec.opg_text cost)
        ∷ (codes "X-Inference-Cost-USD", codec.usd_text cost)
        ∷ (codes "X-Inference-Price-OPG-USD", codec.price_text cost)
        ∷ []
  ]

  -- No frame is the empty byte string. The length word raises an OverflowError at 2^32.
  unfoldable pub build_billing_frame : Option Json → Option (List ℕ)
  build_billing_frame response_json = elim (cost_of codec response_json) [
    | none ↦ some []
    | some cost ↦
        let payload = codec.dumps (wire codec cost) in
        if ltb (length payload) (256 ^ 4)
        then some (billing_frame_magic ++ (be_bytes 4 (length payload) ++ payload))
        else none
  ]

  -- The nonce is what encapsulate_response draws.
  unfoldable pub build_outer_response :
      Kdf → Aead → List ℕ → DecapsulatedRequest → ℕ → List Header → List ℕ → Text → Response
  unfolding forwarded extract_cost_headers
  build_outer_response kdf aead nonce decap status headers body inner_content_type =
      if is_success status
      then record {
        status = status;
        headers = forwarded headers ++ extract_cost_headers body;
        content_type = codes "message/ohttp-res";
        body = encapsulate_response kdf aead nonce decap.response_key decap.enc body;
      }
      else record {
        status = status;
        headers = forwarded headers;
        content_type = inner_content_type;
        body = body;
      }
