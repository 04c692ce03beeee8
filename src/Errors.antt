-- ===== src/Errors.antt =====
-- tee_gateway/errors.py: an exception is what the module looks at in it. The proofs are in `Status`.
pub mod Status
mod Tests
use tee_gateway.Prelude.{
  ℕ, zero, suc, Option, none, some, List, [], ◌∷◌, ◌++◌, length, take, Bool, true, false, ◌&&◌,
  ◌||◌, ltb, leb, ◌==◌, if◌then◌else◌,
}
use tee_gateway.Prelude.Int.{ℤ, pos, negsuc}
use tee_gateway.Prelude.Text.{Text, codes, text_mem, is_space, strip, lower, contains, before}

-- The value of an attribute, as far as `_provider_status` tells values apart.
pub data Attribute : Type 0 where
  boolean : Bool → Attribute
  integer : ℤ → Attribute
  other : Attribute

pub record PyException : Type 0 where
  pub status_code : Attribute
  pub status : Attribute
  pub code : Attribute
  -- `exc.response.status_code`; `other` where there is no response.
  pub response_status : Attribute
  -- isinstance with the classes of httpx and with the built-in ones.
  pub is_http_error : Bool
  pub is_timeout_exception : Bool
  pub is_timeout_error : Bool
  pub is_transport_error : Bool
  pub is_connection_error : Bool
  -- type(exc).__module__ or "", type(exc).__name__ and str(exc)
  pub module_name : Text
  pub type_name : Text
  pub text : Text

abbrev pub in_status_range : ℤ → Bool
in_status_range (pos n) = leb 100 n && leb n 599
in_status_range (negsuc n) = false

-- The status that one attribute gives; a boolean is skipped.
unfoldable pub status_of : Attribute → Option ℕ
status_of (integer (pos n)) = if in_status_range (pos n) then some n else none
status_of _ = none

unfoldable pub first_status : List Attribute → Option ℕ
unfolding status_of
first_status [] = none
first_status (a ∷ rest) = elim (status_of a) [ none ↦ first_status rest | some n ↦ some n ]

unfoldable pub provider_status : PyException → Option ℕ
unfolding first_status
provider_status exc =
    first_status (exc.status_code ∷ exc.status ∷ exc.code ∷ exc.response_status ∷ [])

abbrev pub provider_modules : List Text
provider_modules =
    codes "openai"
    ∷ codes "anthropic"
    ∷ codes "google"
    ∷ codes "xai_sdk"
    ∷ codes "langchain_google_genai"
    ∷ codes "grpc"
    ∷ codes "aiohttp"
    ∷ []

unfoldable pub is_provider_exception : PyException → Bool
is_provider_exception exc =
    exc.is_http_error || text_mem (before b'.' exc.module_name) provider_modules

unfoldable pub is_timeout : PyException → Bool
is_timeout exc =
    (exc.is_timeout_exception || exc.is_timeout_error)
    || contains (codes "timeout") (lower exc.type_name)

unfoldable pub is_connection_failure : PyException → Bool
is_connection_failure exc =
    (exc.is_transport_error || exc.is_connection_error)
    || contains (codes "connection") (lower exc.type_name)

-- re.sub(r"\s+", " ", text): `inside` says that the last character was a space.
unfoldable pub squash : Bool → Text → Text
unfolding is_space
squash inside [] = []
squash inside (c ∷ s) =
    if is_space c
    then (if inside then squash true s else 32 ∷ squash true s)
    else c ∷ squash false s

abbrev pub message_chars : ℕ
message_chars = 600

-- Cut to `limit` characters and an ellipsis.
unfoldable pub truncate : ℕ → Text → Text
truncate limit text = if ltb limit (length text) then take limit text ++ (0x2026 ∷ []) else text

unfoldable pub message : PyException → Text → Text
message exc fallback =
    let text = strip (squash false exc.text) in
    if length text == 0 then fallback else truncate message_chars text

pub data Source : Type 0 where
  provider gateway : Source

pub record ErrorPayload : Type 0 where
  pub error : Text
  pub exception_type : Text
  pub source : Source
  pub provider_status : Option ℕ
  pub retryable : Bool

abbrev pub nat_mem : ℕ → List ℕ → Bool
nat_mem n [] = false
nat_mem n (m ∷ ms) = n == m || nat_mem n ms

abbrev pub retryable_provider_statuses : List ℕ
retryable_provider_statuses = 408 ∷ 409 ∷ 425 ∷ 429 ∷ 500 ∷ 502 ∷ 503 ∷ 504 ∷ 529 ∷ []

abbrev pub gateway_account_statuses : List ℕ
gateway_account_statuses = 401 ∷ 402 ∷ 403 ∷ 407 ∷ []

unfoldable pub describe_exception : PyException → Text → ErrorPayload
describe_exception exc fallback =
    let from_provider = is_provider_exception exc in
    let status = if from_provider then provider_status exc else none in
    record {
      error = message exc fallback;
      exception_type = exc.type_name;
      source = if from_provider then provider else gateway;
      provider_status = status;
      retryable =
          if from_provider
          then elim status [
            | some n ↦ nat_mem n retryable_provider_statuses
            | none ↦ is_timeout exc || is_connection_failure exc
          ]
          else false;
    }

-- The status for a provider that answered `status`.
unfoldable pub http_status_of : ℕ → ℕ
http_status_of status =
    if status == 429
    then 503
    else if status == 408
    then 504
    else if leb 500 status || nat_mem status gateway_account_statuses
    then 502
    else if leb 400 status
    then status
    else 502

unfoldable pub http_status_for : PyException → ℕ
http_status_for exc =
    if is_provider_exception exc
    then elim (provider_status exc) [
      | none ↦ if is_timeout exc then 504 else 502
      | some status ↦ http_status_of status
    ]
    else 500

unfoldable pub error_response : PyException → Text → ErrorPayload × ℕ
unfolding describe_exception http_status_for
error_response exc fallback = (describe_exception exc fallback, http_status_for exc)
