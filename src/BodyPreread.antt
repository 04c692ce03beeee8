-- ===== src/BodyPreread.antt =====
-- tee_gateway/body_preread.py: the wrapper that reads a paid POST's body before anything answers. A
-- request is what the wrapper looks at in the WSGI environment.
pub mod Laws
mod Tests
use tee_gateway.Prelude.{
  ℕ, zero, suc, ◌+◌, ◌*◌, Bool, true, false, not, ◌&&◌, ◌||◌, Option, none, some, List, [], ◌∷◌,
  length, take, drop, ltb, leb, if◌then◌else◌,
}
use tee_gateway.Prelude.Int.{ℤ, pos, negsuc, pos_part}
use tee_gateway.Prelude.Text.{Text, codes, text_eq, text_mem, lower, contains}

abbrev pub max_paid_request_bytes : ℕ
max_paid_request_bytes = 20 * 1024 * 1024

-- int(environ.get("CONTENT_LENGTH") or 0): no value, one that `int` refuses, or a number.
pub data ContentLength : Type 0 where
  missing : ContentLength
  unreadable : ContentLength
  number : ℤ → ContentLength

pub record Environ : Type 0 where
  pub request_method : Text
  pub path_info : Text
  pub content_length : ContentLength
  pub transfer_encoding : Text
  -- The bytes that reading `wsgi.input` gives.
  pub input : List ℕ

-- The request is refused with 413, or dispatched, with the bytes that are left on the connection.
pub data Handled : Type 0 where
  too_large : Handled
  dispatched : Environ → List ℕ → Handled

-- A negative number is treated like none.
abbrev pub declared_length : ContentLength → ℕ
declared_length missing = 0
declared_length unreadable = 0
declared_length (number n) = pos_part n

abbrev pub is_chunked : Environ → Bool
is_chunked e = contains (codes "chunked") (lower e.transfer_encoding)

abbrev pub is_paid_post : List Text → Environ → Bool
is_paid_post paths e = text_eq e.request_method (codes "POST") && text_mem e.path_info paths

-- The environment with `body` in place of the connection.
unfoldable pub with_body : List ℕ → Environ → Environ
with_body body e = record e {
  input = body;
  content_length = number (pos (length body));
  transfer_encoding = [];
}

-- wrapper. A dispatch without a read leaves all of the input to the application.
unfoldable pub read_body_before_responding : List Text → Environ → Handled
unfolding with_body
read_body_before_responding paths e =
    let declared = declared_length e.content_length in
    let read = max_paid_request_bytes + 1 in
    if not (is_paid_post paths e)
    then dispatched e []
    else if ltb max_paid_request_bytes declared
    then too_large
    else if ltb 0 declared
    then dispatched (with_body (take declared e.input) e) (drop declared e.input)
    else if is_chunked e
    then if ltb max_paid_request_bytes (length (take read e.input))
      then too_large
      else dispatched (with_body (take read e.input) e) (drop read e.input)
    else dispatched e []
