-- ===== src/OhttpController/Subrequest.antt =====
-- `_wsgi_subrequest`: the WSGI environment of the inner request.
use tee_gateway.Prelude.{ℕ, List, [], ◌∷◌, length, Bool, Option, none, some, ◌||◌, if◌then◌else◌}
use tee_gateway.Prelude.Text.{Text, codes, text_mem, starts_with, decimal, update_keys, put_key}
use tee_gateway.OhttpController.Headers.{Header}

-- A value of an environment: a text, the stream of a body, or another object, by its identity.
pub data EnvValue : Type 0 where
  text : Text → EnvValue
  stream : List ℕ → EnvValue
  object : ℕ → EnvValue

abbrev pub Environ : Type 0
Environ = List (Text × EnvValue)

-- What start_response was given, if it was called, and the iterator that was returned.
pub record InnerResponse : Type 0 where
  pub started : Option (ℕ × List Header)
  pub chunks : List (List ℕ)
  pub raises : Bool

abbrev pub server_keys : List Text
server_keys =
    codes "SERVER_NAME" ∷ codes "SERVER_PORT" ∷ codes "SERVER_PROTOCOL" ∷ codes "HTTP_HOST" ∷ []

unfoldable pub is_inherited : Text → Bool
is_inherited key = starts_with key (codes "wsgi.") || text_mem key server_keys

-- {k: v for k, v in outer_env.items() if …}
unfoldable pub inherited : Environ → Environ
inherited [] = []
inherited (entry ∷ outer) =
    let rest = inherited outer in if is_inherited entry.0 then entry ∷ rest else rest

abbrev pub request_entries : Text → List ℕ → Environ
request_entries path body_bytes =
    (codes "REQUEST_METHOD", text (codes "POST"))
    ∷ (codes "PATH_INFO", text path)
    ∷ (codes "RAW_URI", text path)
    ∷ (codes "REQUEST_URI", text path)
    ∷ (codes "SCRIPT_NAME", text [])
    ∷ (codes "QUERY_STRING", text [])
    ∷ (codes "CONTENT_TYPE", text (codes "application/json"))
    ∷ (codes "CONTENT_LENGTH", text (decimal (length body_bytes)))
    ∷ (codes "wsgi.input", stream body_bytes)
    ∷ []

unfoldable pub sub_env : Text → List ℕ → Environ → Environ
unfolding inherited
sub_env path body_bytes outer =
    put_key (codes "HTTP_AUTHORIZATION") (text (codes "Bearer ohttp"))
      (update_keys (request_entries path body_bytes) (inherited outer))

-- The status and the headers that were captured.
abbrev pub captured_status : InnerResponse → ℕ
captured_status inner = elim inner.started [ none ↦ 500 | some (status, headers) ↦ status ]

abbrev pub captured_headers : InnerResponse → List Header
captured_headers inner = elim inner.started [ none ↦ [] | some (status, headers) ↦ headers ]
