-- ===== src/WebSearch/Controller.antt =====
-- `create_web_search`: the handler of POST /v1/web_search.
use tee_gateway.Prelude.{ℕ, List, Option, none, some, if◌then◌else◌}
use tee_gateway.Prelude.Result.{ok, err}
use tee_gateway.Prelude.Text.{Text, codes}
use tee_gateway.Prelude.Json.{Json, obj, Fields}
use tee_gateway.Attestation.{compute_tee_msg_hash}
use tee_gateway.PriceFeed.{Feed}
use tee_gateway.Pricing.{SessionCost, compute_web_search_cost}
use tee_gateway.WebSearch.Format.{Citation}
use tee_gateway.WebSearch.{Payload, ExaReply, WebSearchOutcome, query_of, execute_web_search_call}

-- The response, without its random id and its constant parts.
pub record SearchResponse : Type 0 where
  pub query : Text
  pub content : Text
  pub citations : List Citation
  pub tee_signature : Text
  pub tee_request_hash : Text
  pub tee_output_hash : Text
  pub tee_timestamp : ℕ
  pub tee_id : Text
  pub opengradient : Option SessionCost

-- An error with its status, a response, or an exception that leaves the handler.
pub data SearchAnswer : Type 0 where
  refused : ℕ → Text → SearchAnswer
  answered : SearchResponse → SearchAnswer
  escaped : SearchAnswer

-- The injected Exa client, json.dumps with sorted keys and UTF-8, UTF-8 of a text, and the enclave's
-- signature; the price feed and the clock.
module _ (py_str : Json → Text) (client : Option (Payload → ExaReply)) (cutoff : ℕ → Text)
    (keccak : List ℕ → List ℕ) (dumps_sorted : Json → List ℕ) (utf8 : Text → List ℕ)
    (sign : List ℕ → Text) (tee_id : Text) (feed : Option Feed) (now : ℕ) where
  unfoldable pub sign_outcome : Fields → Text → WebSearchOutcome → SearchAnswer
  unfolding compute_web_search_cost compute_tee_msg_hash
  sign_outcome body query outcome =
      elim (compute_tee_msg_hash keccak (dumps_sorted (obj body)) (utf8 outcome.content) now) [
        | err raised ↦ escaped
        | ok (msg_hash, input_hash_hex, output_hash_hex) ↦ answered (record {
          query = query;
          content = outcome.content;
          citations = outcome.citations;
          tee_signature = sign msg_hash;
          tee_request_hash = input_hash_hex;
          tee_output_hash = output_hash_hex;
          tee_timestamp = now;
          tee_id = tee_id;
          opengradient = compute_web_search_cost feed now;
        })
      ]

  -- Behind the tests of the body and of the client.
  unfoldable pub search_and_sign : Fields → SearchAnswer
  unfolding sign_outcome execute_web_search_call
  search_and_sign body = elim (query_of py_str body) [
    | none ↦ refused 400 (codes "A non-empty `query` string is required")
    | some query ↦ elim (execute_web_search_call py_str client cutoff body) [
      | err raised ↦ escaped
      | ok outcome ↦
          if outcome.is_error then refused 502 outcome.content else sign_outcome body query outcome
    ]
  ]

  -- request.get_json(silent=True), none where the body is no JSON.
  unfoldable pub create_web_search : Option Json → SearchAnswer
  unfolding search_and_sign
  create_web_search (some (obj body)) = elim client [
    | none ↦ refused 503 (codes "Web search is not configured on this gateway")
    | some exa ↦ search_and_sign body
  ]
  create_web_search _ = refused 415 (codes "Request must be a JSON object")
