-- ===== src/WebSearch/Signed.antt =====
-- What an answered search request was, and what its signature covers.
use tee_gateway.Prelude.{
  ℕ, ◌≡◌, inl, inr, refl, List, true, false, Option, none, some, Bool-cases, Option-cases, arith,
}
use mathlib.Core.Path.{subst}
use tee_gateway.Prelude.Result.{ok, Result-cases}
use tee_gateway.Prelude.Text.{Text}
use tee_gateway.Prelude.Json.{Json, null, bool, int, float, str, arr, obj, Fields}
use tee_gateway.Attestation.{compute_tee_msg_hash}
use tee_gateway.PriceFeed.{Feed}
use tee_gateway.Pricing.{compute_web_search_cost}
use tee_gateway.WebSearch.{Payload, ExaReply, WebSearchOutcome, query_of, execute_web_search_call}
use tee_gateway.WebSearch.Controller.{
  SearchResponse, answered, sign_outcome, search_and_sign, create_web_search,
}
use tee_gateway.WebSearch.Laws.{execute_web_search_call-cases}

module _ (py_str : Json → Text) (client : Option (Payload → ExaReply)) (cutoff : ℕ → Text)
    (keccak : List ℕ → List ℕ) (dumps_sorted : Json → List ℕ) (utf8 : Text → List ℕ)
    (sign : List ℕ → Text) (tee_id : Text) (feed : Option Feed) (now : ℕ) where
  -- The content is that of a billable outcome; the signature is of the hash of the body, the content
  -- and the time, whose parts are shown; the cost is that of one search at the time.
  pub record IsSigned (body : Fields) (r : SearchResponse) : Type 0 where
    pub outcome : WebSearchOutcome
    pub hash : List ℕ
    pub asked : query_of py_str body ≡ some r.query
    pub ran : execute_web_search_call py_str client cutoff body ≡ ok outcome
    pub billed : outcome.billable ≡ true
    pub shown : outcome.content ≡ r.content
    pub cited : outcome.citations ≡ r.citations
    pub hashed :
        compute_tee_msg_hash keccak (dumps_sorted (obj body)) (utf8 r.content) r.tee_timestamp
        ≡ ok (hash, r.tee_request_hash, r.tee_output_hash)
    pub signed : r.tee_signature ≡ sign hash
    pub timed : r.tee_timestamp ≡ now
    pub priced : r.opengradient ≡ compute_web_search_cost feed now

  billable_of :
      (body : Fields) (o : WebSearchOutcome)
      → execute_web_search_call py_str client cutoff body ≡ ok o
      → o.is_error ≡ false
      → o.billable ≡ true
  billable_of body o h no_error =
      elim (execute_web_search_call-cases py_str cutoff client body o h) [
        | inl (is_error, rest, more, last) ↦ absurd (ground (arith, is_error, no_error))
        | inr (exa, injected, done) ↦ done.1
      ]

  abbrev response : Text → WebSearchOutcome → List ℕ → Text → Text → SearchResponse
  response query outcome hash inputs outputs = record {
    query = query;
    content = outcome.content;
    citations = outcome.citations;
    tee_signature = sign hash;
    tee_request_hash = inputs;
    tee_output_hash = outputs;
    tee_timestamp = now;
    tee_id = tee_id;
    opengradient = compute_web_search_cost feed now;
  }

  search_and_sign-IsSigned :
      (body : Fields) (r : SearchResponse)
      → search_and_sign py_str client cutoff keccak dumps_sorted utf8 sign tee_id feed now body
        ≡ answered r
      → IsSigned body r
  unfolding search_and_sign sign_outcome
  search_and_sign-IsSigned body r h = elim (Option-cases (query_of py_str body)) [
    | inl e ↦ absurd (ground (arith, h, e))
    | inr (query, asked) ↦ elim (Result-cases (execute_web_search_call py_str client cutoff body)) [
      | inr (x, e) ↦ absurd (ground (arith, h, asked, e))
      | inl (outcome, ran) ↦ elim (Bool-cases outcome.is_error) [
        | inl e ↦ absurd (ground (arith, h, asked, ran, e))
        | inr fine ↦
            elim (Result-cases
              (compute_tee_msg_hash keccak (dumps_sorted (obj body)) (utf8 outcome.content) now)) [
                | inr (x, e) ↦ absurd (ground (arith, h, asked, ran, fine, e))
                | inl ((hash, inputs, outputs), hashed) ↦
                    let same : response query outcome hash inputs outputs ≡ r =
                      ground (arith, h, asked, ran, fine, hashed) in
                    subst (IsSigned body) same (record {
                      outcome = outcome;
                      hash = hash;
                      asked = asked;
                      ran = ran;
                      billed = billable_of body outcome ran fine;
                      shown = refl;
                      cited = refl;
                      hashed = hashed;
                      signed = refl;
                      timed = refl;
                      priced = refl;
                    })
              ]
      ]
    ]
  ]

  -- A request that is answered had a JSON object as its body, and a client was injected: the
  -- response has the query, the content and the citations of a billable outcome of that body, the
  -- enclave's signature of the message hash of that body, that content and the time, and the cost
  -- of one search.
  pub create_web_search-IsSigned :
      (body : Option Json) (r : SearchResponse)
      → create_web_search py_str client cutoff keccak dumps_sorted utf8 sign tee_id feed now body
        ≡ answered r
      → (fs : Fields) × (exa : Payload → ExaReply) × (body ≡ some (obj fs))
        × (client ≡ some exa)
        × IsSigned fs r
  unfolding create_web_search
  create_web_search-IsSigned none r h = absurd (ground (arith, h))
  create_web_search-IsSigned (some null) r h = absurd (ground (arith, h))
  create_web_search-IsSigned (some (bool b)) r h = absurd (ground (arith, h))
  create_web_search-IsSigned (some (int n)) r h = absurd (ground (arith, h))
  create_web_search-IsSigned (some (float x)) r h = absurd (ground (arith, h))
  create_web_search-IsSigned (some (str s)) r h = absurd (ground (arith, h))
  create_web_search-IsSigned (some (arr vs)) r h = absurd (ground (arith, h))
  create_web_search-IsSigned (some (obj fs)) r h = elim (Option-cases client) [
    | inl e ↦ absurd (ground (arith, h, e))
    | inr (exa, e) ↦ (fs, exa, refl, e, search_and_sign-IsSigned fs r (ground (arith, h, e)))
  ]
