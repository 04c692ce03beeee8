-- ===== src/WebSearch.antt =====
-- tee_gateway/web_search.py and tee_gateway/controllers/web_search_controller.py: one search from
-- the request's arguments to the signed response. Exa, the clock and str() are arguments.
pub mod Format
pub mod Controller
mod Bounds
mod Laws
mod Signed
mod Tests
use tee_gateway.Prelude.{
  ℕ, zero, suc, ◌+◌, ◌-◌, ◌*◌, ◌^◌, List, [], ◌∷◌, ◌++◌, length, take, Bool, true, false, not,
  Option, none, some, ltb, ◌&&◌, ◌||◌, ◌==◌, if◌then◌else◌,
}
use tee_gateway.Prelude.Int.{ℤ, pos, negsuc, leb_ℤ, pos_part, neg_part}
use tee_gateway.Prelude.Result.{Result, ok, err, ◌>>=◌}
use tee_gateway.Prelude.Text.{Text, codes, strip, decimal}
use tee_gateway.Prelude.Json.{
  Json, null, bool, int, float, str, arr, obj, Elements, elements, Fields, get, int_of, PyError,
  value_error, type_error, overflow_error, attribute_error,
}
use tee_gateway.WebSearch.Format.{Citation, format_results, no_results_text}

abbrev pub default_num_results : ℕ
default_num_results = 6

abbrev pub max_num_results : ℕ
max_num_results = 10

abbrev pub max_recency_days : ℕ
max_recency_days = 3650

pub record WebSearchOutcome : Type 0 where
  pub content : Text
  pub citations : List Citation
  pub billable : Bool
  pub is_error : Bool
  pub reported_cost_usd : Option Json

-- The JSON that is posted to Exa, without its constant parts.
pub record Payload : Type 0 where
  pub query : Text
  pub num_results : ℕ
  pub start_published_date : Option Text

-- httpx.HTTPError with its text, or an answer: status, response.json() (none where it raises a
-- ValueError), response.text and response.reason_phrase.
pub data ExaReply : Type 0 where
  unreachable : Text → ExaReply
  replied : ℕ → Option Json → Text → Text → ExaReply

abbrev pub failed : Text → WebSearchOutcome
failed content = record {
  content = content;
  citations = [];
  billable = false;
  is_error = true;
  reported_cost_usd = none;
}

abbrev pub found : Text → List Citation → Option Json → WebSearchOutcome
found content citations cost = record {
  content = content;
  citations = citations;
  billable = true;
  is_error = false;
  reported_cost_usd = cost;
}

-- max(low, min(high, parsed)) for bounds that are not negative
abbrev pub clamp : ℕ → ℕ → ℤ → ℕ
clamp low high (negsuc n) = low
clamp low high (pos n) = if ltb high n then high else if ltb n low then low else n

-- The `except (TypeError, ValueError)` of _clamp_int.
abbrev pub clamp_parsed : ℕ → ℕ → ℕ → Result PyError ℤ → Result PyError ℕ
clamp_parsed default low high (ok n) = ok (clamp low high n)
clamp_parsed default low high (err value_error) = ok default
clamp_parsed default low high (err type_error) = ok default
clamp_parsed default low high (err raised) = err raised

unfoldable pub clamp_int : Json → ℕ → ℕ → ℕ → Result PyError ℕ
unfolding int_of
clamp_int (bool b) default low high = ok default
clamp_int null default low high = ok default
clamp_int value default low high = clamp_parsed default low high (int_of value)

-- for key in ("error", "message", "detail")
abbrev pub first_text : Fields → List Text → Option Text
first_text fs [] = none
first_text fs (key ∷ keys) =
    let rest = first_text fs keys in
    elim (get key fs) [ str [] ↦ rest | str (c ∷ s) ↦ some (take 200 (c ∷ s)) | _ ↦ rest ]

abbrev pub or_else : Text → Text → Text
or_else [] other = other
or_else (c ∷ s) other = c ∷ s

-- An int that `float` refuses has 2^1024 or more as its rounded size.
abbrev pub float_limit : ℕ
float_limit = 2 ^ 1024 - 2 ^ 970

-- float(cost["total"]), where it is a number.
abbrev pub reported : Json → Result PyError (Option Json)
reported (int n) =
    if ltb (pos_part n + neg_part n) float_limit then ok (some (int n)) else err overflow_error
reported (bool b) = ok (some (bool b))
reported (float f) = ok (some (float f))
reported _ = ok none

abbrev pub reported_cost : Json → Result PyError (Option Json)
reported_cost (obj cost) = reported (get (codes "total") cost)
reported_cost _ = ok none

-- results, [] where it is no list
abbrev pub results_of : Fields → List Json
results_of body = elim (get (codes "results") body) [ arr vs ↦ elements vs | _ ↦ [] ]

-- A search that matched nothing is billable too.
unfoldable pub outcome_of : Text → List Json → Option Json → WebSearchOutcome
unfolding format_results
outcome_of query [] cost = found (no_results_text query) [] cost
outcome_of query (item ∷ items) cost =
    let formatted = format_results query (item ∷ items) in found formatted.0 formatted.1 cost

module _ (py_str : Json → Text) where
  unfoldable pub error_detail : Option Json → Text → Text → Text
  error_detail none text reason = or_else (strip (take 200 text)) reason
  error_detail (some (obj fs)) text reason =
      elim (first_text fs (codes "error" ∷ codes "message" ∷ codes "detail" ∷ [])) [
        | some detail ↦ detail
        | none ↦ take 200 (py_str (obj fs))
      ]
  error_detail (some body) text reason = take 200 (py_str body)

  -- From response.json() on, for status 200; body.get of another value is an AttributeError.
  unfoldable pub read_results : Text → Option Json → Result PyError WebSearchOutcome
  unfolding outcome_of
  read_results query none =
      ok (failed (codes "Web search error: the search service returned a malformed response."))
  read_results query (some (obj body)) = do
    cost ← reported_cost (get (codes "costDollars") body)
    ok (outcome_of query (results_of body) cost)
  read_results query (some other) = err attribute_error

  -- The client is none where no key was injected.
  unfoldable pub run_web_search :
      Option (Payload → ExaReply) → (ℕ → Text) → Text → ℕ → ℕ → Result PyError WebSearchOutcome
  unfolding read_results error_detail
  run_web_search none cutoff query num_results recency_days = ok (
      failed (
        codes
          "Web search error: search is not configured on this gateway. Answer from your own knowledge and say that you could not verify it against the web."))
  run_web_search (some client) cutoff query num_results recency_days =
      elim (client (record {
        query = query;
        num_results = num_results;
        start_published_date = if recency_days == 0 then none else some (cutoff recency_days);
      })) [
        | unreachable exc ↦ ok (
            failed (
              codes "Web search error: could not reach the search service ("
              ++ (exc ++ codes ").")))
        | replied status body text reason ↦
            if status == 200
            then read_results query body
            else ok (
                failed (
                  codes "Web search error: the search service returned HTTP "
                  ++ (decimal status
                      ++ (codes " (" ++ (error_detail body text reason ++ codes ").")))))
      ]

  -- query.strip() of a query that is a text and has more than whitespace
  abbrev pub query_of : Fields → Option Text
  query_of args = elim (get (codes "query") args) [
    | str s ↦ elim (strip s) [ [] ↦ none | c ∷ q ↦ some (c ∷ q) ]
    | _ ↦ none
  ]

  unfoldable pub execute_web_search_call :
      Option (Payload → ExaReply) → (ℕ → Text) → Fields → Result PyError WebSearchOutcome
  unfolding run_web_search clamp_int
  execute_web_search_call client cutoff args = elim (query_of args) [
    | none ↦ ok (
        failed (
          codes
            "Web search error: a non-empty `query` string is required. Call the tool again with a query."))
    | some query ↦ do
      num_results ← clamp_int (get (codes "num_results") args) default_num_results 1 max_num_results
      recency_days ← clamp_int (get (codes "recency_days") args) 0 0 max_recency_days
      run_web_search client cutoff query num_results recency_days
  ]
