-- ===== src/WebSearch/Laws.antt =====
-- What a search may cost and ask, and what the handler signs.
use tee_gateway.Prelude.{
  ℕ, ◌≤◌, ◌≡◌, ◌≢◌, ◌⊎◌, inl, inr, refl, sym, ap, ◌∙◌, List, [], ◌∷◌, true, false, Option, none,
  some, ltb, ◌==◌, Bool-cases, Option-cases, if◌then◌else◌, arith,
}
use tee_gateway.Prelude.Int.{ℤ, pos, negsuc}
use tee_gateway.Prelude.Result.{Result, ok, err, Result-cases}
use tee_gateway.Prelude.Text.{Text, codes, strip}
use tee_gateway.Prelude.Json.{
  Json, null, bool, int, float, str, arr, obj, Fields, infinite, finite, not_a_number, get, int_of,
  PyError, value_error, type_error, overflow_error, attribute_error, key_error, digit_count,
  parse_int,
}
use tee_gateway.WebSearch.{
  WebSearchOutcome, Payload, ExaReply, unreachable, replied, clamp, clamp_parsed, clamp_int,
  query_of, read_results, run_web_search, execute_web_search_call, reported_cost, results_of,
  outcome_of, default_num_results, max_num_results, max_recency_days,
}

clamp_parsed-range :
    (default low high : ℕ) (r : Result PyError ℤ) {n : ℕ}
    → low ≤ default
    → default ≤ high
    → clamp_parsed default low high r ≡ ok n
    → (low ≤ n) × (n ≤ high)
clamp_parsed-range default low high (ok (pos k)) l h e = ground arith
clamp_parsed-range default low high (ok (negsuc k)) l h e = ground arith
clamp_parsed-range default low high (err value_error) l h e = ground arith
clamp_parsed-range default low high (err type_error) l h e = ground arith
clamp_parsed-range default low high (err overflow_error) l h e = ground arith
clamp_parsed-range default low high (err attribute_error) l h e = ground arith
clamp_parsed-range default low high (err key_error) l h e = ground arith

int_of_str : (s : Text) → (int_of (str s) ≡ err value_error) ⊎ ((n : ℤ) × (int_of (str s) ≡ ok n))
unfolding int_of
int_of_str s = elim (Bool-cases (ltb 4300 (digit_count s))) [
  | inl e ↦ inl (rw (int_of, e) refl)
  | inr few ↦ elim (Option-cases (parse_int (strip s))) [
    | inl e ↦ inl (rw (int_of, few, e) refl)
    | inr (n, e) ↦ inr (n, rw (int_of, few, e) refl)
  ]
]

clamp_int_str :
    (s : Text) (default low high : ℕ)
    → low ≤ default
    → default ≤ high
    → (n : ℕ) × (clamp_int (str s) default low high ≡ ok n) × (low ≤ n) × (n ≤ high)
clamp_int_str s default low high l h = elim (int_of_str s) [
  | inl e ↦ (default, unfold clamp_int in ap (clamp_parsed default low high) e, l, h)
  | inr (n, e) ↦
      let (above, below) = clamp_parsed-range default low high (ok n) l h refl in
      (clamp low high n, unfold clamp_int in ap (clamp_parsed default low high) e, above, below)
]

-- For a default within the bounds, _clamp_int returns a number within the bounds for every value but
-- an infinite float, for which it raises an OverflowError.
pub clamp_int-cases :
    (value : Json) (default low high : ℕ)
    → low ≤ default
    → default ≤ high
    → ((n : ℕ) × (clamp_int value default low high ≡ ok n)
        × (low ≤ n)
        × (n ≤ high)
        × (value ≢ float infinite))
      ⊎ ((value ≡ float infinite) × (clamp_int value default low high ≡ err overflow_error))
unfolding clamp_int int_of
clamp_int-cases null default low high l h = inl (default, refl, l, h, λ e. cc e)
clamp_int-cases (bool b) default low high l h = inl (default, refl, l, h, λ e. cc e)
clamp_int-cases (int n) default low high l h =
    let (above, below) = clamp_parsed-range default low high (ok n) l h refl in
    inl (clamp low high n, refl, above, below, λ e. cc e)
clamp_int-cases (float (finite n z)) default low high l h =
    let (above, below) = clamp_parsed-range default low high (ok n) l h refl in
    inl (clamp low high n, refl, above, below, λ e. cc e)
clamp_int-cases (float infinite) default low high l h = inr (refl, refl)
clamp_int-cases (float not_a_number) default low high l h = inl (default, refl, l, h, λ e. cc e)
clamp_int-cases (arr vs) default low high l h = inl (default, refl, l, h, λ e. cc e)
clamp_int-cases (obj fs) default low high l h = inl (default, refl, l, h, λ e. cc e)
clamp_int-cases (str s) default low high l h =
    let (n, e, above, below) = clamp_int_str s default low high l h in
    inl (n, e, above, below, λ e'. cc e')

reply-cases :
    (reply : ExaReply)
    → ((exc : Text) × (reply ≡ unreachable exc))
      ⊎ ((status : ℕ) × (body : Option Json) × (text : Text) × (reason : Text) × (reply
            ≡ replied status body text reason))
reply-cases (unreachable exc) = inl (exc, refl)
reply-cases (replied status body text reason) = inr (status, body, text, reason, refl)

-- The outcome of a failure, and of a search that Exa answered with an object.
abbrev pub IsFailure : WebSearchOutcome → Type 0
IsFailure o =
    (o.is_error ≡ true) × (o.billable ≡ false) × (o.citations ≡ []) × (o.reported_cost_usd ≡ none)

module _ (py_str : Json → Text) (cutoff : ℕ → Text) where
  -- What run_web_search makes of a client.
  abbrev pub IsAnswered : (Payload → ExaReply) → WebSearchOutcome → Type 0
  IsAnswered client o =
      (o.is_error ≡ false)
      × (o.billable ≡ true)
      × ((payload : Payload) × (body : Fields) × (text : Text) × (reason : Text) × (client payload
            ≡ replied 200 (some (obj body)) text reason)
          × (1 ≤ payload.num_results)
          × (payload.num_results ≤ max_num_results))

  outcome_of_flags :
      (query : Text) (results : List Json) (cost : Option Json)
      → ((outcome_of query results cost).is_error ≡ false)
        × ((outcome_of query results cost).billable ≡ true)
  unfolding outcome_of
  outcome_of_flags query [] cost = (refl, refl)
  outcome_of_flags query (item ∷ items) cost = (refl, refl)

  read_results-cases :
      (query : Text) (body : Option Json) {o : WebSearchOutcome}
      → read_results py_str query body ≡ ok o
      → IsFailure o
        ⊎ ((fs : Fields) × (body ≡ some (obj fs)) × (o.is_error ≡ false) × (o.billable ≡ true))
  unfolding read_results
  read_results-cases query none h = inl (ground (arith, h))
  read_results-cases query (some (obj fs)) {o} h =
      elim (Result-cases (reported_cost (get (codes "costDollars") fs))) [
        | inr (x, e) ↦ absurd (ground (arith, h, e))
        | inl (cost, e) ↦
            let shape : o ≡ outcome_of query (results_of fs) cost = ground (arith, h, e) in
            let (no_error, paid) = outcome_of_flags query (results_of fs) cost in
            inr (fs, refl, rw shape no_error, rw shape paid)
      ]
  read_results-cases query (some null) h = absurd (ground (arith, h))
  read_results-cases query (some (bool b)) h = absurd (ground (arith, h))
  read_results-cases query (some (int n)) h = absurd (ground (arith, h))
  read_results-cases query (some (float x)) h = absurd (ground (arith, h))
  read_results-cases query (some (str s)) h = absurd (ground (arith, h))
  read_results-cases query (some (arr vs)) h = absurd (ground (arith, h))

  read_results_other :
      (query : Text) (body : Json)
      → ((fs : Fields) → body ≢ obj fs)
      → read_results py_str query (some body) ≡ err attribute_error
  unfolding read_results
  read_results_other query (obj fs) h = absurd (h fs refl)
  read_results_other query null h = refl
  read_results_other query (bool b) h = refl
  read_results_other query (int n) h = refl
  read_results_other query (float x) h = refl
  read_results_other query (str s) h = refl
  read_results_other query (arr vs) h = refl

  run_web_search-cases :
      (client : Payload → ExaReply) (query : Text) (num_results recency_days : ℕ)
      {o : WebSearchOutcome}
      → 1 ≤ num_results
      → num_results ≤ max_num_results
      → run_web_search py_str (some client) cutoff query num_results recency_days ≡ ok o
      → IsFailure o ⊎ IsAnswered client o
  run_web_search-cases client query num_results recency_days {o} low high h =
      let payload : Payload = record {
        query = query;
        num_results = num_results;
        start_published_date = if recency_days == 0 then none else some (cutoff recency_days);
      } in
      elim (reply-cases (client payload)) [
        | inl (exc, e) ↦ inl (unfold run_web_search in ground (arith, h, e))
        | inr (status, body, text, reason, e) ↦ elim (Bool-cases (status == 200)) [
          | inr e' ↦ inl (unfold run_web_search in ground (arith, h, e, e'))
          | inl e' ↦
              let fine : status ≡ 200 = ground (arith, e') in
              let read : read_results py_str query body ≡ ok o =
                unfold run_web_search in ground (arith, h, e, e') in
              elim (read_results-cases query body read) [
                | inl failure ↦ inl failure
                | inr (fs, same, no_error, paid) ↦ inr (
                  no_error,
                  paid,
                  (
                    payload,
                    fs,
                    text,
                    reason,
                    e
                        ∙ ap (λ (n : ℕ). replied n body text reason) fine
                        ∙ ap (λ b. replied 200 b text reason) same,
                    low,
                    high,
                  ),
                )
              ]
        ]
      ]

  -- A search that returns is a failure, not billable and with no citations and no cost, or it is
  -- billable and no failure, and then a client was injected that answered 200 with a JSON object
  -- to a request for 1 to 10 results.
  pub execute_web_search_call-cases :
      (client : Option (Payload → ExaReply)) (args : Fields) (o : WebSearchOutcome)
      → execute_web_search_call py_str client cutoff args ≡ ok o
      → IsFailure o ⊎ ((exa : Payload → ExaReply) × (client ≡ some exa) × IsAnswered exa o)
  unfolding execute_web_search_call
  execute_web_search_call-cases client args o h = elim (Option-cases (query_of py_str args)) [
    | inl e ↦ inl (ground (arith, h, e))
    | inr (query, e) ↦
        elim (clamp_int-cases (get (codes "num_results") args) default_num_results 1 max_num_results
          (omega arith) (omega arith)) [
            | inr (infinite_float, e1) ↦ absurd (ground (arith, h, e, e1))
            | inl (n, e1, low, high, finite_value) ↦
                elim (clamp_int-cases (get (codes "recency_days") args) 0 0 max_recency_days
                  (omega arith) (omega arith)) [
                    | inr (infinite_float, e2) ↦ absurd (ground (arith, h, e, e1, e2))
                    | inl (days, e2, from_zero, to_limit, finite_days) ↦
                        let ran : run_web_search py_str client cutoff query n days ≡ ok o =
                          ground (arith, h, e, e1, e2) in
                        elim (Option-cases client) [
                          | inl none_injected ↦ inl (
                              unfold run_web_search in
                              ground (
                                arith,
                                ap (λ c. run_web_search py_str c cutoff query n days) none_injected,
                                ran,
                              ))
                          | inr (exa, injected) ↦
                              elim (run_web_search-cases exa query n days low high (
                                sym (ap (λ c. run_web_search py_str c cutoff query n days) injected)
                                ∙ ran)) [
                                  | inl failure ↦ inl failure
                                  | inr answered ↦ inr (exa, injected, answered)
                                ]
                        ]
                  ]
          ]
  ]

  -- The function is documented never to raise. It does: for a query and an infinite num_results,
  -- whatever the client, and for an answer 200 of Exa that is JSON and no object.
  pub execute_web_search_call_escapes :
      (client : Option (Payload → ExaReply)) (exa : Payload → ExaReply) (args args' : Fields)
      (query query' : Text) (n days : ℕ) (body : Json) (text reason : Text)
      → query_of py_str args ≡ some query
      → get (codes "num_results") args ≡ float infinite
      → query_of py_str args' ≡ some query'
      → clamp_int (get (codes "num_results") args') default_num_results 1 max_num_results ≡ ok n
      → clamp_int (get (codes "recency_days") args') 0 0 max_recency_days ≡ ok days
      → ((payload : Payload) → exa payload ≡ replied 200 (some body) text reason)
      → ((fs : Fields) → body ≢ obj fs)
      → (execute_web_search_call py_str client cutoff args ≡ err overflow_error)
        × (execute_web_search_call py_str (some exa) cutoff args' ≡ err attribute_error)
  unfolding execute_web_search_call run_web_search
  execute_web_search_call_escapes client exa args args' query query' n days body text reason asked
        infinite_number asked' few recent replies no_object =
      (
        rw (execute_web_search_call, asked, infinite_number) (unfold clamp_int int_of in refl),
        rw (execute_web_search_call, asked', few, recent, run_web_search, replies _)
            (read_results_other query' body no_object),
      )
