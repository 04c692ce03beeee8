-- ===== src/OhttpController/Context.antt =====
-- The cost context that x402 reads after a response, and the functions that fill and read it.
use tee_gateway.Prelude.{
  ℕ, List, [], ◌∷◌, Bool, Option, none, some, ◌==◌, ◌&&◌, ◌||◌, leb, drop, if◌then◌else◌,
}
use tee_gateway.Prelude.Text.{Text, codes, text_eq, strip, starts_with}
use tee_gateway.Prelude.Json.{Json, str, obj, field, no_fields, get}
use tee_gateway.Pricing.{SessionCost}

-- bytes.decode of the standard library, strict and with errors="replace"; json.loads, none for a
-- JSONDecodeError, the only exception of it that is modelled; compact json.dumps with UTF-8; SessionCost.model_validate, and its model_dump(mode="json") as the three
-- texts and as the JSON object with them.
pub record Codec : Type 0 where
  pub decode_utf8 : List ℕ → Option Text
  pub decode_replace : List ℕ → Text
  pub loads : Text → Option Json
  pub dumps : Json → List ℕ
  pub model_validate : Json → Option SessionCost
  pub opg_text : SessionCost → Text
  pub usd_text : SessionCost → Text
  pub price_text : SessionCost → Text

-- The entries of environ["x402.cost_context"] that the controller writes.
pub record CostContext : Type 0 where
  pub inner_request_json : Option Json
  pub inner_response_json : Option Json
  pub inner_status_code : Option ℕ

-- A value that is not None replaces the entry.
abbrev pub overwrite {ℓ} : {A : Type ℓ} → Option A → Option A → Option A
overwrite none old = old
overwrite (some new) old = some new

-- A request without a context is left alone.
unfoldable pub set_inner_cost_context :
    Option Json → Option Json → Option ℕ → Option CostContext → Option CostContext
set_inner_cost_context request_json response_json status_code none = none
set_inner_cost_context request_json response_json status_code (some context) = some (record {
  inner_request_json = overwrite request_json context.inner_request_json;
  inner_response_json = overwrite response_json context.inner_response_json;
  inner_status_code = overwrite status_code context.inner_status_code;
})

-- The characters at which str.splitlines ends a line; "\r\n" is one end.
abbrev pub is_line_end : ℕ → Bool
is_line_end c =
    (leb 10 c && leb c 13) || (leb 28 c && leb c 30) || c == 0x85 || c == 0x2028 || c == 0x2029

-- The rest of the lines with one more character in front of the first.
abbrev pub onto_first : ℕ → List Text → List Text
onto_first c [] = (c ∷ []) ∷ []
onto_first c (line ∷ lines) = (c ∷ line) ∷ lines

-- text.splitlines(): no line stands behind the last line end.
unfoldable pub split_lines : Text → List Text
split_lines [] = []
split_lines (c ∷ []) = if is_line_end c then [] ∷ [] else (c ∷ []) ∷ []
split_lines (c ∷ d ∷ s) =
    let after_both = split_lines s in
    let rest = split_lines (d ∷ s) in
    if c == 13 && d == 10
    then [] ∷ after_both
    else if is_line_end c
    then [] ∷ rest
    else onto_first c rest

-- The text behind "data:" of an event line, unless it is empty or the end mark.
abbrev pub event_payload : Text → Option Text
event_payload line =
    let payload = strip (drop 5 (strip line)) in
    if starts_with (strip line) (codes "data:")
    then if text_eq payload [] || text_eq payload (codes "[DONE]") then none else some payload
    else none

module _ (codec : Codec) where
  -- json.loads(payload), if it is an object.
  abbrev pub event_object : Text → Option Json
  event_object line = elim (event_payload line) [
    | none ↦ none
    | some payload ↦ elim (codec.loads payload) [ some (obj fs) ↦ some (obj fs) | _ ↦ none ]
  ]

  unfoldable pub last_object : Option Json → List Text → Option Json
  last_object last_json [] = last_json
  last_object last_json (line ∷ lines) = last_object (overwrite (event_object line) last_json) lines

  unfoldable pub parse_final_sse_json : List ℕ → Option Json
  unfolding last_object split_lines
  parse_final_sse_json body = last_object none (split_lines (codec.decode_replace body))

  -- A body that is an object.
  abbrev pub body_object : List ℕ → Option Json
  body_object body = elim (codec.decode_utf8 body) [
    | none ↦ none
    | some text ↦ elim (codec.loads text) [ some (obj fs) ↦ some (obj fs) | _ ↦ none ]
  ]

  unfoldable pub set_inner_response_cost_context :
      List ℕ → ℕ → Option CostContext → Option CostContext
  unfolding set_inner_cost_context
  set_inner_response_cost_context body status_code =
      set_inner_cost_context none (body_object body) (some status_code)

  unfoldable pub set_inner_stream_cost_context :
      List ℕ → ℕ → Option CostContext → Option CostContext
  unfolding set_inner_cost_context parse_final_sse_json
  set_inner_stream_cost_context body status_code =
      set_inner_cost_context none (parse_final_sse_json body) (some status_code)

  -- SessionCost.model_validate(response_json.get("opengradient"))
  unfoldable pub cost_of : Option Json → Option SessionCost
  cost_of (some (obj fs)) = codec.model_validate (get (codes "opengradient") fs)
  cost_of _ = none

  -- `_session_cost_calculator` on the path /v1/ohttp: the amount that x402 charges, none where the
  -- calculator raises and x402 charges nothing.
  unfoldable pub session_cost_calculator : Option CostContext → Option ℕ
  unfolding cost_of
  session_cost_calculator none = none
  session_cost_calculator (some context) = elim (cost_of context.inner_response_json) [
    | none ↦ none
    | some cost ↦ some cost.cost_opg
  ]

  -- model_dump(mode="json")
  abbrev pub wire : SessionCost → Json
  wire cost = obj (
      field (codes "cost_opg") (str (codec.opg_text cost)) (
        field (codes "cost_usd") (str (codec.usd_text cost))
          (field (codes "opg_price_usd") (str (codec.price_text cost)) no_fields)))
