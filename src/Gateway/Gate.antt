-- ===== src/Gateway/Gate.antt =====
-- `_check_pricing_ready` of tee_gateway/__main__.py: the gate before inference.
use tee_gateway.Prelude.{
  ℕ, ◌≡◌, ◌↔◌, refl, inl, inr, arith, Bool, Bool-cases, true, false, List, [], ◌∷◌, if◌then◌else◌,
}
use tee_gateway.Prelude.Result.{Result-cases, ok, err}
use tee_gateway.Prelude.Text.{Text, codes, text_mem}
use tee_gateway.Prelude.Json.{Json, null, bool, int, float, str, arr, obj, get, truthy}
use tee_gateway.Decimal.{Decimal}
use tee_gateway.Registry.Model.{ModelConfig}
use tee_gateway.Registry.{get_model_config}
use tee_gateway.PriceFeed.{Feed, PriceError, get_price}

-- The request goes on, is answered with 503 or 400, or the gate raises.
pub data Verdict : Type 0 where
  goes_on : Verdict
  pricing_unavailable : PriceError → Verdict
  not_supported : Verdict
  gate_raised : Verdict

abbrev pub priced_paths : List Text
priced_paths =
    codes "/v1/chat/completions"
    ∷ codes "/v1/completions"
    ∷ codes "/v1/ohttp"
    ∷ codes "/v1/web_search"
    ∷ []

-- OHTTP's model is in the ciphertext, and a web search has none.
abbrev pub modelless_paths : List Text
modelless_paths = codes "/v1/ohttp" ∷ codes "/v1/web_search" ∷ []

-- body.get("model"): a value that is true and no text has no `strip`.
unfoldable pub check_model : Json → Verdict
check_model (str []) = goes_on
check_model (str (c ∷ name)) = elim (get_model_config (c ∷ name)) [
  | ok cfg ↦ goes_on
  | err e ↦ not_supported
]
check_model other = if truthy other then gate_raised else goes_on

-- The JSON body, null where there is none; a value that is true and no object has no `get`.
unfoldable pub check_named_model : Json → Verdict
unfolding check_model
check_named_model (obj fs) = check_model (get (codes "model") fs)
check_named_model other = if truthy other then gate_raised else goes_on

unfoldable pub check_pricing_ready : Text → Json → ℕ → Feed → Verdict
unfolding check_named_model
check_pricing_ready path body now feed = elim (text_mem path priced_paths) [
  | false ↦ goes_on
  | true ↦ elim (get_price now feed) [
    | err e ↦ pricing_unavailable e
    | ok price ↦ elim (text_mem path modelless_paths) [
      | true ↦ goes_on
      | false ↦ check_named_model body
    ]
  ]
]

-- The body is empty, or it is an object whose model is missing, is false in a test, or is a name that
-- the registry knows.
abbrev pub IsKnownModel : Json → Type 0
IsKnownModel (str []) = Unit
IsKnownModel (str (c ∷ name)) = (cfg : ModelConfig) × (get_model_config (c ∷ name) ≡ ok cfg)
IsKnownModel other = truthy other ≡ false

abbrev pub IsKnown : Json → Type 0
IsKnown (obj fs) = IsKnownModel (get (codes "model") fs)
IsKnown other = truthy other ≡ false

-- A test for truth decides a verdict.
passes-falsy : (b : Bool) → (if b then gate_raised else goes_on) ≡ goes_on → b ≡ false
passes-falsy true h = absurd (ground (arith, h))
passes-falsy false h = refl

falsy-passes : (b : Bool) → b ≡ false → (if b then gate_raised else goes_on) ≡ goes_on
falsy-passes b h = rw h refl

check_model-IsKnownModel : (model : Json) → check_model model ≡ goes_on → IsKnownModel model
unfolding check_model
check_model-IsKnownModel (str []) h = tt
check_model-IsKnownModel (str (c ∷ name)) h = elim (Result-cases (get_model_config (c ∷ name))) [
  | inl known ↦ known
  | inr (e, unknown) ↦ absurd (ground (arith, unknown, h))
]
check_model-IsKnownModel null h = passes-falsy _ h
check_model-IsKnownModel (bool b) h = passes-falsy _ h
check_model-IsKnownModel (int n) h = passes-falsy _ h
check_model-IsKnownModel (float x) h = passes-falsy _ h
check_model-IsKnownModel (arr vs) h = passes-falsy _ h
check_model-IsKnownModel (obj fs) h = passes-falsy _ h

IsKnownModel-check_model : (model : Json) → IsKnownModel model → check_model model ≡ goes_on
unfolding check_model
IsKnownModel-check_model (str []) h = refl
IsKnownModel-check_model (str (c ∷ name)) (cfg, known) = rw (check_model, known) refl
IsKnownModel-check_model null h = falsy-passes _ h
IsKnownModel-check_model (bool b) h = falsy-passes _ h
IsKnownModel-check_model (int n) h = falsy-passes _ h
IsKnownModel-check_model (float x) h = falsy-passes _ h
IsKnownModel-check_model (arr vs) h = falsy-passes _ h
IsKnownModel-check_model (obj fs) h = falsy-passes _ h

check_named_model-IsKnown : (body : Json) → check_named_model body ≡ goes_on → IsKnown body
unfolding check_named_model
check_named_model-IsKnown (obj fs) h = check_model-IsKnownModel (get (codes "model") fs) h
check_named_model-IsKnown null h = passes-falsy _ h
check_named_model-IsKnown (bool b) h = passes-falsy _ h
check_named_model-IsKnown (int n) h = passes-falsy _ h
check_named_model-IsKnown (float x) h = passes-falsy _ h
check_named_model-IsKnown (str s) h = passes-falsy _ h
check_named_model-IsKnown (arr vs) h = passes-falsy _ h

IsKnown-check_named_model : (body : Json) → IsKnown body → check_named_model body ≡ goes_on
unfolding check_named_model
IsKnown-check_named_model (obj fs) h = IsKnownModel-check_model (get (codes "model") fs) h
IsKnown-check_named_model null h = falsy-passes _ h
IsKnown-check_named_model (bool b) h = falsy-passes _ h
IsKnown-check_named_model (int n) h = falsy-passes _ h
IsKnown-check_named_model (float x) h = falsy-passes _ h
IsKnown-check_named_model (str s) h = falsy-passes _ h
IsKnown-check_named_model (arr vs) h = falsy-passes _ h

-- On a priced path a request goes on exactly if the feed gives a price and, except for OHTTP and web
-- search, the JSON body is false in a test, or it is an object whose model is missing, is false in a
-- test, or is the name of a model that the registry knows.
pub check_pricing_ready_iff :
    (path : Text) (body : Json) (now : ℕ) (feed : Feed)
    → text_mem path priced_paths ≡ true
    → (check_pricing_ready path body now feed ≡ goes_on) ↔ (
        ((price : Decimal × Bool) × (get_price now feed ≡ ok price))
        × ((text_mem path modelless_paths ≡ false) → IsKnown body))
unfolding check_pricing_ready
check_pricing_ready_iff path body now feed priced = elim (Result-cases (get_price now feed)) [
  | inr (e, failed) ↦ (
    λ passed. absurd (ground (arith, priced, failed, passed)),
    λ (known, k). absurd (ground (arith, failed, known.1)),
  )
  | inl (price, given) ↦ elim (Bool-cases (text_mem path modelless_paths)) [
    | inl modelless ↦ (
      λ passed. ((price, given), λ modelled. absurd (ground (arith, modelless, modelled))),
      λ known. rw (check_pricing_ready, priced, given, modelless) refl,
    )
    | inr modelled ↦ (
      λ passed. (
        (price, given),
        λ k. check_named_model-IsKnown body (ground (arith, priced, given, modelled, passed)),
      ),
      λ (some_price, known).
          rw (check_pricing_ready, priced, given, modelled)
            (IsKnown-check_named_model body (known modelled)),
    )
  ]
]
