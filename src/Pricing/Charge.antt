-- ===== src/Pricing/Charge.antt =====
-- The price feed, the registry and the settlement together: whoever makes the gateway work pays.
use tee_gateway.Prelude.{
  ℕ, ◌+◌, ◌≤◌, ◌<◌, ◌≡◌, ◌⊎◌, refl, inl, inr, arith, Bool, Bool-cases, true, false, Option, none,
  some, ltb,
}
use tee_gateway.Prelude.Int.{ℤ, clamp_zero}
use tee_gateway.Prelude.Result.{Result-cases, ok}
use tee_gateway.Prelude.Text.{Text, strip, lower}
use tee_gateway.Decimal.{Decimal}
use tee_gateway.Decimal.Laws.{IsPositive}
use tee_gateway.Registry.Model.{ModelConfig, ImageResolutionTier, image_tier}
use tee_gateway.Registry.Lookup.{web_search_price_usd}
use tee_gateway.Registry.{get_model_config}
use tee_gateway.Registry.Laws.{IsBillable, get_model_config-IsBillable, image_tier-found}
use tee_gateway.PriceFeed.{Feed, get_price, tge_fallback_price_usd}
use tee_gateway.PriceFeed.Laws.{IsConsistent, get_price_iff}
use tee_gateway.Pricing.{
  SessionCost, Usage, required, optional, per_image_price, current_price, compute_session_cost,
  compute_web_search_cost,
}
use tee_gateway.Pricing.Laws.{
  AreBilled, AreImagesBilled, IsSettled, settle-IsSettled, compute_session_cost-IsSettled,
}

fallback-IsPositive : IsPositive tge_fallback_price_usd
fallback-IsPositive = omega arith

get_price-IsPositive :
    (f : Feed) (now : ℕ) (p : Decimal) (warned : Bool)
    → IsConsistent f
    → get_price now f ≡ ok (p, warned)
    → IsPositive p
get_price-IsPositive f now p warned h e = elim ((get_price_iff now f p warned).0 e) [
  | inl (early, fallback, w) ↦ rw fallback fallback-IsPositive
  | inr (t, cached, success, late, fresh, w) ↦ elim h.0 [
    | inl (missing, k, l) ↦ absurd (ground (arith, cached, missing))
    | inr (q, u, eq, eu, fetched, positive) ↦
        let same : p ≡ q = ground (arith, cached, eq) in rw same positive
  ]
]

-- The token price of a consistent feed is positive.
pub current_price-IsPositive :
    (f : Feed) (now : ℕ) (p : Decimal)
    → IsConsistent f
    → current_price (some f) now ≡ ok p
    → IsPositive p
unfolding current_price
current_price-IsPositive f now p h e = elim (Result-cases (get_price now f)) [
  | inl ((q, warned), given) ↦
      let same : p ≡ q = ground (arith, given, e) in
      rw same (get_price-IsPositive f now q warned h given)
  | inr (exc, failed) ↦ absurd (ground (arith, failed, e))
]

per_image_price-IsPositive :
    (cfg : ModelConfig) (resolution : Option Text) (tier : Option ImageResolutionTier)
    → IsBillable cfg
    → cfg.image_generation ≡ true
    → image_tier cfg resolution ≡ ok tier
    → (price : Decimal) × (per_image_price cfg tier ≡ some price) × IsPositive price
per_image_price-IsPositive cfg resolution none h images e =
    let (price, k) = h.1 images in (price, k, h.2 price k)
per_image_price-IsPositive cfg resolution (some tier) h images e =
    let (name, found) = image_tier-found cfg resolution tier e in
    (tier.per_image_price_usd, refl, h.4 name tier found)

-- What a request makes the provider do: tokens of a text model, or images of an image model.
abbrev pub IsUsed : ModelConfig → ℕ → ℕ → ℤ → Type 0
IsUsed cfg in_tok out_tok image_count =
    ((cfg.image_generation ≡ false) × (0 < in_tok + out_tok))
    ⊎ ((cfg.image_generation ≡ true) × (0 < clamp_zero image_count))

used-billed :
    (cfg : ModelConfig) (resolution : Option Text) (tier : Option ImageResolutionTier)
    (in_tok out_tok : ℕ) (image_count : ℤ)
    → IsBillable cfg
    → image_tier cfg resolution ≡ ok tier
    → IsUsed cfg in_tok out_tok image_count
    → AreBilled cfg in_tok out_tok ⊎ AreImagesBilled cfg tier (clamp_zero image_count)
used-billed cfg resolution tier in_tok out_tok image_count h e (inr (images, made)) =
    let (price, k, positive) = per_image_price-IsPositive cfg resolution tier h images e in
    inr (made, price, k, positive)
used-billed cfg resolution tier in_tok out_tok image_count h e (inl (tokens, used)) =
    let (input, output) = h.0 tokens in
    elim (Bool-cases (ltb 0 in_tok)) [
      | inl asked ↦ inl (inl (ground (arith, asked), input))
      | inr empty ↦ inl (inr (ground (arith, empty, used), output, h.3))
    ]

-- A session that used a model of the registry (tokens of a text model, or images of an image model),
-- with counts that `int` reads and a resolution that the model offers, while a consistent feed gives a
-- price, has a cost, and that is at least one unit of OPG: it is never free and its cost is never
-- missing.
pub session_never_free :
    (f : Feed) (now : ℕ) (model : Text) (usage : Usage) (image_count reference_count : ℤ)
    (resolution : Option Text) (cfg : ModelConfig) (tier : Option ImageResolutionTier)
    (in_tok out_tok reasoning : ℕ) (price : Decimal)
    → IsConsistent f
    → current_price (some f) now ≡ ok price
    → get_model_config (lower (strip model)) ≡ ok cfg
    → required usage.prompt_tokens ≡ ok in_tok
    → required usage.completion_tokens ≡ ok out_tok
    → optional usage.reasoning_tokens ≡ ok reasoning
    → image_tier cfg resolution ≡ ok tier
    → IsUsed cfg in_tok out_tok image_count
    → (c : SessionCost) × (compute_session_cost
          (some f)
          now
          model
          usage
          image_count
          resolution
          reference_count
        ≡ some c)
      × (1 ≤ c.cost_opg)
session_never_free f now model usage image_count reference_count resolution cfg tier in_tok out_tok
      reasoning price consistent ep em ei eo er et used =
    let (c, tokens, cost, ek, settled, charge) =
      compute_session_cost-IsSettled (some f) now model usage image_count reference_count resolution
        cfg tier in_tok out_tok reasoning price em ei eo er et ep
        (current_price-IsPositive f now price consistent ep) in
    let billable = get_model_config-IsBillable (lower (strip model)) cfg em in
    (c, cost, charge (used-billed cfg resolution tier in_tok out_tok image_count billable et used))

web_search_price-IsPositive : IsPositive web_search_price_usd
web_search_price-IsPositive = omega arith

-- While the feed gives a price, a web search has a cost: the settlement of its flat price, of at least
-- one unit of OPG.
pub compute_web_search_cost-IsSettled :
    (f : Feed) (now : ℕ) (price : Decimal)
    → IsConsistent f
    → current_price (some f) now ≡ ok price
    → (c : SessionCost) × (compute_web_search_cost (some f) now ≡ some c)
      × IsSettled web_search_price_usd price c
      × (1 ≤ c.cost_opg)
unfolding compute_web_search_cost
compute_web_search_cost-IsSettled f now price consistent ep =
    let (c, es, settled) =
      settle-IsSettled web_search_price_usd price
        (current_price-IsPositive f now price consistent ep) in
    let (q, opg, d0, d1, d2, d3, d4, charge) = settled in
    (c, rw (ep, es) refl, settled, charge web_search_price-IsPositive)
