-- ===== src/Pricing/Laws.antt =====
-- What a session is charged: the conversion, and that a session with work done is never free.
use tee_gateway.Prelude.{
  ℕ, zero, suc, ◌-◌, ◌≤◌, ◌<◌, ◌≡◌, ◌⊎◌, refl, min, inl, inr, arith, Bool-cases, ◌&&◌, Option,
  Option-cases, some, ltb,
}
use tee_gateway.Prelude.Int.{ℤ, clamp_zero}
use tee_gateway.Prelude.Result.{ok}
use tee_gateway.Prelude.Text.{Text, strip, lower}
use tee_gateway.Decimal.{Decimal, of_nat, add, mul, div, ceiling}
use tee_gateway.Decimal.Laws.{
  IsPositive, IsCeiling, ceiling_lem, ceiling-pos, mul-IsPositive, add-IsPositive, div-IsPositive,
  div-defined,
}
use tee_gateway.Registry.Model.{ModelConfig, ImageResolutionTier, image_tier}
use tee_gateway.Registry.{get_model_config}
use tee_gateway.PriceFeed.{Feed}
use tee_gateway.Pricing.{
  SessionCost, Usage, required, optional, single_rate, dual_rate, token_usd, per_image_price,
  per_reference_price, flat_usd, image_usd, scale, settle, current_price, session_cost,
  compute_session_cost,
}

-- The amount is the least integer that is not below the converted value, the USD figure is computed
-- back from it, and a positive raw amount costs at least one unit.
abbrev pub IsSettled : Decimal → Decimal → SessionCost → Type 0
IsSettled raw_usd price c =
    (q : Decimal) × (opg : Decimal) × (div raw_usd price ≡ some q)
    × IsCeiling (mul q scale) c.cost_opg
    × (div (of_nat c.cost_opg) scale ≡ some opg)
    × (c.cost_usd ≡ mul opg price)
    × (c.opg_price_usd ≡ price)
    × (IsPositive raw_usd → 1 ≤ c.cost_opg)

scale-IsPositive : IsPositive scale
scale-IsPositive = omega arith

-- At a positive token price a raw amount has a settlement: the amount in OPG is the least integer that
-- is not below the converted value, the USD figure is that amount converted back, and a positive raw
-- amount costs at least one unit.
pub settle-IsSettled :
    (raw_usd price : Decimal)
    → IsPositive price
    → (c : SessionCost) × (settle raw_usd price ≡ ok c) × IsSettled raw_usd price c
unfolding settle
settle-IsSettled raw_usd price h =
    let (q, e) = div-defined raw_usd price h in
    let cost = ceiling (mul q scale) in
    let (opg, eo) = div-defined (of_nat cost) scale scale-IsPositive in
    (
      record { cost_opg = cost; cost_usd = mul opg price; opg_price_usd = price },
      ground (arith, h, e, eo),
      (
        q,
        opg,
        e,
        ceiling_lem (mul q scale),
        eo,
        refl,
        refl,
        λ positive.
            (let (r, er, rp) = div-IsPositive raw_usd price positive h in
              let same : q ≡ r = ground (arith, e, er) in
              ceiling-pos (mul q scale) (mul-IsPositive q scale (rw same rp) scale-IsPositive)),
      ),
    )

tokens-IsPositive :
    (n : ℕ) (price : Decimal) → 0 < n → IsPositive price → IsPositive (mul (of_nat n) price)
tokens-IsPositive n price h k = mul-IsPositive (of_nat n) price h k

-- Tokens that are billed: input at a positive rate, or output where every output rate is positive.
abbrev pub AreBilled : ModelConfig → ℕ → ℕ → Type 0
AreBilled cfg in_tok out_tok =
    ((0 < in_tok) × IsPositive cfg.input_price_usd)
    ⊎ ((0 < out_tok)
        × IsPositive cfg.output_price_usd
        × ((price : Decimal) → cfg.image_output_price_usd ≡ some price → IsPositive price))

single_rate-IsPositive :
    (cfg : ModelConfig) (in_tok out_tok : ℕ)
    → AreBilled cfg in_tok out_tok
    → IsPositive (single_rate cfg in_tok out_tok)
single_rate-IsPositive cfg in_tok out_tok billed = add-IsPositive _ _ (elim billed [
  | inl (h, k) ↦ inl (tokens-IsPositive in_tok cfg.input_price_usd h k)
  | inr (h, k, l) ↦ inr (tokens-IsPositive out_tok cfg.output_price_usd h k)
])

dual_rate-IsPositive :
    (cfg : ModelConfig) (price : Decimal) (in_tok out_tok reasoning : ℕ)
    → cfg.image_output_price_usd ≡ some price
    → AreBilled cfg in_tok out_tok
    → IsPositive (dual_rate cfg price in_tok out_tok reasoning)
dual_rate-IsPositive cfg price in_tok out_tok reasoning e billed = elim billed [
  | inl (h, k) ↦
      add-IsPositive _ _
        (inl (add-IsPositive _ _ (inl (tokens-IsPositive in_tok cfg.input_price_usd h k))))
  | inr (h, k, l) ↦ elim (Bool-cases (ltb reasoning out_tok)) [
    | inl images ↦ add-IsPositive _ _ (
        inl (
          add-IsPositive _ _ (
            inr (
              tokens-IsPositive (out_tok - min reasoning out_tok) price (ground (arith, images))
                (l price e)))))
    | inr thinking ↦ add-IsPositive _ _ (
        inr (
          tokens-IsPositive (min reasoning out_tok) cfg.output_price_usd
            (ground (arith, thinking, h)) k))
  ]
]

-- The token amount exists once the counts do, and is positive if a token is billed.
token_usd-IsPositive :
    (cfg : ModelConfig) (usage : Usage) (in_tok out_tok reasoning : ℕ)
    → required usage.prompt_tokens ≡ ok in_tok
    → required usage.completion_tokens ≡ ok out_tok
    → optional usage.reasoning_tokens ≡ ok reasoning
    → (usd : Decimal) × (token_usd cfg usage ≡ ok usd)
      × (AreBilled cfg in_tok out_tok → IsPositive usd)
unfolding token_usd
token_usd-IsPositive cfg usage in_tok out_tok reasoning ei eo er =
    let single = (single_rate cfg in_tok out_tok) in
    elim (Bool-cases cfg.image_output) [
      | inr text_only ↦
          (single, ground (arith, text_only, ei, eo), single_rate-IsPositive cfg in_tok out_tok)
      | inl with_images ↦ elim (Option-cases cfg.image_output_price_usd) [
        | inl one_rate ↦ (
          single,
          ground (arith, with_images, one_rate, ei, eo),
          single_rate-IsPositive cfg in_tok out_tok,
        )
        | inr (price, two_rates) ↦ (
          dual_rate cfg price in_tok out_tok reasoning,
          ground (arith, with_images, two_rates, ei, eo, er),
          dual_rate-IsPositive cfg price in_tok out_tok reasoning two_rates,
        )
      ]
    ]

-- Images that are billed: some were made, at a positive price.
abbrev pub AreImagesBilled : ModelConfig → Option ImageResolutionTier → ℕ → Type 0
AreImagesBilled cfg tier images =
    (0 < images) × (price : Decimal) × (per_image_price cfg tier ≡ some price) × IsPositive price

flat_usd-IsPositive :
    (images : ℕ) (price : Decimal)
    → 0 < images
    → IsPositive price
    → IsPositive (flat_usd images (some price))
flat_usd-IsPositive zero price h k = absurd (omega (arith, h))
flat_usd-IsPositive (suc n) price h k = tokens-IsPositive (suc n) price h k

image_usd-IsPositive :
    (cfg : ModelConfig) (tier : Option ImageResolutionTier) (images references : ℕ)
    → AreImagesBilled cfg tier images
    → IsPositive (image_usd cfg tier images references)
unfolding image_usd
image_usd-IsPositive cfg tier images references (h, price, e, k) =
    let output : IsPositive (flat_usd images (per_image_price cfg tier)) =
      rw e (flat_usd-IsPositive images price h k) in
    elim (Option-cases (per_reference_price cfg tier)) [
      | inl unbilled ↦ rw (image_usd, unbilled) output
      | inr (reference, billed) ↦ elim (Bool-cases (ltb 0 images && ltb 0 references)) [
        | inl both ↦ rw (image_usd, billed, both) (add-IsPositive _ _ (inl output))
        | inr only ↦ rw (image_usd, billed, only) output
      ]
    ]

-- For a known model, counts that `int` reads, a resolution that the model offers and a positive token
-- price, a session cost exists; it is the settlement of the token amount and the image amount, each
-- positive if something of it is billed, so that a session with billed tokens or images costs at
-- least one unit.
pub compute_session_cost-IsSettled :
    (feed : Option Feed) (now : ℕ) (model : Text) (usage : Usage) (image_count reference_count : ℤ)
    (resolution : Option Text) (cfg : ModelConfig) (tier : Option ImageResolutionTier)
    (in_tok out_tok reasoning : ℕ) (price : Decimal)
    → get_model_config (lower (strip model)) ≡ ok cfg
    → required usage.prompt_tokens ≡ ok in_tok
    → required usage.completion_tokens ≡ ok out_tok
    → optional usage.reasoning_tokens ≡ ok reasoning
    → image_tier cfg resolution ≡ ok tier
    → current_price feed now ≡ ok price
    → IsPositive price
    → (c : SessionCost) × (tokens : Decimal) × (compute_session_cost feed now model usage
          image_count resolution reference_count
        ≡ some c)
      × (token_usd cfg usage ≡ ok tokens)
      × IsSettled
          (add tokens (image_usd cfg tier (clamp_zero image_count) (clamp_zero reference_count)))
          price
          c
      × (AreBilled cfg in_tok out_tok ⊎ AreImagesBilled cfg tier (clamp_zero image_count)
          → 1 ≤ c.cost_opg)
unfolding compute_session_cost session_cost
compute_session_cost-IsSettled feed now model usage image_count reference_count resolution cfg tier
      in_tok out_tok reasoning price em ei eo er et ep h =
    let (tokens, ek, positive) = token_usd-IsPositive cfg usage in_tok out_tok reasoning ei eo er in
    let images = image_usd cfg tier (clamp_zero image_count) (clamp_zero reference_count) in
    let (c, es, settled) = settle-IsSettled (add tokens images) price h in
    let (q, opg, d0, d1, d2, d3, d4, charge) = settled in
    (
      c,
      tokens,
      rw (em, ek, et, ep, es) refl,
      ek,
      settled,
      λ work. charge (
          add-IsPositive _ _ (elim work [
            | inl billed ↦ inl (positive billed)
            | inr billed ↦ inr (
                image_usd-IsPositive cfg tier (clamp_zero image_count) (clamp_zero reference_count)
                  billed)
          ])),
    )
