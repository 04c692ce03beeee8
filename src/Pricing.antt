-- ===== src/Pricing.antt =====
-- tee_gateway/pricing.py and the registration of the price feed (tee_gateway/price_feed/__init__.py).
-- Raising and catching is an error of `Result`, which `compute_session_cost` turns into `none`.
pub mod Laws
pub mod Charge
mod Tests
use tee_gateway.Prelude.{
  ℕ, zero, suc, ◌+◌, ◌-◌, ◌*◌, ◌^◌, min, Bool, true, false, ◌&&◌, Option, none, some, ltb, ◌==◌,
  if◌then◌else◌,
}
use tee_gateway.Prelude.Int.{ℤ, clamp_zero}
use tee_gateway.Prelude.Result.{Result, ok, err, ◌>>=◌}
use tee_gateway.Prelude.Text.{Text, strip, lower}
use tee_gateway.Decimal.{Decimal, of_nat, is_zero, add, mul, div, ceiling}
use tee_gateway.Registry.Model.{ModelConfig, ImageResolutionTier, RegistryError, image_tier}
use tee_gateway.Registry.{get_model_config}
use tee_gateway.Registry.Lookup.{web_search_price_usd}
use tee_gateway.PriceFeed.{Feed, PriceError, get_price}

-- The decimals of the OPG token, `_OPG_DECIMALS`.
abbrev pub opg_decimals : ℕ
opg_decimals = 18

pub record SessionCost : Type 0 where
  pub cost_opg : ℕ
  pub cost_usd : Decimal
  pub opg_price_usd : Decimal

-- A value of the usage dict: the key is missing (or the value is None, where the code allows that),
-- `int` refuses it, or `int` gives a number.
pub data Count : Type 0 where
  absent : Count
  refused : Count
  counted : ℤ → Count

pub record Usage : Type 0 where
  pub prompt_tokens : Count
  pub completion_tokens : Count
  pub reasoning_tokens : Count

pub data CostError : Type 0 where
  registry_error : RegistryError → CostError
  bad_usage : CostError
  feed_not_initialized : CostError
  price_error : PriceError → CostError
  non_positive_price : CostError
  division_by_zero : CostError

-- max(0, int(usage[key]))
unfoldable pub required : Count → Result CostError ℕ
required absent = err bad_usage
required refused = err bad_usage
required (counted n) = ok (clamp_zero n)

-- max(0, int(usage.get(key, 0) or 0))
unfoldable pub optional : Count → Result CostError ℕ
optional absent = ok 0
optional refused = err bad_usage
optional (counted n) = ok (clamp_zero n)

abbrev pub single_rate : ModelConfig → ℕ → ℕ → Decimal
single_rate cfg in_tok out_tok =
    add (mul (of_nat in_tok) cfg.input_price_usd) (mul (of_nat out_tok) cfg.output_price_usd)

-- Output tokens that are not reasoning are billed at the image rate.
abbrev pub dual_rate : ModelConfig → Decimal → ℕ → ℕ → ℕ → Decimal
dual_rate cfg image_price in_tok out_tok reasoning =
    let reasoning_tok = min reasoning out_tok in
    let image_tok = out_tok - reasoning_tok in
    add (add (mul (of_nat in_tok) cfg.input_price_usd) (mul (of_nat image_tok) image_price))
      (mul (of_nat reasoning_tok) cfg.output_price_usd)

-- raw_usd before the images are added.
unfoldable pub token_usd : ModelConfig → Usage → Result CostError Decimal
unfolding required optional
token_usd cfg usage = required usage.prompt_tokens >>= λ in_tok.
    required usage.completion_tokens >>= λ out_tok. elim cfg.image_output [
      | false ↦ ok (single_rate cfg in_tok out_tok)
      | true ↦ elim cfg.image_output_price_usd [
        | none ↦ ok (single_rate cfg in_tok out_tok)
        | some image_price ↦ optional usage.reasoning_tokens >>= λ reasoning.
            ok (dual_rate cfg image_price in_tok out_tok reasoning)
      ]
    ]

abbrev pub per_image_price : ModelConfig → Option ImageResolutionTier → Option Decimal
per_image_price cfg none = cfg.per_image_price_usd
per_image_price cfg (some tier) = some tier.per_image_price_usd

abbrev pub per_reference_price : ModelConfig → Option ImageResolutionTier → Option Decimal
per_reference_price cfg none = cfg.per_reference_image_price_usd
per_reference_price cfg (some tier) = elim tier.per_reference_image_price_usd [
  | none ↦ cfg.per_reference_image_price_usd
  | some price ↦ some price
]

-- Decimal(count) * price, where there is a price and something to bill.
abbrev pub flat_usd : ℕ → Option Decimal → Decimal
flat_usd zero price = of_nat 0
flat_usd (suc n) none = of_nat 0
flat_usd (suc n) (some price) = mul (of_nat (suc n)) price

unfoldable pub image_usd : ModelConfig → Option ImageResolutionTier → ℕ → ℕ → Decimal
image_usd cfg tier images references =
    let output = flat_usd images (per_image_price cfg tier) in
    elim (per_reference_price cfg tier) [
      | none ↦ output
      | some price ↦
          if ltb 0 images && ltb 0 references
          then add output (mul (of_nat references) price)
          else output
    ]

-- Decimal(10) ** _OPG_DECIMALS, which is exact.
abbrev pub scale : Decimal
scale = of_nat (10 ^ opg_decimals)

abbrev pub quotient : Decimal → Decimal → Result CostError Decimal
quotient a b = elim (div a b) [ none ↦ err division_by_zero | some q ↦ ok q ]

-- The conversion of a raw USD amount at a token price, with the USD figure from the rounded amount.
unfoldable pub settle : Decimal → Decimal → Result CostError SessionCost
settle raw_usd token_price_usd =
    if is_zero token_price_usd
    then err non_positive_price
    else (quotient raw_usd token_price_usd >>= λ q.
        (let cost = ceiling (mul q scale) in
          quotient (of_nat cost) scale >>= λ opg. ok (record {
            cost_opg = cost;
            cost_usd = mul opg token_price_usd;
            opg_price_usd = token_price_usd;
          })))

abbrev pub lift_registry {ℓ} : {A : Type ℓ} → Result RegistryError A → Result CostError A
lift_registry (ok a) = ok a
lift_registry (err e) = err (registry_error e)

-- get_price_feed().get_price()
unfoldable pub current_price : Option Feed → ℕ → Result CostError Decimal
current_price none now = err feed_not_initialized
current_price (some feed) now = elim (get_price now feed) [
  | err e ↦ err (price_error e)
  | ok (price, warned) ↦ ok price
]

-- The body of the `try` of compute_session_cost.
unfoldable pub session_cost :
    Option Feed → ℕ → Text → Usage → ℤ → Option Text → ℤ → Result CostError SessionCost
unfolding token_usd image_usd settle current_price
session_cost feed now model usage image_count resolution reference_count =
    lift_registry (get_model_config (lower (strip model))) >>= λ cfg.
    token_usd cfg usage >>= λ tokens. lift_registry (image_tier cfg resolution) >>= λ tier.
    current_price feed now >>= λ token_price_usd.
    settle (add tokens (image_usd cfg tier (clamp_zero image_count) (clamp_zero reference_count)))
      token_price_usd

abbrev pub to_option : Result CostError SessionCost → Option SessionCost
to_option (ok cost) = some cost
to_option (err e) = none

unfoldable pub compute_session_cost :
    Option Feed → ℕ → Text → Usage → ℤ → Option Text → ℤ → Option SessionCost
unfolding session_cost
compute_session_cost feed now model usage image_count resolution reference_count =
    to_option (session_cost feed now model usage image_count resolution reference_count)

unfoldable pub compute_web_search_cost : Option Feed → ℕ → Option SessionCost
unfolding settle current_price
compute_web_search_cost feed now =
    to_option
      (current_price feed now >>= λ token_price_usd. settle web_search_price_usd token_price_usd)
