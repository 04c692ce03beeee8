-- ===== src/Pricing/Tests.antt =====
-- A session with GPT-5 and one with Krea 3 at a live price, and the theorems about them.
use tee_gateway.Prelude.{◌⊎◌, ◌≡◌, ◌≤◌, ◌<◌, refl, inl, inr, arith, none, some}
use tee_gateway.Prelude.Int.{pos}
use tee_gateway.Prelude.Result.{ok}
use tee_gateway.Prelude.Text.{Text, codes, is_space, lstrip, rstrip, strip, lower, find_key}
use tee_gateway.Decimal.{
  Decimal, digits_fuel, count_digits, half_even, fix, mul, add, div, div_scaled, strip_zeros,
  ceiling,
}
use tee_gateway.Registry.Model.{usd, image_tier, tier_at}
use tee_gateway.Registry.OpenAi.{gpt_5}
use tee_gateway.Registry.Lookup.{model_lookup, web_search_price_usd}
use tee_gateway.Registry.{get_model_config}
use tee_gateway.PriceFeed.{Feed, get_price}
use tee_gateway.PriceFeed.Laws.{IsConsistent}
use tee_gateway.Pricing.{
  SessionCost, Usage, absent, counted, required, optional, token_usd, image_usd, settle,
  current_price, session_cost, compute_session_cost, compute_web_search_cost,
}
use tee_gateway.Pricing.Laws.{
  IsSettled, settle-IsSettled, AreBilled, AreImagesBilled, compute_session_cost-IsSettled,
}
use tee_gateway.Pricing.Charge.{
  session_never_free, compute_web_search_cost-IsSettled, current_price-IsPositive,
}

-- 0.125
abbrev live_price : Decimal
live_price = usd 125 3

abbrev live_feed : Feed
live_feed = record {
  refresh_interval = 300;
  max_retries = 3;
  price = some live_price;
  last_success = some 1780000000;
  last_error = none;
  consecutive_failures = 0;
  total_fetches = 1;
  total_errors = 0;
}

live_feed-IsConsistent : IsConsistent live_feed
live_feed-IsConsistent = (
  inr (live_price, 1780000000, refl, refl, omega arith, omega arith),
  omega arith,
  ((λ e. refl), (λ e. refl)),
)

abbrev chat_usage : Usage
chat_usage = record {
  prompt_tokens = counted (pos 1000);
  completion_tokens = counted (pos 500);
  reasoning_tokens = absent;
}

abbrev gpt_5_name : Text
gpt_5_name = codes "GPT-5"

found_model : get_model_config (lower (strip gpt_5_name)) ≡ ok gpt_5
unfolding get_model_config model_lookup find_key strip lstrip rstrip is_space lower
found_model = refl

live_current_price : current_price (some live_feed) 1780000100 ≡ ok live_price
unfolding current_price get_price
live_current_price = refl

-- 0.00625 USD at 0.125 USD for one OPG is 0.05 OPG.
chat_cost :
    compute_session_cost (some live_feed) 1780000100 gpt_5_name chat_usage (pos 0) none (pos 0)
    ≡ some
        (record { cost_opg = 50000000000000000; cost_usd = usd 625 5; opg_price_usd = live_price })
unfolding compute_session_cost session_cost current_price get_price get_model_config model_lookup
    find_key strip lstrip rstrip is_space lower token_usd image_usd settle required optional
    image_tier tier_at fix half_even count_digits digits_fuel mul add div div_scaled strip_zeros
    ceiling
chat_cost = refl

-- Without a feed, no cost.
no_feed_cost : compute_web_search_cost none 0 ≡ none
unfolding compute_web_search_cost current_price
no_feed_cost = refl

settle-IsSettled_instance :
    (c : SessionCost) × (settle (usd 1 9) live_price ≡ ok c) × IsSettled (usd 1 9) live_price c
settle-IsSettled_instance = settle-IsSettled (usd 1 9) live_price (omega arith)

current_price-IsPositive_instance : 0 < live_price.coeff
current_price-IsPositive_instance =
    current_price-IsPositive live_feed 1780000100 live_price live_feed-IsConsistent
      live_current_price

required_prompt : required chat_usage.prompt_tokens ≡ ok 1000
unfolding required
required_prompt = refl

required_completion : required chat_usage.completion_tokens ≡ ok 500
unfolding required
required_completion = refl

no_reasoning : optional chat_usage.reasoning_tokens ≡ ok 0
unfolding optional
no_reasoning = refl

no_tier : image_tier gpt_5 none ≡ ok none
unfolding image_tier tier_at strip lstrip rstrip
no_tier = refl

session_never_free_example :
    (c : SessionCost) × (compute_session_cost
        (some live_feed)
        1780000100
        gpt_5_name
        chat_usage
        (pos 0)
        none
        (pos 0)
      ≡ some c)
    × (1 ≤ c.cost_opg)
session_never_free_example =
    session_never_free live_feed 1780000100 gpt_5_name chat_usage (pos 0) (pos 0) none gpt_5 none
      1000 500 0 live_price live_feed-IsConsistent live_current_price found_model required_prompt
      required_completion no_reasoning no_tier (inl (refl, omega arith))

compute_session_cost-IsSettled_example :
    (c : SessionCost) × (tokens : Decimal) × (compute_session_cost
        (some live_feed)
        1780000100
        gpt_5_name
        chat_usage
        (pos 0)
        none
        (pos 0)
      ≡ some c)
    × (token_usd gpt_5 chat_usage ≡ ok tokens)
    × IsSettled (add tokens (image_usd gpt_5 none 0 0)) live_price c
    × (AreBilled gpt_5 1000 500 ⊎ AreImagesBilled gpt_5 none 0 → 1 ≤ c.cost_opg)
compute_session_cost-IsSettled_example =
    compute_session_cost-IsSettled (some live_feed) 1780000100 gpt_5_name chat_usage (pos 0) (pos 0)
      none gpt_5 none 1000 500 0 live_price found_model required_prompt required_completion
      no_reasoning no_tier live_current_price (omega arith)

compute_web_search_cost-IsSettled_instance :
    (c : SessionCost) × (compute_web_search_cost (some live_feed) 1780000100 ≡ some c)
    × IsSettled web_search_price_usd live_price c
    × (1 ≤ c.cost_opg)
compute_web_search_cost-IsSettled_instance =
    compute_web_search_cost-IsSettled live_feed 1780000100 live_price live_feed-IsConsistent
      live_current_price
