-- ===== src/PriceFeed.antt =====
-- tee_gateway/price_feed/feed.py and config.py: the OPG/USD price from CoinGecko, and its cache. Times
-- are whole seconds since the epoch.
pub mod Fetch
pub mod Laws
pub mod Start
mod Tests
use tee_gateway.Prelude.{
  ℕ, zero, suc, ◌+◌, ◌-◌, ◌*◌, Option, none, some, Bool, true, false, ltb, ◌==◌, if◌then◌else◌,
}
use tee_gateway.Prelude.Int.{negsuc}
use tee_gateway.Prelude.Result.{Result, ok, err}
use tee_gateway.Decimal.{Decimal}
use tee_gateway.PriceFeed.Fetch.{FetchError, http_error, Reply, fetch_opg_price}

-- 21 April 2026, 12:30 UTC
abbrev pub tge_cutover_utc : ℕ
tge_cutover_utc = 1776774600

-- 0.10
abbrev pub tge_fallback_price_usd : Decimal
tge_fallback_price_usd = record { coeff = 10; exp = negsuc 1 }

abbrev pub stale_warning_multiplier : ℕ
stale_warning_multiplier = 2

abbrev pub stale_price_max_age : ℕ
stale_price_max_age = 4 * 60 * 60

-- What `last_error` describes: the last exception, or "unknown error" where no attempt was made.
pub data Failure : Type 0 where
  raised : FetchError → Failure
  unknown_error : Failure

-- OPGPriceFeed, less its lock and its thread.
pub record Feed : Type 0 where
  pub refresh_interval : ℕ
  pub max_retries : ℕ
  pub price : Option Decimal
  pub last_success : Option ℕ
  pub last_error : Option Failure
  pub consecutive_failures : ℕ
  pub total_fetches : ℕ
  pub total_errors : ℕ

unfoldable pub new_feed : ℕ → ℕ → Feed
new_feed refresh_interval max_retries = record {
  refresh_interval = refresh_interval;
  max_retries = max_retries;
  price = none;
  last_success = none;
  last_error = none;
  consecutive_failures = 0;
  total_fetches = 0;
  total_errors = 0;
}

-- The critical section after a fetch that gave `price`, at time `now`.
unfoldable pub record_success : Decimal → ℕ → Feed → Feed
record_success price now f = record f {
  price = some price;
  last_success = some now;
  last_error = none;
  consecutive_failures = 0;
  total_fetches = suc f.total_fetches;
}

-- The critical section after the last attempt.
unfoldable pub record_failure : Option FetchError → Feed → Feed
record_failure last_exc f = record f {
  total_errors = suc f.total_errors;
  consecutive_failures = suc f.consecutive_failures;
  last_error = some (elim last_exc [ none ↦ unknown_error | some e ↦ raised e ]);
}

-- HTTP 429 ends the retries.
abbrev pub is_rate_limited : FetchError → Bool
is_rate_limited (http_error status) = status == 429
is_rate_limited _ = false

-- What a refresh leaves: the feed, the requests sent and the delays between them.
pub record Cycle : Type 0 where
  pub feed : Feed
  pub attempts : ℕ
  pub sleeps : ℕ

-- The attempts from number `attempt` on, of which `left` are left. The n-th request gets `replies n`,
-- and the clock then reads `clock n`.
unfoldable pub attempt_fetch : (ℕ → Reply) → (ℕ → ℕ) → ℕ → ℕ → ℕ → Option FetchError → Feed → Cycle
attempt_fetch replies clock zero attempt sleeps last_exc f = record {
  feed = record_failure last_exc f;
  attempts = attempt - 1;
  sleeps = sleeps;
}
attempt_fetch replies clock (suc left) attempt sleeps last_exc f =
    elim (fetch_opg_price (replies attempt)) [
      | ok price ↦ record {
        feed = record_success price (clock attempt) f;
        attempts = attempt;
        sleeps = sleeps;
      }
      | err exc ↦ elim (is_rate_limited exc) [
        | true ↦ record { feed = record_failure (some exc) f; attempts = attempt; sleeps = sleeps }
        | false ↦
            attempt_fetch replies clock left (suc attempt)
              (if ltb attempt f.max_retries then suc sleeps else sleeps) (some exc) f
      ]
    ]

-- _refresh_price
unfoldable pub refresh_price : (ℕ → Reply) → (ℕ → ℕ) → Feed → Cycle
unfolding attempt_fetch
refresh_price replies clock f = attempt_fetch replies clock f.max_retries 1 0 none f

-- The two ValueErrors of `get_price`.
pub data PriceError : Type 0 where
  not_available : PriceError
  expired : PriceError

-- get_price: the price, and whether the stale-price warning is logged.
unfoldable pub get_price : ℕ → Feed → Result PriceError (Decimal × Bool)
get_price now f =
    if ltb now tge_cutover_utc then ok (tge_fallback_price_usd, false) else elim f.price [
      | none ↦ err not_available
      | some price ↦ elim f.last_success [
        | none ↦ err not_available
        | some success ↦
            if ltb (success + stale_price_max_age) now
            then err expired
            else ok (price, ltb (success + f.refresh_interval * stale_warning_multiplier) now)
      ]
    ]

-- _run_with_initial_fetch, for as many cycles as have run.
unfoldable pub run_cycles : (ℕ → ℕ → Reply) → (ℕ → ℕ → ℕ) → ℕ → Feed → Feed
unfolding refresh_price
run_cycles replies clock zero f = f
run_cycles replies clock (suc n) f =
    (refresh_price (replies n) (clock n) (run_cycles replies clock n f)).feed
