-- ===== src/PriceFeed/Tests.antt =====
-- A feed over three cycles, and the theorems about it.
use tee_gateway.Prelude.{ℕ, zero, suc, ◌+◌, ◌≡◌, ◌⊎◌, ◌↔◌, refl, inr, arith, some, [], ◌∷◌, true}
use tee_gateway.Prelude.Int.{negsuc}
use tee_gateway.Prelude.Result.{ok}
use tee_gateway.Prelude.Text.{codes, find_key, lower}
use tee_gateway.Decimal.{Decimal}
use tee_gateway.Decimal.Laws.{IsPositive}
use tee_gateway.PriceFeed.Fetch.{
  Reply, no_response, response, json_object, entry_object, finite, base_mainnet_opg_address,
  check_amount, check_entry, check_body, fetch_opg_price,
}
use tee_gateway.PriceFeed.{
  Feed, new_feed, refresh_price, attempt_fetch, record_success, record_failure, get_price,
  run_cycles,
}
use tee_gateway.PriceFeed.Laws.{
  IsConsistent, BeforeCutover, IsFresh, fetch_opg_price-IsPositive, refresh_price-IsConsistent,
  run_cycles-IsConsistent, get_price_iff,
}
use tee_gateway.PriceFeed.Start.{Reaches, starting, concurrent_start, serial_start}

-- 0.085
abbrev quote : Decimal
quote = record { coeff = 85; exp = negsuc 2 }

abbrev good_reply : Reply
good_reply = response 200 (
    json_object
      ((lower base_mainnet_opg_address, entry_object ((codes "usd", finite quote) ∷ [])) ∷ []))

abbrev rate_limit_reply : Reply
rate_limit_reply = response 429 (json_object [])

-- The first request fails and the second is answered.
abbrev second_time_good : ℕ → Reply
second_time_good (suc (suc zero)) = good_reply
second_time_good _ = no_response

abbrev feed_clock : ℕ → ℕ
feed_clock n = 1780000000 + n

abbrev updated : Feed
updated = (refresh_price second_time_good feed_clock (new_feed 300 3)).feed

good_reply_price : fetch_opg_price good_reply ≡ ok quote
unfolding fetch_opg_price check_body check_entry check_amount find_key lower
good_reply_price = refl

updated_price : updated.price ≡ some quote
unfolding refresh_price attempt_fetch record_success fetch_opg_price check_body check_entry
    check_amount find_key lower new_feed
updated_price = refl

updated_attempts : (refresh_price second_time_good feed_clock (new_feed 300 3)).attempts ≡ 2
unfolding refresh_price attempt_fetch record_success fetch_opg_price check_body check_entry
    check_amount find_key lower new_feed
updated_attempts = refl

rate_limited_attempts : (refresh_price (λ n. rate_limit_reply) feed_clock updated).attempts ≡ 1
unfolding refresh_price attempt_fetch record_success record_failure new_feed fetch_opg_price
    check_body check_entry check_amount find_key lower
rate_limited_attempts = refl

fetch_opg_price-IsPositive_instance : IsPositive quote
fetch_opg_price-IsPositive_instance = fetch_opg_price-IsPositive good_reply quote good_reply_price

updated-IsConsistent : IsConsistent updated
unfolding refresh_price attempt_fetch record_success new_feed fetch_opg_price check_body check_entry
    check_amount find_key lower
updated-IsConsistent = (
  inr (quote, 1780000002, refl, refl, omega arith, omega arith),
  omega arith,
  ((λ e. refl), (λ e. refl)),
)

refresh_price-IsConsistent_instance :
    IsConsistent (refresh_price (λ n. rate_limit_reply) feed_clock updated).feed
refresh_price-IsConsistent_instance =
    refresh_price-IsConsistent (λ n. rate_limit_reply) feed_clock updated updated-IsConsistent

run_cycles-IsConsistent_instance :
    IsConsistent (run_cycles (λ n. second_time_good) (λ n. feed_clock) 3 (new_feed 300 3))
run_cycles-IsConsistent_instance =
    run_cycles-IsConsistent (λ n. second_time_good) (λ n. feed_clock) 3 300 3

get_price_iff_example :
    (get_price 1780000700 updated ≡ ok (quote, true))
    ↔ (BeforeCutover 1780000700 quote true ⊎ IsFresh 1780000700 updated quote true)
get_price_iff_example = get_price_iff 1780000700 updated quote true

updated-get_price : get_price 1780000700 updated ≡ ok (quote, true)
unfolding get_price refresh_price attempt_fetch record_success new_feed fetch_opg_price check_body
    check_entry check_amount find_key lower
updated-get_price = refl

concurrent_start_example : Reaches (starting 2 0 0) (starting 0 0 2)
concurrent_start_example = concurrent_start 2

serial_start_instance : Reaches (starting 2 0 1) (starting 1 0 1)
serial_start_instance = serial_start 1 1
