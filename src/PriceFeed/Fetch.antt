-- ===== src/PriceFeed/Fetch.antt =====
-- fetch_opg_price of tee_gateway/price_feed/feed.py. What `requests` and `Decimal(str(…))` make of
-- CoinGecko's answer is data.
use tee_gateway.Prelude.{ℕ, none, some, List, ◌&&◌, leb, if◌then◌else◌}
use tee_gateway.Prelude.Result.{Result, ok, err}
use tee_gateway.Prelude.Text.{Text, codes, lower, find_key}
use tee_gateway.Decimal.{Decimal, is_zero}

abbrev pub base_mainnet_opg_address : Text
base_mainnet_opg_address = codes "0xFbC2051AE2265686a469421b2C5A2D5462FbF5eB"

-- Decimal(str(value)) of a JSON value.
pub data Amount : Type 0 where
  not_a_number : Amount
  not_finite : Amount
  negative : Amount
  finite : Decimal → Amount

-- The value at the contract address.
pub data PriceEntry : Type 0 where
  entry_object : List (Text × Amount) → PriceEntry
  entry_other : PriceEntry

pub data Body : Type 0 where
  not_json : Body
  json_object : List (Text × PriceEntry) → Body
  json_other : Body

pub data Reply : Type 0 where
  no_response : Reply
  response : ℕ → Body → Reply

pub data FetchError : Type 0 where
  request_failed : FetchError
  http_error : ℕ → FetchError
  bad_json : FetchError
  unexpected_response : FetchError
  invalid_decimal : FetchError
  invalid_price : FetchError

unfoldable pub check_amount : Amount → Result FetchError Decimal
check_amount not_a_number = err invalid_decimal
check_amount not_finite = err invalid_price
check_amount negative = err invalid_price
check_amount (finite d) = if is_zero d then err invalid_price else ok d

unfoldable pub check_entry : PriceEntry → Result FetchError Decimal
unfolding check_amount
check_entry entry_other = err unexpected_response
check_entry (entry_object fields) = elim (find_key (codes "usd") fields) [
  | none ↦ err unexpected_response
  | some amount ↦ check_amount amount
]

unfoldable pub check_body : Body → Result FetchError Decimal
unfolding check_entry
check_body not_json = err bad_json
check_body json_other = err unexpected_response
check_body (json_object entries) = elim (find_key (lower base_mainnet_opg_address) entries) [
  | none ↦ err unexpected_response
  | some entry ↦ check_entry entry
]

-- raise_for_status raises for 400 to 599.
unfoldable pub fetch_opg_price : Reply → Result FetchError Decimal
unfolding check_body
fetch_opg_price no_response = err request_failed
fetch_opg_price (response status body) =
    if leb 400 status && leb status 599 then err (http_error status) else check_body body
