-- ===== src/PriceFeed/Laws.antt =====
-- The price cache: its invariant, the outcome of a refresh, and when a price is given.
use tee_gateway.Prelude.{
  ℕ, zero, suc, ◌+◌, ◌-◌, ◌*◌, ◌≤◌, ◌<◌, ◌≡◌, ◌↔◌, ◌⊎◌, refl, ap, ◌∙◌, min, inl, inr, arith, Option,
  Option-cases, none, some, Bool, Bool-cases, true, false, ltb, ◌==◌, if◌then◌else◌,
}
use tee_gateway.Prelude.Result.{Result-cases, ok, err}
use tee_gateway.Prelude.Text.{codes, lower, find_key}
use tee_gateway.Decimal.{Decimal}
use tee_gateway.Decimal.Laws.{IsPositive}
use tee_gateway.PriceFeed.Fetch.{
  base_mainnet_opg_address, Amount, not_a_number, not_finite, negative, finite, PriceEntry,
  entry_object, entry_other, Body, not_json, json_object, json_other, Reply, no_response, response,
  FetchError, check_amount, check_entry, check_body, fetch_opg_price,
}
use tee_gateway.PriceFeed.{
  Feed, new_feed, record_success, record_failure, is_rate_limited, Cycle, attempt_fetch,
  refresh_price, get_price, run_cycles, tge_cutover_utc, tge_fallback_price_usd,
  stale_price_max_age, stale_warning_multiplier,
}

check_amount-IsPositive : (a : Amount) (p : Decimal) → check_amount a ≡ ok p → IsPositive p
unfolding check_amount
check_amount-IsPositive not_a_number p h = ground arith
check_amount-IsPositive not_finite p h = ground arith
check_amount-IsPositive negative p h = ground arith
check_amount-IsPositive (finite d) p h = ground arith

check_entry-IsPositive : (e : PriceEntry) (p : Decimal) → check_entry e ≡ ok p → IsPositive p
unfolding check_entry
check_entry-IsPositive entry_other p h = ground arith
check_entry-IsPositive (entry_object fields) p h =
    elim (Option-cases (find_key (codes "usd") fields)) [
      | inl missing ↦ ground (arith, missing)
      | inr (amount, found) ↦ check_amount-IsPositive amount p (ground (arith, found))
    ]

check_body-IsPositive : (b : Body) (p : Decimal) → check_body b ≡ ok p → IsPositive p
unfolding check_body
check_body-IsPositive not_json p h = ground arith
check_body-IsPositive json_other p h = ground arith
check_body-IsPositive (json_object entries) p h =
    elim (Option-cases (find_key (lower base_mainnet_opg_address) entries)) [
      | inl missing ↦ ground (arith, missing)
      | inr (entry, found) ↦ check_entry-IsPositive entry p (ground (arith, found))
    ]

-- Whatever CoinGecko answers, a price that `fetch_opg_price` returns is positive.
pub fetch_opg_price-IsPositive : (r : Reply) (p : Decimal) → fetch_opg_price r ≡ ok p → IsPositive p
unfolding fetch_opg_price
fetch_opg_price-IsPositive no_response p h = ground arith
fetch_opg_price-IsPositive (response status body) p h = ground (arith, check_body-IsPositive body p)

-- The first k - 1 requests failed, none of them with HTTP 429.
abbrev pub AreRetried : (ℕ → Reply) → ℕ → Type 0
AreRetried replies k =
    (j : ℕ)
    → 1 ≤ j
    → j < k
    → (e : FetchError) × (fetch_opg_price (replies j) ≡ err e) × (is_rate_limited e ≡ false)

-- What a refresh comes to, told by the answers to its requests.
pub data Outcome (replies : ℕ → Reply) (clock : ℕ → ℕ) (f : Feed) (c : Cycle) : Type 0 where
  fetched :
      (k : ℕ) (p : Decimal)
      → 1 ≤ k
      → k ≤ f.max_retries
      → AreRetried replies k
      → fetch_opg_price (replies k) ≡ ok p
      → c ≡ record { feed = record_success p (clock k) f; attempts = k; sleeps = k - 1 }
      → Outcome replies clock f c
  rate_limited :
      (k : ℕ) (e : FetchError)
      → 1 ≤ k
      → k ≤ f.max_retries
      → AreRetried replies k
      → fetch_opg_price (replies k) ≡ err e
      → is_rate_limited e ≡ true
      → c ≡ record { feed = record_failure (some e) f; attempts = k; sleeps = k - 1 }
      → Outcome replies clock f c
  exhausted :
      (last_exc : Option FetchError)
      → AreRetried replies (suc f.max_retries)
      → c ≡ record {
        feed = record_failure last_exc f;
        attempts = f.max_retries;
        sleeps = f.max_retries - 1;
      }
      → Outcome replies clock f c

AreRetried-suc :
    (replies : ℕ → Reply) (k : ℕ) (e : FetchError)
    → AreRetried replies k
    → fetch_opg_price (replies k) ≡ err e
    → is_rate_limited e ≡ false
    → AreRetried replies (suc k)
AreRetried-suc replies k e before failed retried j low high = elim (Bool-cases (j == k)) [
  | inl here ↦
      let same : j ≡ k = ground (arith, here) in
      (e, ap (λ (i : ℕ). fetch_opg_price (replies i)) same ∙ failed, retried)
  | inr earlier ↦ before j low (ground (arith, earlier))
]

attempt_fetch-Outcome :
    (replies : ℕ → Reply) (clock : ℕ → ℕ) (left attempt sleeps : ℕ) (last_exc : Option FetchError)
    (f : Feed)
    → 1 ≤ attempt
    → attempt + left ≡ suc f.max_retries
    → sleeps ≡ min (attempt - 1) (f.max_retries - 1)
    → AreRetried replies attempt
    → Outcome replies clock f (attempt_fetch replies clock left attempt sleeps last_exc f)
unfolding attempt_fetch
attempt_fetch-Outcome replies clock zero attempt sleeps last_exc f low total slept before =
    let all : suc f.max_retries ≡ attempt = omega arith in
    exhausted last_exc (rw all before) (ground arith)
attempt_fetch-Outcome replies clock (suc left) attempt sleeps last_exc f low total slept before =
    elim (Result-cases (fetch_opg_price (replies attempt))) [
      | inl (p, answered) ↦
          fetched attempt p low (omega arith) before answered (ground (arith, answered))
      | inr (e, failed) ↦ elim (Bool-cases (is_rate_limited e)) [
        | inl limited ↦
            rate_limited attempt e low (omega arith) before failed limited
              (ground (arith, failed, limited))
        | inr retried ↦
            let slept_next = if ltb attempt f.max_retries then suc sleeps else sleeps in
            rw (attempt_fetch, failed, retried)
              (attempt_fetch-Outcome replies clock left (suc attempt) slept_next (some e) f
                (omega arith) (omega (arith, total)) (ground (arith, total, slept, low))
                (AreRetried-suc replies attempt e before failed retried))
      ]
    ]

pub refresh_price-Outcome :
    (replies : ℕ → Reply) (clock : ℕ → ℕ) (f : Feed)
    → Outcome replies clock f (refresh_price replies clock f)
unfolding refresh_price
refresh_price-Outcome replies clock f =
    attempt_fetch-Outcome replies clock f.max_retries 1 0 none f (omega arith) (omega arith)
      (omega arith) (λ j low high. absurd (omega (arith, low, high)))

-- A cached price is positive and has a time, and the counters agree with what is cached.
abbrev pub IsConsistent : Feed → Type 0
IsConsistent f =
    (((f.price ≡ none) × (f.last_success ≡ none) × (f.total_fetches ≡ 0))
      ⊎ ((p : Decimal) × (t : ℕ) × (f.price ≡ some p)
          × (f.last_success ≡ some t)
          × (0 < f.total_fetches)
          × IsPositive p))
    × (f.consecutive_failures ≤ f.total_errors)
    × ((f.last_error ≡ none) ↔ (f.consecutive_failures ≡ 0))

new_feed-IsConsistent : (interval retries : ℕ) → IsConsistent (new_feed interval retries)
unfolding new_feed
new_feed-IsConsistent interval retries =
    (inl (refl, refl, refl), omega arith, ((λ h. refl), (λ h. refl)))

record_success-IsConsistent :
    (p : Decimal) (now : ℕ) (f : Feed) → IsPositive p → IsConsistent (record_success p now f)
unfolding record_success
record_success-IsConsistent p now f h =
    (inr (p, now, refl, refl, omega arith, h), omega arith, ((λ e. refl), (λ e. refl)))

record_failure-IsConsistent :
    (e : Option FetchError) (f : Feed) → IsConsistent f → IsConsistent (record_failure e f)
unfolding record_failure
record_failure-IsConsistent e f h =
    (h.0, omega (arith, h.1), ((λ k. ground (arith, k)), (λ k. absurd (omega (arith, k)))))

-- A refresh keeps the cache consistent.
pub refresh_price-IsConsistent :
    (replies : ℕ → Reply) (clock : ℕ → ℕ) (f : Feed)
    → IsConsistent f
    → IsConsistent (refresh_price replies clock f).feed
refresh_price-IsConsistent replies clock f h = elim (refresh_price-Outcome replies clock f) [
  | fetched k p low high before answered e ↦ rw e (
      record_success-IsConsistent p (clock k) f (fetch_opg_price-IsPositive (replies k) p answered))
  | rate_limited k exc low high before failed limited e ↦
      rw e (record_failure-IsConsistent (some exc) f h)
  | exhausted exc before e ↦ rw e (record_failure-IsConsistent exc f h)
]

-- The cache of the background thread is consistent after any number of cycles, whatever CoinGecko
-- answers and whatever the clock reads.
pub run_cycles-IsConsistent :
    (replies : ℕ → ℕ → Reply) (clock : ℕ → ℕ → ℕ) (n interval retries : ℕ)
    → IsConsistent (run_cycles replies clock n (new_feed interval retries))
unfolding run_cycles
run_cycles-IsConsistent replies clock zero interval retries = new_feed-IsConsistent interval retries
run_cycles-IsConsistent replies clock (suc n) interval retries =
    refresh_price-IsConsistent (replies n) (clock n) _
      (run_cycles-IsConsistent replies clock n interval retries)

-- The two cases in which `get_price` returns a price.
abbrev pub BeforeCutover : ℕ → Decimal → Bool → Type 0
BeforeCutover now p warned =
    (now < tge_cutover_utc) × (p ≡ tge_fallback_price_usd) × (warned ≡ false)

abbrev pub IsFresh : ℕ → Feed → Decimal → Bool → Type 0
IsFresh now f p warned =
    (t : ℕ) × (f.price ≡ some p)
    × (f.last_success ≡ some t)
    × (tge_cutover_utc ≤ now)
    × (now ≤ t + stale_price_max_age)
    × (warned ≡ ltb (t + f.refresh_interval * stale_warning_multiplier) now)

get_price-cases :
    (now : ℕ) (f : Feed) (p : Decimal) (warned : Bool)
    → get_price now f ≡ ok (p, warned)
    → BeforeCutover now p warned ⊎ IsFresh now f p warned
unfolding get_price
get_price-cases now f p warned h = elim (Bool-cases (ltb now tge_cutover_utc)) [
  | inl early ↦ inl (ground (arith, early), ground (arith, early, h), ground (arith, early, h))
  | inr late ↦ elim (Option-cases f.price) [
    | inl missing ↦ absurd (ground (arith, late, missing, h))
    | inr (q, cached) ↦ elim (Option-cases f.last_success) [
      | inl missing ↦ absurd (ground (arith, late, cached, missing, h))
      | inr (t, success) ↦ elim (Bool-cases (ltb (t + stale_price_max_age) now)) [
        | inl old ↦ absurd (ground (arith, late, cached, success, old, h))
        | inr fresh ↦ inr (
          t,
          ground (arith, late, cached, success, fresh, h),
          success,
          ground (arith, late),
          ground (arith, fresh),
          ground (arith, late, cached, success, fresh, h),
        )
      ]
    ]
  ]
]

get_price-IsFresh :
    (now : ℕ) (f : Feed) (p : Decimal) (warned : Bool)
    → IsFresh now f p warned
    → get_price now f ≡ ok (p, warned)
unfolding get_price
get_price-IsFresh now f p warned (t, cached, success, late, fresh, w) =
    ground (arith, cached, success, late, fresh, w)

-- `get_price` returns a price exactly in two cases: the fallback, without a warning, before the
-- cutover; afterwards the cached price, if there is one that was fetched at most four hours ago, with
-- a warning exactly if that is more than two refresh intervals ago.
pub get_price_iff :
    (now : ℕ) (f : Feed) (p : Decimal) (warned : Bool)
    → (get_price now f ≡ ok (p, warned)) ↔ (BeforeCutover now p warned ⊎ IsFresh now f p warned)
unfolding get_price
get_price_iff now f p warned = (
  get_price-cases now f p warned,
  λ either. elim either [
    | inl (early, e, w) ↦ ground (arith, early, e, w)
    | inr fresh ↦ get_price-IsFresh now f p warned fresh
  ],
)
