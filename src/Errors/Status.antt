-- ===== src/Errors/Status.antt =====
-- What the payload and the outer status of an error say of one another.
use tee_gateway.Prelude.{
  ℕ, ◌+◌, ◌≤◌, ◌<◌, ◌≡◌, ◌≢◌, ◌⊎◌, inl, inr, Option-cases, none, some, List, [], ◌∷◌, length,
  length-append, length-take, take, true, false, arith,
}
use tee_gateway.Prelude.Int.{pos, negsuc}
use tee_gateway.Prelude.Text.{Text, strip}
use tee_gateway.Errors.{
  Attribute, boolean, integer, other, PyException, first_status, provider_status, squash, truncate,
  message, provider, gateway, nat_mem, retryable_provider_statuses, http_status_of, error_response,
}

first_status_range :
    (attributes : List Attribute) (n : ℕ) → first_status attributes ≡ some n → (100 ≤ n) × (n ≤ 599)
unfolding first_status
first_status_range [] n h = cc
first_status_range (boolean b ∷ rest) n h = first_status_range rest n h
first_status_range (integer (pos m) ∷ rest) n h = ground (arith, first_status_range rest n)
first_status_range (integer (negsuc m) ∷ rest) n h = first_status_range rest n h
first_status_range (other ∷ rest) n h = first_status_range rest n h

-- Every status that `_provider_status` reports is an HTTP status.
pub provider_status_range :
    (exc : PyException) (n : ℕ) → provider_status exc ≡ some n → (100 ≤ n) × (n ≤ 599)
unfolding provider_status
provider_status_range exc n h =
    first_status_range (exc.status_code ∷ exc.status ∷ exc.code ∷ exc.response_status ∷ []) n h

-- The outer statuses: the gateway's own, or a client error that does not stand for the gateway's
-- account, a payment challenge or a rate limit.
abbrev pub IsOuterStatus : ℕ → Type 0
IsOuterStatus s =
    (s ≡ 500)
    ⊎ (s ≡ 502)
    ⊎ (s ≡ 503)
    ⊎ (s ≡ 504)
    ⊎ ((400 ≤ s)
        × (s < 500)
        × (s ≢ 401)
        × (s ≢ 402)
        × (s ≢ 403)
        × (s ≢ 407)
        × (s ≢ 408)
        × (s ≢ 429))

-- The outer statuses under which a resend of the same request can succeed.
abbrev pub IsRetryStatus : ℕ → Type 0
IsRetryStatus s = (s ≡ 502) ⊎ (s ≡ 503) ⊎ (s ≡ 504) ⊎ (s ≡ 409) ⊎ (s ≡ 425)

http_status_of-IsOuterStatus : (n : ℕ) → IsOuterStatus (http_status_of n)
unfolding http_status_of
http_status_of-IsOuterStatus n = ground arith

http_status_of-retryable :
    (n : ℕ) → nat_mem n retryable_provider_statuses ≡ true → IsRetryStatus (http_status_of n)
unfolding http_status_of
http_status_of-retryable n h = ground arith

http_status_of-passed : (n : ℕ) → http_status_of n < 500 → http_status_of n ≡ n
unfolding http_status_of
http_status_of-passed n h = ground arith

truncate_bounds :
    (limit : ℕ) (text : Text)
    → 0 < limit
    → 0 < length text
    → (1 ≤ length (truncate limit text)) × (length (truncate limit text) ≤ limit + 1)
unfolding truncate
truncate_bounds limit text h k =
    ground (arith, length-append (take limit text) (0x2026 ∷ []), length-take limit text)

module _ (exc : PyException) (fallback : Text) where
  -- Whatever was raised, the outer status is 500, 502, 503 or 504, or a client error that does not
  -- stand for the gateway's account, a payment challenge or a rate limit.
  pub error_response-IsOuterStatus : IsOuterStatus (error_response exc fallback).1
  unfolding error_response
  error_response-IsOuterStatus = elim (Option-cases (provider_status exc)) [
    | inl e ↦ ground (arith, e)
    | inr (n, e) ↦ ground (arith, e, http_status_of-IsOuterStatus n)
  ]

  -- A failure of the gateway's own code answers 500, reports no provider status, and is not
  -- retryable; a retryable one comes from a provider and answers 502, 503, 504, 409 or 425; and a
  -- status below 500 is the provider's own, as the payload reports it.
  pub error_response-consistent :
      (let (payload, status) = error_response exc fallback in
        (payload.source ≡ gateway
          → (status ≡ 500) × (payload.provider_status ≡ none) × (payload.retryable ≡ false))
        × (payload.retryable ≡ true → (payload.source ≡ provider) × IsRetryStatus status)
        × (status < 500 → payload.provider_status ≡ some status))
  unfolding error_response
  error_response-consistent = elim (Option-cases (provider_status exc)) [
    | inl e ↦ ground (arith, e)
    | inr (n, e) ↦ ground (arith, e, http_status_of-retryable n, http_status_of-passed n)
  ]

  -- The error text is the fallback, or has 1 to 601 characters.
  pub message_bounds :
      (message exc fallback ≡ fallback)
      ⊎ ((1 ≤ length (message exc fallback)) × (length (message exc fallback) ≤ 601))
  unfolding message
  message_bounds =
      let text = strip (squash false exc.text) in ground (arith, truncate_bounds 600 text)
