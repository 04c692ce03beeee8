-- ===== src/Gateway/Keys.antt =====
-- The keys are injected once.
use tee_gateway.Prelude.{
  ℕ, suc, ◌+◌, ◌≡◌, ◌⊎◌, refl, inl, inr, arith, Bool, Bool-cases, Option-cases, true, false, Option,
  List, [], ◌∷◌,
}
use tee_gateway.Prelude.Result.{Result-cases}
use tee_gateway.Prelude.Text.{Text}
use tee_gateway.Gateway.{
  KeysBody, Gateway, KeysResponse, accepted, body_required, already_initialized, server_error,
  HeartbeatStart, facilitator_or, heartbeat_config_of, start_services, initial_gateway, inject_keys,
  set_provider_keys,
}

-- A call of POST /v1/keys: its body, and what its services do.
pub record KeysCall : Type 0 where
  pub body : Option KeysBody
  pub start : HeartbeatStart
  pub attaches : Bool

unfoldable pub answer : Text → KeysCall → Gateway → KeysResponse × Gateway
unfolding set_provider_keys
answer default_url call g = set_provider_keys default_url call.start call.attaches call.body g

-- The answers to a sequence of calls, and the state after them.
unfoldable pub answers : Text → List KeysCall → Gateway → List KeysResponse × Gateway
unfolding answer
answers default_url [] g = ([], g)
answers default_url (call ∷ calls) g =
    let (first, after) = answer default_url call g in
    let (rest, last) = answers default_url calls after in (first ∷ rest, last)

abbrev pub count_accepted : List KeysResponse → ℕ
count_accepted [] = 0
count_accepted (accepted s ∷ rs) = suc (count_accepted rs)
count_accepted (body_required ∷ rs) = count_accepted rs
count_accepted (already_initialized ∷ rs) = count_accepted rs
count_accepted (server_error ∷ rs) = count_accepted rs

answer-closed :
    (default_url : Text) (call : KeysCall) (g : Gateway)
    → g.keys_initialized ≡ true
    → answer default_url call g ≡ (already_initialized, g)
unfolding answer set_provider_keys
answer-closed default_url call g h = rw h refl

-- Before that, a call is accepted, which opens the gateway, or leaves it closed.
answer-open :
    (default_url : Text) (call : KeysCall) (g : Gateway)
    → g.keys_initialized ≡ false
    → (let (response, after) = answer default_url call g in
        ((after.keys_initialized ≡ false)
          × (after.middlewares ≡ g.middlewares)
          × (count_accepted (response ∷ []) ≡ 0))
        ⊎ ((after.keys_initialized ≡ true)
            × (after.middlewares ≡ suc g.middlewares)
            × (count_accepted (response ∷ []) ≡ 1)))
unfolding answer set_provider_keys inject_keys
answer-open default_url call g h = elim (Option-cases call.body) [
  | inl empty ↦ rw (h, empty) (inl (h, refl, refl))
  | inr (body, e) ↦
      let url = facilitator_or default_url body.facilitator_url in
      elim (Result-cases (heartbeat_config_of url body)) [
        | inr (raised, failed) ↦ rw (h, e, inject_keys, failed) (inl (h, refl, refl))
        | inl (heartbeat, made) ↦ elim (Bool-cases call.attaches) [
          | inl attached ↦
              rw (h, e, inject_keys, made, start_services, attached) (inr (refl, refl, refl))
          | inr raised ↦ rw (h, e, inject_keys, made, start_services, raised) (inl (h, refl, refl))
        ]
      ]
]

count_accepted-cons :
    (r : KeysResponse) (rs : List KeysResponse)
    → count_accepted (r ∷ rs) ≡ count_accepted (r ∷ []) + count_accepted rs
count_accepted-cons (accepted s) rs = omega arith
count_accepted-cons body_required rs = omega arith
count_accepted-cons already_initialized rs = omega arith
count_accepted-cons server_error rs = omega arith

-- Once the keys are there, no call changes anything or is accepted.
answers-closed :
    (default_url : Text) (calls : List KeysCall) (g : Gateway)
    → g.keys_initialized ≡ true
    → ((answers default_url calls g).1 ≡ g) × (count_accepted (answers default_url calls g).0 ≡ 0)
unfolding answers
answers-closed default_url [] g h = (refl, refl)
answers-closed default_url (call ∷ calls) g h =
    rw (answer-closed default_url call g h) (answers-closed default_url calls g h)

abbrev pub IsOnce : ℕ → List KeysResponse × Gateway → Type 0
IsOnce before (responses, after) =
    ((after.keys_initialized ≡ false)
      × (after.middlewares ≡ before)
      × (count_accepted responses ≡ 0))
    ⊎ ((after.keys_initialized ≡ true)
        × (after.middlewares ≡ suc before)
        × (count_accepted responses ≡ 1))

answers-open :
    (default_url : Text) (calls : List KeysCall) (g : Gateway)
    → g.keys_initialized ≡ false
    → IsOnce g.middlewares (answers default_url calls g)
unfolding answers
answers-open default_url [] g h = inl (h, refl, refl)
answers-open default_url (call ∷ calls) g h =
    let (response, after) = answer default_url call g in
    let (responses, last) = answers default_url calls after in
    let count = count_accepted-cons response responses in
    elim (answer-open default_url call g h) [
      | inr (opened, layers, one) ↦
          let (same, none_later) = answers-closed default_url calls after opened in
          inr (rw same opened, rw same layers, omega (arith, count, one, none_later))
      | inl (closed, layers, none_yet) ↦ elim (answers-open default_url calls after closed) [
        | inl (still, same, zero_later) ↦
            inl (still, omega (arith, same, layers), omega (arith, count, none_yet, zero_later))
        | inr (opened, one_more, one) ↦
            inr (opened, omega (arith, one_more, layers), omega (arith, count, none_yet, one))
      ]
    ]

-- Whatever calls of POST /v1/keys a gateway gets, at most one is answered with 200; the payment
-- middleware is attached once if there is one and not at all otherwise, and the gateway is initialized
-- exactly in the first case.
pub set_provider_keys-IsOnce :
    (default_url : Text) (calls : List KeysCall)
    → IsOnce 0 (answers default_url calls initial_gateway)
set_provider_keys-IsOnce default_url calls = answers-open default_url calls initial_gateway refl
