-- ===== src/OhttpController/Privacy.antt =====
-- What the inner request has of the client's payload and of the relay's request.
use tee_gateway.Prelude.{
  ℕ, ◌≡◌, inl, inr, refl, ap, ◌∙◌, List, [], ◌∷◌, Bool, true, false, Option, none, some, ◌||◌,
  if◌then◌else◌, Bool-cases, arith,
}
use tee_gateway.Prelude.Text.{
  Text, codes, text_eq, text_mem, find_key, update_keys, remove_key, find-cons, find-put_key,
  find-remove_key, text_eq_sound,
}
use tee_gateway.Prelude.Result.{ok}
use tee_gateway.Prelude.Json.{Json, obj, object_of}
use tee_gateway.Ohttp.Crypto.{Hpke, Aead, Kdf}
use tee_gateway.Ohttp.Request.{DecapsulatedRequest}
use tee_gateway.OhttpController.Context.{Codec, set_inner_cost_context}
use tee_gateway.OhttpController.Subrequest.{text, stream, Environ, InnerResponse, sub_env}
use tee_gateway.OhttpController.Handler.{
  OuterRequest, scrub, identifying_fields, endpoint_of, inner_path, relay_inner, dispatch, route,
}

-- A test that depends on the key alone, at equal keys.
same_key : (f : Text → Bool) (k l : Text) → text_eq k l ≡ true → f k ≡ f l
same_key f k l h = ap f (text_eq_sound k l h)

find-scrub :
    (key : Text) (payload : List (Text × Json))
    → find_key key (scrub payload)
      ≡ (if text_mem key identifying_fields then none else find_key key payload)
unfolding scrub find_key
find-scrub key [] = ground arith
find-scrub key (entry ∷ payload) =
    let identifying = λ (k : Text). text_mem k identifying_fields in
    elim (Bool-cases (text_mem entry.0 identifying_fields)) [
      | inl e ↦ elim (Bool-cases (text_eq key entry.0)) [
        | inl same ↦
            let too = same_key identifying key entry.0 same ∙ e in
            rw e (find-scrub key payload ∙ rw too refl)
        | inr other ↦ rw e (find-scrub key payload ∙ rw (find-cons key entry payload, other) refl)
      ]
      | inr e ↦ elim (Bool-cases (text_eq key entry.0)) [
        | inl same ↦
            let too = same_key identifying key entry.0 same ∙ e in
            rw (e, find-cons key entry (scrub payload), find-cons key entry payload, same, too) refl
        | inr other ↦
            rw (e, find-cons key entry (scrub payload), find-cons key entry payload, other)
              (find-scrub key payload)
      ]
    ]

either :
    (a b : Bool) (value : Option Json)
    → (if b then none else if a then none else value) ≡ (if a || b then none else value)
either true true value = refl
either true false value = refl
either false true value = refl
either false false value = refl

find-forwarded_body :
    (key : Text) (payload : List (Text × Json))
    → find_key key (scrub (remove_key (codes "endpoint") payload)) ≡ (
        if text_mem key (codes "endpoint" ∷ identifying_fields) then none else find_key key payload)
find-forwarded_body key payload =
    find-scrub key (remove_key (codes "endpoint") payload)
    ∙ ap (λ (found : Option Json). if text_mem key identifying_fields then none else found)
        (find-remove_key key (codes "endpoint") payload)
    ∙ either (text_eq key (codes "endpoint")) (text_mem key identifying_fields)
        (find_key key payload)

-- A payload whose endpoint is one of the two paths is answered by what the application makes of one
-- inner request, with the JSON of a body as its input and the path as its path. That body, which is
-- also what the cost context gets as the request, has under every key nothing if the key is
-- "endpoint" or one of the identifying fields, and else what the client's payload has.
pub route-forwards :
    (suite : Hpke) (kdf : Kdf) (aead : Aead) (codec : Codec) (repr : Json → Text)
    (inner_wsgi : Environ → InnerResponse) (nonce : List ℕ) (request : OuterRequest)
    (decap : DecapsulatedRequest) (payload : List (Text × Json)) (path : Text)
    → inner_path (endpoint_of payload) ≡ ok (some path)
    → (body : List (Text × Json)) × (environ : Environ) × (route suite kdf aead codec repr
          inner_wsgi nonce request decap payload
        ≡ relay_inner suite kdf aead codec repr inner_wsgi nonce decap
            (inner_wsgi environ)
            (set_inner_cost_context (some (obj (object_of body))) none none request.context))
      × (find_key (codes "wsgi.input") environ ≡ some (stream (codec.dumps (obj (object_of body)))))
      × (find_key (codes "PATH_INFO") environ ≡ some (text path))
      × ((key : Text)
          → find_key key body ≡ (
              if text_mem key (codes "endpoint" ∷ identifying_fields)
              then none
              else find_key key payload))
unfolding route dispatch sub_env update_keys
route-forwards suite kdf aead codec repr inner_wsgi nonce request decap payload path routed =
    let body = scrub (remove_key (codes "endpoint") payload) in
    (
      body,
      sub_env path (codec.dumps (obj (object_of body))) request.environ,
      rw (route, routed) refl,
      simp find-put_key,
      simp find-put_key,
      λ key. find-forwarded_body key payload,
    )
