-- ===== src/BodyPreread/Laws.antt =====
-- Why the response to a paid POST is written after its upload.
use tee_gateway.Prelude.{
  ℕ, ◌+◌, ◌≤◌, ◌<◌, ◌≡◌, ◌⊎◌, refl, inl, inr, arith, Bool-cases, true, false, List, ◌++◌, length,
  take, drop, length-take, length-drop, take-append-drop, ltb,
}
use tee_gateway.Prelude.Text.{Text}
use tee_gateway.BodyPreread.{
  max_paid_request_bytes, Environ, too_large, dispatched, declared_length, is_chunked, is_paid_post,
  with_body, read_body_before_responding,
}

-- A body is declared, or sent in chunks.
abbrev pub HasBody : Environ → Type 0
HasBody e = (0 < declared_length e.content_length) ⊎ (is_chunked e ≡ true)

-- What is dispatched: a body within the limit, whose length is declared, followed on the connection by
-- what is left; nothing is left if the declared length is that of the upload, or the upload is chunked.
abbrev pub IsRead : Environ → Environ → List ℕ → Type 0
IsRead e sent left =
    (sent ≡ with_body sent.input e)
    × (sent.input ++ left ≡ e.input)
    × (length sent.input ≤ max_paid_request_bytes)
    × (length e.input ≤ declared_length e.content_length → length left ≡ 0)
    × (declared_length e.content_length ≡ 0 → length left ≡ 0)

-- The upload is over the limit, by its declared length, or, sent in chunks, by its bytes.
abbrev pub IsOversize : Environ → Type 0
IsOversize e =
    (max_paid_request_bytes < declared_length e.content_length)
    ⊎ ((declared_length e.content_length ≡ 0) × (max_paid_request_bytes < length e.input))

abbrev pub IsAnswered : List Text → Environ → Type 0
IsAnswered paths e =
    (IsOversize e × (read_body_before_responding paths e ≡ too_large))
    ⊎ ((sent : Environ) × (left : List ℕ) × (read_body_before_responding paths e
          ≡ dispatched sent left)
        × IsRead e sent left)

-- Reading one byte more than the limit tells an oversize upload.
over-take : (m : ℕ) (xs : List ℕ) → ltb m (length (take (m + 1) xs)) ≡ true → m < length xs
over-take m xs h = ground (arith, h, length-take (m + 1) xs)

fits-take :
    (m : ℕ) (xs : List ℕ)
    → ltb m (length (take (m + 1) xs)) ≡ false
    → (length (take (m + 1) xs) ≤ m) × (length (drop (m + 1) xs) ≡ 0)
fits-take m xs h =
    (ground (arith, h), ground (arith, h, length-take (m + 1) xs, length-drop (m + 1) xs))

chunked_cases :
    (paths : List Text) (e : Environ)
    → is_paid_post paths e ≡ true
    → ltb 0 (declared_length e.content_length) ≡ false
    → is_chunked e ≡ true
    → IsAnswered paths e
unfolding read_body_before_responding with_body
chunked_cases paths e paid undeclared chunked =
    let read = max_paid_request_bytes + 1 in
    let none_declared : declared_length e.content_length ≡ 0 = ground (arith, undeclared) in
    elim (Bool-cases (ltb max_paid_request_bytes (length (take read e.input)))) [
      | inl over ↦ inl (
        inr (none_declared, over-take max_paid_request_bytes e.input over),
        rw (read_body_before_responding, paid, none_declared, chunked, over) refl,
      )
      | inr fits ↦ inr (
        with_body (take read e.input) e,
        drop read e.input,
        rw (read_body_before_responding, paid, none_declared, chunked, fits) refl,
        (
          refl,
          take-append-drop read e.input,
          (fits-take max_paid_request_bytes e.input fits).0,
          λ whole. (fits-take max_paid_request_bytes e.input fits).1,
          λ same. (fits-take max_paid_request_bytes e.input fits).1,
        ),
      )
    ]

-- A paid POST with a body is refused because its upload is over the limit, or it is dispatched: the
-- application then reads a body within the limit, declared with its own length, that is the upload's
-- first bytes, and nothing of the upload is left on the connection if the upload is no longer than
-- declared, or is sent in chunks.
pub read_body_before_responding-IsAnswered :
    (paths : List Text) (e : Environ) → is_paid_post paths e ≡ true → HasBody e → IsAnswered paths e
unfolding read_body_before_responding with_body
read_body_before_responding-IsAnswered paths e paid body =
    let declared = declared_length e.content_length in
    let read = max_paid_request_bytes + 1 in
    elim (Bool-cases (ltb max_paid_request_bytes declared)) [
      | inl over ↦ inl (inl (ground (arith, over)), ground (arith, paid, over))
      | inr within ↦ elim (Bool-cases (ltb 0 declared)) [
        | inl some_declared ↦ inr (
          with_body (take declared e.input) e,
          drop declared e.input,
          ground (arith, paid, within, some_declared),
          (
            refl,
            take-append-drop declared e.input,
            ground (arith, within, length-take declared e.input),
            λ whole. omega (arith, length-drop declared e.input, whole),
            λ undeclared. absurd (ground (arith, some_declared, undeclared)),
          ),
        )
        | inr undeclared ↦ chunked_cases paths e paid undeclared (elim body [
          | inl some_declared ↦ absurd (ground (arith, undeclared, some_declared))
          | inr chunked ↦ chunked
        ])
      ]
    ]
