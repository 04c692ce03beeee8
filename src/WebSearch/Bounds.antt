-- ===== src/WebSearch/Bounds.antt =====
-- The size and the numbering of what the model is shown, and the range of the clamped arguments.
use tee_gateway.Prelude.{
  ℕ, suc, ◌+◌, ◌≤◌, ◌<◌, ◌≡◌, ◌⊎◌, inl, inr, refl, ap, max, List, [], ◌∷◌, ◌++◌, length,
  length-append, take, Bool, false, ◌&&◌, none, some, ltb, Bool-cases, Option-cases, if◌then◌else◌,
  arith,
}
use tee_gateway.Prelude.Text.{Text}
use tee_gateway.Prelude.Json.{Json}
use tee_gateway.WebSearch.Format.{
  Citation, Source, source_of, block_of, citation_of, collect, blocks_of, join_texts, header,
  footer, newline, unusable_text, render, format_results, max_total_chars,
}

-- The results that can be cited, in order.
abbrev pub sources : List Json → List Source
sources [] = []
sources (item ∷ items) = elim (source_of item) [ none ↦ sources items | some s ↦ s ∷ sources items ]

-- The blocks and the citations of sources, numbered behind `count`.
abbrev pub numbered : ℕ → List Source → List (Text × Citation)
numbered count [] = []
numbered count (s ∷ ss) = (block_of (count + 1) s, citation_of s) ∷ numbered (count + 1) ss

-- The characters of the blocks, each with the two line ends behind it.
abbrev pub used_by : List (Text × Citation) → ℕ
used_by [] = 0
used_by (entry ∷ entries) = length entry.0 + 2 + used_by entries

abbrev full : ℕ → ℕ → Bool
full count used = ltb 0 count && ltb max_total_chars used

full-small : (count size : ℕ) → 0 < count → full count size ≡ false → size ≤ max_total_chars
full-small count size h e = ground arith

-- One result: skipped, the end, or one more block.
collect-none :
    (item : Json) (items : List Json) (count used : ℕ)
    → source_of item ≡ none
    → collect count used (item ∷ items) ≡ collect count used items
unfolding collect
collect-none item items count used e = rw (collect, e) refl

collect-some :
    (item : Json) (items : List Json) (count used : ℕ) (s : Source)
    → source_of item ≡ some s
    → (let size = length (block_of (count + 1) s) + 2 in
        collect count used (item ∷ items) ≡ (
          if full count (used + size)
          then []
          else (block_of (count + 1) s, citation_of s) ∷ collect (count + 1) (used + size) items))
unfolding collect
collect-some item items count used s e = rw (collect, e) refl

-- The characters stay within the limit once a result is cited.
collect-le :
    (items : List Json) (count used : ℕ)
    → 0 < count
    → used + used_by (collect count used items) ≤ max used max_total_chars
collect-le [] count used h = unfold collect in omega arith
collect-le (item ∷ items) count used h = elim (Option-cases (source_of item)) [
  | inl e ↦ rw (collect-none item items count used e) (collect-le items count used h)
  | inr (s, e) ↦
      let size = length (block_of (count + 1) s) + 2 in
      elim (Bool-cases (full count (used + size))) [
        | inl stop ↦ rw (collect-some item items count used s e, stop) (omega arith)
        | inr on ↦
            rw (collect-some item items count used s e, on)
              (omega (
                arith,
                full-small count (used + size) h on,
                collect-le items (count + 1) (used + size) (omega arith),
              ))
      ]
]

sources-none :
    (item : Json) (items : List Json)
    → source_of item ≡ none
    → sources (item ∷ items) ≡ sources items
sources-none item items e = rw (sources, e) refl

sources-some :
    (item : Json) (items : List Json) (s : Source)
    → source_of item ≡ some s
    → sources (item ∷ items) ≡ s ∷ sources items
sources-some item items s e = rw (sources, e) refl

-- The first n sources, and no more because there are none or the next one does not fit.
abbrev pub IsCut : ℕ → ℕ → List Source → ℕ → Type 0
IsCut count used ss n =
    (take n ss ≡ ss) ⊎ (max_total_chars < used + used_by (numbered count (take (suc n) ss)))

-- Behind a cited result, the loop numbers the sources up to the first that does not fit.
collect-numbered :
    (items : List Json) (count used : ℕ)
    → 0 < count
    → (n : ℕ) × (collect count used items ≡ numbered count (take n (sources items)))
      × IsCut count used (sources items) n
collect-numbered [] count used h = (0, unfold collect in refl, inl refl)
collect-numbered (item ∷ items) count used h = elim (Option-cases (source_of item)) [
  | inl e ↦
      rw (collect-none item items count used e, sources-none item items e)
        (collect-numbered items count used h)
  | inr (s, e) ↦
      let size = length (block_of (count + 1) s) + 2 in
      rw (collect-some item items count used s e, sources-some item items s e)
        (elim (Bool-cases (full count (used + size))) [
          | inl stop ↦ (0, rw stop refl, inr (ground (arith, stop)))
          | inr on ↦
              let (n, shape, cut) =
                collect-numbered items (count + 1) (used + size) (omega arith) in
              (
                suc n,
                rw (on, shape) refl,
                elim cut [
                  | inl all ↦ inl (ap (λ ss. s ∷ ss) all)
                  | inr over ↦ inr (omega (arith, over))
                ],
              )
        ])
]

-- The first source is shown whatever its size.
collect-first :
    (items : List Json) (used : ℕ)
    → ((sources items ≡ []) × (collect 0 used items ≡ []))
      ⊎ ((s : Source) × (rest : List Source) × (n : ℕ) × (sources items ≡ s ∷ rest)
          × (collect 0 used items ≡ numbered 0 (s ∷ take n rest))
          × (used + used_by (collect 0 used items)
              ≤ max (used + (length (block_of 1 s) + 2)) max_total_chars)
          × IsCut 0 used (s ∷ rest) (suc n))
collect-first [] used = inl (refl, unfold collect in refl)
collect-first (item ∷ items) used = elim (Option-cases (source_of item)) [
  | inl e ↦
      rw (collect-none item items 0 used e, sources-none item items e) (collect-first items used)
  | inr (s, e) ↦
      let size = length (block_of 1 s) + 2 in
      let (n, shape, cut) = collect-numbered items 1 (used + size) (omega arith) in
      inr (
        s,
        sources items,
        n,
        sources-some item items s e,
        rw (collect-some item items 0 used s e, shape) refl,
        rw (collect-some item items 0 used s e)
            (omega (arith, collect-le items 1 (used + size) (omega arith))),
        elim cut [ inl all ↦ inl (ap (λ ss. s ∷ ss) all) | inr over ↦ inr (omega (arith, over)) ],
      )
]

length-join :
    (first : Text × Citation) (others : List (Text × Citation))
    → length (join_texts (newline ∷ newline ∷ []) (blocks_of (first ∷ others))) + 2
      ≡ used_by (first ∷ others)
length-join first [] = omega arith
length-join first (next ∷ others) =
    let rest = join_texts (newline ∷ newline ∷ []) (blocks_of (next ∷ others)) in
    omega (arith, length-join next others, length-append first.0 (newline ∷ newline ∷ rest))

length-render :
    (query : Text) (first : Text × Citation) (others : List (Text × Citation))
    → length (render query (first ∷ others)).0
      ≡ length (header query) + used_by (first ∷ others) + length footer
length-render query first others =
    let blocks = join_texts (newline ∷ newline ∷ []) (blocks_of (first ∷ others)) in
    unfold render in
    omega (
      arith,
      length-join first others,
      length-append (header query) (newline ∷ (blocks ++ (newline ∷ footer))),
      length-append blocks (newline ∷ footer),
    )

-- Without a result that can be cited the content says so, and nothing is cited. Else the content and
-- the citations are those of the first citable results in order, numbered from 1: at least one, and
-- all of them unless the header, those blocks and the next one are together longer than 12000
-- characters. The content, without its footer, is longer than 12000 characters only as far as the
-- header and the first block alone are.
pub format_results-bounds :
    (query : Text) (results : List Json)
    → ((sources results ≡ []) × (format_results query results ≡ (unusable_text query, [])))
      ⊎ ((s : Source) × (rest : List Source) × (n : ℕ) × (sources results ≡ s ∷ rest)
          × (format_results query results ≡ render query (numbered 0 (s ∷ take n rest)))
          × IsCut 0 (length (header query)) (s ∷ rest) (suc n)
          × (length (format_results query results).0
              ≤ max (length (header query) + (length (block_of 1 s) + 2)) max_total_chars
                + length footer))
unfolding format_results
format_results-bounds query results = elim (collect-first results (length (header query))) [
  | inl (no_sources, e) ↦ inl (no_sources, rw e (unfold render in refl))
  | inr (s, rest, n, found, e, bound, cut) ↦
      let others = numbered 1 (take n rest) in
      inr (
        s,
        rest,
        n,
        found,
        ap (render query) e,
        cut,
        rw e (
            omega (arith, length-render query (block_of 1 s, citation_of s) others, rw e at bound)),
      )
]
