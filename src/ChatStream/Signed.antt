-- ===== src/ChatStream/Signed.antt =====
-- How a stream ends, and what its signature covers.
use tee_gateway.Prelude.{
  ℕ, ◌≡◌, ◌≢◌, ◌⊎◌, if◌then◌else◌, inl, inr, refl, sym, ap, ◌∙◌, List, [], ◌∷◌, ◌++◌, append-nil,
  append_assoc, map, Bool, true, false, Option, none, arith,
}
use mathlib.Core.List.{Perm, map-append}
use tee_gateway.ChatStream.Order.{IsOrdered, sort_calls-Perm, sort_calls-IsOrdered}
use tee_gateway.Prelude.Result.{ok, Result-cases}
use tee_gateway.Prelude.Text.{Text}
use tee_gateway.Attestation.{compute_tee_msg_hash}
use tee_gateway.PriceFeed.{Feed}
use tee_gateway.ChatStream.State.{Chunk, BufferedCall, StreamState, Event}
use tee_gateway.ChatStream.{
  Start, Failure, FinalEvent, Sse, delta, final, done, error, start_state, start_events,
  stream_chunks, flush_events, sort_calls, signed_text, finish, generate, session_cost_of,
  images_of, hash_raised,
}
use tee_gateway.ChatStream.Received.{
  content_of, content_of-append, content_of-start_events, content_of-flush_events,
  stream_chunks-content, flushed_calls, flushed_calls-ends,
}

-- The content is signed where there are no tool calls, and else the calls in their order.
abbrev pub IsSignedText : (List BufferedCall → Text) → StreamState → Text → Text → Type 0
IsSignedText dump_calls s content output =
    (((s.is_tool_calls ≡ false) ⊎ (s.buffered_tool_calls ≡ [])) × (output ≡ content))
    ⊎ ((s.is_tool_calls ≡ true)
        × (s.buffered_tool_calls ≢ [])
        × ((calls : List (ℕ × BufferedCall)) × Perm s.buffered_tool_calls calls
            × IsOrdered calls
            × (output ≡ dump_calls (map (λ (c : ℕ × BufferedCall). c.1) calls))))

signed_text-cases :
    (dump_calls : List BufferedCall → Text) (is_tool_calls : Bool) (calls : List (ℕ × BufferedCall))
    (content : Text)
    → (((is_tool_calls ≡ false) ⊎ (calls ≡ []))
        × (signed_text dump_calls is_tool_calls calls content ≡ content))
      ⊎ ((is_tool_calls ≡ true)
          × (calls ≢ [])
          × (signed_text dump_calls is_tool_calls calls content
              ≡ dump_calls (map (λ (c : ℕ × BufferedCall). c.1) (sort_calls calls))))
unfolding signed_text
signed_text-cases dump_calls is_tool_calls [] content = inl (inr refl, refl)
signed_text-cases dump_calls false (call ∷ calls) content = inl (inl refl, refl)
signed_text-cases dump_calls true (call ∷ calls) content = inr (refl, ground arith, refl)

signed_text-IsSignedText :
    (dump_calls : List BufferedCall → Text) (s : StreamState) (content : Text)
    → s.full_content ≡ content
    → IsSignedText dump_calls s content
        (signed_text dump_calls s.is_tool_calls s.buffered_tool_calls s.full_content)
signed_text-IsSignedText dump_calls s content same =
    let calls = s.buffered_tool_calls in
    elim (signed_text-cases dump_calls s.is_tool_calls calls s.full_content) [
      | inl (without, shown) ↦ inl (without, shown ∙ same)
      | inr (called, some_calls, dumped) ↦ inr (
        called,
        some_calls,
        (sort_calls calls, sort_calls-Perm calls, sort_calls-IsOrdered calls, dumped),
      )
    ]

module _ (keccak : List ℕ → List ℕ) (dump_calls : List BufferedCall → Text) (utf8 : Text → List ℕ)
    (sign : List ℕ → Text) (feed : Option Feed) (now : ℕ) (model : Text)
    (request_bytes : List ℕ) where
  -- The final event f of a stream whose deltas are `pre` and whose loop ended in the state s: its
  -- signature is of the hash of the request, the signed text and the time, whose parts are shown.
  -- That text is the content of the deltas if s has no tool calls, and else the dump of all tool
  -- calls of s in the order of their indices. The usage is that of s, and the cost that of the usage.
  abbrev pub IsSigned : List Event → StreamState → FinalEvent → Type 0
  IsSigned pre s f =
      (hash : List ℕ) × (output : Text) × (compute_tee_msg_hash keccak request_bytes (utf8 output)
          now
        ≡ ok (hash, f.tee_request_hash, f.tee_output_hash))
      × (f.tee_signature ≡ sign hash)
      × (f.tee_timestamp ≡ now)
      × IsSignedText dump_calls s (content_of pre) output
      × (f.is_tool_calls ≡ s.is_tool_calls)
      × (f.usage ≡ s.final_usage)
      × (f.opengradient
          ≡ session_cost_of keccak dump_calls utf8 sign feed now model request_bytes f.usage)

  finish-IsSigned :
      (start : Start) (s : StreamState) (pre : List Event)
      → s.full_content ≡ content_of pre
      → ((f : FinalEvent) × (finish keccak dump_calls utf8 sign feed now model request_bytes start s
            ≡ final f ∷ done ∷ [])
          × IsSigned pre s f)
        ⊎ ((e : Failure) × (finish keccak dump_calls utf8 sign feed now model request_bytes start s
              ≡ error e ∷ []))
  unfolding finish
  finish-IsSigned start s pre same =
      let output = signed_text dump_calls s.is_tool_calls s.buffered_tool_calls s.full_content in
      elim (Result-cases (compute_tee_msg_hash keccak request_bytes (utf8 output) now)) [
        | inr (e, failed) ↦ inr (hash_raised e, rw (finish, failed) refl)
        | inl ((hash, inputs, outputs), hashed) ↦ inl (
          record {
            is_tool_calls = s.is_tool_calls;
            tee_signature = sign hash;
            tee_timestamp = now;
            tee_request_hash = inputs;
            tee_output_hash = outputs;
            images = images_of start;
            usage = s.final_usage;
            opengradient =
                session_cost_of keccak dump_calls utf8 sign feed now model request_bytes
                  s.final_usage;
          },
          rw (finish, hashed) refl,
          (
            hash,
            output,
            hashed,
            refl,
            refl,
            signed_text-IsSignedText dump_calls s (content_of pre) same,
            refl,
            refl,
            refl,
          ),
        )
      ]

  -- Every stream is some deltas and then exactly one ending. Either the provider's stream did not
  -- raise, and the loop ended in a state: then a final event and the end mark, where the whole tool
  -- calls among the deltas are those of the state if tool calls are buffered and else none, and the
  -- final event signs the content of the deltas if there were no tool calls, and else the tool calls
  -- of the state in the order of their indices, with the usage of the state and its cost. Or one
  -- error event with no end mark behind it.
  pub generate-ends :
      (is_xai buffer : Bool) (start : Start) (chunks : List Chunk) (raised : Option Text)
      → (pre : List Event) × (((f : FinalEvent) × (s : StreamState) × (generate keccak dump_calls
                utf8 sign feed now model request_bytes is_xai buffer start chunks raised
              ≡ map delta pre ++ (final f ∷ done ∷ []))
            × ((stream_chunks is_xai buffer chunks raised (start_state start)).result ≡ ok s)
            × (flushed_calls pre ≡ (if buffer then s.buffered_tool_calls else []))
            × IsSigned pre s f
            × (raised ≡ none))
          ⊎ ((e : Failure) × (generate keccak dump_calls utf8 sign feed now model request_bytes
                  is_xai buffer start chunks raised
                ≡ map delta pre ++ (error e ∷ []))))
  unfolding generate
  generate-ends is_xai buffer start chunks raised =
      let loop = stream_chunks is_xai buffer chunks raised (start_state start) in
      let begun = start_events start ++ loop.events in
      elim (Result-cases loop.result) [
        | inr (e, failed) ↦ (begun, inr (e, rw (generate, failed) refl))
        | inl (s, ended) ↦
            let flush = flush_events buffer s in
            let (grown, quiet) =
              stream_chunks-content is_xai buffer chunks raised (start_state start) s ended in
            let signed_content : s.full_content ≡ content_of (begun ++ flush) =
              grown
              ∙ ap (λ (t : Text). t ++ content_of loop.events) (sym (content_of-start_events start))
              ∙ sym (content_of-append (start_events start) loop.events)
              ∙ sym (append-nil (content_of begun))
              ∙ ap (λ (t : Text). content_of begun ++ t) (sym (content_of-flush_events buffer s))
              ∙ sym (content_of-append begun flush) in
            let regroup = λ (tail : List Sse).
              sym (append_assoc (map delta begun) (map delta flush) tail)
              ∙ ap (λ (l : List Sse). l ++ tail) (sym (map-append delta begun flush)) in
            (
              begun ++ flush,
              elim (finish-IsSigned start s (begun ++ flush) signed_content) [
                | inl (f, closed, signed) ↦ inl (
                  f,
                  s,
                  rw (generate, ended, closed) (regroup (final f ∷ done ∷ [])),
                  ended,
                  flushed_calls-ends is_xai buffer start chunks raised s ended,
                  signed,
                  quiet,
                )
                | inr (e, failed) ↦ inr (e, rw (generate, ended, failed) (regroup (error e ∷ [])))
              ],
            )
      ]
