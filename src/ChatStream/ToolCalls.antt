-- ===== src/ChatStream/ToolCalls.antt =====
-- The arguments of a streamed tool call: what the client puts together, and what is signed.
use tee_gateway.Prelude.{
  ℕ, ◌≡◌, refl, sym, ap, ◌∙◌, List, [], ◌∷◌, ◌++◌, append-nil, append_assoc, Bool, true, false,
  Option, none, some, inl, inr, ◌==◌, if◌then◌else◌, arith,
}
use tee_gateway.Prelude.Result.{ok, Result-cases}
use tee_gateway.Prelude.Text.{Text}
use tee_gateway.LlmBackend.Usage.{extract_usage, TokenUsage}
use tee_gateway.ChatStream.State.{
  Chunk, BufferedCall, ToolChunk, StreamState, Event, content_delta, tool_delta, flushed,
  chunk_text, call_deltas, or_nothing, add_call, add_all, add_calls, add_usage,
}
use tee_gateway.ChatStream.{
  Start, token_stream, structured, image_output, Looped, start_state, content_event, chunk_events,
  with_chunk, stream_chunks,
}
use tee_gateway.ChatStream.Received.{stream_chunks-step, stream_chunks-failed}

-- The arguments that are kept under an index.
abbrev pub args_of : ℕ → List (ℕ × BufferedCall) → Text
args_of i [] = []
args_of i (entry ∷ calls) =
    let later = args_of i calls in if entry.0 == i then entry.1.arguments else later

abbrev args_for : ℕ → ToolChunk → Text
args_for i chunk = if chunk.index == i then or_nothing chunk.args else []

abbrev sent : ℕ → List ToolChunk → Text
sent i [] = []
sent i (chunk ∷ chunks) = args_for i chunk ++ sent i chunks

-- The fragments of an index, put together by the client.
abbrev pub received : ℕ → List Event → Text
received i [] = []
received i (tool_delta chunk ∷ events) =
    (if chunk.index == i then or_nothing chunk.args else []) ++ received i events
received i (content_delta text ∷ events) = received i events
received i (flushed index call ∷ events) = received i events

args_of-add_call :
    (i : ℕ) (chunk : ToolChunk) (calls : List (ℕ × BufferedCall))
    → args_of i (add_call chunk calls) ≡ args_of i calls ++ args_for i chunk
unfolding add_call
args_of-add_call i chunk [] = refl
args_of-add_call i chunk (entry ∷ calls) = ground (
  arith,
  args_of-add_call i chunk calls,
  append-nil entry.1.arguments,
  append-nil (args_of i calls),
)

args_of-add_all :
    (i : ℕ) (chunks : List ToolChunk) (calls : List (ℕ × BufferedCall))
    → args_of i (add_all chunks calls) ≡ args_of i calls ++ sent i chunks
args_of-add_all i [] calls = sym (append-nil (args_of i calls))
args_of-add_all i (chunk ∷ chunks) calls =
    args_of-add_all i chunks (add_call chunk calls)
    ∙ ap (λ (t : Text). t ++ sent i chunks) (args_of-add_call i chunk calls)
    ∙ append_assoc (args_of i calls) (args_for i chunk) (sent i chunks)

args_of-add_calls :
    (i : ℕ) (chunks : List ToolChunk) (s : StreamState)
    → args_of i (add_calls chunks s).buffered_tool_calls
      ≡ args_of i s.buffered_tool_calls ++ sent i chunks
unfolding add_calls
args_of-add_calls i [] s = sym (append-nil (args_of i s.buffered_tool_calls))
args_of-add_calls i (chunk ∷ chunks) s = args_of-add_all i (chunk ∷ chunks) s.buffered_tool_calls

calls-add_usage :
    (is_xai : Bool) (usage : Option TokenUsage) (s : StreamState)
    → (add_usage is_xai usage s).buffered_tool_calls ≡ s.buffered_tool_calls
unfolding add_usage
calls-add_usage is_xai none s = refl
calls-add_usage true (some usage) s = refl
calls-add_usage false (some usage) s = refl

received-append :
    (i : ℕ) (front back : List Event)
    → received i (front ++ back) ≡ received i front ++ received i back
received-append i [] back = refl
received-append i (content_delta text ∷ front) back = received-append i front back
received-append i (flushed index call ∷ front) back = received-append i front back
received-append i (tool_delta chunk ∷ front) back =
    ap (λ (t : Text). args_for i chunk ++ t) (received-append i front back)
    ∙ sym (append_assoc (args_for i chunk) (received i front) (received i back))

received-call_deltas :
    (i : ℕ) (chunks : List ToolChunk) → received i (call_deltas chunks) ≡ sent i chunks
received-call_deltas i [] = refl
received-call_deltas i (chunk ∷ chunks) =
    ap (λ (t : Text). args_for i chunk ++ t) (received-call_deltas i chunks)

received-content_event : (i : ℕ) (text : Text) → received i (content_event text) ≡ []
received-content_event i [] = refl
received-content_event i (c ∷ s) = refl

received-chunk_events :
    (i : ℕ) (chunk : Chunk) → received i (chunk_events false chunk) ≡ sent i chunk.tool_call_chunks
received-chunk_events i chunk =
    received-append i (content_event (chunk_text chunk.content))
      (call_deltas chunk.tool_call_chunks)
    ∙ ap (λ (t : Text). t ++ received i (call_deltas chunk.tool_call_chunks))
        (received-content_event i (chunk_text chunk.content))
    ∙ received-call_deltas i chunk.tool_call_chunks

loop-arguments :
    (is_xai : Bool) (chunks : List Chunk) (raised : Option Text) (s t : StreamState) (i : ℕ)
    → (stream_chunks is_xai false chunks raised s).result ≡ ok t
    → args_of i t.buffered_tool_calls
      ≡ args_of i s.buffered_tool_calls
        ++ received i (stream_chunks is_xai false chunks raised s).events
loop-arguments is_xai [] (some exc) s t i h = absurd (unfold stream_chunks in ground (arith, h))
loop-arguments is_xai [] none s t i h =
    let same : s ≡ t = unfold stream_chunks in ground (arith, h) in
    unfold stream_chunks in
    (ap (λ (u : StreamState). args_of i u.buffered_tool_calls) (sym same)
      ∙ sym (append-nil (args_of i s.buffered_tool_calls)))
loop-arguments is_xai (chunk ∷ chunks) raised s t i h =
    elim (Result-cases (extract_usage chunk.response)) [
      | inr (e, failed) ↦
          absurd
            (ground (arith, h, stream_chunks-failed is_xai false chunk chunks raised s e failed))
      | inl (usage, counted) ↦
          let step = stream_chunks-step is_xai false chunk chunks raised s usage counted in
          let u = add_usage is_xai usage (with_chunk chunk s) in
          let rest = stream_chunks is_xai false chunks raised u in
          let more = sent i chunk.tool_call_chunks in
          let later =
            loop-arguments is_xai chunks raised u t i
              (ap (λ (l : Looped). l.result) (sym step) ∙ h) in
          let grown : args_of i u.buffered_tool_calls ≡ args_of i s.buffered_tool_calls ++ more =
            ap (args_of i) (calls-add_usage is_xai usage (with_chunk chunk s))
            ∙ args_of-add_calls i chunk.tool_call_chunks
                (record s { full_content = s.full_content ++ chunk_text chunk.content }) in
          let shown : received i (stream_chunks is_xai false (chunk ∷ chunks) raised s).events
              ≡ more ++ received i rest.events =
            ap (λ (l : Looped). received i l.events) step
            ∙ received-append i (chunk_events false chunk) rest.events
            ∙ ap (λ (front : Text). front ++ received i rest.events)
                (received-chunk_events i chunk) in
          later
          ∙ ap (λ (front : Text). front ++ received i rest.events) grown
          ∙ append_assoc (args_of i s.buffered_tool_calls) more (received i rest.events)
          ∙ ap (λ (back : Text). args_of i s.buffered_tool_calls ++ back) (sym shown)
    ]

no_calls : (start : Start) → (start_state start).buffered_tool_calls ≡ []
no_calls token_stream = refl
no_calls (structured content usage) = refl
no_calls (image_output content usage images) = refl

-- Where tool calls are not buffered and the loop ends without an exception, the arguments that it
-- keeps to be signed under an index are what a client gets that puts the fragments of that index
-- together in the order of their events.
pub stream_chunks-arguments :
    (is_xai : Bool) (start : Start) (chunks : List Chunk) (raised : Option Text) (t : StreamState)
    (i : ℕ)
    → (stream_chunks is_xai false chunks raised (start_state start)).result ≡ ok t
    → args_of i t.buffered_tool_calls
      ≡ received i (stream_chunks is_xai false chunks raised (start_state start)).events
stream_chunks-arguments is_xai start chunks raised t i h =
    loop-arguments is_xai chunks raised (start_state start) t i h
    ∙ ap
        (λ (calls : List (ℕ × BufferedCall)).
          args_of i calls
          ++ received i (stream_chunks is_xai false chunks raised (start_state start)).events)
        (no_calls start)
