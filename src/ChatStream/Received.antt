-- ===== src/ChatStream/Received.antt =====
-- What a client puts together of the events of a stream: the content and the whole tool calls.
use tee_gateway.Prelude.{
  ℕ, ◌≡◌, if◌then◌else◌, inl, inr, refl, sym, ap, ◌∙◌, List, [], ◌∷◌, ◌++◌, append-nil,
  append_assoc, map, Bool, true, false, Option, none, some, arith,
}
use tee_gateway.Prelude.Result.{ok, err, Result-cases}
use tee_gateway.Prelude.Text.{Text}
use tee_gateway.Prelude.Json.{PyError}
use tee_gateway.LlmBackend.Usage.{extract_usage, TokenUsage}
use tee_gateway.ChatStream.State.{
  Chunk, BufferedCall, ToolChunk, StreamState, Event, content_delta, tool_delta, flushed,
  chunk_text, call_deltas, add_calls, add_usage,
}
use tee_gateway.ChatStream.{
  Start, token_stream, structured, image_output, Looped, start_state, start_events, content_event,
  chunk_events, with_chunk, stream_chunks, flush_events, usage_raised, yield_before,
}

-- The content that a client has put together of the deltas.
abbrev pub content_of : List Event → Text
content_of [] = []
content_of (content_delta text ∷ events) = text ++ content_of events
content_of (tool_delta chunk ∷ events) = content_of events
content_of (flushed index call ∷ events) = content_of events

pub content_of-append :
    (front back : List Event) → content_of (front ++ back) ≡ content_of front ++ content_of back
content_of-append [] back = refl
content_of-append (content_delta text ∷ front) back =
    ap (λ (s : Text). text ++ s) (content_of-append front back)
    ∙ sym (append_assoc text (content_of front) (content_of back))
content_of-append (tool_delta chunk ∷ front) back = content_of-append front back
content_of-append (flushed index call ∷ front) back = content_of-append front back

content_of-content_event : (text : Text) → content_of (content_event text) ≡ text
content_of-content_event [] = refl
content_of-content_event (c ∷ s) = append-nil (c ∷ s)

content_of-call_deltas : (chunks : List ToolChunk) → content_of (call_deltas chunks) ≡ []
content_of-call_deltas [] = refl
content_of-call_deltas (chunk ∷ chunks) = content_of-call_deltas chunks

content_of-flush :
    (calls : List (ℕ × BufferedCall)) → content_of (map (λ call. flushed call.0 call.1) calls) ≡ []
content_of-flush [] = refl
content_of-flush (call ∷ calls) = content_of-flush calls

pub content_of-flush_events :
    (buffer : Bool) (s : StreamState) → content_of (flush_events buffer s) ≡ []
content_of-flush_events true s = content_of-flush s.buffered_tool_calls
content_of-flush_events false s = refl

content_of-chunk_events :
    (buffer : Bool) (chunk : Chunk)
    → content_of (chunk_events buffer chunk) ≡ chunk_text chunk.content
content_of-chunk_events true chunk =
    content_of-append (content_event (chunk_text chunk.content)) []
    ∙ append-nil (content_of (content_event (chunk_text chunk.content)))
    ∙ content_of-content_event (chunk_text chunk.content)
content_of-chunk_events false chunk =
    content_of-append (content_event (chunk_text chunk.content))
      (call_deltas chunk.tool_call_chunks)
    ∙ ap (λ (s : Text). content_of (content_event (chunk_text chunk.content)) ++ s)
        (content_of-call_deltas chunk.tool_call_chunks)
    ∙ append-nil (content_of (content_event (chunk_text chunk.content)))
    ∙ content_of-content_event (chunk_text chunk.content)

pub content_of-start_events :
    (start : Start) → content_of (start_events start) ≡ (start_state start).full_content
content_of-start_events token_stream = refl
content_of-start_events (structured content usage) = append-nil content
content_of-start_events (image_output content usage images) = content_of-content_event content

full_content-add_usage :
    (is_xai : Bool) (usage : Option TokenUsage) (s : StreamState)
    → (add_usage is_xai usage s).full_content ≡ s.full_content
unfolding add_usage
full_content-add_usage is_xai none s = refl
full_content-add_usage true (some usage) s = refl
full_content-add_usage false (some usage) s = refl

full_content-add_calls :
    (chunks : List ToolChunk) (s : StreamState) → (add_calls chunks s).full_content ≡ s.full_content
unfolding add_calls
full_content-add_calls [] s = refl
full_content-add_calls (chunk ∷ chunks) s = refl

pub stream_chunks-step :
    (is_xai buffer : Bool) (chunk : Chunk) (chunks : List Chunk) (raised : Option Text)
    (s : StreamState) (usage : Option TokenUsage)
    → extract_usage chunk.response ≡ ok usage
    → stream_chunks is_xai buffer (chunk ∷ chunks) raised s
      ≡ yield_before
          (chunk_events buffer chunk)
          (stream_chunks is_xai buffer chunks raised (add_usage is_xai usage (with_chunk chunk s)))
unfolding stream_chunks
stream_chunks-step is_xai buffer chunk chunks raised s usage counted =
    rw (stream_chunks, counted) refl

pub stream_chunks-failed :
    (is_xai buffer : Bool) (chunk : Chunk) (chunks : List Chunk) (raised : Option Text)
    (s : StreamState) (e : PyError)
    → extract_usage chunk.response ≡ err e
    → (stream_chunks is_xai buffer (chunk ∷ chunks) raised s).result ≡ err (usage_raised e)
unfolding stream_chunks
stream_chunks-failed is_xai buffer chunk chunks raised s e failed = rw (stream_chunks, failed) refl

-- The loop's content is what its events carry.
pub stream_chunks-content :
    (is_xai buffer : Bool) (chunks : List Chunk) (raised : Option Text) (s t : StreamState)
    → (stream_chunks is_xai buffer chunks raised s).result ≡ ok t
    → (t.full_content
        ≡ s.full_content ++ content_of (stream_chunks is_xai buffer chunks raised s).events)
      × (raised ≡ none)
stream_chunks-content is_xai buffer [] (some exc) s t h =
    absurd (unfold stream_chunks in ground (arith, h))
stream_chunks-content is_xai buffer [] none s t h =
    let same : s ≡ t = unfold stream_chunks in ground (arith, h) in
    (
      unfold stream_chunks in
          (ap (λ (u : StreamState). u.full_content) (sym same) ∙ sym (append-nil s.full_content)),
      refl,
    )
stream_chunks-content is_xai buffer (chunk ∷ chunks) raised s t h =
    elim (Result-cases (extract_usage chunk.response)) [
      | inr (e, failed) ↦
          absurd
            (ground (arith, h, stream_chunks-failed is_xai buffer chunk chunks raised s e failed))
      | inl (usage, counted) ↦
          let step = stream_chunks-step is_xai buffer chunk chunks raised s usage counted in
          let u = add_usage is_xai usage (with_chunk chunk s) in
          let rest = stream_chunks is_xai buffer chunks raised u in
          let text = chunk_text chunk.content in
          let (later, quiet) =
            stream_chunks-content is_xai buffer chunks raised u t
              (ap (λ (l : Looped). l.result) (sym step) ∙ h) in
          let grown : u.full_content ≡ s.full_content ++ text =
            full_content-add_usage is_xai usage (with_chunk chunk s)
            ∙ full_content-add_calls chunk.tool_call_chunks
                (record s { full_content = s.full_content ++ text }) in
          let shown : content_of (stream_chunks is_xai buffer (chunk ∷ chunks) raised s).events
              ≡ text ++ content_of rest.events =
            ap (λ (l : Looped). content_of l.events) step
            ∙ content_of-append (chunk_events buffer chunk) rest.events
            ∙ ap (λ (front : Text). front ++ content_of rest.events)
                (content_of-chunk_events buffer chunk) in
          (
            later
                ∙ ap (λ (front : Text). front ++ content_of rest.events) grown
                ∙ append_assoc s.full_content text (content_of rest.events)
                ∙ ap (λ (back : Text). s.full_content ++ back) (sym shown),
            quiet,
          )
    ]

-- The whole tool calls that a client gets.
abbrev pub flushed_calls : List Event → List (ℕ × BufferedCall)
flushed_calls [] = []
flushed_calls (content_delta text ∷ events) = flushed_calls events
flushed_calls (tool_delta chunk ∷ events) = flushed_calls events
flushed_calls (flushed index call ∷ events) = (index, call) ∷ flushed_calls events

flushed_calls-append :
    (front back : List Event)
    → flushed_calls (front ++ back) ≡ flushed_calls front ++ flushed_calls back
flushed_calls-append [] back = refl
flushed_calls-append (content_delta text ∷ front) back = flushed_calls-append front back
flushed_calls-append (tool_delta chunk ∷ front) back = flushed_calls-append front back
flushed_calls-append (flushed index call ∷ front) back =
    ap (λ (l : List (ℕ × BufferedCall)). (index, call) ∷ l) (flushed_calls-append front back)

flushed_calls-content_event : (text : Text) → flushed_calls (content_event text) ≡ []
flushed_calls-content_event [] = refl
flushed_calls-content_event (c ∷ s) = refl

flushed_calls-call_deltas : (chunks : List ToolChunk) → flushed_calls (call_deltas chunks) ≡ []
flushed_calls-call_deltas [] = refl
flushed_calls-call_deltas (chunk ∷ chunks) = flushed_calls-call_deltas chunks

flushed_calls-chunk_events :
    (buffer : Bool) (chunk : Chunk) → flushed_calls (chunk_events buffer chunk) ≡ []
flushed_calls-chunk_events true chunk =
    flushed_calls-append (content_event (chunk_text chunk.content)) []
    ∙ append-nil (flushed_calls (content_event (chunk_text chunk.content)))
    ∙ flushed_calls-content_event (chunk_text chunk.content)
flushed_calls-chunk_events false chunk =
    flushed_calls-append (content_event (chunk_text chunk.content))
      (call_deltas chunk.tool_call_chunks)
    ∙ rw
        (
          flushed_calls-content_event (chunk_text chunk.content),
          flushed_calls-call_deltas chunk.tool_call_chunks,
        )
        refl

flushed_calls-start_events : (start : Start) → flushed_calls (start_events start) ≡ []
flushed_calls-start_events token_stream = refl
flushed_calls-start_events (structured content usage) = refl
flushed_calls-start_events (image_output content usage images) = flushed_calls-content_event content

flushed_calls-flush :
    (calls : List (ℕ × BufferedCall))
    → flushed_calls (map (λ (call : ℕ × BufferedCall). flushed call.0 call.1) calls) ≡ calls
flushed_calls-flush [] = refl
flushed_calls-flush (call ∷ calls) =
    ap (λ (l : List (ℕ × BufferedCall)). call ∷ l) (flushed_calls-flush calls)

flushed_calls-flush_events :
    (buffer : Bool) (s : StreamState)
    → flushed_calls (flush_events buffer s) ≡ (if buffer then s.buffered_tool_calls else [])
flushed_calls-flush_events true s = flushed_calls-flush s.buffered_tool_calls
flushed_calls-flush_events false s = refl

-- The loop flushes nothing.
flushed_calls-stream_chunks :
    (is_xai buffer : Bool) (chunks : List Chunk) (raised : Option Text) (s t : StreamState)
    → (stream_chunks is_xai buffer chunks raised s).result ≡ ok t
    → flushed_calls (stream_chunks is_xai buffer chunks raised s).events ≡ []
flushed_calls-stream_chunks is_xai buffer [] (some exc) s t h = unfold stream_chunks in refl
flushed_calls-stream_chunks is_xai buffer [] none s t h = unfold stream_chunks in refl
flushed_calls-stream_chunks is_xai buffer (chunk ∷ chunks) raised s t h =
    elim (Result-cases (extract_usage chunk.response)) [
      | inr (e, failed) ↦
          absurd
            (ground (arith, h, stream_chunks-failed is_xai buffer chunk chunks raised s e failed))
      | inl (usage, counted) ↦
          let step = stream_chunks-step is_xai buffer chunk chunks raised s usage counted in
          let u = add_usage is_xai usage (with_chunk chunk s) in
          let rest = stream_chunks is_xai buffer chunks raised u in
          let later =
            flushed_calls-stream_chunks is_xai buffer chunks raised u t
              (ap (λ (l : Looped). l.result) (sym step) ∙ h) in
          ap (λ (l : Looped). flushed_calls l.events) step
          ∙ flushed_calls-append (chunk_events buffer chunk) rest.events
          ∙ rw (flushed_calls-chunk_events buffer chunk) later
    ]

pub flushed_calls-ends :
    (is_xai buffer : Bool) (start : Start) (chunks : List Chunk) (raised : Option Text)
    (s : StreamState)
    → (stream_chunks is_xai buffer chunks raised (start_state start)).result ≡ ok s
    → flushed_calls (
        (start_events start
          ++ (stream_chunks is_xai buffer chunks raised (start_state start)).events)
        ++ flush_events buffer s)
      ≡ (if buffer then s.buffered_tool_calls else [])
flushed_calls-ends is_xai buffer start chunks raised s ended =
    let loop = (stream_chunks is_xai buffer chunks raised (start_state start)).events in
    let quiet : flushed_calls (start_events start ++ loop) ≡ [] =
      flushed_calls-append (start_events start) loop
      ∙ rw (flushed_calls-start_events start)
          (flushed_calls-stream_chunks is_xai buffer chunks raised (start_state start) s ended) in
    flushed_calls-append (start_events start ++ loop) (flush_events buffer s)
    ∙ rw quiet (flushed_calls-flush_events buffer s)
