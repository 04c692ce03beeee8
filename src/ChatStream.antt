-- ===== src/ChatStream.antt =====
-- The generator of a streamed chat completion, `generate` in _create_streaming_response of
-- tee_gateway/controllers/chat_controller.py: the events that it yields, and what it signs and
-- charges at the end. The provider's stream is the list of its chunks and the exception behind it.
pub mod State
mod Order
mod Received
mod Signed
mod ToolCalls
mod Tests
use tee_gateway.Prelude.{
  ℕ, List, [], ◌∷◌, ◌++◌, map, Bool, true, false, Option, none, some, if◌then◌else◌, leb, ◌&&◌,
}
use tee_gateway.Prelude.Int.{ℤ, pos}
use tee_gateway.Prelude.Result.{Result, ok, err}
use tee_gateway.Prelude.Text.{Text}
use tee_gateway.Prelude.Json.{PyError}
use tee_gateway.Attestation.{TeeError, compute_tee_msg_hash}
use tee_gateway.PriceFeed.{Feed}
use tee_gateway.Pricing.{SessionCost, Usage, Count, counted, compute_session_cost}
use tee_gateway.LlmBackend.Usage.{extract_usage}
use tee_gateway.ChatStream.State.{
  Chunk, BufferedCall, Totals, StreamState, Event, content_delta, tool_delta, flushed, chunk_text,
  add_calls, add_usage, call_deltas,
}

-- Where the events come from: the provider's stream, or one answer that is known before: a
-- structured result, or the text and the images of an image model, with their usage. An image model
-- that raises is a stream that raises before its first chunk.
pub data Start : Type 0 where
  token_stream : Start
  structured : Text → Option Totals → Start
  image_output : Text → Option Totals → List Text → Start

-- What ends a stream that fails.
pub data Failure : Type 0 where
  provider_raised : Text → Failure
  usage_raised : PyError → Failure
  hash_raised : TeeError → Failure

-- The last event but the end mark.
pub record FinalEvent : Type 0 where
  pub is_tool_calls : Bool
  pub tee_signature : Text
  pub tee_timestamp : ℕ
  pub tee_request_hash : Text
  pub tee_output_hash : Text
  pub images : List Text
  pub usage : Option Totals
  pub opengradient : Option SessionCost

-- One event of the stream.
pub data Sse : Type 0 where
  delta : Event → Sse
  final : FinalEvent → Sse
  done : Sse
  error : Failure → Sse

-- The state and the events before the chunks.
abbrev pub start_state : Start → StreamState
start_state token_stream = record {
  full_content = [];
  final_usage = none;
  buffered_tool_calls = [];
  is_tool_calls = false;
}
start_state (structured content usage) = record {
  full_content = content;
  final_usage = usage;
  buffered_tool_calls = [];
  is_tool_calls = false;
}
start_state (image_output content usage images) = record {
  full_content = content;
  final_usage = usage;
  buffered_tool_calls = [];
  is_tool_calls = false;
}

abbrev pub content_event : Text → List Event
content_event [] = []
content_event (c ∷ s) = content_delta (c ∷ s) ∷ []

abbrev pub start_events : Start → List Event
start_events token_stream = []
start_events (structured content usage) = content_delta content ∷ []
start_events (image_output content usage images) = content_event content

abbrev pub images_of : Start → List Text
images_of (image_output content usage images) = images
images_of _ = []

-- What the loop over the chunks has yielded, and its state or the exception that ended it.
pub record Looped : Type 0 where
  pub events : List Event
  pub result : Result Failure StreamState

abbrev pub yield_before : List Event → Looped → Looped
yield_before events rest = record rest { events = events ++ rest.events }

-- The branches without buffering yield each fragment of a tool call.
abbrev pub chunk_events : Bool → Chunk → List Event
chunk_events buffer chunk =
    content_event (chunk_text chunk.content)
    ++ (if buffer then [] else call_deltas chunk.tool_call_chunks)

-- The state behind the content and the tool calls of a chunk.
abbrev pub with_chunk : Chunk → StreamState → StreamState
with_chunk chunk s =
    add_calls chunk.tool_call_chunks
      (record s { full_content = s.full_content ++ chunk_text chunk.content })

-- for chunk in chunks_iter
unfoldable pub stream_chunks : Bool → Bool → List Chunk → Option Text → StreamState → Looped
stream_chunks is_xai buffer [] (some exc) s = record {
  events = [];
  result = err (provider_raised exc);
}
stream_chunks is_xai buffer [] none s = record { events = []; result = ok s }
stream_chunks is_xai buffer (chunk ∷ chunks) raised s =
    let s' = with_chunk chunk s in
    let rest = λ (u : StreamState). stream_chunks is_xai buffer chunks raised u in
    elim (extract_usage chunk.response) [
      | err e ↦ record { events = chunk_events buffer chunk; result = err (usage_raised e) }
      | ok usage ↦ yield_before (chunk_events buffer chunk) (rest (add_usage is_xai usage s'))
    ]

-- The flush of the tool calls, in the order in which they came.
abbrev pub flush_events : Bool → StreamState → List Event
flush_events buffer s =
    if buffer then map (λ call. flushed call.0 call.1) s.buffered_tool_calls else []

-- sorted(buffered_tool_calls.keys())
abbrev pub insert_call : ℕ × BufferedCall → List (ℕ × BufferedCall) → List (ℕ × BufferedCall)
insert_call call [] = call ∷ []
insert_call call (other ∷ calls) =
    let later = insert_call call calls in
    if leb call.0 other.0 then call ∷ other ∷ calls else other ∷ later

abbrev pub sort_calls : List (ℕ × BufferedCall) → List (ℕ × BufferedCall)
sort_calls [] = []
sort_calls (call ∷ calls) = insert_call call (sort_calls calls)

abbrev pub cost_usage : Totals → Usage
cost_usage totals = record {
  prompt_tokens = counted totals.input_tokens;
  completion_tokens = counted totals.output_tokens;
  reasoning_tokens = counted totals.reasoning;
}

-- The signed text: the tool calls if there are any, else the content.
unfoldable pub signed_text :
    (List BufferedCall → Text) → Bool → List (ℕ × BufferedCall) → Text → Text
signed_text dump_calls is_tool_calls [] content = content
signed_text dump_calls false (call ∷ calls) content = content
signed_text dump_calls true (call ∷ calls) content =
    dump_calls (map (λ (c : ℕ × BufferedCall). c.1) (sort_calls (call ∷ calls)))

-- json.dumps of the calls, UTF-8 of a text, the enclave's hash and signature, the feed and the clock.
module _ (keccak : List ℕ → List ℕ) (dump_calls : List BufferedCall → Text) (utf8 : Text → List ℕ)
    (sign : List ℕ → Text) (feed : Option Feed) (now : ℕ) (model : Text)
    (request_bytes : List ℕ) where
  abbrev pub session_cost_of : Option Totals → Option SessionCost
  session_cost_of none = none
  session_cost_of (some totals) =
      compute_session_cost feed now model (cost_usage totals) (pos 0) none (pos 0)

  -- From the signature on.
  unfoldable pub finish : Start → StreamState → List Sse
  unfolding signed_text compute_tee_msg_hash
  finish start s =
      elim (compute_tee_msg_hash keccak request_bytes
        (utf8 (signed_text dump_calls s.is_tool_calls s.buffered_tool_calls s.full_content)) now) [
          | err raised ↦ error (hash_raised raised) ∷ []
          | ok (msg_hash, input_hash_hex, output_hash_hex) ↦
              final (record {
                is_tool_calls = s.is_tool_calls;
                tee_signature = sign msg_hash;
                tee_timestamp = now;
                tee_request_hash = input_hash_hex;
                tee_output_hash = output_hash_hex;
                images = images_of start;
                usage = s.final_usage;
                opengradient = session_cost_of s.final_usage;
              })
              ∷ done
              ∷ []
        ]

  unfoldable pub generate : Bool → Bool → Start → List Chunk → Option Text → List Sse
  unfolding stream_chunks finish
  generate is_xai buffer start chunks raised =
      let loop = stream_chunks is_xai buffer chunks raised (start_state start) in
      map delta (start_events start ++ loop.events) ++ elim loop.result [
        | err failure ↦ error failure ∷ []
        | ok s ↦ map delta (flush_events buffer s) ++ finish start s
      ]
