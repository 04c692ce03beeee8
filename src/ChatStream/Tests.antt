-- ===== src/ChatStream/Tests.antt =====
-- Streams of a few chunks.
use tee_gateway.Prelude.{
  if◌then◌else◌, ℕ, ◌≡◌, ◌⊎◌, refl, List, [], ◌∷◌, ◌++◌, map, true, false, Option, none, some,
}
use tee_gateway.Prelude.Int.{pos}
use tee_gateway.Prelude.Result.{ok}
use tee_gateway.Prelude.Text.{Text, codes, find_key}
use tee_gateway.Prelude.Json.{null, int_of}
use tee_gateway.LlmBackend.Usage.{LlmResponse, extract_usage}
use tee_gateway.LlmBackend.Shapes.{langchain_shape}
use tee_gateway.ChatStream.State.{
  Chunk, whole, items, ToolChunk, BufferedCall, StreamState, Event, content_delta, add_usage,
  add_calls, chunk_text,
}
use tee_gateway.ChatStream.{
  token_stream, FinalEvent, Failure, Sse, delta, final, done, error, provider_raised, start_state,
  stream_chunks, generate,
}
use tee_gateway.ChatStream.Received.{flushed_calls}
use tee_gateway.ChatStream.Signed.{IsSigned, generate-ends}
use tee_gateway.ChatStream.ToolCalls.{args_of, received, stream_chunks-arguments}

abbrev silent : LlmResponse
silent = record { usage_metadata = null; response_metadata = null }

abbrev fragment_of : Text → ToolChunk
fragment_of text = record { index = 0; id = none; name = none; args = some text }

-- Two chunks with content and a fragment each, and the usage on the second.
abbrev two_chunks : List Chunk
two_chunks =
    record {
      content = whole (codes "a");
      tool_call_chunks = fragment_of (codes "x") ∷ [];
      response = silent;
    }
    ∷ record {
      content = items (codes "b" ∷ codes "c" ∷ []);
      tool_call_chunks = fragment_of (codes "y") ∷ [];
      response = langchain_shape (pos 7) (pos 3) (pos 10) (pos 0);
    }
    ∷ []

abbrev looped : StreamState
looped = record {
  full_content = codes "abc";
  final_usage = some (record {
    input_tokens = pos 7;
    output_tokens = pos 3;
    total_tokens = pos 10;
    reasoning = pos 0;
  });
  buffered_tool_calls = (0, record { id = none; name = none; arguments = codes "xy" }) ∷ [];
  is_tool_calls = true;
}

loop_ends :
    (stream_chunks false false two_chunks none (start_state token_stream)).result ≡ ok looped
unfolding stream_chunks find_key extract_usage int_of add_usage add_calls chunk_text
loop_ends = refl

stream_chunks-arguments_example :
    args_of 0 looped.buffered_tool_calls
    ≡ received 0 (stream_chunks false false two_chunks none (start_state token_stream)).events
stream_chunks-arguments_example =
    stream_chunks-arguments false token_stream two_chunks none looped 0 loop_ends

abbrev toy_hash : List ℕ → List ℕ
toy_hash bytes = bytes

abbrev toy_dump : List BufferedCall → Text
toy_dump calls = codes "calls"

abbrev toy_utf8 : Text → List ℕ
toy_utf8 text = text

abbrev toy_sign : List ℕ → Text
toy_sign bytes = codes "sig"

abbrev toy_stream : Option Text → List Sse
toy_stream raised =
    generate toy_hash toy_dump toy_utf8 toy_sign none 5 (codes "m") (codes "req") false true
      token_stream two_chunks raised

generate-ends_example :
    (pre : List Event) × (((f : FinalEvent) × (s : StreamState) × (toy_stream none
          ≡ map delta pre ++ (final f ∷ done ∷ []))
        × ((stream_chunks false true two_chunks none (start_state token_stream)).result ≡ ok s)
        × (flushed_calls pre ≡ (if true then s.buffered_tool_calls else []))
        × IsSigned toy_hash toy_dump toy_utf8 toy_sign none 5 (codes "m") (codes "req") pre s f
        × (◌≡◌ {A = Option Text} none none))
      ⊎ ((e : Failure) × (toy_stream none ≡ map delta pre ++ (error e ∷ []))))
generate-ends_example =
    generate-ends toy_hash toy_dump toy_utf8 toy_sign none 5 (codes "m") (codes "req") false true
      token_stream two_chunks none

-- A provider that raises ends the stream with an error event.
broken :
    toy_stream (some (codes "Timeout"))
    ≡ delta (content_delta (codes "a"))
      ∷ delta (content_delta (codes "bc"))
      ∷ error (provider_raised (codes "Timeout"))
      ∷ []
unfolding generate find_key extract_usage chunk_text int_of
broken = refl
