-- ===== src/ChatStream/State.antt =====
-- The variables of the streaming loop: the content so far, the tool calls by index, the usage.
use tee_gateway.Prelude.{
  ℕ, List, [], ◌∷◌, ◌++◌, map, Bool, true, false, Option, none, some, ◌==◌, if◌then◌else◌,
}
use tee_gateway.Prelude.Int.{ℤ, ◌+ℤ◌}
use tee_gateway.Prelude.Text.{Text}
use tee_gateway.LlmBackend.Usage.{LlmResponse, TokenUsage}

-- chunk.content: a text, a list with the texts of its items, which have one, or another value with
-- its str().
pub data ChunkContent : Type 0 where
  whole : Text → ChunkContent
  items : List Text → ChunkContent
  other : Text → ChunkContent

-- One fragment of a tool call; the arguments are the text that they are, or are dumped to.
pub record ToolChunk : Type 0 where
  pub index : ℕ
  pub id : Option Text
  pub name : Option Text
  pub args : Option Text

pub record Chunk : Type 0 where
  pub content : ChunkContent
  pub tool_call_chunks : List ToolChunk
  pub response : LlmResponse

pub record BufferedCall : Type 0 where
  pub id : Option Text
  pub name : Option Text
  pub arguments : Text

-- The usage as it is accumulated.
pub record Totals : Type 0 where
  pub input_tokens : ℤ
  pub output_tokens : ℤ
  pub total_tokens : ℤ
  pub reasoning : ℤ

pub record StreamState : Type 0 where
  pub full_content : Text
  pub final_usage : Option Totals
  pub buffered_tool_calls : List (ℕ × BufferedCall)
  pub is_tool_calls : Bool

-- The events with a delta: content, a fragment of a tool call, or a whole buffered call.
pub data Event : Type 0 where
  content_delta : Text → Event
  tool_delta : ToolChunk → Event
  flushed : ℕ → BufferedCall → Event

abbrev pub join_items : List Text → Text
join_items [] = []
join_items (item ∷ rest) = item ++ join_items rest

unfoldable pub chunk_text : ChunkContent → Text
chunk_text (whole text) = text
chunk_text (items texts) = join_items texts
chunk_text (other text) = text

-- A value that is neither None nor empty replaces the old one.
abbrev pub or_old : Option Text → Option Text → Option Text
or_old (some (c ∷ s)) old = some (c ∷ s)
or_old _ old = old

abbrev pub or_nothing : Option Text → Text
or_nothing none = []
or_nothing (some s) = s

abbrev pub fragment : ToolChunk → BufferedCall → BufferedCall
fragment chunk call = record {
  id = or_old chunk.id call.id;
  name = or_old chunk.name call.name;
  arguments = call.arguments ++ or_nothing chunk.args;
}

abbrev pub new_call : ToolChunk → BufferedCall
new_call chunk = record { id = chunk.id; name = chunk.name; arguments = [] }

-- buffered_tool_calls[tc_index]
unfoldable pub add_call : ToolChunk → List (ℕ × BufferedCall) → List (ℕ × BufferedCall)
add_call chunk [] = (chunk.index, fragment chunk (new_call chunk)) ∷ []
add_call chunk (entry ∷ calls) =
    let later = add_call chunk calls in
    if chunk.index == entry.0 then (entry.0, fragment chunk entry.1) ∷ calls else entry ∷ later

abbrev pub add_all : List ToolChunk → List (ℕ × BufferedCall) → List (ℕ × BufferedCall)
add_all [] calls = calls
add_all (chunk ∷ chunks) calls = add_all chunks (add_call chunk calls)

unfoldable pub add_calls : List ToolChunk → StreamState → StreamState
unfolding add_call
add_calls [] s = s
add_calls (chunk ∷ chunks) s = record s {
  buffered_tool_calls = add_all (chunk ∷ chunks) s.buffered_tool_calls;
  is_tool_calls = true;
}

-- A fragment as it is emitted.
abbrev pub call_deltas : List ToolChunk → List Event
call_deltas = map tool_delta

abbrev pub of_usage : TokenUsage → Totals
of_usage usage = record {
  input_tokens = usage.prompt_tokens;
  output_tokens = usage.completion_tokens;
  total_tokens = usage.total_tokens;
  reasoning = usage.reasoning_tokens;
}

abbrev pub add_totals : Totals → Totals → Totals
add_totals a b = record {
  input_tokens = a.input_tokens +ℤ b.input_tokens;
  output_tokens = a.output_tokens +ℤ b.output_tokens;
  total_tokens = a.total_tokens +ℤ b.total_tokens;
  reasoning = a.reasoning +ℤ b.reasoning;
}

-- xAI sends snapshots, of which the last counts; of the other providers the counts are added.
unfoldable pub add_usage : Bool → Option TokenUsage → StreamState → StreamState
add_usage is_xai none s = s
add_usage true (some usage) s = record s { final_usage = some (of_usage usage) }
add_usage false (some usage) s = record s {
  final_usage = elim s.final_usage [
    | none ↦ some (of_usage usage)
    | some totals ↦ some (add_totals totals (of_usage usage))
  ];
}
