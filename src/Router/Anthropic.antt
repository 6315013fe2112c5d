-- ===== src/Router/Anthropic.antt =====
-- The stream of src/tename/router/providers/anthropic.py. What the client of the Anthropic library
-- yields is an argument: the events of a stream, and how it ends.
pub mod Streams
pub mod Retry
pub mod Requests
use Prim.Native.String.{◌++◌ as append}
use tename.Prelude.{
  ℕ, max, Bool, true, false, Option, none, some, List, [], ◌∷◌, ◌++◌, String, ◌==◌, leb,
  if◌then◌else◌,
}
use tename.Json.{Json, Fields, obj, end, field}
use tename.Router.Types.{
  ModelChunk, Usage, text_delta, tool_call_start, tool_call_delta, tool_call_end, usage, done,
  error,
}

-- What `json.loads` makes of a text, `none` for a JSONDecodeError, and `not text.strip()`.
pub record JsonReader : Type 0 where
  pub loads : String → Option Json
  pub is_blank : String → Bool

pub data Block : Type 0 where
  tool_use : (id name : String) → Block
  other_block : Block

pub data Delta : Type 0 where
  text : String → Delta
  input_json : (partial_json : String) → Delta
  other_delta : Delta

-- The events that the loop tells apart; a count that is None is `none`.
pub data StreamEvent : Type 0 where
  message_start : (input_tokens cache_read output_tokens : Option ℕ) → StreamEvent
  content_block_start : (index : ℕ) → Block → StreamEvent
  content_block_delta : (index : ℕ) → Delta → StreamEvent
  content_block_stop : (index : ℕ) → StreamEvent
  message_delta : (input_tokens cache_read output_tokens : Option ℕ) → StreamEvent
  other_event : StreamEvent

-- How the iteration ends: at the last event, by an APIStatusError, by an APIConnectionError or an
-- APITimeoutError, or by another exception, which passes through.
pub data Ending : Type 0 where
  exhausted : Ending
  status_error : (status_code : ℕ) (message : String) → Ending
  connection_error : (message : String) → Ending
  uncaught : Ending

-- _ToolBlockState
pub data ToolBlock : Type 0 where
  tool_block : (tool_id tool_name partial_json_buf : String) → ToolBlock

abbrev pub ToolBlocks : Type 0
ToolBlocks = List (ℕ × ToolBlock)

-- tool_blocks.get(index)
unfoldable pub find_block : ℕ → ToolBlocks → Option ToolBlock
find_block index [] = none
find_block index ((i, b) ∷ rest) = if i == index then some b else find_block index rest

-- tool_blocks[index] = block
unfoldable pub put_block : ℕ → ToolBlock → ToolBlocks → ToolBlocks
put_block index block [] = (index, block) ∷ []
put_block index block ((i, b) ∷ rest) =
    if i == index then (index, block) ∷ rest else (i, b) ∷ put_block index block rest

-- tool_blocks.pop(index, None), without its value
unfoldable pub drop_block : ℕ → ToolBlocks → ToolBlocks
drop_block index [] = []
drop_block index ((i, b) ∷ rest) =
    let later = drop_block index rest in if i == index then later else (i, b) ∷ later

pub record StreamState : Type 0 where
  pub tool_blocks : ToolBlocks
  pub input_tokens : ℕ
  pub cached_input_tokens : ℕ
  pub output_tokens : ℕ

abbrev pub no_state : StreamState
no_state = record { tool_blocks = []; input_tokens = 0; cached_input_tokens = 0; output_tokens = 0 }

abbrev or_zero : Option ℕ → ℕ
or_zero none = 0
or_zero (some n) = n

abbrev or_old : ℕ → Option ℕ → ℕ
or_old old none = old
or_old old (some n) = n

-- input_tokens only grows
abbrev or_max : ℕ → Option ℕ → ℕ
or_max old none = old
or_max old (some n) = max old n

module _ (reader : JsonReader) where
  abbrev dict_of : Option Json → Fields
  dict_of none = end
  dict_of (some (obj d)) = d
  dict_of (some v) = field "_value" v end

  -- _safe_json_loads
  unfoldable pub safe_json_loads : String → Fields
  safe_json_loads buf = if reader.is_blank buf then end else dict_of (reader.loads buf)

  abbrev pub start_block : ℕ → Block → StreamState → StreamState × List ModelChunk
  start_block index (tool_use id name) s = (
    record s { tool_blocks = put_block index (tool_block id name "") s.tool_blocks },
    tool_call_start id name index ∷ [],
  )
  start_block index other_block s = (s, [])

  abbrev pub extend_block :
      ℕ → String → Option ToolBlock → StreamState → StreamState × List ModelChunk
  extend_block index partial none s = (s, [])
  extend_block index partial (some (tool_block id name buf)) s = (
    record s {
      tool_blocks = put_block index (tool_block id name (append buf partial)) s.tool_blocks;
    },
    tool_call_delta id partial index ∷ [],
  )

  abbrev pub extend : ℕ → Delta → StreamState → StreamState × List ModelChunk
  extend index (text t) s = (s, text_delta t ∷ [])
  extend index (input_json partial) s =
      extend_block index partial (find_block index s.tool_blocks) s
  extend index other_delta s = (s, [])

  abbrev pub stop_block : ℕ → Option ToolBlock → StreamState → StreamState × List ModelChunk
  stop_block index none s = (s, [])
  stop_block index (some (tool_block id name buf)) s = (
    record s { tool_blocks = drop_block index s.tool_blocks },
    tool_call_end id name (safe_json_loads buf) index ∷ [],
  )

  -- One round of the loop, with what it yields.
  unfoldable pub on_event : StreamEvent → StreamState → StreamState × List ModelChunk
  on_event (message_start input cache output) s = (
    record s {
      input_tokens = or_zero input;
      cached_input_tokens = or_zero cache;
      output_tokens = or_zero output;
    },
    [],
  )
  on_event (content_block_start index block) s = start_block index block s
  on_event (content_block_delta index delta) s = extend index delta s
  on_event (content_block_stop index) s = stop_block index (find_block index s.tool_blocks) s
  on_event (message_delta input cache output) s = (
    record s {
      input_tokens = or_max s.input_tokens input;
      cached_input_tokens = or_old s.cached_input_tokens cache;
      output_tokens = or_old s.output_tokens output;
    },
    [],
  )
  on_event other_event s = (s, [])

  unfoldable pub on_events : List StreamEvent → StreamState → StreamState × List ModelChunk
  on_events [] s = (s, [])
  on_events (e ∷ es) s =
      let first = on_event e s in let rest = on_events es first.0 in (rest.0, first.1 ++ rest.1)

  abbrev pub usage_of : StreamState → Usage
  usage_of s = record {
    input_tokens = s.input_tokens;
    output_tokens = s.output_tokens;
    cached_input_tokens = s.cached_input_tokens;
    reasoning_tokens = 0;
    cost_usd = none;
  }

  -- What is yielded after the loop; nothing follows on an exception that passes through.
  abbrev pub closing : Ending → StreamState → List ModelChunk
  closing exhausted s = usage (usage_of s) ∷ done ∷ []
  closing (status_error code message) s = error message (leb 500 code) (some code) ∷ []
  closing (connection_error message) s = error message true none ∷ []
  closing uncaught s = []

  -- The chunks of an open stream.
  unfoldable pub stream_chunks : List StreamEvent → Ending → List ModelChunk
  stream_chunks events ending = let out = on_events events no_state in out.1 ++ closing ending out.0
