-- ===== src/Router/Types.antt =====
-- src/tename/router/types.py: messages, tools, usage and the chunks of a stream.
use tename.Prelude.{ℕ, Bool, Option, none, some, List, String}
use tename.Json.{Json, Fields}

pub data Role : Type 0 where
  system user assistant tool : Role

pub data BlockType : Type 0 where
  text tool_use tool_result : BlockType

pub record ContentBlock : Type 0 where
  pub type : BlockType
  pub text : Option String
  pub id : Option String
  pub name : Option String
  pub input : Option Fields
  pub tool_use_id : Option String
  pub content : Option Json
  pub is_error : Option Bool

-- `str | list[ContentBlock]`
pub data Content : Type 0 where
  plain : String → Content
  blocks : List ContentBlock → Content

pub record Message : Type 0 where
  pub role : Role
  pub content : Content

pub record ToolDef : Type 0 where
  pub name : String
  pub description : String
  pub input_schema : Fields

abbrev pub text_block : String → ContentBlock
text_block t = record {
  type = BlockType.text;
  text = some t;
  id = none;
  name = none;
  input = none;
  tool_use_id = none;
  content = none;
  is_error = none;
}

abbrev pub tool_use_block : String → String → Fields → ContentBlock
tool_use_block id name input = record {
  type = BlockType.tool_use;
  text = none;
  id = some id;
  name = some name;
  input = some input;
  tool_use_id = none;
  content = none;
  is_error = none;
}

-- Token usage; `cost_usd` counts hundred-millionths of a dollar.
pub record Usage : Type 0 where
  pub input_tokens : ℕ
  pub output_tokens : ℕ
  pub cached_input_tokens : ℕ
  pub reasoning_tokens : ℕ
  pub cost_usd : Option ℕ

-- A chunk and its content, one constructor for each `ChunkType`.
pub data ModelChunk : Type 0 where
  text_delta : (text : String) → ModelChunk
  tool_call_start : (tool_id tool_name : String) (index : ℕ) → ModelChunk
  tool_call_delta : (tool_id partial_json : String) (index : ℕ) → ModelChunk
  tool_call_end : (tool_id tool_name : String) (input : Fields) (index : ℕ) → ModelChunk
  usage : Usage → ModelChunk
  done : ModelChunk
  error : (message : String) (retryable : Bool) (status_code : Option ℕ) → ModelChunk
