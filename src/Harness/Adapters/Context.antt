-- ===== src/Harness/Adapters/Context.antt =====
-- `build_context` of src/tename/harness/adapters/vanilla.py: a fold over the event log with three
-- buffers, the nonlocal variables of its closures.
use tename.Prelude.{
  ℕ, Bool, true, false, ◌&&◌, Option, none, some, List, [], ◌∷◌, ◌++◌, String, ◌==◌, if◌then◌else◌,
}
use tename.Json.{
  Json, Fields, null, bool, str, arr, obj, end, get, get_default, truthy, as_str, is_empty,
  is_string,
}
use tename.Sessions.Models.{
  Event, EventType, user_message, assistant_message, tool_call, tool_result, harness_event,
  system_event, error,
}
use tename.Router.Types.{
  ContentBlock, BlockType, plain, blocks, Message, Role, text_block, tool_use_block,
}
use tename.Harness.Adapters.Base.{Python}

-- tool_call_ids: the latest entry of an event id comes first.
abbrev pub CallIds : Type 0
CallIds = List (ℕ × String)

unfoldable pub find_call : ℕ → CallIds → Option String
find_call id [] = none
find_call id ((i, t) ∷ rest) = if i == id then some t else find_call id rest

abbrev add_call : ℕ → Option String → CallIds → CallIds
add_call id none ids = ids
add_call id (some t) ids = (id, t) ∷ ids

abbrev call_id : EventType → ℕ → Fields → CallIds → CallIds
call_id tool_call id payload ids = add_call id (as_str (get "tool_id" payload)) ids
call_id _ id payload ids = ids

-- The first loop of `build_context`.
unfoldable pub tool_call_ids : List Event → CallIds → CallIds
tool_call_ids [] ids = ids
tool_call_ids (e ∷ es) ids = tool_call_ids es (call_id e.type e.id e.payload ids)

pub record Buffers : Type 0 where
  pub messages : List Message
  pub pending_text : String
  pub pending_tool_uses : List ContentBlock
  pub pending_tool_results : List ContentBlock

abbrev pub is_nil {ℓ} : {A : Type ℓ} → List A → Bool
is_nil [] = true
is_nil (x ∷ xs) = false

abbrev pub text_part : String → List ContentBlock
text_part t = if is_empty t then [] else text_block t ∷ []

-- _flush_assistant
unfoldable pub flush_assistant : Buffers → Buffers
flush_assistant b = if is_empty b.pending_text && is_nil b.pending_tool_uses then b else record b {
  messages =
      b.messages
      ++ record {
        role = Role.assistant;
        content = blocks (text_part b.pending_text ++ b.pending_tool_uses);
      }
        ∷ [];
  pending_text = "";
  pending_tool_uses = [];
}

-- _flush_tool_results
unfoldable pub flush_tool_results : Buffers → Buffers
flush_tool_results b = if is_nil b.pending_tool_results then b else record b {
  messages =
      b.messages ++ record { role = Role.tool; content = blocks b.pending_tool_results } ∷ [];
  pending_tool_results = [];
}

unfoldable pub flush_both : Buffers → Buffers
unfolding flush_assistant flush_tool_results
flush_both b = flush_tool_results (flush_assistant b)

abbrev pub say : Role → String → Buffers → Buffers
say role t b = record b { messages = b.messages ++ record { role = role; content = plain t } ∷ [] }

abbrev pub dict_or_empty : Json → Fields
dict_or_empty (obj d) = d
dict_or_empty _ = end

-- `payload.get("content", "")`, if it is a string.
abbrev pub text_content : Fields → Option String
text_content payload = as_str (some (get_default "content" (str "") payload))

abbrev pub on_system : Option String → Buffers → Buffers
on_system none b = flush_both b
on_system (some t) b = if is_empty t then flush_both b else say Role.system t (flush_both b)

abbrev pub on_user : Option String → Buffers → Buffers
on_user none b = flush_both b
on_user (some t) b = say Role.user t (flush_both b)

-- The flag is `is_complete`.
abbrev pub on_assistant : Bool → Option String → Buffers → Buffers
on_assistant false text b = b
on_assistant true none b = flush_tool_results b
on_assistant true (some t) b = record (flush_tool_results b) { pending_text = t }

abbrev pub add_use : ContentBlock → Buffers → Buffers
add_use block b = record b { pending_tool_uses = b.pending_tool_uses ++ block ∷ [] }

abbrev pub add_result : ContentBlock → Buffers → Buffers
add_result block b = record b { pending_tool_results = b.pending_tool_results ++ block ∷ [] }

abbrev pub use_block : String → String → Fields → ContentBlock
use_block tool_id tool_name payload =
    tool_use_block tool_id tool_name (dict_or_empty (get_default "input" (obj end) payload))

abbrev pub on_tool_call : Option String → Option String → Fields → Buffers → Buffers
on_tool_call none tool_name payload b = b
on_tool_call (some tool_id) none payload b = b
on_tool_call (some tool_id) (some tool_name) payload b =
    add_use (use_block tool_id tool_name payload)
      (if is_nil b.pending_tool_results then b else flush_both b)

abbrev pub no_buffers : Buffers
no_buffers = record {
  messages = [];
  pending_text = "";
  pending_tool_uses = [];
  pending_tool_results = [];
}

module _ (py : Python) where
  -- `error if isinstance(error, str) else ""`
  abbrev fallback : Option Json → Json
  fallback (some (str s)) = str s
  fallback _ = str ""

  -- Keeps strings and lists.
  abbrev as_content : Json → Json
  as_content (str s) = str s
  as_content (arr items) = arr items
  as_content other = str (py.str_of other)

  -- `payload.get("content")`, where None calls for the error text.
  abbrev content_of : Option Json → Option Json → Json
  content_of none failure = fallback failure
  content_of (some null) failure = fallback failure
  content_of (some v) failure = as_content v

  abbrev flag_of : Option Json → Option Bool
  flag_of none = none
  flag_of (some null) = none
  flag_of (some v) = some (truthy v)

  -- _tool_result_block
  unfoldable pub tool_result_block : String → Fields → ContentBlock
  tool_result_block tool_use_id payload = record {
    type = BlockType.tool_result;
    text = none;
    id = none;
    name = none;
    input = none;
    tool_use_id = some tool_use_id;
    content = some (content_of (get "content" payload) (get "error" payload));
    is_error = flag_of (get "is_error" payload);
  }

  -- `tool_call_ids.get(UUID(tool_call_id))`
  unfoldable pub tool_use_of : CallIds → Option String → Option String
  tool_use_of ids none = none
  tool_use_of ids (some t) = elim (py.uuid_of t) [ none ↦ none | some id ↦ find_call id ids ]

  abbrev pub on_tool_result : Option String → Fields → Buffers → Buffers
  on_tool_result none payload b = flush_assistant b
  on_tool_result (some tool_use_id) payload b =
      add_result (tool_result_block tool_use_id payload) (flush_assistant b)

  -- One round of the second loop.
  unfoldable pub fold_event : CallIds → EventType → Fields → Buffers → Buffers
  fold_event ids system_event payload b =
      if is_string "system_prompt" (get "type" payload)
      then on_system (text_content payload) b
      else b
  fold_event ids user_message payload b = on_user (text_content payload) b
  fold_event ids assistant_message payload b =
      on_assistant (truthy (get_default "is_complete" (bool false) payload)) (text_content payload)
        b
  fold_event ids tool_call payload b =
      on_tool_call (as_str (get "tool_id" payload)) (as_str (get "tool_name" payload)) payload b
  fold_event ids tool_result payload b =
      on_tool_result (tool_use_of ids (as_str (get "tool_call_id" payload))) payload b
  fold_event ids harness_event payload b = b
  fold_event ids error payload b = b

  unfoldable pub fold_events : CallIds → List Event → Buffers → Buffers
  fold_events ids [] b = b
  fold_events ids (e ∷ es) b = fold_events ids es (fold_event ids e.type e.payload b)

  unfoldable pub build_context : List Event → List Message
  unfolding fold_events fold_event flush_both
  build_context events =
      (flush_both (fold_events (tool_call_ids events []) events no_buffers)).messages
