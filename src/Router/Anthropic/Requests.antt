-- ===== src/Router/Anthropic/Requests.antt =====
-- How src/tename/router/providers/anthropic.py writes a request: messages, tools and the cache marks.
-- A float stands for its text, as in Json.
use tename.Prelude.{
  ℕ, ◌≡◌, refl, ◌∙◌, Bool, true, false, not, ◌&&◌, Option, none, some, List, [], ◌∷◌, ◌++◌, String,
  map, any, filter, append_assoc, append-nil, if◌then◌else◌, Bool-cases, inl, inr,
}
use tename.Json.{
  pos, Json, Items, Fields, null, bool, int, float, str, arr, obj, nil, cons, end, field, is_empty,
  put,
}
use tename.Router.Types.{
  ContentBlock, BlockType, Content, plain, blocks, Message, Role, system, user, assistant, tool,
  ToolDef,
}

-- Of types.py.
pub data CachingStrategy : Type 0 where
  explicit_breakpoints automatic_prefix explicit_api no_caching : CachingStrategy

pub data CachingBreakpoint : Type 0 where
  system_prompt compaction_summary : CachingBreakpoint

pub record CachingConfig : Type 0 where
  pub provider_strategy : CachingStrategy
  pub breakpoints : List CachingBreakpoint

pub record Sampling : Type 0 where
  pub temperature : String
  pub top_p : String
  pub max_tokens : ℕ

abbrev items : List Json → Items
items [] = nil
items (v ∷ vs) = cons v (items vs)

abbrev text_or_empty : Option String → String
text_or_empty none = ""
text_or_empty (some t) = t

abbrev or_null : Option String → Json
or_null none = null
or_null (some s) = str s

abbrev or_no_fields : Option Fields → Fields
or_no_fields none = end
or_no_fields (some d) = d

abbrev or_no_tools : Option (List ToolDef) → List ToolDef
or_no_tools none = []
or_no_tools (some ts) = ts

abbrev or_blank : Option Json → Json
or_blank none = str ""
or_blank (some v) = v

abbrev error_mark : Option Bool → Fields
error_mark (some true) = field "is_error" (bool true) end
error_mark _ = end

abbrev text_json : String → Json
text_json t = obj (field "type" (str "text") (field "text" (str t) end))

-- One round of the loop of _content_to_anthropic.
unfoldable pub block_to_anthropic : BlockType → ContentBlock → Json
block_to_anthropic BlockType.text b = text_json (text_or_empty b.text)
block_to_anthropic BlockType.tool_use b = obj (
    field "type" (str "tool_use") (
      field "id" (or_null b.id)
        (field "name" (or_null b.name) (field "input" (obj (or_no_fields b.input)) end))))
block_to_anthropic BlockType.tool_result b = obj (
    field "type" (str "tool_result") (
      field "tool_use_id" (or_null b.tool_use_id)
        (field "content" (or_blank b.content) (error_mark b.is_error))))

unfoldable pub content_to_anthropic : Content → Json
unfolding block_to_anthropic
content_to_anthropic (plain s) = str s
content_to_anthropic (blocks bs) = arr (items (map (λ b. block_to_anthropic b.type b) bs))

-- A block with a text that is not empty.
abbrev text_of : Option String → List Json
text_of none = []
text_of (some t) = if is_empty t then [] else text_json t ∷ []

unfoldable pub block_texts : List ContentBlock → List Json
block_texts [] = []
block_texts (b ∷ bs) = text_of b.text ++ block_texts bs

-- _to_text_blocks
unfoldable pub to_text_blocks : Content → List Json
unfolding block_texts
to_text_blocks (plain s) = text_json s ∷ []
to_text_blocks (blocks bs) = block_texts bs

abbrev pub wire_role : Role → String
wire_role tool = "user"
wire_role user = "user"
wire_role assistant = "assistant"
wire_role system = "system"

abbrev pub wire_message : Message → Json
wire_message m =
    obj
      (field "role" (str (wire_role m.role)) (field "content" (content_to_anthropic m.content) end))

abbrev pub is_system : Role → Bool
is_system system = true
is_system _ = false

-- The loop of _split_system, with its two lists.
unfoldable pub split_from : List Message → List Json → List Json → List Json × List Json
split_from [] system_blocks out = (system_blocks, out)
split_from (m ∷ ms) system_blocks out =
    if is_system m.role
    then split_from ms (system_blocks ++ to_text_blocks m.content) out
    else split_from ms system_blocks (out ++ wire_message m ∷ [])

unfoldable pub split_system : List Message → List Json × List Json
split_system messages = split_from messages [] []

unfoldable pub tool_to_anthropic : ToolDef → Json
tool_to_anthropic t = obj (
    field "name" (str t.name)
      (field "description" (str t.description) (field "input_schema" (obj t.input_schema) end)))

abbrev is_system_prompt : CachingBreakpoint → Bool
is_system_prompt system_prompt = true
is_system_prompt compaction_summary = false

abbrev is_explicit : CachingStrategy → Bool
is_explicit explicit_breakpoints = true
is_explicit _ = false

abbrev mark_block : Json → Json
mark_block (obj d) = obj (put "cache_control" (obj (field "type" (str "ephemeral") end)) d)
mark_block v = v

-- system_blocks[-1]["cache_control"] = ...
unfoldable pub mark_last : List Json → List Json
mark_last [] = []
mark_last (b ∷ []) = mark_block b ∷ []
mark_last (b ∷ (c ∷ bs)) = b ∷ mark_last (c ∷ bs)

unfoldable pub apply_system_cache_control : CachingConfig → List Json → List Json
unfolding mark_last
apply_system_cache_control caching system_blocks =
    if is_explicit caching.provider_strategy && any is_system_prompt caching.breakpoints
    then mark_last system_blocks
    else system_blocks

-- `if xs: request[key] = ...`
abbrev some_field : String → List Json → Fields
some_field key [] = end
some_field key (v ∷ vs) = field key (arr (items (v ∷ vs))) end

-- `below_one top_p` is `top_p < 1.0`.
abbrev sampling_fields : (below_one : String → Bool) → Sampling → Fields → Fields
sampling_fields below_one s rest =
    if below_one s.top_p
    then field "top_p" (float s.top_p) rest
    else field "temperature" (float s.temperature) rest

abbrev join_fields : Fields → Fields → Fields
join_fields end d = d
join_fields (field k v rest) d = field k v (join_fields rest d)

unfoldable pub build_request :
    (below_one : String → Bool)
    → (model_id : String) → CachingConfig
    → Sampling
    → List Message
    → Option (List ToolDef)
    → Fields
build_request below_one model_id caching s messages tools =
    let parts = split_system messages in
    field "model" (str model_id) (
      field "messages" (arr (items parts.1)) (
        field "max_tokens" (int (pos s.max_tokens)) (
          sampling_fields below_one s (
            join_fields (some_field "system" (apply_system_cache_control caching parts.0))
              (some_field "tools" (map tool_to_anthropic (or_no_tools tools)))))))

-- The text blocks of these messages, one message after the other.
abbrev pub all_texts : List Message → List Json
all_texts [] = []
all_texts (m ∷ ms) = to_text_blocks m.content ++ all_texts ms

abbrev pub not_system : Message → Bool
not_system m = not (is_system m.role)

split_from_lem :
    (ms : List Message) (system_blocks out : List Json)
    → split_from ms system_blocks out ≡ (
      system_blocks ++ all_texts (filter (λ m. is_system m.role) ms),
      out ++ map wire_message (filter not_system ms),
    )
unfolding split_from
split_from_lem [] system_blocks out = rw (append-nil system_blocks) (rw (append-nil out) refl)
split_from_lem (m ∷ ms) system_blocks out = elim (Bool-cases (is_system m.role)) [
  | inl own ↦
      rw (own, split_from)
        (split_from_lem ms (system_blocks ++ to_text_blocks m.content) out
          ∙ rw
              (append_assoc system_blocks (to_text_blocks m.content)
                (all_texts (filter (λ x. is_system x.role) ms)))
              refl)
  | inr other ↦
      rw (other, split_from)
        (split_from_lem ms system_blocks (out ++ wire_message m ∷ [])
          ∙ rw (append_assoc out (wire_message m ∷ []) (map wire_message (filter not_system ms)))
              refl)
]

-- The system field of a request has the texts of the system messages, and the messages field the
-- other messages, each in their order; none is lost.
pub split_system_lem :
    (messages : List Message)
    → split_system messages ≡ (
      all_texts (filter (λ m. is_system m.role) messages),
      map wire_message (filter not_system messages),
    )
unfolding split_system
split_system_lem messages = split_from_lem messages [] []
