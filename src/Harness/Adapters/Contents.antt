-- ===== src/Harness/Adapters/Contents.antt =====
-- What `build_context` of src/tename/harness/adapters/vanilla.py carries over from the event log:
-- each kind of content against a description that goes through the events once, with no buffers.
use tename.Prelude.{
  ◌≡◌, refl, ap, Bool, true, false, Option, none, some, List, [], ◌∷◌, ◌++◌, String, if◌then◌else◌,
  arith, filter, filter-append, append_assoc, append-nil, ◌∙◌, sym,
}
use tename.Json.{Fields, bool, get, get_default, truthy, as_str, is_empty, is_string}
use tename.Sessions.Models.{
  Event, EventType, user_message, assistant_message, tool_call, tool_result, harness_event,
  system_event, error,
}
use tename.Router.Types.{plain, blocks, Message, Role}
use tename.Harness.Adapters.Base.{Python}
use tename.Harness.Adapters.Context.{
  CallIds, tool_call_ids, Buffers, text_part, flush_assistant, flush_tool_results, flush_both,
  text_content, say, tool_use_of, fold_event, fold_events, no_buffers, build_context, on_system,
  on_user, on_assistant, on_tool_call, on_tool_result,
}

-- Messages of a role that passes the test.
abbrev pub is_said : Message → Bool
is_said m = elim m.role [ Role.system ↦ true | Role.user ↦ true | _ ↦ false ]

abbrev pub said : List Message → List Message
said = filter is_said

abbrev pub message : Role → String → Message
message role t = record { role = role; content = plain t }

abbrev pub prompt_of : Option String → List Message
prompt_of none = []
prompt_of (some t) = if is_empty t then [] else message Role.system t ∷ []

abbrev pub user_of : Option String → List Message
user_of none = []
user_of (some t) = message Role.user t ∷ []

-- The system prompt or the user message of an event: prompts that are empty are left out.
unfoldable pub said_of : EventType → Fields → List Message
said_of system_event payload =
    if is_string "system_prompt" (get "type" payload) then prompt_of (text_content payload) else []
said_of user_message payload = user_of (text_content payload)
said_of _ payload = []

unfoldable pub all_said : List Event → List Message
all_said [] = []
all_said (e ∷ es) = said_of e.type e.payload ++ all_said es

said_one : (ms : List Message) (m : Message) → said (ms ++ m ∷ []) ≡ said ms ++ said (m ∷ [])
said_one ms m = filter-append is_said ms (m ∷ [])

said-flush_assistant : (b : Buffers) → said (flush_assistant b).messages ≡ said b.messages
unfolding flush_assistant
said-flush_assistant b = ground (
  arith,
  said_one b.messages (record {
    role = Role.assistant;
    content = blocks (text_part b.pending_text ++ b.pending_tool_uses);
  }),
  append-nil (said b.messages),
)

said-flush_tool_results : (b : Buffers) → said (flush_tool_results b).messages ≡ said b.messages
unfolding flush_tool_results
said-flush_tool_results b = ground (
  arith,
  said_one b.messages (record { role = Role.tool; content = blocks b.pending_tool_results }),
  append-nil (said b.messages),
)

said-flush_both : (b : Buffers) → said (flush_both b).messages ≡ said b.messages
unfolding flush_both
said-flush_both b = said-flush_tool_results (flush_assistant b) ∙ said-flush_assistant b

said-say :
    (role : Role) (t : String) (b : Buffers)
    → said (say role t (flush_both b)).messages ≡ said b.messages ++ said (message role t ∷ [])
said-say role t b =
    said_one (flush_both b).messages (message role t)
    ∙ ap (λ l. l ++ said (message role t ∷ [])) (said-flush_both b)

said-on_system :
    (o : Option String) (b : Buffers)
    → said (on_system o b).messages ≡ said b.messages ++ prompt_of o
said-on_system none b = ground (arith, said-flush_both b, append-nil (said b.messages))
said-on_system (some t) b =
    ground (arith, said-flush_both b, append-nil (said b.messages), said-say Role.system t b)

said-on_user :
    (o : Option String) (b : Buffers) → said (on_user o b).messages ≡ said b.messages ++ user_of o
said-on_user none b = ground (arith, said-flush_both b, append-nil (said b.messages))
said-on_user (some t) b = said-say Role.user t b

said-on_assistant :
    (done : Bool) (o : Option String) (b : Buffers)
    → said (on_assistant done o b).messages ≡ said b.messages
said-on_assistant false o b = refl
said-on_assistant true none b = said-flush_tool_results b
said-on_assistant true (some t) b = said-flush_tool_results b

said-on_tool_call :
    (id name : Option String) (payload : Fields) (b : Buffers)
    → said (on_tool_call id name payload b).messages ≡ said b.messages
said-on_tool_call none name payload b = refl
said-on_tool_call (some i) none payload b = refl
said-on_tool_call (some i) (some n) payload b = ground (arith, said-flush_both b)

module _ (py : Python) where
  said-on_tool_result :
      (o : Option String) (payload : Fields) (b : Buffers)
      → said (on_tool_result py o payload b).messages ≡ said b.messages
  said-on_tool_result none payload b = said-flush_assistant b
  said-on_tool_result (some i) payload b = said-flush_assistant b

  said-fold_event :
      (ids : CallIds) (t : EventType) (payload : Fields) (b : Buffers)
      → said (fold_event py ids t payload b).messages ≡ said b.messages ++ said_of t payload
  unfolding fold_event said_of
  said-fold_event ids system_event payload b =
      ground (arith, said-on_system (text_content payload) b, append-nil (said b.messages))
  said-fold_event ids user_message payload b = said-on_user (text_content payload) b
  said-fold_event ids assistant_message payload b =
      said-on_assistant (truthy (get_default "is_complete" (bool false) payload))
        (text_content payload) b
      ∙ sym (append-nil (said b.messages))
  said-fold_event ids tool_call payload b =
      said-on_tool_call (as_str (get "tool_id" payload)) (as_str (get "tool_name" payload)) payload
        b
      ∙ sym (append-nil (said b.messages))
  said-fold_event ids tool_result payload b =
      said-on_tool_result (tool_use_of py ids (as_str (get "tool_call_id" payload))) payload b
      ∙ sym (append-nil (said b.messages))
  said-fold_event ids harness_event payload b = sym (append-nil (said b.messages))
  said-fold_event ids error payload b = sym (append-nil (said b.messages))

  said-fold_events :
      (ids : CallIds) (es : List Event) (b : Buffers)
      → said (fold_events py ids es b).messages ≡ said b.messages ++ all_said es
  unfolding fold_events all_said
  said-fold_events ids [] b = sym (append-nil (said b.messages))
  said-fold_events ids (e ∷ es) b =
      said-fold_events ids es (fold_event py ids e.type e.payload b)
      ∙ ap (λ l. l ++ all_said es) (said-fold_event ids e.type e.payload b)
      ∙ append_assoc (said b.messages) (said_of e.type e.payload) (all_said es)

  -- The system and user messages of the context are those of the log, in the order of the log: none
  -- is lost, repeated or moved, whatever stands between them.
  pub said-build_context : (events : List Event) → said (build_context py events) ≡ all_said events
  unfolding build_context
  said-build_context events =
      said-flush_both (fold_events py (tool_call_ids events []) events no_buffers)
      ∙ said-fold_events (tool_call_ids events []) events no_buffers
