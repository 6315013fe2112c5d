-- ===== src/Harness/Adapters/Turns.antt =====
-- What a streamed turn becomes in the context of src/tename/harness/adapters/vanilla.py, by way of
-- `chunk_to_event` and the closer that `_run_turn` of src/tename/harness/service.py emits.
use Prim.Native.String.{◌++◌ as append}
use tename.Prelude.{
  ℕ, ◌≡◌, refl, ap, Bool, true, false, not, ◌&&◌, ◌||◌, Option, none, some, List, [], ◌∷◌, ◌++◌,
  String, if◌then◌else◌, arith, append_assoc, append-nil, ◌∙◌, sym, eq_iff,
}
use tename.Json.{Fields, obj, bool, str, end, field, get, truthy, is_empty}
use tename.Sessions.Models.{Event, assistant_message}
use tename.Router.Types.{
  ContentBlock, blocks, Message, Role, ModelChunk, text_delta, tool_call_end, tool_call_start,
  tool_call_delta, usage, done, tool_use_block,
}
use tename.Harness.Adapters.Base.{Python, PendingEvent}
use tename.Harness.Adapters.Context.{
  CallIds, Buffers, text_part, flush_assistant, flush_tool_results, flush_both, fold_event,
  fold_events, is_nil,
}
use tename.Harness.Adapters.Events.{chunk_to_event}

-- A chunk with the `uuid4()`, the number and the time of its event.
pub record Streamed : Type 0 where
  pub fresh : ℕ
  pub sequence : ℕ
  pub now : ℕ
  pub chunk : ModelChunk

abbrev pub row : ℕ → ℕ → ℕ → PendingEvent → Event
row session_id sequence now p = record {
  id = p.id;
  session_id = session_id;
  sequence = sequence;
  type = p.type;
  payload = p.payload;
  created_at = now;
}

abbrev pub usage_field : Option Fields → Fields
usage_field none = end
usage_field (some u) = field "usage" (obj u) end

abbrev is_error : ModelChunk → Bool
is_error (ModelChunk.error m r s) = true
is_error _ = false

abbrev is_delta : ModelChunk → Bool
is_delta (text_delta s) = true
is_delta _ = false

abbrev delta : ModelChunk → String
delta (text_delta s) = s
delta _ = ""

unfoldable pub has_delta : List Streamed → Bool
has_delta [] = false
has_delta (c ∷ cs) = is_delta c.chunk || has_delta cs

unfoldable pub failed : List Streamed → Bool
failed [] = false
failed (c ∷ cs) = is_error c.chunk || failed cs

unfoldable pub said : List Streamed → String
said [] = ""
said (c ∷ cs) = append (delta c.chunk) (said cs)

-- The text of the closer: the deltas joined. There is no closer without a delta, or with an error.
unfoldable pub closing_text : List Streamed → Option String
closing_text cs = if has_delta cs && not (failed cs) then some (said cs) else none

abbrev pub text_of_closer : Option String → String
text_of_closer none = ""
text_of_closer (some t) = t

-- The events of a stream, which its first error ends, and the closer that follows them.
module _ (session_id : ℕ) where
  abbrev pub row_of : ℕ → ℕ → Option PendingEvent → List Event → List Event
  row_of sequence now none rest = rest
  row_of sequence now (some p) rest = row session_id sequence now p ∷ rest

  unfoldable pub rows : List Streamed → List Event
  rows [] = []
  rows (c ∷ cs) =
      row_of c.sequence c.now (chunk_to_event c.fresh c.chunk)
        (if is_error c.chunk then [] else rows cs)

  -- The event after a stream of which some text came and no error, with the text and the usage.
  abbrev closer : (fresh sequence now : ℕ) → String → Option Fields → Event
  closer fresh sequence now t latest_usage = record {
    id = fresh;
    session_id = session_id;
    sequence = sequence;
    type = assistant_message;
    payload = field "content" (str t) (field "is_complete" (bool true) (usage_field latest_usage));
    created_at = now;
  }

  abbrev pub closers : (fresh sequence now : ℕ) → Option String → Option Fields → List Event
  closers fresh sequence now none latest_usage = []
  closers fresh sequence now (some t) latest_usage = closer fresh sequence now t latest_usage ∷ []

-- The tool_use blocks of the calls that a stream finishes, up to its first error.
abbrev pub use_of : ModelChunk → List ContentBlock
use_of (tool_call_end tool_id tool_name input index) = tool_use_block tool_id tool_name input ∷ []
use_of _ = []

unfoldable pub uses_of : List Streamed → List ContentBlock
uses_of [] = []
uses_of (c ∷ cs) = use_of c.chunk ++ (if is_error c.chunk then [] else uses_of cs)

abbrev pub tool_part : List ContentBlock → List Message
tool_part rs = if is_nil rs then [] else record { role = Role.tool; content = blocks rs } ∷ []

abbrev pub assistant_part : String → List ContentBlock → List Message
assistant_part t uses =
    if is_empty t && is_nil uses
    then []
    else record { role = Role.assistant; content = blocks (text_part t ++ uses) } ∷ []

abbrev pub buffers : List Message → String → List ContentBlock → List ContentBlock → Buffers
buffers ms t uses results = record {
  messages = ms;
  pending_text = t;
  pending_tool_uses = uses;
  pending_tool_results = results;
}

module _ (py : Python) (ids : CallIds) (session_id : ℕ) where
  -- One chunk in the middle of a turn.
  fold-row :
      (c : ModelChunk) (fresh sequence now : ℕ) (es rest : List Event) (ms : List Message)
      (t : String) (uses : List ContentBlock)
      → fold_events py ids
          (row_of session_id sequence now (chunk_to_event fresh c) es ++ rest)
          (buffers ms t uses [])
        ≡ fold_events py ids (es ++ rest) (buffers ms t (uses ++ use_of c) [])
  unfolding chunk_to_event fold_events fold_event get truthy
  fold-row (text_delta x) fresh sequence now es rest ms t uses = rw (append-nil uses) refl
  fold-row (tool_call_end i n d k) fresh sequence now es rest ms t uses = refl
  fold-row (ModelChunk.error m r s) fresh sequence now es rest ms t uses = rw (append-nil uses) refl
  fold-row (tool_call_start i n k) fresh sequence now es rest ms t uses = rw (append-nil uses) refl
  fold-row (tool_call_delta i p k) fresh sequence now es rest ms t uses = rw (append-nil uses) refl
  fold-row (usage u) fresh sequence now es rest ms t uses = rw (append-nil uses) refl
  fold-row done fresh sequence now es rest ms t uses = rw (append-nil uses) refl

  fold-stopped :
      (stops : Bool) (es rest : List Event) (us : List ContentBlock) (ms : List Message)
      (t : String) (uses : List ContentBlock)
      → fold_events py ids (es ++ rest) (buffers ms t uses [])
        ≡ fold_events py ids rest (buffers ms t (uses ++ us) [])
      → fold_events py ids ((if stops then [] else es) ++ rest) (buffers ms t uses [])
        ≡ fold_events py ids rest (buffers ms t (uses ++ (if stops then [] else us)) [])
  fold-stopped true es rest us ms t uses h = rw (append-nil uses) refl
  fold-stopped false es rest us ms t uses h = h

  fold-rows :
      (cs : List Streamed) (rest : List Event) (ms : List Message) (t : String)
      (uses : List ContentBlock)
      → fold_events py ids (rows session_id cs ++ rest) (buffers ms t uses [])
        ≡ fold_events py ids rest (buffers ms t (uses ++ uses_of cs) [])
  unfolding rows uses_of
  fold-rows [] rest ms t uses = rw (append-nil uses) refl
  fold-rows (c ∷ cs) rest ms t uses =
      fold-row c.chunk c.fresh c.sequence c.now
        (if is_error c.chunk then [] else rows session_id cs) rest ms t uses
      ∙ fold-stopped (is_error c.chunk) (rows session_id cs) rest (uses_of cs) ms t
          (uses ++ use_of c.chunk) (fold-rows cs rest ms t (uses ++ use_of c.chunk))
      ∙ ap (λ l. fold_events py ids rest (buffers ms t l []))
          (append_assoc uses (use_of c.chunk) (if is_error c.chunk then [] else uses_of cs))

  flush_both-turn :
      (t : String) (ms : List Message) (uses : List ContentBlock)
      → flush_both (buffers ms t uses []) ≡ buffers (ms ++ assistant_part t uses) "" [] []
  unfolding flush_both flush_assistant flush_tool_results
  flush_both-turn t ms [] = ground (arith, eq_iff t "", append-nil ms)
  flush_both-turn t ms (u ∷ us) = ground (arith, eq_iff t "")

  module _ (end_id end_sequence end_now : ℕ) (closes : Option String) (latest_usage : Option Fields)
      (ms : List Message) where
    abbrev last : List Event
    last = closers session_id end_id end_sequence end_now closes latest_usage

    -- What a turn leaves when it is flushed.
    abbrev turned : List ContentBlock → List ContentBlock → Buffers
    turned rs uses =
        buffers (ms ++ tool_part rs ++ assistant_part (text_of_closer closes) uses) "" [] []

    flush_both-rows :
        (ms' : List Message) (uses : List ContentBlock) (cs : List Streamed)
        → flush_both (fold_events py ids (rows session_id cs ++ last) (buffers ms' "" uses []))
          ≡ buffers (ms' ++ assistant_part (text_of_closer closes) (uses ++ uses_of cs)) "" [] []
    unfolding fold_events fold_event get truthy flush_tool_results
    flush_both-rows ms' uses cs =
        ap flush_both (fold-rows cs last ms' "" uses ∙ fold-closers closes (uses ++ uses_of cs))
        ∙ flush_both-turn (text_of_closer closes) ms' (uses ++ uses_of cs)
      where
        fold-closers :
            (o : Option String) (us : List ContentBlock)
            → fold_events py ids
                (closers session_id end_id end_sequence end_now o latest_usage)
                (buffers ms' "" us [])
              ≡ buffers ms' (text_of_closer o) us []
        fold-closers none us = refl
        fold-closers (some t) us = refl

    -- The end of a turn where the results of an earlier turn wait.
    flush_both-waiting_end :
        (r : ContentBlock) (rs : List ContentBlock)
        → flush_both (fold_events py ids last (buffers ms "" [] (r ∷ rs))) ≡ turned (r ∷ rs) []
    unfolding fold_events fold_event get truthy flush_tool_results flush_both flush_assistant
    flush_both-waiting_end r rs = ended closes
      where
        ended :
            (o : Option String)
            → flush_both (
                fold_events py ids
                  (closers session_id end_id end_sequence end_now o latest_usage)
                  (buffers ms "" [] (r ∷ rs)))
              ≡ buffers (ms ++ tool_part (r ∷ rs) ++ assistant_part (text_of_closer o) []) "" [] []
        ended none = ap (λ l. buffers l "" [] []) (sym (append-nil (ms ++ tool_part (r ∷ rs))))
        ended (some t) = flush_both-turn t (ms ++ tool_part (r ∷ rs)) []

    -- One chunk where they wait.
    flush_both-waiting_row :
        (c : ModelChunk) (fresh sequence now : ℕ) (cs : List Streamed) (r : ContentBlock)
        (rs : List ContentBlock)
        → flush_both (fold_events py ids (rows session_id cs ++ last) (buffers ms "" [] (r ∷ rs)))
          ≡ turned (r ∷ rs) (uses_of cs)
        → flush_both (
            fold_events py ids
              (row_of session_id sequence now
                  (chunk_to_event fresh c)
                  (if is_error c then [] else rows session_id cs)
                ++ last)
              (buffers ms "" [] (r ∷ rs)))
          ≡ turned (r ∷ rs) (use_of c ++ (if is_error c then [] else uses_of cs))
    unfolding chunk_to_event fold_events fold_event get truthy flush_both flush_assistant
        flush_tool_results
    flush_both-waiting_row (tool_call_end i n d k) fresh sequence now cs r rs rest =
        flush_both-rows (ms ++ tool_part (r ∷ rs)) (tool_use_block i n d ∷ []) cs
    flush_both-waiting_row (text_delta x) fresh sequence now cs r rs rest = rest
    flush_both-waiting_row (ModelChunk.error m f s) fresh sequence now cs r rs rest =
        flush_both-waiting_end r rs
    flush_both-waiting_row (tool_call_start i n k) fresh sequence now cs r rs rest = rest
    flush_both-waiting_row (tool_call_delta i p k) fresh sequence now cs r rs rest = rest
    flush_both-waiting_row (usage u) fresh sequence now cs r rs rest = rest
    flush_both-waiting_row done fresh sequence now cs r rs rest = rest

    flush_both-waiting :
        (r : ContentBlock) (rs : List ContentBlock) (cs : List Streamed)
        → flush_both (fold_events py ids (rows session_id cs ++ last) (buffers ms "" [] (r ∷ rs)))
          ≡ turned (r ∷ rs) (uses_of cs)
    unfolding rows uses_of
    flush_both-waiting r rs [] = flush_both-waiting_end r rs
    flush_both-waiting r rs (c ∷ cs) =
        flush_both-waiting_row c.chunk c.fresh c.sequence c.now cs r rs (flush_both-waiting r rs cs)

    flush_both-closed :
        (rs : List ContentBlock) (cs : List Streamed)
        → flush_both (fold_events py ids (rows session_id cs ++ last) (buffers ms "" [] rs))
          ≡ turned rs (uses_of cs)
    flush_both-closed [] cs =
        flush_both-rows ms [] cs
        ∙ ap (λ l. buffers (l ++ assistant_part (text_of_closer closes) (uses_of cs)) "" [] [])
            (sym (append-nil ms))
    flush_both-closed (r ∷ rs) cs = flush_both-waiting r rs cs

  -- A streamed turn in the context: where no text and no call is pending, the events of the chunks
  -- up to the first error, and the closer if there is one, when flushed, add the waiting tool results
  -- as one message, and then one assistant message: the deltas joined, unless the stream had an
  -- error, and a block for each tool call finished before it, in order and with its id, name and
  -- input. Either message is left out if it would be empty. Starts, usage and errors add nothing.
  pub flush_both-fold_turn :
      (end_id end_sequence end_now : ℕ) (latest_usage : Option Fields) (ms : List Message)
      (rs : List ContentBlock) (cs : List Streamed)
      → flush_both (
          fold_events py ids
            (rows session_id cs
              ++ closers session_id end_id end_sequence end_now (closing_text cs) latest_usage)
            (buffers ms "" [] rs))
        ≡ buffers
            (ms ++ tool_part rs ++ assistant_part (text_of_closer (closing_text cs)) (uses_of cs))
            ""
            []
            []
  flush_both-fold_turn end_id end_sequence end_now latest_usage ms rs cs =
      flush_both-closed end_id end_sequence end_now (closing_text cs) latest_usage ms rs cs
