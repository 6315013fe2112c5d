-- ===== src/Router/Anthropic/Streams.antt =====
-- What holds of the chunks of src/tename/router/providers/anthropic.py.
use Prim.Native.String.{◌++◌ as append}
use tename.Prelude.{
  ℕ, ◌≡◌, refl, ap, sym, subst, Option, none, some, List, [], ◌∷◌, ◌++◌, String, append_assoc, All,
  All-append,
}
use tename.Router.Types.{
  ModelChunk, text_delta, tool_call_start, tool_call_delta, tool_call_end, usage, done, error,
}
use tename.Router.Anthropic.{
  JsonReader, tool_use, other_block, text, input_json, other_delta, StreamEvent, message_start,
  content_block_start, content_block_delta, content_block_stop, message_delta, other_event, Ending,
  exhausted, status_error, connection_error, uncaught, ToolBlock, tool_block, ToolBlocks,
  find_block, put_block, drop_block, StreamState, no_state, safe_json_loads, extend_block,
  stop_block, on_event, on_events, closing, stream_chunks,
}

-- What a reader of the chunks knows of the calls that are open: it starts a buffer at each
-- tool_call_start and adds to it at each tool_call_delta of the same index.
abbrev pub read_delta : ℕ → String → Option ToolBlock → ToolBlocks → ToolBlocks
read_delta index partial none calls = calls
read_delta index partial (some (tool_block id name buf)) calls =
    put_block index (tool_block id name (append buf partial)) calls

abbrev pub read_chunk : ModelChunk → ToolBlocks → ToolBlocks
read_chunk (tool_call_start id name index) calls = put_block index (tool_block id name "") calls
read_chunk (tool_call_delta id partial index) calls =
    read_delta index partial (find_block index calls) calls
read_chunk (tool_call_end id name input index) calls = drop_block index calls
read_chunk _ calls = calls

-- The block is open under this index, with this id.
abbrev pub HasId : String → Option ToolBlock → Type 0
HasId id none = ⊥
HasId id (some (tool_block i n b)) = i ≡ id

module _ (reader : JsonReader) where
  -- A chunk that agrees with the chunks before it: a delta is one of an open call, and an end has
  -- the id, the name and the whole input of an open call.
  abbrev pub Agrees : ToolBlocks → ModelChunk → Type 0
  Agrees calls (tool_call_delta id partial index) = HasId id (find_block index calls)
  Agrees calls (tool_call_end id name input index) =
      (buf : String) × (find_block index calls ≡ some (tool_block id name buf))
      × (input ≡ safe_json_loads reader buf)
  Agrees calls _ = Unit

  abbrev pub AllAgree : ToolBlocks → List ModelChunk → Type 0
  AllAgree calls [] = Unit
  AllAgree calls (c ∷ cs) = Agrees calls c × AllAgree (read_chunk c calls) cs

  extend_block-Follows :
      (index : ℕ) (partial : String) (s : StreamState) (o : Option ToolBlock)
      (rest : List ModelChunk)
      → find_block index s.tool_blocks ≡ o
      → AllAgree (extend_block reader index partial o s).0.tool_blocks rest
      → AllAgree s.tool_blocks ((extend_block reader index partial o s).1 ++ rest)
  extend_block-Follows index partial s none rest found h = h
  extend_block-Follows index partial s (some (tool_block id name buf)) rest found h =
      (rw found refl, rw found h)

  stop_block-Follows :
      (index : ℕ) (s : StreamState) (o : Option ToolBlock) (rest : List ModelChunk)
      → find_block index s.tool_blocks ≡ o
      → AllAgree (stop_block reader index o s).0.tool_blocks rest
      → AllAgree s.tool_blocks ((stop_block reader index o s).1 ++ rest)
  stop_block-Follows index s none rest found h = h
  stop_block-Follows index s (some (tool_block id name buf)) rest found h = ((buf, found, refl), h)

  on_event-Follows :
      (e : StreamEvent) (s : StreamState) (rest : List ModelChunk)
      → AllAgree (on_event reader e s).0.tool_blocks rest
      → AllAgree s.tool_blocks ((on_event reader e s).1 ++ rest)
  unfolding on_event
  on_event-Follows (message_start input cache output) s rest h = h
  on_event-Follows (content_block_start index (tool_use id name)) s rest h = (tt, h)
  on_event-Follows (content_block_start index other_block) s rest h = h
  on_event-Follows (content_block_delta index (text t)) s rest h = (tt, h)
  on_event-Follows (content_block_delta index (input_json partial)) s rest h =
      extend_block-Follows index partial s (find_block index s.tool_blocks) rest refl h
  on_event-Follows (content_block_delta index other_delta) s rest h = h
  on_event-Follows (content_block_stop index) s rest h =
      stop_block-Follows index s (find_block index s.tool_blocks) rest refl h
  on_event-Follows (message_delta input cache output) s rest h = h
  on_event-Follows other_event s rest h = h

  on_events-Follows :
      (es : List StreamEvent) (s : StreamState) (rest : List ModelChunk)
      → AllAgree (on_events reader es s).0.tool_blocks rest
      → AllAgree s.tool_blocks ((on_events reader es s).1 ++ rest)
  unfolding on_events
  on_events-Follows [] s rest h = h
  on_events-Follows (e ∷ es) s rest h =
      let first = on_event reader e s in
      let later = on_events-Follows es first.0 rest h in
      subst (AllAgree s.tool_blocks)
        (sym (append_assoc first.1 (on_events reader es first.0).1 rest))
        (on_event-Follows e s ((on_events reader es first.0).1 ++ rest) later)

  closing-AllAgree :
      (ending : Ending) (s : StreamState) (calls : ToolBlocks)
      → AllAgree calls (closing reader ending s)
  closing-AllAgree exhausted s calls = (tt, (tt, tt))
  closing-AllAgree (status_error code message) s calls = (tt, tt)
  closing-AllAgree (connection_error message) s calls = (tt, tt)
  closing-AllAgree uncaught s calls = tt

  -- Whatever the events of a stream and however it ends, each tool_call_delta is one of a call that
  -- is open, and each tool_call_end has the id and the name of its tool_call_start, and as input
  -- what _safe_json_loads makes of the concatenation of the deltas of its index since then.
  pub stream_chunks_agree :
      (events : List StreamEvent) (ending : Ending)
      → AllAgree [] (stream_chunks reader events ending)
  unfolding stream_chunks
  stream_chunks_agree events ending =
      let out = on_events reader events no_state in
      on_events-Follows events no_state (closing reader ending out.0)
        (closing-AllAgree ending out.0 out.0.tool_blocks)

  -- A chunk of the body of a stream, which is neither usage nor done nor error.
  abbrev pub InBody : ModelChunk → Type 0
  InBody (usage u) = ⊥
  InBody done = ⊥
  InBody (error m r c) = ⊥
  InBody _ = Unit

  abbrev pub spoken : List ModelChunk → List String
  spoken [] = []
  spoken (text_delta t ∷ cs) = t ∷ spoken cs
  spoken (c ∷ cs) = spoken cs

  abbrev pub said : List StreamEvent → List String
  said [] = []
  said (content_block_delta index (text t) ∷ es) = t ∷ said es
  said (e ∷ es) = said es

  abbrev Speaks : StreamEvent → List ModelChunk → Type 0
  Speaks e chunks = All InBody chunks × (spoken chunks ≡ said (e ∷ []))

  extend_block-Speaks :
      (index : ℕ) (partial : String) (s : StreamState) (o : Option ToolBlock)
      → Speaks
          (content_block_delta index (input_json partial))
          (extend_block reader index partial o s).1
  extend_block-Speaks index partial s none = (tt, refl)
  extend_block-Speaks index partial s (some (tool_block id name buf)) = ((tt, tt), refl)

  stop_block-Speaks :
      (index : ℕ) (s : StreamState) (o : Option ToolBlock)
      → Speaks (content_block_stop index) (stop_block reader index o s).1
  stop_block-Speaks index s none = (tt, refl)
  stop_block-Speaks index s (some (tool_block id name buf)) = ((tt, tt), refl)

  on_event-Speaks : (e : StreamEvent) (s : StreamState) → Speaks e (on_event reader e s).1
  unfolding on_event
  on_event-Speaks (message_start input cache output) s = (tt, refl)
  on_event-Speaks (content_block_start index (tool_use id name)) s = ((tt, tt), refl)
  on_event-Speaks (content_block_start index other_block) s = (tt, refl)
  on_event-Speaks (content_block_delta index (text t)) s = ((tt, tt), refl)
  on_event-Speaks (content_block_delta index (input_json partial)) s =
      extend_block-Speaks index partial s (find_block index s.tool_blocks)
  on_event-Speaks (content_block_delta index other_delta) s = (tt, refl)
  on_event-Speaks (content_block_stop index) s =
      stop_block-Speaks index s (find_block index s.tool_blocks)
  on_event-Speaks (message_delta input cache output) s = (tt, refl)
  on_event-Speaks other_event s = (tt, refl)

  spoken-append : (xs ys : List ModelChunk) → spoken (xs ++ ys) ≡ spoken xs ++ spoken ys
  spoken-append [] ys = refl
  spoken-append (text_delta t ∷ xs) ys = ap (λ r. t ∷ r) (spoken-append xs ys)
  spoken-append (c ∷ xs) ys = spoken-append xs ys

  said-cons : (e : StreamEvent) (es : List StreamEvent) → said (e ∷ es) ≡ said (e ∷ []) ++ said es
  said-cons (content_block_delta index (text t)) es = refl
  said-cons e es = refl

  on_events-Speaks :
      (es : List StreamEvent) (s : StreamState)
      → All InBody (on_events reader es s).1 × (spoken (on_events reader es s).1 ≡ said es)
  unfolding on_events
  on_events-Speaks [] s = (tt, refl)
  on_events-Speaks (e ∷ es) s =
      let first = on_event-Speaks e s in
      let later = on_events-Speaks es (on_event reader e s).0 in
      (
        All-append InBody (on_event reader e s).1 (on_events reader es (on_event reader e s).0).1
            first.0 later.0,
        rw (spoken-append (on_event reader e s).1 (on_events reader es (on_event reader e s).0).1)
            (rw first.1 (rw later.1 (sym (said-cons e es)))),
      )

  -- However a stream ends, what is yielded is a body of text and tool call chunks, with the texts of
  -- the events in their order, and then the closing: usage and done if the stream was exhausted, one
  -- error if it broke off with an error of the API, and nothing if another exception passes through.
  pub stream_chunks_lem :
      (events : List StreamEvent) (ending : Ending)
      → (body : List ModelChunk) × (s : StreamState) × (stream_chunks reader events ending
          ≡ body ++ closing reader ending s)
        × All InBody body
        × (spoken body ≡ said events)
  unfolding stream_chunks
  stream_chunks_lem events ending =
      let out = on_events reader events no_state in
      let speaks = on_events-Speaks events no_state in (out.1, out.0, refl, speaks.0, speaks.1)
