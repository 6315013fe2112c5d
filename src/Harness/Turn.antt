-- ===== src/Harness/Turn.antt =====
-- `_run_turn` of src/tename/harness/service.py with the adapter of vanilla.py: one stream of the model
-- router, whose events are emitted to the session.
use Prim.Native.String.{◌++◌ as append}
use tename.Prelude.{
  ℕ, ◌≡◌, refl, sym, subst, ◌∙◌, Bool, true, false, not, ◌&&◌, Option, none, some, List, [], ◌∷◌,
  ◌++◌, String, Result, ok, err, if◌then◌else◌, Bool-cases, inl, inr, append_assoc, append-nil,
}
use tename.Prelude.Actions.{Action, ◌>>=◌, give, raise, continue_rule}
use tename.Json.{Fields, bool, str, field}
use tename.Sessions.Models.{Event, Error, EventType, assistant_message, tool_call}
use tename.Sessions.Store.{Db, Postgres}
use tename.Sessions.Service.{Argument, serializable}
use tename.Sessions.Reached.{emits, Reached, stay, emits-Reached, Reached-trans}
use tename.Router.Types.{
  ModelChunk, Usage, text_delta, tool_call_start, tool_call_delta, tool_call_end, usage, done,
}
use tename.Harness.Adapters.Base.{PendingEvent}
use tename.Harness.Adapters.Events.{chunk_to_event, call_payload}
use tename.Harness.Adapters.Turns.{usage_field}

-- A chunk as it arrives, with the `uuid4()` and the time of its event.
pub data Arrival : Type 0 where
  arrives : (fresh now : ℕ) → ModelChunk → Arrival

-- How the stream of the model router ends: it is used up, or it raises.
pub data StreamEnd : Type 0 where
  exhausted raises : StreamEnd

-- An exception of a turn: of the session service, or of the stream.
pub data Fault : Type 0 where
  session : Error → Fault
  stream : Fault

abbrev pub faulted {ℓ} : {A : Type ℓ} → Db × Result Error A → Db × Result Fault A
faulted (db, ok a) = (db, ok a)
faulted (db, err e) = (db, err (session e))

unfoldable pub emitting :
    (now session_id event_id : ℕ) → EventType → Argument → Action Db Fault Event
emitting now session_id event_id type payload db =
    faulted (emits now session_id event_id type payload db)

-- The local variables: `text` joins text_parts, and `has_text` is whether there are any.
pub record Turn : Type 0 where
  pub text : String
  pub has_text : Bool
  pub tool_calls : List PendingEvent
  pub latest_usage : Option Fields
  pub errored : Bool

-- _TurnResult
pub record TurnResult : Type 0 where
  pub tool_calls : List PendingEvent
  pub errored : Bool

abbrev pub no_turn : Turn
no_turn = record {
  text = "";
  has_text = false;
  tool_calls = [];
  latest_usage = none;
  errored = false;
}

abbrev pub result_of : Turn → TurnResult
result_of t = record { tool_calls = t.tool_calls; errored = t.errored }

-- `dump` is model_dump, whose cost is a float.
module _ (dump : Usage → Fields) (session_id : ℕ) where
  unfoldable pub note_chunk : ModelChunk → Turn → Turn
  note_chunk (text_delta s) t = record t { text = append t.text s; has_text = true }
  note_chunk (usage u) t = record t { latest_usage = some (dump u) }
  note_chunk _ t = t

  abbrev pub after_stream : StreamEnd → Turn → Action Db Fault Turn
  after_stream exhausted t = give t
  after_stream raises t = raise stream

  -- The loop; an event of type ERROR ends it.
  unfoldable pub run_stream : List Arrival → StreamEnd → Turn → Action Db Fault Turn
  run_stream [] ending t = after_stream ending t
  run_stream (arrives fresh now chunk ∷ cs) ending t = elim (chunk_to_event fresh chunk) [
    | none ↦ run_stream cs ending (note_chunk chunk t)
    | some p ↦ emitting now session_id p.id p.type (serializable p.payload) >>= λ e. elim p.type [
      | EventType.error ↦ give (record (note_chunk chunk t) { errored = true })
      | tool_call ↦
          run_stream cs ending
            (record (note_chunk chunk t) { tool_calls = (note_chunk chunk t).tool_calls ++ p ∷ [] })
      | _ ↦ run_stream cs ending (note_chunk chunk t)
    ]
  ]

  abbrev pub closing_payload : Turn → Fields
  closing_payload t =
      field "content" (str t.text) (field "is_complete" (bool true) (usage_field t.latest_usage))

  -- The closer, with its `uuid4()` and time.
  unfoldable pub close_turn : (fresh now : ℕ) → Turn → Action Db Fault TurnResult
  close_turn fresh now t =
      if t.has_text && not t.errored
      then (emitting now session_id fresh assistant_message (serializable (closing_payload t))
          >>= λ e. give (result_of t))
      else give (result_of t)

  unfoldable pub run_turn : List Arrival → StreamEnd → (fresh now : ℕ) → Action Db Fault TurnResult
  run_turn cs ending fresh now = run_stream cs ending no_turn >>= close_turn fresh now

-- The tool calls that a stream finishes before its first error, as pending events.
unfoldable pub calls_of : List Arrival → List PendingEvent
calls_of [] = []
calls_of (arrives fresh now (ModelChunk.error m r s) ∷ cs) = []
calls_of (arrives fresh now (tool_call_end i n d k) ∷ cs) =
    record { id = fresh; type = tool_call; payload = call_payload i n d } ∷ calls_of cs
calls_of (arrives fresh now _ ∷ cs) = calls_of cs

unfoldable pub has_error : List Arrival → Bool
has_error [] = false
has_error (arrives fresh now (ModelChunk.error m r s) ∷ cs) = true
has_error (arrives fresh now _ ∷ cs) = has_error cs

module _ (pg : Postgres) (dump : Usage → Fields) (session_id : ℕ) where
  -- If the stream raises, it had an error before, which ends the loop.
  abbrev pub Completes : List Arrival → StreamEnd → Type 0
  Completes cs ending = ending ≡ raises → has_error cs ≡ true

  abbrev Ended : List Arrival → StreamEnd → Turn → Turn → Type 0
  Ended cs ending t u =
      Completes cs ending
      × (u.tool_calls ≡ t.tool_calls ++ calls_of cs)
      × (t.errored ≡ false → u.errored ≡ has_error cs)

  -- Where a stream ends: after calls of the session service, and with the calls and the error of it.
  abbrev Streams : List Arrival → StreamEnd → Turn → Db → Db × Result Fault Turn → Type 0
  Streams cs ending t db out =
      Reached pg session_id db out.0 × ((u : Turn) → out.1 ≡ ok u → Ended cs ending t u)

  emitting-Reached :
      (now event_id : ℕ) (type : EventType) (payload : Argument) (db : Db)
      → Reached pg session_id db (emitting now session_id event_id type payload db).0
  unfolding emitting
  emitting-Reached now event_id type payload db =
      still_reached (emits now session_id event_id type payload db)
        (emits-Reached pg session_id now event_id type payload db)
    where
      still_reached :
          (out : Db × Result Error Event)
          → Reached pg session_id db out.0
          → Reached pg session_id db (faulted out).0
      still_reached (d, ok e) r = r
      still_reached (d, err e) r = r

  -- A chunk that becomes an event.
  emits_rule :
      (now fresh : ℕ) (type : EventType) (payload : Fields) (cs : List Arrival) (ending : StreamEnd)
      (t : Turn) (db : Db) (f : Event → Action Db Fault Turn)
      → ((e : Event) (db' : Db) → Reached pg session_id db db' → Streams cs ending t db (f e db'))
      → Streams cs ending t db
          ((emitting now session_id fresh type (serializable payload) >>= f) db)
  emits_rule now fresh type payload cs ending t db f rest =
      continue_rule (Streams cs ending t db)
        (emitting now session_id fresh type (serializable payload) db) f
        (λ e. (emitting-Reached now fresh type (serializable payload) db, λ u h. cc h))
        (λ e h.
          rest e (emitting now session_id fresh type (serializable payload) db).0
            (emitting-Reached now fresh type (serializable payload) db))

  run_stream-Streams :
      (cs : List Arrival) (ending : StreamEnd) (t : Turn) (db : Db)
      → Streams cs ending t db (run_stream dump session_id cs ending t db)
  unfolding run_stream chunk_to_event note_chunk calls_of has_error
  run_stream-Streams [] exhausted t db = (
    stay pg session_id db,
    λ u h.
        let same : t ≡ u = cc h in
        subst (Ended [] exhausted t) same (λ e. cc e, sym (append-nil t.tool_calls), λ e. e),
  )
  run_stream-Streams [] raises t db = (stay pg session_id db, λ u h. cc h)
  run_stream-Streams (arrives fresh now (text_delta s) ∷ cs) ending t db =
      emits_rule now fresh _ _ (arrives fresh now (text_delta s) ∷ cs) ending t db _ (λ e d r.
        let rest = run_stream-Streams cs ending (note_chunk dump session_id (text_delta s) t) d in
        (Reached-trans pg session_id r rest.0, rest.1))
  run_stream-Streams (arrives fresh now (tool_call_end i n d k) ∷ cs) ending t db =
      let called : PendingEvent = record {
        id = fresh;
        type = tool_call;
        payload = call_payload i n d;
      } in
      emits_rule now fresh _ _ (arrives fresh now (tool_call_end i n d k) ∷ cs) ending t db _
        (λ e d' r.
          let rest =
            run_stream-Streams cs ending (record t { tool_calls = t.tool_calls ++ called ∷ [] })
              d' in
          (
            Reached-trans pg session_id r rest.0,
            λ u h.
                let facts = rest.1 u h in
                (facts.0, facts.1 ∙ append_assoc t.tool_calls (called ∷ []) (calls_of cs), facts.2),
          ))
  run_stream-Streams (arrives fresh now (ModelChunk.error m f s) ∷ cs) ending t db =
      emits_rule now fresh _ _ (arrives fresh now (ModelChunk.error m f s) ∷ cs) ending t db _
        (λ e d r. (
          r,
          λ u h.
              let same : record t { errored = true } ≡ u = cc h in
              subst (Ended (arrives fresh now (ModelChunk.error m f s) ∷ cs) ending t) same
                (λ e. refl, sym (append-nil t.tool_calls), λ e. refl),
        ))
  run_stream-Streams (arrives fresh now (tool_call_start i n k) ∷ cs) ending t db =
      run_stream-Streams cs ending t db
  run_stream-Streams (arrives fresh now (tool_call_delta i p k) ∷ cs) ending t db =
      run_stream-Streams cs ending t db
  run_stream-Streams (arrives fresh now (usage u) ∷ cs) ending t db =
      run_stream-Streams cs ending (record t { latest_usage = some (dump u) }) db
  run_stream-Streams (arrives fresh now done ∷ cs) ending t db = run_stream-Streams cs ending t db

  abbrev Closes : Turn → Db → Db × Result Fault TurnResult → Type 0
  Closes t db out =
      Reached pg session_id db out.0 × ((r : TurnResult) → out.1 ≡ ok r → result_of t ≡ r)

  close_turn-Closes :
      (fresh now : ℕ) (t : Turn) (db : Db) → Closes t db (close_turn dump session_id fresh now t db)
  unfolding close_turn
  close_turn-Closes fresh now t db = elim (Bool-cases (t.has_text && not t.errored)) [
    | inl closes ↦
        let closer = serializable (closing_payload dump session_id t) in
        let reached = emitting-Reached now fresh assistant_message closer db in
        rw closes (
          continue_rule (Closes t db) (emitting now session_id fresh assistant_message closer db)
            (λ e. give (result_of t)) (λ e. (reached, λ r h. cc h))
            (λ e done_it. (reached, λ r h. cc h)))
    | inr skips ↦ rw skips (stay pg session_id db, λ r h. cc h)
  ]

  -- A turn, also one that raises, has made calls of the session service about the session only. One
  -- that raises nothing returns the tool calls that the stream finished before its first error, in
  -- their order, and says whether there was one; and then the stream has not raised, unless after that
  -- error.
  pub run_turn_lem :
      (cs : List Arrival) (ending : StreamEnd) (fresh now : ℕ) (db : Db)
      → Reached pg session_id db (run_turn dump session_id cs ending fresh now db).0
        × ((r : TurnResult)
            → (run_turn dump session_id cs ending fresh now db).1 ≡ ok r
            → Completes cs ending × (r.tool_calls ≡ calls_of cs) × (r.errored ≡ has_error cs))
  unfolding run_turn
  run_turn_lem cs ending fresh now db =
      let streamed = run_stream-Streams cs ending no_turn db in
      continue_rule
        (λ out.
          Reached pg session_id db out.0
          × ((r : TurnResult)
              → out.1 ≡ ok r
              → Completes cs ending × (r.tool_calls ≡ calls_of cs) × (r.errored ≡ has_error cs)))
        (run_stream dump session_id cs ending no_turn db) (close_turn dump session_id fresh now)
        (λ e. (streamed.0, λ r h. cc h))
        (λ t h.
          let closed =
            close_turn-Closes fresh now t (run_stream dump session_id cs ending no_turn db).0 in
          let ended = streamed.1 t h in
          (
            Reached-trans pg session_id streamed.0 closed.0,
            λ r k.
                subst
                  (λ x.
                    Completes cs ending × (x.tool_calls ≡ calls_of cs) × (x.errored ≡ has_error cs))
                  (closed.1 r k) (ended.0, ended.1, ended.2 refl),
          ))
