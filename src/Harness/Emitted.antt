-- ===== src/Harness/Emitted.antt =====
-- What `_run_turn` of src/tename/harness/service.py emits for a stream of the model router.
use Prim.Native.String.{◌++◌ as append}
use tename.Prelude.{
  ℕ, ◌≡◌, refl, subst, ◌∙◌, ap, Bool, Bool-cases, inl, inr, ◌++◌, true, false, Option, none, some,
  List, [], ◌∷◌, String, Result, ok, err,
}
use tename.Prelude.Actions.{Action, give, continue, continue_rule}
use tename.Json.{Fields, str, bool, obj, end, field}
use tename.Sessions.Models.{Event, Error, EventType, assistant_message, tool_call}
use tename.Sessions.Store.{Db, Postgres}
use tename.Sessions.Service.{Argument, serializable, emit_event}
use tename.Sessions.Calls.{Call, emit, after, step, run}
use tename.Sessions.Reached.{commit, Reached}
use tename.Router.Types.{
  ModelChunk, Usage, text_delta, tool_call_start, tool_call_delta, tool_call_end, usage, done,
}
use tename.Harness.Adapters.Events.{chunk_to_event, call_payload, status_code_of}
use tename.Harness.Adapters.Turns.{usage_field}
use tename.Harness.Turn.{
  Arrival, arrives, StreamEnd, exhausted, raises, Fault, Turn, TurnResult, no_turn, closing_payload,
  faulted, emitting, note_chunk, run_stream, close_turn, run_turn, calls_of, has_error, Completes,
  run_turn_lem,
}

module _ (dump : Usage → Fields) (session_id fresh_end end_now : ℕ) where
  abbrev emits_fields : (now fresh : ℕ) → EventType → Fields → Call
  emits_fields now fresh type payload = emit now session_id fresh type (serializable payload)

  abbrev closer_of : Bool → String → Option Fields → List Call
  closer_of false text latest = []
  closer_of true text latest =
      emits_fields end_now fresh_end assistant_message
        (field "content" (str text) (field "is_complete" (bool true) (usage_field latest)))
      ∷ []

  -- The calls of `emit_event` for a stream, from the deltas joined so far, whether there were any, and
  -- the latest usage: one for each delta and each finished tool call; one for the first error, which
  -- ends them; or at the end, if there were deltas, one for the whole text.
  unfoldable pub emitted : Bool → String → Option Fields → List Arrival → List Call
  emitted has_text text latest [] = closer_of has_text text latest
  emitted has_text text latest (arrives fresh now (text_delta s) ∷ cs) =
      emits_fields now fresh assistant_message
        (field "content" (str s) (field "is_complete" (bool false) end))
      ∷ emitted true (append text s) latest cs
  emitted has_text text latest (arrives fresh now (tool_call_end i n d k) ∷ cs) =
      emits_fields now fresh tool_call
        (field "tool_id" (str i) (field "tool_name" (str n) (field "input" (obj d) end)))
      ∷ emitted has_text text latest cs
  emitted has_text text latest (arrives fresh now (ModelChunk.error m r s) ∷ cs) =
      emits_fields now fresh EventType.error (
        field "message" (str m)
          (field "retryable" (bool r) (field "status_code" (status_code_of s) end)))
      ∷ []
  emitted has_text text latest (arrives fresh now (usage u) ∷ cs) =
      emitted has_text text (some (dump u)) cs
  emitted has_text text latest (arrives fresh now _ ∷ cs) = emitted has_text text latest cs

continue_assoc :
    {S E A B C : Type 0} (out : S × Result E A) (f : A → Action S E B) (k : B → Action S E C)
    → continue out (λ a s. continue (f a s) k) ≡ continue (continue out f) k
continue_assoc (s, ok a) f k = refl
continue_assoc (s, err e) f k = refl

module _ (pg : Postgres) (dump : Usage → Fields) (session_id : ℕ) where
  -- The tables after these calls, where nothing is raised.
  abbrev Makes : List Call → Db → Db × Result Fault TurnResult → Type 0
  Makes calls db out = (r : TurnResult) → out.1 ≡ ok r → out.0 ≡ run pg db calls

  emitting-step :
      (now fresh : ℕ) (type : EventType) (payload : Argument) (db : Db)
      → (emitting now session_id fresh type payload db).0
        ≡ step pg db (emit now session_id fresh type payload)
  unfolding emitting step
  emitting-step now fresh type payload db = left (emit_event now session_id fresh type payload db)
    where
      left : (r : Result Error (Db × Event)) → (faulted (commit db r)).0 ≡ after db r
      left (ok x) = refl
      left (err x) = refl

  -- One call and then the others.
  emission_rule :
      (now fresh : ℕ) (type : EventType) (payload : Argument) (calls : List Call) (db : Db)
      (f : Event → Action Db Fault Turn) (k : Turn → Action Db Fault TurnResult)
      → ((e : Event) (db' : Db) → Makes calls db' (continue (f e db') k))
      → Makes
          (emit now session_id fresh type payload ∷ calls)
          db
          (continue (continue (emitting now session_id fresh type payload db) f) k)
  unfolding run
  emission_rule now fresh type payload calls db f k rest =
      let out = emitting now session_id fresh type payload db in
      let all : List Call = emit now session_id fresh type payload ∷ calls in
      subst (Makes all db) (continue_assoc out f k) (
        continue_rule (Makes all db) out (λ e s. continue (f e s) k) (λ e r h. cc h)
          (λ e done_it r h.
            rest e out.0 r h ∙ ap (λ d. run pg d calls) (emitting-step now fresh type payload db)))

  module _ (fresh_end end_now : ℕ) where
    abbrev closes : Turn → Action Db Fault TurnResult
    closes = close_turn dump session_id fresh_end end_now

    abbrev all_of : List Arrival → Turn → List Call
    all_of cs t = emitted dump session_id fresh_end end_now t.has_text t.text t.latest_usage cs

    closes-Makes :
        (t : Turn) (db : Db)
        → t.errored ≡ false
        → Makes
            (closer_of dump session_id fresh_end end_now t.has_text t.text t.latest_usage)
            db
            (closes t db)
    unfolding close_turn run
    closes-Makes t db going = elim (Bool-cases t.has_text) [
      | inl spoken ↦ rw spoken (
          rw going (
            continue_rule
              (Makes (closer_of dump session_id fresh_end end_now true t.text t.latest_usage) db)
              (emitting end_now session_id fresh_end assistant_message
                (serializable (closing_payload dump session_id t)) db)
              (λ e. give (record { tool_calls = t.tool_calls; errored = false })) (λ e r h. cc h)
              (λ e done_it r h.
                emitting-step end_now fresh_end assistant_message
                  (serializable (closing_payload dump session_id t)) db)))
      | inr silent ↦ rw silent (λ r h. refl)
    ]

    -- An error closes nothing.
    closes_nothing : (t : Turn) (db : Db) → t.errored ≡ true → Makes [] db (closes t db)
    unfolding close_turn run
    closes_nothing t db errs = elim (Bool-cases t.has_text) [
      | inl spoken ↦ rw spoken (rw errs (λ r h. refl))
      | inr silent ↦ rw silent (λ r h. refl)
    ]

    run_stream-Makes :
        (cs : List Arrival) (ending : StreamEnd) (t : Turn) (db : Db)
        → t.errored ≡ false
        → Makes (all_of cs t) db (continue (run_stream dump session_id cs ending t db) closes)
    unfolding run_stream chunk_to_event note_chunk emitted
    run_stream-Makes [] exhausted t db going = closes-Makes t db going
    run_stream-Makes [] raises t db going = λ r h. cc h
    run_stream-Makes (arrives fresh now (text_delta s) ∷ cs) ending t db going =
        emission_rule now fresh _ _ _ db _ closes
          (λ e d. run_stream-Makes cs ending (note_chunk dump session_id (text_delta s) t) d going)
    run_stream-Makes (arrives fresh now (tool_call_end i n d k) ∷ cs) ending t db going =
        emission_rule now fresh _ _ _ db _ closes (λ e d'.
          run_stream-Makes cs ending
            (record t {
              tool_calls =
                  t.tool_calls
                  ++ record { id = fresh; type = tool_call; payload = call_payload i n d } ∷ [];
            })
            d' going)
    run_stream-Makes (arrives fresh now (ModelChunk.error m f s) ∷ cs) ending t db going =
        emission_rule now fresh _ _ _ db _ closes
          (λ e d. closes_nothing (record t { errored = true }) d refl)
    run_stream-Makes (arrives fresh now (tool_call_start i n k) ∷ cs) ending t db going =
        run_stream-Makes cs ending t db going
    run_stream-Makes (arrives fresh now (tool_call_delta i p k) ∷ cs) ending t db going =
        run_stream-Makes cs ending t db going
    run_stream-Makes (arrives fresh now (usage u) ∷ cs) ending t db going =
        run_stream-Makes cs ending (record t { latest_usage = some (dump u) }) db going
    run_stream-Makes (arrives fresh now done ∷ cs) ending t db going =
        run_stream-Makes cs ending t db going

  run_turn-Makes :
      (cs : List Arrival) (ending : StreamEnd) (fresh now : ℕ) (db : Db)
      → Makes
          (emitted dump session_id fresh now false "" none cs)
          db
          (run_turn dump session_id cs ending fresh now db)
  unfolding run_turn
  run_turn-Makes cs ending fresh now db = run_stream-Makes fresh now cs ending no_turn db refl

  -- A turn, also one that raises, has made calls of the session service about the session only. One
  -- that raises nothing leaves the tables as these calls of emit_event do: one for each delta and
  -- each finished tool call of the stream, one for its first error, which ends it, and otherwise, if
  -- there were deltas, one for the whole text and the latest usage. It returns the tool calls that the
  -- stream finished before its first error, in their order, and says whether there was one; and then
  -- the stream has not raised, unless after that error.
  pub run_turn-emitted :
      (cs : List Arrival) (ending : StreamEnd) (fresh now : ℕ) (db : Db)
      → Reached pg session_id db (run_turn dump session_id cs ending fresh now db).0
        × ((r : TurnResult)
            → (run_turn dump session_id cs ending fresh now db).1 ≡ ok r
            → ((run_turn dump session_id cs ending fresh now db).0
                ≡ run pg db (emitted dump session_id fresh now false "" none cs))
              × Completes pg dump session_id cs ending
              × (r.tool_calls ≡ calls_of cs)
              × (r.errored ≡ has_error cs))
  run_turn-emitted cs ending fresh now db =
      let ended = run_turn_lem pg dump session_id cs ending fresh now db in
      (
        ended.0,
        λ r h.
            let facts = ended.1 r h in
            (run_turn-Makes cs ending fresh now db r h, facts.0, facts.1, facts.2),
      )
