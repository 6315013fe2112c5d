-- ===== src/Tests/SessionRuns.antt =====
-- Sessions at concrete inputs: one agent, one session, a few events.
use tename.Prelude.{
  Bool-cases, inl, inr, ◌==◌, ==_iff, ap, ◌+◌, ℕ, ◌≡◌, refl, arith, none, some, List, [], ◌∷◌, zero,
  suc, Option, String, sym, ok, map, length, filter, false,
}
use tename.Json.{get, put, end, field, str, Json, pos}
use tename.Sessions.Models.{
  Agent, Session, Event, user_message, assistant_message, completed, active, is_terminal,
}
use tename.Sessions.Store.{
  in_session, Db, Postgres, find_session, find_event_by_id, find_session_by_request_id,
  request_text, insert_session, new_session, load_session_for_emit, insert_event_and_bump_sequence,
  mark_session_complete,
}
use tename.Json.Dumps.{dumps, utf8_length}
use tename.Sessions.Service.{
  mark_complete, encoded_length, find_existing, Argument, serializable, emit_event, create_session,
  merge_metadata, get_events, default_events_limit,
}
use tename.Sessions.Sequence.{IsDense, log, last_sequence, sequence_of, count_up}
use tename.Sessions.Calls.{Call, create, emit, complete, run, step, after}
use tename.Sessions.Emission.{Outcome, IsAccepted, emit_event-Outcome}
use tename.Sessions.Traces.{run-IsDense, log-run-StartsWith, StartsWith, run_terminal}
use tename.Sessions.Idempotency.{emit_event_idempotent}
use tename.Sessions.Reads.{get_events_saturates}
use tename.Sessions.Creation.{create_session_idempotent}

abbrev pub texts : Json → Option String
texts (str s) = some s
texts _ = none

abbrev pub pg : Postgres
pg = record { astext = texts; astext-str = λ s. refl }

abbrev pub writer : Agent
writer = record {
  id = 7;
  tenant_id = 0;
  name = "writer";
  model = "claude-opus-4-6";
  framework = "vanilla";
  system_prompt = none;
  tools = [];
  sandbox_recipe = none;
  created_at = 0;
}

abbrev pub empty_db : Db
empty_db = record { agents = writer ∷ []; sessions = []; events = [] }

empty-IsDense : IsDense empty_db
unfolding count_up
empty-IsDense = record { counts = λ j. refl }

abbrev pub hello : Argument
hello = serializable (field "content" (str "hello") end)

abbrev pub calls : List Call
calls =
    create 1 100 7 none (some "r")
    ∷ emit 2 100 55 user_message hello
    ∷ emit 3 100 56 assistant_message hello
    ∷ []

abbrev pub two_events : Db
two_events = run pg empty_db calls

run-IsDense_example : IsDense (run pg empty_db calls)
run-IsDense_example = run-IsDense pg empty_db calls empty-IsDense

pub two_events-IsDense : IsDense two_events
two_events-IsDense = run-IsDense pg empty_db calls empty-IsDense

log-run-StartsWith_example :
    StartsWith 100 (log 100 two_events) (run pg two_events (complete 9 100 ∷ calls))
log-run-StartsWith_example =
    log-run-StartsWith pg 100 two_events (complete 9 100 ∷ calls) two_events-IsDense

-- The insert in the middle of `create_session` and `emit_event` computes with these.
two_rows : last_sequence 100 two_events ≡ 2
unfolding run step create_session merge_metadata find_existing find_session_by_request_id get put
    request_text insert_session emit_event encoded_length dumps utf8_length find_event_by_id
    load_session_for_emit insert_event_and_bump_sequence is_terminal
two_rows = refl

emit_event-Outcome_example :
    Outcome two_events 4 100 57 user_message hello
      (emit_event 4 100 57 user_message hello two_events)
emit_event-Outcome_example =
    emit_event-Outcome 4 100 57 user_message hello two_events two_events-IsDense

abbrev ended_db : Db
ended_db =
    run pg empty_db
      (create 1 100 7 none (some "r") ∷ emit 2 100 55 user_message hello ∷ complete 3 100 ∷ [])

ended_row : Session
unfolding put
ended_row = record {
  id = 100;
  tenant_id = 0;
  agent_id = 7;
  status = completed;
  last_sequence = 1;
  metadata = field "request_id" (str "r") end;
  created_at = 1;
  updated_at = 3;
}

run_terminal_example :
    (find_session 100 (run pg ended_db calls) ≡ some ended_row)
    × (log 100 (run pg ended_db calls) ≡ log 100 ended_db)
unfolding run step create_session merge_metadata find_existing find_session_by_request_id get put
    request_text insert_session emit_event encoded_length dumps utf8_length find_event_by_id
    load_session_for_emit insert_event_and_bump_sequence is_terminal mark_complete
    mark_session_complete ended_row
run_terminal_example =
    run_terminal pg 100 ended_db calls ended_row
      (run-IsDense pg empty_db
        (create 1 100 7 none (some "r") ∷ emit 2 100 55 user_message hello ∷ complete 3 100 ∷ [])
        empty-IsDense)
      refl refl

hello-IsAccepted : IsAccepted hello
unfolding encoded_length dumps utf8_length
hello-IsAccepted = record { bytes = 20; encoded = refl; fits = omega arith }

abbrev third : Event
third = record {
  id = 57;
  session_id = 100;
  sequence = 3;
  type = user_message;
  payload = field "content" (str "hello") end;
  created_at = 4;
}

three_events :
    emit_event 4 100 57 user_message hello two_events
    ≡ ok (after two_events (emit_event 4 100 57 user_message hello two_events), third)
unfolding run step create_session merge_metadata find_existing find_session_by_request_id get put
    request_text insert_session emit_event encoded_length dumps utf8_length find_event_by_id
    load_session_for_emit insert_event_and_bump_sequence is_terminal
three_events = refl

emit_event_idempotent_example :
    emit_event 8 100 57 assistant_message hello
      (run pg (after two_events (emit_event 4 100 57 user_message hello two_events)) calls)
    ≡ ok
        (run pg (after two_events (emit_event 4 100 57 user_message hello two_events)) calls, third)
emit_event_idempotent_example =
    emit_event_idempotent pg 4 100 57 user_message hello two_events
      (after two_events (emit_event 4 100 57 user_message hello two_events)) third calls 8
      assistant_message hello two_events-IsDense three_events hello-IsAccepted

abbrev one_session : Db
one_session = run pg empty_db (create 1 100 7 none (some "r") ∷ [])

-- A second call under the request id "r", by another agent.
create_session_idempotent_example :
    (s : Session) × (create_session pg
        (λ d. d)
        (λ d. d)
        5
        101
        8
        none
        (some "r")
        (run pg one_session calls)
      ≡ ok (run pg one_session calls, s))
    × (s.id ≡ 100)
unfolding create_session merge_metadata find_existing find_session_by_request_id get put
    request_text insert_session run step
create_session_idempotent_example =
    create_session_idempotent pg (λ d. d) (λ d. d) 1 100 7 none "r" empty_db one_session
      (new_session 1 100 7 (field "request_id" (str "r") end)) calls (λ d. d) (λ d. d) 5 101 8 none
      (field "request_id" (str "r") end) refl
      (run-IsDense pg empty_db (create 1 100 7 none (some "r") ∷ []) empty-IsDense) refl

-- n events of session 100, numbered from `start`.
abbrev rows : ℕ → ℕ → List Event
rows start zero = []
rows start (suc n) =
    record {
      id = start;
      session_id = 100;
      sequence = start;
      type = user_message;
      payload = end;
      created_at = 0;
    }
    ∷ rows (start + 1) n

rows-count_up :
    (start n : ℕ) → map sequence_of (filter (in_session 100) (rows start n)) ≡ count_up start n
unfolding count_up
rows-count_up start zero = refl
rows-count_up start (suc n) = ap (λ l. start ∷ l) (rows-count_up (start + 1) n)

rows_of_others :
    (j start n : ℕ)
    → (100 == j) ≡ false
    → map sequence_of (filter (in_session j) (rows start n)) ≡ []
rows_of_others j start zero h = refl
rows_of_others j start (suc n) h = rw h (rows_of_others j (start + 1) n h)

length-rows : (start n : ℕ) → length (filter (in_session 100) (rows start n)) ≡ n
length-rows start zero = refl
length-rows start (suc n) = ap suc (length-rows (start + 1) n)

full_of : ℕ → Db
full_of n = record {
  agents = writer ∷ [];
  sessions =
      record {
        id = 100;
        tenant_id = 0;
        agent_id = 7;
        status = active;
        last_sequence = n;
        metadata = end;
        created_at = 0;
        updated_at = 0;
      }
      ∷ [];
  events = rows 1 n;
}

full-IsDense : (n : ℕ) → IsDense (full_of n)
unfolding full_of
full-IsDense n = record {
  counts = λ j. elim (Bool-cases (100 == j)) [
    | inl own ↦ rw (sym ((==_iff 100 j).0 own)) (rows-count_up 1 n)
    | inr other ↦ rw other (unfold count_up in rows_of_others j 1 n other)
  ];
}

full-length : (n : ℕ) → length (log 100 (full_of n)) ≡ n
unfolding full_of
full-length n = length-rows 1 n

get_events_saturates_example :
    get_events 100 none none [] (pos default_events_limit) (run pg (full_of 1000) calls)
    ≡ get_events 100 none none [] (pos default_events_limit) (full_of 1000)
get_events_saturates_example =
    get_events_saturates pg 100 (full_of 1000) calls (full-IsDense 1000)
      (omega (arith, full-length 1000))
