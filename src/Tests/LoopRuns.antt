-- ===== src/Tests/LoopRuns.antt =====
-- A turn of the harness at a concrete stream, on tables with one active session.
use tename.Prelude.{◌≡◌, refl, Option, none, some, List, [], ◌∷◌, String, ok, false}
use tename.Json.{Json, Fields, str, end}
use tename.Json.Dumps.{dumps, utf8_length}
use tename.Sessions.Models.{active, is_terminal}
use tename.Sessions.Store.{
  Db, Postgres, find_event_by_id, load_session_for_emit, insert_event_and_bump_sequence,
}
use tename.Sessions.Service.{emit_event, encoded_length}
use tename.Router.Types.{Usage, text_delta, tool_call_end, done}
use tename.Sessions.Reached.{Reached}
use tename.Harness.Turn.{
  Arrival, arrives, TurnResult, run_turn, run_stream, note_chunk, close_turn, calls_of, has_error,
  exhausted, emitting, Completes,
}
use tename.Harness.Emitted.{emitted, run_turn-emitted}
use tename.Sessions.Calls.{run}
use tename.Harness.Adapters.Events.{chunk_to_event}

abbrev texts : Json → Option String
texts (str s) = some s
texts _ = none

abbrev pg : Postgres
pg = record { astext = texts; astext-str = λ s. refl }

abbrev db : Db
db = record {
  agents = [];
  sessions =
      record {
        id = 100;
        tenant_id = 0;
        agent_id = 7;
        status = active;
        last_sequence = 0;
        metadata = end;
        created_at = 0;
        updated_at = 0;
      }
      ∷ [];
  events = [];
}

abbrev no_fields : Usage → Fields
no_fields u = end

abbrev stream : List Arrival
stream =
    arrives 1 1 (text_delta "hi")
    ∷ arrives 2 2 (tool_call_end "t" "bash" end 0)
    ∷ arrives 3 3 done
    ∷ []

abbrev result : TurnResult
result = record { tool_calls = calls_of stream; errored = false }

turned : (run_turn no_fields 100 stream exhausted 4 4 db).1 ≡ ok result
unfolding run_turn run_stream emitting note_chunk close_turn chunk_to_event emit_event
    encoded_length dumps utf8_length find_event_by_id load_session_for_emit
    insert_event_and_bump_sequence is_terminal calls_of
turned = refl

run_turn-emitted_example :
    Reached pg 100 db (run_turn no_fields 100 stream exhausted 4 4 db).0
    × ((r : TurnResult)
        → (run_turn no_fields 100 stream exhausted 4 4 db).1 ≡ ok r
        → ((run_turn no_fields 100 stream exhausted 4 4 db).0
            ≡ run pg db (emitted no_fields 100 4 4 false "" none stream))
          × Completes pg no_fields 100 stream exhausted
          × (r.tool_calls ≡ calls_of stream)
          × (r.errored ≡ has_error stream))
run_turn-emitted_example = run_turn-emitted pg no_fields 100 stream exhausted 4 4 db
