-- ===== src/Tests/SdkRuns.antt =====
-- A message that a client sends, while the harness answers it with one event and ends the session.
use tename.Prelude.{false, List, [], ◌∷◌}
use tename.Json.{Fields, str, field, end}
use tename.Sessions.Models.{Event, user_message, assistant_message}
use tename.Sessions.Store.{Db, event_row, with_event}
use tename.Sessions.Calls.{Call, emit, complete, run}
use tename.Sdk.Sessions.{Rounds, drains}
use tename.Tests.SessionRuns.{pg, two_events, hello}

abbrev message : Fields
message = field "content" (str "Go on") end

abbrev message_row : Event
message_row = event_row 9 100 90 3 user_message message

abbrev sent_db : Db
sent_db = with_event 9 message_row two_events

abbrev answers : List Call
answers = emit 10 100 91 assistant_message hello ∷ complete 11 100 ∷ []

abbrev rounds : Db → Rounds
rounds db = drains false db (run pg db answers)
