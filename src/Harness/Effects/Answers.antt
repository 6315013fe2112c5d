-- ===== src/Harness/Effects/Answers.antt =====
-- Every tool call of a turn of src/tename/harness/service.py is answered in the log.
use tename.Prelude.{ℕ, ◌≡◌, List, All, Result, ok, some}
use tename.Sessions.Models.{Event, tool_result}
use tename.Sessions.Models
use tename.Sessions.Store.{Db, Postgres, find_event_by_id}
use tename.Harness.Effects.Results.{Names}
use tename.Sessions.Reached.{Reached}
use tename.Harness.Adapters.Base.{PendingEvent}
use tename.Harness.World.{Raised, Runtime, World}
use tename.Harness.Loop.{result_id}

module _ (pg : Postgres) (rt : Runtime) (session_id : ℕ) where
  -- An event that emitting a tool result for the call has stored, or one that was there before under
  -- that id, in tables that calls on the session had reached.
  pub data Standing (before : Db) (call : PendingEvent) (e : Event) : Type 0 where
    stored : e.type ≡ tool_result → Names rt session_id call e.payload → Standing before call e
    earlier :
        {db : Db}
        → Reached pg session_id before db
        → find_event_by_id session_id (result_id rt session_id call) db ≡ some e
        → Standing before call e

  -- The log has an event under the id of the result of this call: a tool result that names it, or an
  -- event that stood under that id before.
  abbrev pub IsAnswered : Db → Db → PendingEvent → Type 0
  IsAnswered before db call =
      (e : Event) × (find_event_by_id session_id (result_id rt session_id call) db ≡ some e)
      × Standing before call e

  abbrev Answers : Db → List PendingEvent → World × Result Raised (Unit {0}) → Type 0
  Answers before calls out = out.1 ≡ ok tt → All (IsAnswered before out.0.db) calls
