-- ===== src/Sdk/Sessions.antt =====
-- `AsyncSessionHandle.send` of src/tename/sdk/sessions.py. The tables that each read sees, and what
-- the harness task does between the reads, are an argument.
use tename.Prelude.{Bool, true, ℕ, ◌+◌, List, [], ◌∷◌, ◌++◌, String, Result, ok, ◌>>=◌, none, some}
use tename.Json.{pos, str, field, end}
use tename.Sessions.Models.{Error, Event, user_message}
use tename.Sessions.Store.{Db}
use tename.Sessions.Service.{serializable, emit_event, get_events, default_events_limit}

-- The rounds of the loop: the harness still runs after the read and does not raise while the loop
-- waits; it is done after the read, has raised or not, and a trailing read follows; or it raises
-- while the loop waits, and the exception ends the loop.
pub data Rounds : Type 0 where
  waits : (seen : Db) → Rounds → Rounds
  drains : (raised : Bool) (seen trailing : Db) → Rounds
  breaks : (seen : Db) → Rounds

-- `last_sequence = event.sequence`, for each event
unfoldable pub last_of : ℕ → List Event → ℕ
last_of last [] = last
last_of last (e ∷ es) = last_of e.sequence es

-- get_events(session_id, start=last_sequence + 1)
abbrev pub read_after : ℕ → ℕ → Db → Result Error (List Event)
read_after session_id last db =
    get_events session_id (some (pos (last + 1))) none [] (pos default_events_limit) db

-- What is yielded.
unfoldable pub stream_events : ℕ → ℕ → Rounds → Result Error (List Event)
stream_events session_id last (waits seen rest) = read_after session_id last seen >>= λ events.
    stream_events session_id (last_of last events) rest >>= λ more. ok (events ++ more)
stream_events session_id last (drains raised seen trailing) =
    read_after session_id last seen >>= λ events.
    read_after session_id (last_of last events) trailing >>= λ more. ok (events ++ more)
stream_events session_id last (breaks seen) = read_after session_id last seen

-- `harness_task.exception() is not None` in the `finally` clause, where the task is done.
abbrev pub harness_raised : Rounds → Bool
harness_raised (waits seen rest) = harness_raised rest
harness_raised (drains raised seen trailing) = raised
harness_raised (breaks seen) = true

-- What is yielded to a caller that takes every event, and whether the exception of the harness is
-- raised after it. `rounds` is what happens from the tables on that the message leaves.
unfoldable pub send :
    (now session_id fresh : ℕ)
    → (content : String) → (rounds : Db → Rounds) → Db
    → Result Error (List Event × Bool)
send now session_id fresh content rounds db =
    get_events session_id none none [] (pos default_events_limit) db >>= λ last.
    emit_event now session_id fresh user_message (serializable (field "content" (str content) end))
      db
    >>= λ r. stream_events session_id (last_of 0 last) (rounds r.0) >>= λ events.
        ok (events, harness_raised (rounds r.0))
