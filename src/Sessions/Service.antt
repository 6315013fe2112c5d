-- ===== src/Sessions/Service.antt =====
-- src/tename/sessions/service.py. A transaction that raises is rolled back, so an error carries no
-- tables. Logging is left out.
use tename.Prelude.{
  ℕ, ◌+◌, ◌*◌, min, Bool, true, false, Option, none, some, List, String, str_eq, ltb, if◌then◌else◌,
  Result, ok, err, ◌>>=◌,
}
use tename.Json.{ℤ, pos, negsuc, Json, Fields, null, str, obj, end, get, put}
use tename.Json.Dumps.{dumps, utf8_length}
use tename.Sessions.Models.{
  Error, validation, failed_precondition, runtime, integrity, SessionStatus, is_terminal, EventType,
  Agent, Session, Event,
}
use tename.Sessions.Store
use tename.Sessions.Store.{
  Db, Postgres, default_tenant_id, find_session_by_request_id, insert_session, get_session,
  mark_session_complete, find_event_by_id, load_session_for_emit, insert_event_and_bump_sequence,
  select_events,
}

abbrev pub max_payload_bytes : ℕ
max_payload_bytes = 256 * 1024

abbrev pub default_events_limit : ℕ
default_events_limit = 1000

abbrev pub max_events_limit : ℕ
max_events_limit = 10000

-- A payload that a caller hands over: `json.dumps` may refuse it.
pub data Argument : Type 0 where
  serializable : Fields → Argument
  unserializable : Argument

-- _encode_payload, of which only the number of bytes is used
unfoldable pub encoded_length : Argument → Result Error ℕ
encoded_length (serializable payload) = ok (utf8_length (dumps (obj payload)))
encoded_length unserializable = err validation

-- `metadata_request_id is not None and metadata_request_id != request_id`
unfoldable pub conflicts : String → Option Json → Bool
conflicts r none = false
conflicts r (some null) = false
conflicts r (some (str s)) = if str_eq s r then false else true
conflicts r (some _) = true

abbrev or_empty : Option Fields → Fields
or_empty none = end
or_empty (some m) = m

unfoldable pub merge_metadata : Option Fields → Option String → Result Error Fields
unfolding conflicts
merge_metadata metadata none = ok (or_empty metadata)
merge_metadata metadata (some request_id) =
    let merged = or_empty metadata in
    if conflicts request_id (get "request_id" merged)
    then err validation
    else ok (put "request_id" (str request_id) merged)

-- The lookup by `resolved_request_id`, made only if that is a string.
unfoldable pub find_existing : Postgres → Option Json → Db → Option Session
find_existing pg (some (str r)) db = find_session_by_request_id pg r default_tenant_id db
find_existing pg _ db = none

abbrev or_runtime : Db → Option Session → Result Error (Db × Session)
or_runtime db none = err runtime
or_runtime db (some s) = ok (db, s)

-- The transaction of `create_session`, with the merged metadata. `between` is what other
-- transactions commit after the lookup, and `later` what they commit between the rollback and the
-- second lookup.
unfoldable pub insert_or_find :
    Postgres
    → (between later : Db → Db) → (now fresh agent_id : ℕ) → Fields
    → Db
    → Result Error (Db × Session)
insert_or_find pg between later now fresh agent_id merged db =
    elim (find_existing pg (get "request_id" merged) db) [
      | some existing ↦ ok (db, existing)
      | none ↦ elim (insert_session pg now fresh agent_id merged (between db)) [
        | ok r ↦ ok r
        | err _ ↦
            or_runtime (later (between db))
              (find_existing pg (get "request_id" merged) (later (between db)))
      ]
    ]

unfoldable pub create_session :
    Postgres
    → (between later : Db → Db) → (now fresh agent_id : ℕ) → Option Fields
    → Option String
    → Db
    → Result Error (Db × Session)
unfolding insert_or_find
create_session pg between later now fresh agent_id metadata request_id db =
    merge_metadata metadata request_id >>= λ merged.
    insert_or_find pg between later now fresh agent_id merged db

unfoldable pub get_agent : ℕ → Db → Result Error Agent
get_agent agent_id db = Store.get_agent agent_id db

unfoldable pub mark_complete : ℕ → ℕ → Db → Result Error (Db × SessionStatus)
mark_complete now session_id db = mark_session_complete now session_id db

unfoldable pub wake : ℕ → Db → Result Error Session
wake session_id db = get_session session_id db >>= λ session.
    if is_terminal session.status then err failed_precondition else ok session

-- An IntegrityError under the lock surfaces as a RuntimeError.
abbrev surface {ℓ} : {A : Type ℓ} → Result Error A → Result Error A
surface (ok a) = ok a
surface (err integrity) = err runtime
surface (err e) = err e

-- What the transaction does when the event is new.
unfoldable pub append_event :
    (now session_id event_id : ℕ) → EventType → Fields → Db → Result Error (Db × Event)
append_event now session_id event_id event_type payload db =
    load_session_for_emit session_id db >>= λ loaded.
    if is_terminal loaded.1
    then err failed_precondition
    else surface (
        insert_event_and_bump_sequence now session_id event_id event_type payload (loaded.0 + 1) db)

-- The payload of an argument that was encoded.
abbrev pub payload_of : Argument → Fields
payload_of (serializable payload) = payload
payload_of unserializable = end

-- The advisory lock makes the transaction one step for each session.
unfoldable pub emit_event :
    (now session_id event_id : ℕ) → EventType → Argument → Db → Result Error (Db × Event)
unfolding append_event
emit_event now session_id event_id event_type payload db = encoded_length payload >>= λ bytes.
    if ltb max_payload_bytes bytes
    then err validation
    else elim (find_event_by_id session_id event_id db) [
      | some existing ↦ ok (db, existing)
      | none ↦ append_event now session_id event_id event_type (payload_of payload) db
    ]

-- An integer that is at least 1.
abbrev positive : ℤ → Result Error ℕ
positive (pos n) = if ltb n 1 then err validation else ok n
positive (negsuc n) = err validation

abbrev start_of : Option ℤ → Result Error ℕ
start_of none = ok 1
start_of (some n) = positive n

-- `end is not None and end < effective_start` is refused.
abbrev end_of : ℕ → Option ℤ → Result Error (Option ℕ)
end_of start none = ok none
end_of start (some (pos n)) = if ltb n start then err validation else ok (some n)
end_of start (some (negsuc n)) = err validation

unfoldable pub get_events :
    ℕ → (start finish : Option ℤ) → List EventType → (limit : ℤ) → Db → Result Error (List Event)
get_events session_id start finish types limit db = positive limit >>= λ n.
    start_of start >>= λ first. end_of first finish >>= λ last.
    ok (select_events session_id first last types (min n max_events_limit) db)
