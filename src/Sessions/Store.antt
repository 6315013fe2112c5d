-- ===== src/Sessions/Store.antt =====
-- src/tename/sessions/store.py over the tables of schema.py and of migration 0001. A transaction is
-- a function on the tables; the times and the ids that the server makes up are arguments.
use tename.Prelude.{
  ℕ, ◌≡◌, Bool, true, false, not, ◌&&◌, ◌||◌, Option, none, some, List, [], ◌∷◌, ◌++◌, map, String,
  str_eq, ◌==◌, leb, ltb, if◌then◌else◌, any, filter, find?, take, Result, ok, err, ◌>>=◌,
}
use tename.Json.{Json, Fields, str, get}
use tename.Sessions.Models.{
  Error, not_found, integrity, SessionStatus, active, completed, is_terminal, EventType, same_type,
  Agent, Session, Event,
}

pub record Db : Type 0 where
  pub agents : List Agent
  pub sessions : List Session
  pub events : List Event

-- What the database does with JSON: `value ->> key` as text, for the values that are no strings too.
pub record Postgres : Type 0 where
  pub astext : Json → Option String
  pub astext-str : (s : String) → astext (str s) ≡ some s

abbrev pub default_tenant_id : ℕ
default_tenant_id = 0

abbrev or_not_found {ℓ} : {A : Type ℓ} → Option A → Result Error A
or_not_found none = err not_found
or_not_found (some a) = ok a

abbrev pub has_session_id : ℕ → Session → Bool
has_session_id session_id s = s.id == session_id

abbrev pub in_session : ℕ → Event → Bool
in_session session_id e = e.session_id == session_id

abbrev pub is_event : ℕ → ℕ → Event → Bool
is_event session_id event_id e = e.session_id == session_id && e.id == event_id

abbrev pub find_session : ℕ → Db → Option Session
find_session session_id db = find? (has_session_id session_id) db.sessions

-- metadata ->> 'request_id'
unfoldable pub request_text : Postgres → Fields → Option String
request_text pg metadata = elim (get "request_id" metadata) [ none ↦ none | some v ↦ pg.astext v ]

abbrev pub is_text : String → Option String → Bool
is_text r none = false
is_text r (some t) = str_eq t r

abbrev pub requested_by : Postgres → ℕ → String → Session → Bool
requested_by pg tenant r s = s.tenant_id == tenant && is_text r (request_text pg s.metadata)

unfoldable pub find_session_by_request_id : Postgres → String → ℕ → Db → Option Session
find_session_by_request_id pg request_id tenant_id db =
    find? (requested_by pg tenant_id request_id) db.sessions

-- The partial unique index uq_sessions_request_id.
unfoldable pub violates_request_index : Postgres → Session → List Session → Bool
violates_request_index pg row sessions = elim (request_text pg row.metadata) [
  | none ↦ false
  | some r ↦ any (requested_by pg row.tenant_id r) sessions
]

-- The row that the server-side defaults fill in.
unfoldable pub new_session : ℕ → ℕ → ℕ → Fields → Session
new_session now fresh agent_id metadata = record {
  id = fresh;
  tenant_id = default_tenant_id;
  agent_id = agent_id;
  status = active;
  last_sequence = 0;
  metadata = metadata;
  created_at = now;
  updated_at = now;
}

-- The foreign key, the primary key and the index that an insert may violate.
unfoldable pub rejects_session : Postgres → Session → Db → Bool
unfolding violates_request_index
rejects_session pg row db =
    not (any (λ a. a.id == row.agent_id) db.agents)
    || (any (has_session_id row.id) db.sessions || violates_request_index pg row db.sessions)

unfoldable pub insert_session :
    Postgres → (now fresh agent_id : ℕ) → Fields → Db → Result Error (Db × Session)
unfolding new_session rejects_session
insert_session pg now fresh agent_id metadata db =
    let row = new_session now fresh agent_id metadata in
    if rejects_session pg row db
    then err integrity
    else ok (record db { sessions = db.sessions ++ row ∷ [] }, row)

unfoldable pub get_session : ℕ → Db → Result Error Session
get_session session_id db = or_not_found (find_session session_id db)

unfoldable pub get_agent : ℕ → Db → Result Error Agent
get_agent agent_id db = or_not_found (find? (λ a. a.id == agent_id) db.agents)

-- UPDATE sessions SET ... WHERE id = session_id
abbrev pub update_session : ℕ → (Session → Session) → Db → Db
update_session session_id change db = record db {
  sessions = map (λ s. if s.id == session_id then change s else s) db.sessions;
}

-- A change of status that tests make directly.
unfoldable pub update_session_status : ℕ → SessionStatus → Db → Db
update_session_status session_id status db =
    update_session session_id (λ s. record s { status = status }) db

abbrev pub complete_row : ℕ → Session → Session
complete_row now s = record s { status = completed; updated_at = now }

unfoldable pub mark_session_complete : ℕ → ℕ → Db → Result Error (Db × SessionStatus)
unfolding get_session
mark_session_complete now session_id db = get_session session_id db >>= λ session.
    if is_terminal session.status
    then ok (db, session.status)
    else ok (update_session session_id (complete_row now) db, completed)

unfoldable pub find_event_by_id : ℕ → ℕ → Db → Option Event
find_event_by_id session_id event_id db = find? (is_event session_id event_id) db.events

unfoldable pub load_session_for_emit : ℕ → Db → Result Error (ℕ × SessionStatus)
load_session_for_emit session_id db =
    or_not_found (find_session session_id db) >>= λ s. ok (s.last_sequence, s.status)

abbrev pub bump_row : ℕ → ℕ → Session → Session
bump_row now new_sequence s = record s { last_sequence = new_sequence; updated_at = now }

abbrev pub event_row : (now session_id event_id sequence : ℕ) → EventType → Fields → Event
event_row now session_id event_id sequence event_type payload = record {
  id = event_id;
  session_id = session_id;
  sequence = sequence;
  type = event_type;
  payload = payload;
  created_at = now;
}

-- The insert of a row and the update of its session.
abbrev pub with_event : ℕ → Event → Db → Db
with_event now row db =
    update_session row.session_id (bump_row now row.sequence)
      (record db { events = db.events ++ row ∷ [] })

abbrev pub is_sequence : ℕ → ℕ → Event → Bool
is_sequence session_id sequence e = e.session_id == session_id && e.sequence == sequence

-- The insert fails on pk_events, on uq_events_session_sequence and on the foreign key.
unfoldable pub insert_event_and_bump_sequence :
    ℕ → ℕ → ℕ → EventType → Fields → ℕ → Db → Result Error (Db × Event)
insert_event_and_bump_sequence now session_id event_id event_type payload new_sequence db =
    let row = event_row now session_id event_id new_sequence event_type payload in
    if any (is_event session_id event_id) db.events
      || (any (is_sequence session_id new_sequence) db.events
          || not (any (has_session_id session_id) db.sessions))
    then err integrity
    else ok (with_event now row db, row)

-- ORDER BY sequence ASC
unfoldable pub insert_by_sequence : Event → List Event → List Event
insert_by_sequence e [] = e ∷ []
insert_by_sequence e (x ∷ xs) =
    let later = insert_by_sequence e xs in
    if ltb x.sequence e.sequence then x ∷ later else e ∷ x ∷ xs

unfoldable pub order_by_sequence : List Event → List Event
unfolding insert_by_sequence
order_by_sequence [] = []
order_by_sequence (e ∷ es) = insert_by_sequence e (order_by_sequence es)

abbrev pub not_after : Option ℕ → ℕ → Bool
not_after none n = true
not_after (some end) n = leb n end

-- An empty or absent list of types is no filter.
abbrev pub of_types : List EventType → EventType → Bool
of_types [] t = true
of_types (a ∷ as') t = any (same_type t) (a ∷ as')

-- The WHERE clause.
unfoldable pub selects : ℕ → ℕ → Option ℕ → List EventType → Event → Bool
selects session_id start end types e =
    e.session_id == session_id
    && (leb start e.sequence && (not_after end e.sequence && of_types types e.type))

unfoldable pub select_events : ℕ → ℕ → Option ℕ → List EventType → ℕ → Db → List Event
unfolding order_by_sequence selects
select_events session_id start end types limit db =
    take limit (order_by_sequence (filter (selects session_id start end types) db.events))
