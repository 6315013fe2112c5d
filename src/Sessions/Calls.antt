-- ===== src/Sessions/Calls.antt =====
-- Whole calls of SessionService that change the tables, one after the other, and the ways that
-- each of them may change the tables. The proofs about traces go through these rules.
use tename.Prelude.{
  ℕ, ◌+◌, ◌≡◌, false, Option, some, List, [], ◌∷◌, ◌++◌, arith, any, String, Bool-cases,
  Option-cases, Result-cases, Result, ok, err, inl, inr,
}
use tename.Json.{Fields, get}
use tename.Sessions.Models.{Error, EventType, Session, Event, is_terminal}
use tename.Sessions.Store.{
  Db, Postgres, has_session_id, find_session, event_row, with_event, complete_row, update_session,
  new_session, rejects_session, insert_session, mark_session_complete,
}
use tename.Sessions.Service.{
  Argument, payload_of, emit_event, mark_complete, create_session, insert_or_find, find_existing,
}
use tename.Sessions.Emission.{Outcome, appended}

pub data Call : Type 0 where
  create : (now fresh agent_id : ℕ) → Option Fields → Option String → Call
  emit : (now session_id event_id : ℕ) → EventType → Argument → Call
  complete : (now session_id : ℕ) → Call

-- A call that raises leaves the tables as they were.
abbrev pub after {ℓ} : {A : Type ℓ} → Db → Result Error (Db × A) → Db
after db (ok r) = r.0
after db (err e) = db

module _ (pg : Postgres) where
  unfoldable pub step : Db → Call → Db
  step db (create now fresh agent_id metadata request_id) =
      after db (create_session pg (λ d. d) (λ d. d) now fresh agent_id metadata request_id db)
  step db (emit now session_id event_id event_type payload) =
      after db (emit_event now session_id event_id event_type payload db)
  step db (complete now session_id) = after db (mark_complete now session_id db)

  unfoldable pub run : Db → List Call → Db
  run db [] = db
  run db (c ∷ cs) = run (step db c) cs

-- A row that the service adds: no session has its id.
abbrev pub with_session : Session → Db → Db
with_session row db = record db { sessions = db.sessions ++ row ∷ [] }

module _ {ℓ} (P : Db → Type ℓ) (db : Db) where
  -- An event is appended, to an active session that has no event of that id, or nothing changes.
  pub emit_cases :
      {now session_id event_id : ℕ} {event_type : EventType} {payload : Argument}
      {r : Result Error (Db × Event)}
      → Outcome db now session_id event_id event_type payload r
      → P db
      → ((s : Session) (e : Event)
          → find_session session_id db ≡ some s
          → is_terminal s.status ≡ false
          → e
            ≡ event_row now session_id event_id
                (s.last_sequence + 1)
                event_type
                (payload_of payload)
          → P (with_event now e db))
      → P (after db r)
  emit_cases (appended s e small fresh found live made) same added = added s e found live made
  emit_cases _ same added = same

  -- An active session is completed, or nothing changes.
  pub complete_cases :
      (now session_id : ℕ)
      → P db
      → ((s : Session)
          → find_session session_id db ≡ some s
          → is_terminal s.status ≡ false
          → P (update_session session_id (complete_row now) db))
      → P (after db (mark_complete now session_id db))
  unfolding mark_complete mark_session_complete
  complete_cases now session_id same completed = elim (Option-cases (find_session session_id db)) [
    | inl missing ↦ rw missing same
    | inr (s, found) ↦ rw found (elim (Bool-cases (is_terminal s.status)) [
      | inl ended ↦ rw ended same
      | inr live ↦ rw live (completed s found live)
    ])
  ]

-- A row that is inserted has an id of its own, and the tables gain that row.
pub insert_session_ok :
    (pg : Postgres) (now fresh agent_id : ℕ) (metadata : Fields) (db : Db) (r : Db × Session)
    → insert_session pg now fresh agent_id metadata db ≡ ok r
    → (any (has_session_id fresh) db.sessions ≡ false)
      × (rejects_session pg (new_session now fresh agent_id metadata) db ≡ false)
      × (r ≡ (
        with_session (new_session now fresh agent_id metadata) db,
        new_session now fresh agent_id metadata,
      ))
unfolding insert_session
insert_session_ok pg now fresh agent_id metadata db r h =
    elim (Bool-cases (rejects_session pg (new_session now fresh agent_id metadata) db)) [
      | inl rejected ↦ absurd (cc (rw rejected at h))
      | inr accepted ↦ (ground arith, accepted, cc (rw accepted at h))
    ]

-- What the body of `create_session` does once the metadata is merged.
pub insert_or_find_cases {ℓ} :
    (P : Db → Type ℓ) (pg : Postgres) (between later : Db → Db) (now fresh agent_id : ℕ)
    (merged : Fields) (db : Db)
    → P db
    → P (later (between db))
    → (any (has_session_id fresh) (between db).sessions ≡ false
        → P (with_session (new_session now fresh agent_id merged) (between db)))
    → P (after db (insert_or_find pg between later now fresh agent_id merged db))
unfolding insert_or_find
insert_or_find_cases P pg between later now fresh agent_id merged db same lost added =
    elim (Option-cases (find_existing pg (get "request_id" merged) db)) [
      | inr (s, old) ↦ rw (old, insert_or_find) same
      | inl none_yet ↦
          rw (none_yet, insert_or_find)
            (elim (Result-cases (insert_session pg now fresh agent_id merged (between db))) [
              | inl (r, inserted) ↦ rw inserted (
                  let facts =
                    insert_session_ok pg now fresh agent_id merged (between db) r inserted in
                  rw facts.2 (added facts.0))
              | inr (e, rejected) ↦
                  rw rejected
                    (elim (Option-cases
                      (find_existing pg (get "request_id" merged) (later (between db)))) [
                        | inl gone ↦ rw gone same
                        | inr (s, found) ↦ rw found lost
                      ])
            ])
    ]
