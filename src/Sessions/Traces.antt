-- ===== src/Sessions/Traces.antt =====
-- What holds of src/tename/sessions/service.py after any sequence of calls.
use tename.Prelude.{
  ℕ, ◌+◌, ◌≡◌, refl, Bool, true, false, Option, none, some, List, [], ◌∷◌, ◌++◌, arith, ◌==◌,
  ==_iff, if◌then◌else◌, any, String, Bool-cases, Result-cases, find?, sym, inl, inr, append-nil,
  append_assoc,
}
use tename.Json.{Fields}
use tename.Sessions.Models.{Session, Event, is_terminal}
use tename.Sessions.Store.{
  Db, Postgres, has_session_id, find_session, bump_row, with_event, complete_row, update_session,
  new_session,
}
use tename.Sessions.Service.{create_session, merge_metadata}
use tename.Sessions.Sequence.{IsDense, log, find-update_session, with_event-IsDense, log-with_event}
use tename.Sessions.Calls.{
  Call, create, emit, complete, after, step, run, with_session, emit_cases, complete_cases,
  insert_or_find_cases,
}
use tename.Sessions.Emission.{emit_event-Outcome}

-- A lookup in a longer table.
pub find-append {ℓ} :
    {A : Type ℓ} (test : A → Bool) (xs ys : List A)
    → find? test (xs ++ ys) ≡ (elim (find? test xs) [ none ↦ find? test ys | some a ↦ some a ])
find-append test [] ys = refl
find-append test (x ∷ xs) ys = ground (arith, find-append test xs ys)

pub not_found {ℓ} :
    {A : Type ℓ} (test : A → Bool) (xs : List A) → any test xs ≡ false → find? test xs ≡ none
not_found test [] h = refl
not_found test (x ∷ xs) h = ground (arith, not_found test xs)

-- The lookup of a session after an insert of a new one.
find-with_session :
    (j : ℕ) (row : Session) (db : Db)
    → any (has_session_id row.id) db.sessions ≡ false
    → find_session j (with_session row db) ≡ (if row.id == j then some row else find_session j db)
find-with_session j row db new = ground (
  arith,
  find-append (has_session_id j) db.sessions (row ∷ []),
  not_found (has_session_id row.id) db.sessions new,
)

module _ (db : Db) (dense : IsDense db) where
  with_session-IsDense :
      (now fresh agent_id : ℕ) (metadata : Fields)
      → any (has_session_id fresh) db.sessions ≡ false
      → IsDense (with_session (new_session now fresh agent_id metadata) db)
  unfolding new_session
  with_session-IsDense now fresh agent_id metadata new = record {
    counts = λ j. ground (
      arith,
      dense.counts j,
      find-with_session j (new_session now fresh agent_id metadata) db new,
      not_found (has_session_id fresh) db.sessions new,
    );
  }

  complete-IsDense :
      (now session_id : ℕ) → IsDense (update_session session_id (complete_row now) db)
  complete-IsDense now session_id = record {
    counts = λ j. ground (
      arith,
      dense.counts j,
      find-update_session j session_id (complete_row now) db.sessions (λ s. refl),
    );
  }

create_cases {ℓ} :
    (P : Db → Type ℓ) (pg : Postgres) (now fresh agent_id : ℕ) (metadata : Option Fields)
    (request_id : Option String) (db : Db)
    → P db
    → ((merged : Fields)
        → any (has_session_id fresh) db.sessions ≡ false
        → P (with_session (new_session now fresh agent_id merged) db))
    → P (after db (create_session pg (λ d. d) (λ d. d) now fresh agent_id metadata request_id db))
unfolding create_session
create_cases P pg now fresh agent_id metadata request_id db same added =
    elim (Result-cases (merge_metadata metadata request_id)) [
      | inr (e, conflict) ↦ rw (conflict, create_session) same
      | inl (merged, done) ↦
          rw (done, create_session)
            (insert_or_find_cases P pg (λ d. d) (λ d. d) now fresh agent_id merged db same same
              (added merged))
    ]

-- What every call keeps, every sequence of calls keeps: one premise for each way to change the tables.
module _ {ℓ} (P : Db → Type ℓ) (pg : Postgres)
    (adds_session : (db : Db) (now fresh agent_id : ℕ) (metadata : Fields)
      → IsDense db
      → P db
      → any (has_session_id fresh) db.sessions ≡ false
      → P (with_session (new_session now fresh agent_id metadata) db))
    (adds_event : (db : Db) (now : ℕ) (s : Session) (e : Event)
      → IsDense db
      → P db
      → find_session e.session_id db ≡ some s
      → is_terminal s.status ≡ false
      → e.sequence ≡ s.last_sequence + 1
      → P (with_event now e db))
    (completes : (db : Db) (now session_id : ℕ) (s : Session)
      → IsDense db
      → P db
      → find_session session_id db ≡ some s
      → is_terminal s.status ≡ false
      → P (update_session session_id (complete_row now) db)) where
  pub step_rule : (db : Db) (c : Call) → IsDense db → P db → P (step pg db c)
  unfolding step
  step_rule db (create now fresh agent_id metadata request_id) dense h =
      create_cases P pg now fresh agent_id metadata request_id db h
        (λ merged new. adds_session db now fresh agent_id merged dense h new)
  step_rule db (emit now session_id event_id event_type payload) dense h =
      emit_cases P db (emit_event-Outcome now session_id event_id event_type payload db dense) h
        (λ s e found live made. adds_event db now s e dense h (rw made found) live (rw made))
  step_rule db (complete now session_id) dense h =
      complete_cases P db now session_id h
        (λ s found live. completes db now session_id s dense h found live)

pub step-IsDense : (pg : Postgres) (db : Db) (c : Call) → IsDense db → IsDense (step pg db c)
step-IsDense pg db c dense =
    step_rule IsDense pg
      (λ db now fresh agent_id metadata d _ new.
        with_session-IsDense db d now fresh agent_id metadata new)
      (λ db now s e d _ found live next. with_event-IsDense now e db s d found next)
      (λ db now session_id s d _ found live. complete-IsDense db d now session_id) db c dense dense

-- After any calls of the session service, one after the other, the events of each session are numbered 1, 2, ..., last_sequence in the order of
-- insertion, if they were before.
pub run-IsDense :
    (pg : Postgres) (db : Db) (calls : List Call) → IsDense db → IsDense (run pg db calls)
unfolding run
run-IsDense pg db [] dense = dense
run-IsDense pg db (c ∷ cs) dense = run-IsDense pg (step pg db c) cs (step-IsDense pg db c dense)

pub run_rule {ℓ} :
    (P : Db → Type ℓ) (pg : Postgres)
    → ((db : Db) (c : Call) → IsDense db → P db → P (step pg db c))
    → (db : Db) (calls : List Call) → IsDense db
    → P db
    → P (run pg db calls)
unfolding run
run_rule P pg keeps db [] dense h = h
run_rule P pg keeps db (c ∷ cs) dense h =
    run_rule P pg keeps (step pg db c) cs (step-IsDense pg db c dense) (keeps db c dense h)

-- The log of a session goes on after these events.
pub record StartsWith (session_id : ℕ) (old : List Event) (db : Db) : Type 0 where
  pub added : List Event
  pub is_log : log session_id db ≡ old ++ added

-- From tables with dense logs (numbered 1, 2, ..., last_sequence), calls only append to the log of
-- a session: no event is changed, dropped or moved.
pub log-run-StartsWith :
    (pg : Postgres) (session_id : ℕ) (db : Db) (calls : List Call)
    → IsDense db
    → StartsWith session_id (log session_id db) (run pg db calls)
log-run-StartsWith pg session_id db calls dense =
    run_rule Kept pg
      (step_rule Kept pg
        (λ db now fresh agent_id metadata d h new. record { added = h.added; is_log = h.is_log })
        (λ d now s e _ h found live next. grown d now e h)
        (λ d now sid s _ h found live. record { added = h.added; is_log = h.is_log }))
      db calls dense (record { added = []; is_log = sym (append-nil (log session_id db)) })
  where
    Kept : Db → Type 0
    Kept = StartsWith session_id (log session_id db)

    grown : (d : Db) (now : ℕ) (e : Event) → Kept d → Kept (with_event now e d)
    grown d now e h = elim (Bool-cases (e.session_id == session_id)) [
      | inl own ↦ record {
        added = h.added ++ e ∷ [];
        is_log =
            rw (log-with_event now session_id e d)
              (rw own (rw h.is_log (append_assoc (log session_id db) h.added (e ∷ []))));
      }
      | inr other ↦ record {
        added = h.added;
        is_log = rw (log-with_event now session_id e d) (rw other h.is_log);
      }
    ]

-- An ended session and an active one are two.
other_session :
    (j k : ℕ) (db : Db) {s t : Session}
    → find_session j db ≡ some s
    → is_terminal s.status ≡ true
    → find_session k db ≡ some t
    → is_terminal t.status ≡ false
    → (j == k) ≡ false
other_session j k db found ended other live = elim (Bool-cases (j == k)) [
  | inl same ↦ absurd (cc (rw ((==_iff j k).0 same) at found))
  | inr different ↦ different
]

-- In tables with dense logs, no calls that are made one after the other, none within another, change a
-- session in a terminal state, and its log gains no event.
pub run_terminal :
    (pg : Postgres) (session_id : ℕ) (db : Db) (calls : List Call) (s : Session)
    → IsDense db
    → find_session session_id db ≡ some s
    → is_terminal s.status ≡ true
    → (find_session session_id (run pg db calls) ≡ some s)
      × (log session_id (run pg db calls) ≡ log session_id db)
run_terminal pg session_id db calls s dense found ended =
    run_rule Kept pg
      (step_rule Kept pg
        (λ d now fresh agent_id metadata _ h new. (
          unfold new_session in
              ground (
                arith,
                h,
                find-with_session session_id (new_session now fresh agent_id metadata) d new,
                not_found (has_session_id fresh) d.sessions new,
              ),
          h.1,
        ))
        (λ d now t e _ h other live next.
          let apart = other_session session_id e.session_id d h.0 ended other live in
          (
            ground (
              arith,
              h.0,
              apart,
              find-update_session session_id e.session_id (bump_row now e.sequence) d.sessions
                  (λ s. refl),
            ),
            ground (arith, h.1, apart, log-with_event now session_id e d),
          ))
        (λ d now sid t _ h other live.
          let apart = other_session session_id sid d h.0 ended other live in
          (
            ground (
              arith,
              h.0,
              apart,
              find-update_session session_id sid (complete_row now) d.sessions (λ s. refl),
            ),
            h.1,
          )))
      db calls dense (found, refl)
  where
    Kept : Db → Type 0
    Kept d = (find_session session_id d ≡ some s) × (log session_id d ≡ log session_id db)
