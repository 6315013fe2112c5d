-- ===== src/Sessions/Reached.antt =====
-- Calls of src/tename/sessions/service.py as actions on the tables, for its clients, and the tables
-- that calls about one session lead to.
use tename.Prelude.{
  ℕ, ◌≡◌, refl, ap, ◌∙◌, false, List, [], ◌∷◌, ◌++◌, All, All-append, Result, ok, err, ◌==◌, arith,
  subst,
}
use tename.Prelude.Actions.{Action}
use tename.Sessions.Models.{Error, Event, EventType, SessionStatus}
use tename.Sessions.Store.{Db, Postgres, find_session, bump_row, complete_row}
use tename.Sessions.Service.{Argument, emit_event, mark_complete}
use tename.Sessions.Calls.{
  Call, create, emit, complete, after, step, run, emit_cases, complete_cases,
}
use tename.Sessions.Sequence.{IsDense, log, log-with_event, find-update_session}
use tename.Sessions.Emission.{emit_event-Outcome}
use tename.Sessions.Traces.{step-IsDense}

-- A transaction that raises is rolled back.
abbrev pub commit {ℓ} : {A : Type ℓ} → Db → Result Error (Db × A) → Db × Result Error A
commit db (ok (db', a)) = (db', ok a)
commit db (err e) = (db, err e)

abbrev pub emits : (now session_id event_id : ℕ) → EventType → Argument → Action Db Error Event
emits now session_id event_id type payload db =
    commit db (emit_event now session_id event_id type payload db)

abbrev pub completes : (now session_id : ℕ) → Action Db Error SessionStatus
completes now session_id db = commit db (mark_complete now session_id db)

-- A call that writes to this session.
abbrev pub Concerns : ℕ → Call → Type 0
Concerns session_id (create now fresh agent_id metadata request_id) = ⊥
Concerns session_id (emit now sid event_id type payload) = sid ≡ session_id
Concerns session_id (complete now sid) = sid ≡ session_id

module _ (pg : Postgres) (session_id : ℕ) where
  -- The tables after a number of calls of the service about the session.
  pub record Reached (db db' : Db) : Type 0 where
    pub calls : List Call
    pub concern : All (Concerns session_id) calls
    pub reaches : run pg db calls ≡ db'

  pub stay : (db : Db) → Reached db db
  unfolding run
  stay db = record { calls = []; concern = tt; reaches = refl }

  after-commit {ℓ} :
      {A : Type ℓ} (db : Db) (r : Result Error (Db × A)) → after db r ≡ (commit db r).0
  after-commit db (ok r) = refl
  after-commit db (err e) = refl

  pub emits-Reached :
      (now event_id : ℕ) (type : EventType) (payload : Argument) (db : Db)
      → Reached db (emits now session_id event_id type payload db).0
  unfolding run step
  emits-Reached now event_id type payload db = record {
    calls = emit now session_id event_id type payload ∷ [];
    concern = (refl, tt);
    reaches = after-commit db (emit_event now session_id event_id type payload db);
  }

  pub completes-Reached : (now : ℕ) (db : Db) → Reached db (completes now session_id db).0
  unfolding run step
  completes-Reached now db = record {
    calls = complete now session_id ∷ [];
    concern = (refl, tt);
    reaches = after-commit db (mark_complete now session_id db);
  }

  pub run-append : (db : Db) (xs ys : List Call) → run pg db (xs ++ ys) ≡ run pg (run pg db xs) ys
  unfolding run
  run-append db [] ys = refl
  run-append db (x ∷ xs) ys = run-append (step pg db x) xs ys

  pub Reached-trans : {a b c : Db} → Reached a b → Reached b c → Reached a c
  Reached-trans {a} p q = record {
    calls = p.calls ++ q.calls;
    concern = All-append (Concerns session_id) p.calls q.calls p.concern q.concern;
    reaches = run-append a p.calls q.calls ∙ ap (λ d. run pg d q.calls) p.reaches ∙ q.reaches;
  }

-- Tables in which another session and its log are as they were.
abbrev pub Untouched : ℕ → Db → Db → Type 0
Untouched j db db' = (log j db' ≡ log j db) × (find_session j db' ≡ find_session j db)

module _ (pg : Postgres) (session_id j : ℕ) (apart : (session_id == j) ≡ false) where
  step-Untouched :
      (db : Db) (c : Call) → IsDense db → Concerns session_id c → Untouched j db (step pg db c)
  unfolding step
  step-Untouched db (create now fresh agent_id metadata request_id) dense own = absurd own
  step-Untouched db (emit now sid event_id type payload) dense own =
      emit_cases (Untouched j db) db (emit_event-Outcome now sid event_id type payload db dense)
        (refl, refl)
        (λ s e found live made. (
          ground (arith, made, own, apart, log-with_event now j e db),
          ground (
            arith,
            made,
            own,
            apart,
            find-update_session j e.session_id (bump_row now e.sequence) db.sessions (λ x. refl),
          ),
        ))
  step-Untouched db (complete now sid) dense own =
      complete_cases (Untouched j db) db now sid (refl, refl)
        (λ s found live. (
          refl,
          ground (
            arith,
            own,
            apart,
            find-update_session j sid (complete_row now) db.sessions (λ x. refl),
          ),
        ))

  run-Untouched :
      (db : Db) (calls : List Call)
      → IsDense db
      → All (Concerns session_id) calls
      → Untouched j db (run pg db calls)
  unfolding run
  run-Untouched db [] dense own = (refl, refl)
  run-Untouched db (c ∷ cs) dense own =
      let first = step-Untouched db c dense own.0 in
      let rest = run-Untouched (step pg db c) cs (step-IsDense pg db c dense) own.1 in
      (rest.0 ∙ first.0, rest.1 ∙ first.1)

  -- Calls about one session leave the rows and the logs of all others as they were, if the logs were
  -- dense (numbered 1, 2, ..., last_sequence).
  pub Reached-Untouched :
      (db db' : Db) → IsDense db → Reached pg session_id db db' → Untouched j db db'
  Reached-Untouched db db' dense r =
      subst (Untouched j db) r.reaches (run-Untouched db r.calls dense r.concern)
