-- ===== src/Sessions/Creation.antt =====
-- Idempotency of `create_session` on request_id, in src/tename/sessions/service.py.
use tename.Prelude.{
  ℕ, ◌≡◌, refl, Bool, false, Option, none, some, List, [], ◌∷◌, map, arith, ◌==◌, if◌then◌else◌,
  any, String, Option-cases, Result-cases, find?, Result, ok, err, ◌∙◌, sym, inl, inr,
}
use text.Mathlib.TextPositions.{eq_refl}
use tename.Json.{str, Fields, get, get-put, end}
use tename.Sessions.Models.{Error, Session}
use tename.Sessions.Store.{
  Db, Postgres, default_tenant_id, requested_by, request_text, find_session_by_request_id, bump_row,
  complete_row, update_session, new_session, insert_session, rejects_session,
}
use tename.Sessions.Service.{create_session, insert_or_find, merge_metadata, find_existing}
use tename.Sessions.Sequence.{IsDense}
use tename.Sessions.Calls.{Call, run, with_session, insert_session_ok}
use tename.Sessions.Traces.{find-append, not_found, step_rule, run_rule}

-- An update that keeps the answer of a test, seen by a lookup.
find-map :
    (test : Session → Bool) (f : Session → Session) (xs : List Session)
    → ((s : Session) → test (f s) ≡ test s)
    → find? test (map f xs) ≡ (elim (find? test xs) [ none ↦ none | some s ↦ some (f s) ])
find-map test f [] keeps = refl
find-map test f (x ∷ xs) keeps = ground (arith, keeps x, find-map test f xs keeps)

-- A session of that id answers to the request id.
pub record AnswersTo (pg : Postgres) (request_id : String) (id : ℕ) (db : Db) : Type 0 where
  pub session : Session
  pub found : find_session_by_request_id pg request_id default_tenant_id db ≡ some session
  pub same_id : session.id ≡ id

module _ (pg : Postgres) (request_id : String) (id : ℕ) where
  update-AnswersTo :
      (session_id : ℕ) (change : Session → Session) (db : Db)
      → ((s : Session)
          → requested_by pg default_tenant_id request_id (change s)
            ≡ requested_by pg default_tenant_id request_id s)
      → ((s : Session) → (change s).id ≡ s.id)
      → AnswersTo pg request_id id db
      → AnswersTo pg request_id id (update_session session_id change db)
  unfolding find_session_by_request_id
  update-AnswersTo session_id change db keeps keeps_id h = record {
    session = if h.session.id == session_id then change h.session else h.session;
    found =
        find-map (requested_by pg default_tenant_id request_id)
          (λ s. if s.id == session_id then change s else s) db.sessions
          (λ s. ground (arith, keeps s))
        ∙ rw h.found;
    same_id = ground (arith, keeps_id h.session, h.same_id);
  }

  run-AnswersTo :
      (db : Db) (calls : List Call)
      → IsDense db
      → AnswersTo pg request_id id db
      → AnswersTo pg request_id id (run pg db calls)
  run-AnswersTo db calls dense h =
      run_rule (AnswersTo pg request_id id) pg
        (step_rule (AnswersTo pg request_id id) pg
          (λ d now fresh agent_id metadata _ k new. record {
            session = k.session;
            found =
                unfold find_session_by_request_id in
                (find-append (requested_by pg default_tenant_id request_id) d.sessions
                    (new_session now fresh agent_id metadata ∷ [])
                  ∙ rw k.found);
            same_id = k.same_id;
          })
          (λ d now s e _ k found live next.
            let moved =
              update-AnswersTo e.session_id (bump_row now e.sequence) d (λ s. refl) (λ s. refl) k in
            record {
              session = moved.session;
              found = unfold find_session_by_request_id in moved.found;
              same_id = moved.same_id;
            })
          (λ d now sid s _ k found live.
            update-AnswersTo sid (complete_row now) d (λ s. refl) (λ s. refl) k))
        db calls dense h

-- The session of a result answers to the request id.
abbrev Answers : Postgres → String → Result Error (Db × Session) → Type 0
Answers pg request_id (ok r) = AnswersTo pg request_id r.1.id r.0
Answers pg request_id (err e) = Unit

-- The merged metadata hold the explicit request id.
merged_request_id :
    (metadata : Option Fields) (request_id : String) (merged : Fields)
    → merge_metadata metadata (some request_id) ≡ ok merged
    → get "request_id" merged ≡ some (str request_id)
unfolding merge_metadata
merged_request_id none request_id merged h =
    ground (arith, get-put "request_id" "request_id" (str request_id) end, eq_refl "request_id")
merged_request_id (some m) request_id merged h =
    ground (arith, get-put "request_id" "request_id" (str request_id) m, eq_refl "request_id")

module _ (pg : Postgres) (between later : Db → Db) (now fresh agent_id : ℕ) (request_id : String)
    (merged : Fields) (db : Db) (requested : get "request_id" merged ≡ some (str request_id)) where
  lookup :
      (d : Db)
      → find_existing pg (get "request_id" merged) d
        ≡ find_session_by_request_id pg request_id default_tenant_id d
  unfolding find_existing
  lookup d = rw requested

  row_text : request_text pg merged ≡ some request_id
  unfolding request_text
  row_text = rw (requested, request_text) (pg.astext-str request_id)

  none_match :
      (d : Db)
      → rejects_session pg (new_session now fresh agent_id merged) d ≡ false
      → any (requested_by pg default_tenant_id request_id) d.sessions ≡ false
  unfolding rejects_session new_session
  none_match d accepted = ground (arith, row_text)

  -- A new row that the index lets in is the one that its request id finds.
  inserted-found :
      (d : Db)
      → rejects_session pg (new_session now fresh agent_id merged) d ≡ false
      → find_session_by_request_id pg request_id default_tenant_id
          (with_session (new_session now fresh agent_id merged) d)
        ≡ some (new_session now fresh agent_id merged)
  unfolding new_session find_session_by_request_id
  inserted-found d accepted =
      find-append (requested_by pg default_tenant_id request_id) d.sessions
        (new_session now fresh agent_id merged ∷ [])
      ∙ rw
          (not_found (requested_by pg default_tenant_id request_id) d.sessions
            (none_match d accepted))
          (rw row_text (rw (eq_refl request_id)))

  insert_or_find-Answers :
      Answers pg request_id (insert_or_find pg between later now fresh agent_id merged db)
  unfolding insert_or_find
  insert_or_find-Answers = elim (Option-cases (find_existing pg (get "request_id" merged) db)) [
    | inr (s, old) ↦
        rw (old, insert_or_find)
          (record { session = s; found = sym (lookup db) ∙ old; same_id = refl })
    | inl none_yet ↦
        rw (none_yet, insert_or_find)
          (elim (Result-cases (insert_session pg now fresh agent_id merged (between db))) [
            | inl (r, inserted) ↦
                let facts =
                  insert_session_ok pg now fresh agent_id merged (between db) r inserted in
                rw inserted (
                  rw facts.2 (record {
                    session = new_session now fresh agent_id merged;
                    found = inserted-found (between db) facts.1;
                    same_id = refl;
                  }))
            | inr (e, rejected) ↦
                rw rejected
                  (elim (Option-cases
                    (find_existing pg (get "request_id" merged) (later (between db)))) [
                      | inl gone ↦ rw gone tt
                      | inr (s, found) ↦ rw found (record {
                        session = s;
                        found = sym (lookup (later (between db))) ∙ found;
                        same_id = refl;
                      })
                    ])
          ])
  ]

create_session-AnswersTo :
    (pg : Postgres) (between later : Db → Db) (now fresh agent_id : ℕ) (metadata : Option Fields)
    (request_id : String) (db db' : Db) (s : Session)
    → create_session pg between later now fresh agent_id metadata (some request_id) db ≡ ok (db', s)
    → AnswersTo pg request_id s.id db'
unfolding create_session
create_session-AnswersTo pg between later now fresh agent_id metadata request_id db db' s first =
    elim (Result-cases (merge_metadata metadata (some request_id))) [
      | inr (e, conflict) ↦ absurd (cc (rw conflict at first))
      | inl (merged, merging) ↦
          let inserted : insert_or_find pg between later now fresh agent_id merged db
              ≡ ok (db', s) =
            rw merging at first in
          rw inserted at (
            insert_or_find-Answers pg between later now fresh agent_id request_id merged db
              (merged_request_id metadata request_id merged merging))
    ]

-- A request id that is found is answered with the session that has it.
insert_or_find_again :
    (pg : Postgres) (between later : Db → Db) (now fresh agent_id : ℕ) (merged : Fields) (db : Db)
    (s : Session)
    → find_existing pg (get "request_id" merged) db ≡ some s
    → insert_or_find pg between later now fresh agent_id merged db ≡ ok (db, s)
unfolding insert_or_find
insert_or_find_again pg between later now fresh agent_id merged db s old = rw (old, insert_or_find)

create_session_again :
    (pg : Postgres) (between later : Db → Db) (now fresh agent_id : ℕ) (metadata : Option Fields)
    (request_id : String) (merged : Fields) (id : ℕ) (db : Db)
    → merge_metadata metadata (some request_id) ≡ ok merged
    → (answer : AnswersTo pg request_id id db)
    → create_session pg between later now fresh agent_id metadata (some request_id) db
      ≡ ok (db, answer.session)
unfolding create_session
create_session_again pg between later now fresh agent_id metadata request_id merged id db merging
      answer =
    let requested = merged_request_id metadata request_id merged merging in
    rw merging (
      insert_or_find_again pg between later now fresh agent_id merged db answer.session (
        lookup pg between later now fresh agent_id request_id merged db requested db
        ∙ answer.found))

-- A second `create_session` with the same request id, after any calls and whatever its agent, its
-- metadata (unless they conflict with the id) and the other transactions are, returns a session with
-- the id of the first and changes nothing. The first call may have won or lost a race; the tables after
-- it have dense logs.
pub create_session_idempotent :
    (pg : Postgres) (between later : Db → Db) (now fresh agent_id : ℕ) (metadata : Option Fields)
    (request_id : String) (db db' : Db) (s : Session) (calls : List Call)
    (between' later' : Db → Db) (now' fresh' agent_id' : ℕ) (metadata' : Option Fields)
    (merged' : Fields)
    → create_session pg between later now fresh agent_id metadata (some request_id) db ≡ ok (db', s)
    → IsDense db'
    → merge_metadata metadata' (some request_id) ≡ ok merged'
    → (s' : Session) × (create_session pg between' later' now' fresh' agent_id' metadata'
          (some request_id)
          (run pg db' calls)
        ≡ ok (run pg db' calls, s'))
      × (s'.id ≡ s.id)
create_session_idempotent pg between later now fresh agent_id metadata request_id db db' s calls
      between' later' now' fresh' agent_id' metadata' merged' first dense merges =
    let answer = run-AnswersTo pg request_id s.id db' calls dense (
      create_session-AnswersTo pg between later now fresh agent_id metadata request_id db db' s
        first) in
    (
      answer.session,
      create_session_again pg between' later' now' fresh' agent_id' metadata' request_id merged'
          s.id (run pg db' calls) merges answer,
      answer.same_id,
    )
