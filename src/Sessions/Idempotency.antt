-- ===== src/Sessions/Idempotency.antt =====
-- Idempotency of `emit_event` on the event id, in src/tename/sessions/service.py.
use tename.Prelude.{ℕ, ◌≤◌, ◌≡◌, false, some, List, [], ◌∷◌, arith, ltb, Result, ok, err, ◌∙◌}
use tename.Sessions.Models.{Error, EventType, Event}
use tename.Sessions.Store.{Db, Postgres, is_event, find_event_by_id}
use tename.Sessions.Service.{Argument, max_payload_bytes, emit_event}
use tename.Sessions.Sequence.{IsDense}
use tename.Sessions.Calls.{Call, emit, after, step, run}
use tename.Sessions.Emission.{
  Outcome, IsAccepted, refused, unknown, over, appended, replayed, emit_event-Outcome,
}
use tename.Sessions.Traces.{find-append, step_rule, run_rule, step-IsDense}

-- A lookup of an event goes on finding it.
module _ (session_id event_id : ℕ) (e : Event) where
  abbrev pub Stored : Db → Type 0
  Stored db = find_event_by_id session_id event_id db ≡ some e

  pub run-Stored :
      (pg : Postgres) (db : Db) (calls : List Call)
      → IsDense db
      → Stored db
      → Stored (run pg db calls)
  unfolding find_event_by_id
  run-Stored pg db calls dense h =
      run_rule Stored pg
        (step_rule Stored pg (λ d now fresh agent_id metadata _ k new. k)
          (λ d now s row _ k found live next.
            ground (arith, k, find-append (is_event session_id event_id) d.events (row ∷ [])))
          (λ d now sid s _ k found live. k))
        db calls dense h

abbrev pub StoredIn : ℕ → ℕ → Result Error (Db × Event) → Type 0
StoredIn session_id event_id (ok r) = Stored session_id event_id r.1 r.0
StoredIn session_id event_id (err e) = Unit

pub emit-StoredIn :
    (session_id event_id now : ℕ) (event_type : EventType) (payload : Argument) (db : Db)
    {r : Result Error (Db × Event)}
    → Outcome db now session_id event_id event_type payload r
    → StoredIn session_id event_id r
unfolding find_event_by_id
emit-StoredIn session_id event_id now event_type payload db (replayed x small old) = old
emit-StoredIn session_id event_id now event_type payload db
      (appended s x small fresh found live made) =
    find-append (is_event session_id event_id) db.events (x ∷ []) ∙ rw fresh (ground (arith, made))
emit-StoredIn session_id event_id now event_type payload db (refused h) = tt
emit-StoredIn session_id event_id now event_type payload db (unknown a b c) = tt
emit-StoredIn session_id event_id now event_type payload db (over s a b c d) = tt

fits_not_big : {n : ℕ} → n ≤ max_payload_bytes → ltb max_payload_bytes n ≡ false
fits_not_big h = ground arith

emit_event_replays :
    (now session_id event_id : ℕ) (event_type : EventType) (payload : Argument) (db : Db)
    (e : Event)
    → IsAccepted payload
    → Stored session_id event_id e db
    → emit_event now session_id event_id event_type payload db ≡ ok (db, e)
unfolding emit_event
emit_event_replays now session_id event_id event_type payload db e small old =
    rw small.encoded (rw (fits_not_big small.fits, old))

-- On tables with dense logs, emitting again under the id of an event that an `emit_event` stored or
-- found returns that event and changes nothing,
-- whatever was called in between, also once the session has ended, and whatever the type and the
-- payload are, if the payload can be encoded in 256 KiB.
pub emit_event_idempotent :
    (pg : Postgres) (now session_id event_id : ℕ) (event_type : EventType) (payload : Argument)
    (db db' : Db) (e : Event) (calls : List Call) (now' : ℕ) (event_type' : EventType)
    (payload' : Argument)
    → IsDense db
    → emit_event now session_id event_id event_type payload db ≡ ok (db', e)
    → IsAccepted payload'
    → emit_event now' session_id event_id event_type' payload' (run pg db' calls)
      ≡ ok (run pg db' calls, e)
emit_event_idempotent pg now session_id event_id event_type payload db db' e calls now' event_type'
      payload' dense done small =
    let outcome = emit_event-Outcome now session_id event_id event_type payload db dense in
    let kept : IsDense (after db (emit_event now session_id event_id event_type payload db)) =
      unfold step in step-IsDense pg db (emit now session_id event_id event_type payload) dense in
    let stored : Stored session_id event_id e db' =
      rw done at (emit-StoredIn session_id event_id now event_type payload db outcome) in
    emit_event_replays now' session_id event_id event_type' payload' (run pg db' calls) e small
      (run-Stored session_id event_id e pg db' calls (rw done at kept) stored)
