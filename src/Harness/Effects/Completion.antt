-- ===== src/Harness/Effects/Completion.antt =====
-- A run of `run_session` of src/tename/harness/service.py that raises nothing has ended its session.
use tename.Prelude.{ℕ, ◌≡◌, refl, true, some, Result, ok, arith, Bool-cases, Option-cases, inl, inr}
use tename.Prelude.Actions.{◌>>=◌, give, continue_rule}
use tename.Sessions.Models.{Session, SessionStatus, is_terminal}
use tename.Sessions.Store.{Db, find_session, mark_session_complete, get_session, complete_row}
use tename.Sessions.Service
use tename.Sessions.Sequence.{find-update_session}
use tename.Sessions.Reached.{completes}
use tename.Harness.World.{Raised, Runtime, World, on_db}
use tename.Harness.Setup.{Setup, set_up, setup, loaded}
use tename.Harness.Loop.{StopReason, mark_complete, drive, work, run_session}

-- A session that has ended, or that this call ends, is in a terminal state after it.
abbrev pub Over : ℕ → Db → Type 0
Over session_id db =
    (s : Session) × (find_session session_id db ≡ some s) × (is_terminal s.status ≡ true)

completes-Over :
    (now session_id : ℕ) (db : Db) (status : SessionStatus)
    → (completes now session_id db).1 ≡ ok status
    → Over session_id (completes now session_id db).0
unfolding Service.mark_complete mark_session_complete get_session is_terminal
completes-Over now session_id db status h = elim (Option-cases (find_session session_id db)) [
  | inl absent ↦ absurd (cc (rw absent at h))
  | inr (s, found) ↦ elim (Bool-cases (is_terminal s.status)) [
    | inl ended ↦ rw found (rw ended (s, found, ended))
    | inr live ↦ rw found (
        rw live (
          complete_row now s,
          ground (
            arith,
            found,
            find-update_session session_id session_id (complete_row now) db.sessions (λ x. refl),
          ),
          refl,
        ))
  ]
]

module _ (rt : Runtime) (session_id : ℕ) where
  -- What an action that raises nothing leaves.
  abbrev Leaves {ℓ} : {A : Type ℓ} → World × Result Raised A → Type ℓ
  Leaves {A = A} out = (a : A) → out.1 ≡ ok a → Over session_id out.0.db

  mark_complete-Leaves : (w : World) → Leaves (mark_complete rt session_id w)
  unfolding mark_complete on_db
  mark_complete-Leaves w status h =
      completes-Over (rt.now w.moment) session_id w.db status (loaded Raised.session _ status h)

  work-Leaves : (s : Setup) (w : World) → Leaves (work rt session_id s w)
  work-Leaves (set_up agent p a) w =
      continue_rule Leaves (drive rt session_id agent p a w)
        (λ ended. mark_complete rt session_id >>= λ status. give ended) (λ e x h. absurd (cc h))
        (λ ended h.
          let driven = (drive rt session_id agent p a w).0 in
          continue_rule Leaves (mark_complete rt session_id driven) (λ status. give ended)
            (λ e x k. absurd (cc k)) (λ status k x same. mark_complete-Leaves driven status k))

  -- A run that raises nothing has ended its session: the session is in the tables, in a terminal state.
  pub run_session_completes :
      (w : World) (turn : ℕ) (reason : StopReason)
      → (run_session rt session_id w).1 ≡ ok (turn, reason)
      → Over session_id (run_session rt session_id w).0.db
  unfolding run_session
  run_session_completes w turn reason h =
      continue_rule Leaves (w, setup rt session_id w.db) (work rt session_id)
        (λ e x k. absurd (cc k)) (λ s k. work-Leaves s w) (turn, reason) h
