-- ===== src/Harness/Effects/Runs.antt =====
-- Whole runs of `run_session` of src/tename/harness/service.py, however they end.
use tename.Prelude.{
  ℕ, ◌≤◌, ◌≡◌, refl, ap, subst, sym, ◌∙◌, false, [], String, Result, ok, err, arith, Bool-cases,
  ◌==◌, inl, inr,
}
use tename.Prelude.Actions.{◌>>=◌, give, finally, continue_rule}
use tename.Json.{is_empty}
use tename.Sessions.Models.{Agent}
use tename.Sessions.Store.{Db, Postgres}
use tename.Sessions.Sequence.{IsDense, log}
use tename.Sessions.Traces.{run-IsDense, log-run-StartsWith, StartsWith}
use tename.Sessions.Reached.{
  completes, Reached, stay, completes-Reached, Untouched, Reached-Untouched,
}
use tename.Sandbox.Service.{Statuses}
use tename.Harness.Profiles.{Profile}
use tename.Harness.World.{Adapter, Raised, Runtime, Run, World, on_db}
use tename.Harness.Setup.{Setup, set_up, setup, setup-profile}
use tename.Harness.Tools.{emit}
use tename.Harness.Loop.{
  StopReason, destroy_sandboxes, seed, seed_system_prompt_if_needed, ask_time, turns, drive,
  mark_complete, work, run_session,
}
use tename.Harness.Effects.{
  Does, left_over, completions, nothing, chain, give-Does, >>=-Does, bind-Does, on_db-Does,
}
use tename.Harness.Effects.Loop.{seed_system_prompt-Does, ask_time-Does, turns-Does}
use tename.Harness.Effects.Cleanup.{Clean, finally-Does, finally-Clean}

-- The start of a run: no sandbox is owned yet.
abbrev pub begin : Db → Statuses → ℕ → World
begin db statuses moment = record {
  db = db;
  statuses = statuses;
  owned = [];
  moment = moment;
  deeds = [];
}

module _ (pg : Postgres) (rt : Runtime) (session_id : ℕ) where
  weaken-Does :
      (k n : ℕ) {A : Type 0} {m : Run A}
      → k ≤ n
      → Does pg rt session_id k m
      → Does pg rt session_id n m
  weaken-Does k n le h = record {
    effect = λ w. chain k 0 n (omega (arith, le)) (h.effect w) (nothing 0 _);
  }

  drive-Does :
      (agent : Agent) (p : Profile) (a : Adapter)
      → Does pg rt session_id p.stop_conditions.max_turns (drive rt session_id agent p a)
  drive-Does agent p a = >>=-Does _ (seed_system_prompt-Does pg rt session_id agent) (λ u.
      >>=-Does _ (ask_time-Does pg rt session_id) (λ t.
        finally-Does pg rt session_id _
          (turns-Does pg rt session_id agent p a t p.stop_conditions.max_turns 0)))

  -- No profile allows more turns.
  abbrev Allows : ℕ → Type 0
  Allows most =
      (model : String) (p : Profile)
      → rt.load_profile model ≡ ok p
      → p.stop_conditions.max_turns ≤ most

  mark_complete-Does : Does pg rt session_id 0 (mark_complete rt session_id)
  unfolding mark_complete
  mark_complete-Does =
      on_db-Does (λ t. completes (rt.now t) session_id)
        (λ t db. completes-Reached pg session_id (rt.now t) db)

  work-Does :
      (agent : Agent) (p : Profile) (a : Adapter)
      → Does pg rt session_id p.stop_conditions.max_turns (work rt session_id (set_up agent p a))
  work-Does agent p a =
      bind-Does p.stop_conditions.max_turns 0 p.stop_conditions.max_turns (omega arith)
        (drive-Does agent p a)
        (λ ended. >>=-Does 0 mark_complete-Does (λ status. give-Does 0 ended))

  -- A run is over at its setup, or works with what the setup found.
  run_session_rule {ℓ} :
      (P : World × Result Raised (ℕ × StopReason) → Type ℓ) (w : World)
      → ((e : Raised) → P (w, err e))
      → ((agent : Agent) (p : Profile) (a : Adapter)
          → setup rt session_id w.db ≡ ok (set_up agent p a)
          → P (work rt session_id (set_up agent p a) w))
      → P (run_session rt session_id w)
  unfolding run_session
  run_session_rule P w failed worked =
      continue_rule P (w, setup rt session_id w.db) (work rt session_id) failed works
    where
      works : (s : Setup) → setup rt session_id w.db ≡ ok s → P (work rt session_id s w)
      works (set_up agent p a) h = worked agent p a h

  -- Whatever a run of the harness meets, exceptions included, also of the stream of the model router, but
  -- a cancellation: if no profile allows more than `most`
  -- turns, it asks the model router for at most `most` completions.
  pub run_session_bounded :
      (most : ℕ) (db : Db) (statuses : Statuses) (moment : ℕ)
      → ((model : String) (p : Profile)
          → rt.load_profile model ≡ ok p
          → p.stop_conditions.max_turns ≤ most)
      → completions (run_session rt session_id (begin db statuses moment)).0.deeds ≤ most
  run_session_bounded most db statuses moment allows =
      run_session_rule (λ r. completions r.0.deeds ≤ most) (begin db statuses moment)
        (λ e. omega arith)
        (λ agent p a h.
          let found = setup-profile rt session_id db agent p a h in
          let e = (work-Does agent p a).effect (begin db statuses moment) in
          omega (arith, e.asks, allows found.0 p found.1))

  run_session-Reached :
      (db : Db) (statuses : Statuses) (moment : ℕ)
      → Reached pg session_id db (run_session rt session_id (begin db statuses moment)).0.db
  run_session-Reached db statuses moment =
      run_session_rule (λ r. Reached pg session_id db r.0.db) (begin db statuses moment)
        (λ e. stay pg session_id db)
        (λ agent p a h. ((work-Does agent p a).effect (begin db statuses moment)).reached)

  -- On tables with dense logs (numbered 1, 2, ..., last_sequence), whatever a run of the harness on a
  -- session meets, exceptions included, also of the stream of the model router, but a cancellation: the
  -- logs stay dense, the log of the session only gains
  -- events at its end, and the rows and the logs of all other sessions stay as they were.
  pub run_session_appends :
      (db : Db) (statuses : Statuses) (moment : ℕ)
      → IsDense db
      → let after = (run_session rt session_id (begin db statuses moment)).0.db in
        IsDense after
        × StartsWith session_id (log session_id db) after
        × ((j : ℕ) → (session_id == j) ≡ false → Untouched j db after)
  run_session_appends db statuses moment dense =
      let r = run_session-Reached db statuses moment in
      (
        subst IsDense r.reaches (run-IsDense pg db r.calls dense),
        subst (StartsWith session_id (log session_id db)) r.reaches
            (log-run-StartsWith pg session_id db r.calls dense),
        λ j apart. Reached-Untouched pg session_id j apart db _ dense r,
      )

  seed-deeds : (prompt : String) (w : World) → (seed rt session_id prompt w).0.deeds ≡ w.deeds
  unfolding emit on_db
  seed-deeds prompt w = elim (Bool-cases (is_empty prompt)) [
    | inl none_given ↦ rw none_given refl
    | inr given ↦ rw given (
        continue_rule (λ r. r.0.deeds ≡ w.deeds) (emit rt session_id _ _ _ w) (λ e. give tt)
          (λ e. refl) (λ e h. refl))
  ]

  -- At the start no sandbox is there.
  none_there : (w : World) → w.deeds ≡ [] → Clean w
  none_there w none_yet id = ap (left_over id false) none_yet

  drive-Clean :
      (agent : Agent) (p : Profile) (a : Adapter) (w : World)
      → w.deeds ≡ []
      → Clean (drive rt session_id agent p a w).0
  unfolding ask_time seed_system_prompt_if_needed
  drive-Clean agent p a w none_yet =
      let seeded = seed_system_prompt_if_needed rt session_id agent w in
      let untouched : seeded.0.deeds ≡ [] = seed-deeds _ w ∙ none_yet in
      continue_rule (λ r. Clean r.0) seeded
        (λ u. ask_time rt session_id >>= λ t.
          finally (turns rt session_id agent p a t p.stop_conditions.max_turns 0)
            (destroy_sandboxes rt session_id))
        (λ e. none_there seeded.0 untouched)
        (λ u h.
          finally-Clean pg rt session_id p.stop_conditions.max_turns
            (turns rt session_id agent p a _ p.stop_conditions.max_turns 0)
            (ask_time rt session_id seeded.0).0
            (turns-Does pg rt session_id agent p a _ p.stop_conditions.max_turns 0)
            (λ id there. absurd (cc (sym there ∙ none_there seeded.0 untouched id))))

  work-Clean :
      (agent : Agent) (p : Profile) (a : Adapter) (w : World)
      → w.deeds ≡ []
      → Clean (work rt session_id (set_up agent p a) w).0
  unfolding mark_complete on_db
  work-Clean agent p a w none_yet =
      continue_rule (λ r. Clean r.0) (drive rt session_id agent p a w)
        (λ ended. mark_complete rt session_id >>= λ status. give ended)
        (λ e. drive-Clean agent p a w none_yet)
        (λ ended h.
          continue_rule (λ r. Clean r.0)
            (mark_complete rt session_id (drive rt session_id agent p a w).0) (λ status. give ended)
            (λ e. drive-Clean agent p a w none_yet) (λ status k. drive-Clean agent p a w none_yet))

  -- However a run of the harness that is not cancelled ends, exceptions included, also of the stream of
  -- the model router, each sandbox that it provisioned has been
  -- handed to `destroy` since.
  pub run_session_cleans :
      (db : Db) (statuses : Statuses) (moment : ℕ) (id : String)
      → left_over id false (run_session rt session_id (begin db statuses moment)).0.deeds ≡ false
  run_session_cleans db statuses moment =
      run_session_rule (λ r. Clean r.0) (begin db statuses moment) (λ e id. refl)
        (λ agent p a h. work-Clean agent p a (begin db statuses moment) refl)
