-- ===== src/Harness/Effects/Cleanup.antt =====
-- How src/tename/harness/service.py destroys the sandboxes of a run: none is left over.
use tename.Prelude.{
  ℕ, ◌≡◌, refl, ap, subst, sym, ◌∙◌, false, not, ◌&&◌, Option, none, some, List, [], ◌∷◌, String,
  arith, Bool-cases, inl, inr,
}
use tename.Prelude.Actions.{finally}
use tename.Sessions.Store.{Postgres}
use tename.Sessions.Reached.{Reached, stay}
use tename.Harness.Adapters.Events.{is_in}
use tename.Harness.World.{Backend, Runtime, Run, World, destroyed, on_sandbox}
use tename.Harness.Loop.{destroy_one, destroy_each, destroy_with, destroy_sandboxes}
use tename.Harness.Effects.{
  Effect, Does, left_over, left_over-append, completions, completions-append, nothing, chain,
  Tracked,
}

module _ (rt : Runtime) (session_id : ℕ) (backend : Backend) where
  destroy_each-left_over :
      (id : String) (ids : List String) (w : World)
      → left_over id false (destroy_each rt session_id backend ids w).deeds
        ≡ (left_over id false w.deeds && not (is_in ids id))
  unfolding destroy_each on_sandbox
  destroy_each-left_over id [] w = ground arith
  destroy_each-left_over id (i ∷ ids) w = ground (
    arith,
    destroy_each-left_over id ids (destroy_one rt session_id backend i w),
    left_over-append id false w.deeds (destroyed i ∷ []),
  )

  destroy_each_lem :
      (ids : List String) (w : World)
      → ((destroy_each rt session_id backend ids w).db ≡ w.db)
        × ((destroy_each rt session_id backend ids w).owned ≡ w.owned)
        × (completions (destroy_each rt session_id backend ids w).deeds ≡ completions w.deeds)
  unfolding destroy_each on_sandbox
  destroy_each_lem [] w = (refl, refl, refl)
  destroy_each_lem (i ∷ ids) w =
      let rest = destroy_each_lem ids (destroy_one rt session_id backend i w) in
      (rest.0, rest.1, rest.2 ∙ omega (arith, completions-append w.deeds (destroyed i ∷ [])))

-- No sandbox is there any more.
abbrev pub Clean : World → Type 0
Clean w = (id : String) → left_over id false w.deeds ≡ false

module _ (pg : Postgres) (rt : Runtime) (session_id : ℕ) where
  destroy_with-Clean :
      (o : Option Backend) (w : World)
      → rt.sandbox ≡ o
      → Tracked pg rt session_id w
      → Clean (destroy_with rt session_id o w)
  destroy_with-Clean none w wired tracked id = elim (Bool-cases (left_over id false w.deeds)) [
    | inl there ↦ let known = tracked id there in absurd (cc (sym wired ∙ known.2))
    | inr gone ↦ gone
  ]
  destroy_with-Clean (some backend) w wired tracked id =
      rw (destroy_each-left_over rt session_id backend id (rt.iterated w.owned) w)
        (elim (Bool-cases (left_over id false w.deeds)) [
          | inl there ↦ ground (arith, there, (tracked id there).0, rt.in-iterated w.owned id)
          | inr gone ↦ rw gone refl
        ])

  destroy_with-Effect :
      (o : Option Backend) (w : World)
      → rt.sandbox ≡ o
      → Effect pg rt session_id 0 w (destroy_with rt session_id o w)
  destroy_with-Effect none w wired = nothing 0 w
  destroy_with-Effect (some backend) w wired =
      let facts = destroy_each_lem rt session_id backend (rt.iterated w.owned) w in
      record {
        reached = subst (Reached pg session_id w.db) (sym facts.0) (stay pg session_id w.db);
        tracks = λ h id there.
            let known = h id (
              ground (
                arith,
                there,
                destroy_each-left_over rt session_id backend id (rt.iterated w.owned) w,
              )) in
            (ap (λ ids. is_in ids id) facts.1 ∙ known.0, known.1, known.2);
        asks = omega (arith, facts.2);
      }

  pub finally-Does :
      (n : ℕ) {A : Type 0} {m : Run A}
      → Does pg rt session_id n m
      → Does pg rt session_id n (finally m (destroy_sandboxes rt session_id))
  unfolding finally destroy_sandboxes
  finally-Does n {m = m} h = record {
    effect =
        λ w. chain n 0 n (omega arith) (h.effect w) (destroy_with-Effect rt.sandbox (m w).0 refl);
  }

  pub finally-Clean :
      (n : ℕ) {A : Type 0} (m : Run A) (w : World)
      → Does pg rt session_id n m
      → Tracked pg rt session_id w
      → Clean (finally m (destroy_sandboxes rt session_id) w).0
  unfolding finally destroy_sandboxes
  finally-Clean n m w h tracked =
      destroy_with-Clean rt.sandbox (m w).0 refl ((h.effect w).tracks tracked)
