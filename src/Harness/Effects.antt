-- ===== src/Harness/Effects.antt =====
-- What the steps of src/tename/harness/service.py may do to the session tables, to the sandboxes and
-- to the model router, however they end.
pub mod Tools
pub mod Loop
pub mod Cleanup
pub mod Runs
pub mod Completion
pub mod Results
pub mod Answers
use tename.Prelude.{
  ℕ, suc, ◌+◌, ◌≤◌, ◌≡◌, refl, Bool, true, false, not, ◌&&◌, ◌||◌, Option, none, some, List, [],
  ◌∷◌, ◌++◌, String, str_eq, eq_iff, any, if◌then◌else◌, Result, ok, err, arith, Bool-cases, inl,
  inr,
}
use tename.Prelude.Actions.{Action, ◌>>=◌, give, lift, continue_rule, catch, recover}
use tename.Json.{Fields}
use tename.Sessions.Models.{Event, EventType, Agent}
use tename.Sessions.Models
use tename.Sessions.Store.{Db, Postgres}
use tename.Sessions.Service.{serializable}
use tename.Sessions.Reached.{emits, Reached, stay, emits-Reached, Reached-trans}
use tename.Sandbox.StateMachine.{Failure}
use tename.Sandbox.Service as SandboxFacade
use tename.Sandbox.Service.{Statuses}
use tename.Harness.Adapters.Base.{PendingEvent}
use tename.Harness.Adapters.Events.{is_in}
use tename.Harness.World.{
  SandboxRecipe, Backend, ToolProxy, Raised, Runtime, Run, World, Deed, completed, provisioned,
  destroyed, own, on_db, on_sandbox, add_id,
}
use tename.Harness.Tools.{
  emit, read_events, noted, provision_one, provision_fresh, reuse_or_provision,
  get_or_provision_sandbox, execute_in, run_sandbox_tool, execute_or_report, run_proxy_tool,
  latest_sandbox_id, is_live,
}

-- The number of completions that were asked for.
abbrev pub completions : List Deed → ℕ
completions [] = 0
completions (completed ∷ ds) = suc (completions ds)
completions (d ∷ ds) = completions ds

-- Whether a sandbox is there after these deeds, if it was or was not before them.
abbrev pub left_over : String → Bool → List Deed → Bool
left_over id there [] = there
left_over id there (completed ∷ ds) = left_over id there ds
left_over id there (provisioned i ∷ ds) = left_over id (there || str_eq i id) ds
left_over id there (destroyed i ∷ ds) = left_over id (there && not (str_eq i id)) ds

pub left_over-append :
    (id : String) (there : Bool) (ds es : List Deed)
    → left_over id there (ds ++ es) ≡ left_over id (left_over id there ds) es
left_over-append id there [] es = refl
left_over-append id there (completed ∷ ds) es = left_over-append id there ds es
left_over-append id there (provisioned i ∷ ds) es = left_over-append id (there || str_eq i id) ds es
left_over-append id there (destroyed i ∷ ds) es =
    left_over-append id (there && not (str_eq i id)) ds es

pub completions-append :
    (ds es : List Deed) → completions (ds ++ es) ≡ completions ds + completions es
completions-append [] es = omega arith
completions-append (completed ∷ ds) es = omega (arith, completions-append ds es)
completions-append (provisioned i ∷ ds) es = completions-append ds es
completions-append (destroyed i ∷ ds) es = completions-append ds es

module _ (pg : Postgres) (rt : Runtime) (session_id : ℕ) where
  -- Each sandbox that is there is in the set to destroy, and there is a backend.
  abbrev pub Tracked : World → Type 0
  Tracked w =
      (id : String)
      → left_over id false w.deeds ≡ true
      → (is_in w.owned id ≡ true) × (backend : Backend) × (rt.sandbox ≡ some backend)

  -- Calls of the session service about the session, at most `most` completions, and no sandbox that
  -- goes untracked.
  pub record Effect (most : ℕ) (w w' : World) : Type 0 where
    pub reached : Reached pg session_id w.db w'.db
    pub tracks : Tracked w → Tracked w'
    pub asks : completions w'.deeds ≤ most + completions w.deeds

  -- An action whose every run has this effect, however it ends.
  pub record Does (most : ℕ) {A : Type 0} (m : Run A) : Type 0 where
    pub effect : (w : World) → Effect most w (m w).0

module _ {pg : Postgres} {rt : Runtime} {session_id : ℕ} where
  pub nothing : (n : ℕ) (w : World) → Effect pg rt session_id n w w
  nothing n w = record { reached = stay pg session_id w.db; tracks = λ h. h; asks = omega arith }

  pub chain :
      (k j n : ℕ) {a b c : World}
      → k + j ≤ n
      → Effect pg rt session_id k a b
      → Effect pg rt session_id j b c
      → Effect pg rt session_id n a c
  chain k j n le p q = record {
    reached = Reached-trans pg session_id p.reached q.reached;
    tracks = λ h. q.tracks (p.tracks h);
    asks = omega (arith, le, p.asks, q.asks);
  }

  pub give-Does : (n : ℕ) {A : Type 0} (a : A) → Does pg rt session_id n (give a)
  give-Does n a = record { effect = λ w. nothing n w }

  pub lift-Does : {A : Type 0} (r : Result Raised A) → Does pg rt session_id 0 (lift r)
  lift-Does r = record { effect = λ w. nothing 0 w }

  pub bind-Does :
      (k j n : ℕ) {A B : Type 0} {m : Run A} {f : A → Run B}
      → k + j ≤ n
      → Does pg rt session_id k m
      → ((a : A) → Does pg rt session_id j (f a))
      → Does pg rt session_id n (m >>= f)
  bind-Does k j n {m = m} {f = f} le first rest = record {
    effect = λ w.
        continue_rule (λ r. Effect pg rt session_id n w r.0) (m w) f
          (λ e. chain k j n le (first.effect w) (nothing j (m w).0))
          (λ a h. chain k j n le (first.effect w) ((rest a).effect (m w).0));
  }

  -- A chain of two, of which the second may ask for completions.
  pub >>=-Does :
      (n : ℕ) {A B : Type 0} {m : Run A} {f : A → Run B}
      → Does pg rt session_id 0 m
      → ((a : A) → Does pg rt session_id n (f a))
      → Does pg rt session_id n (m >>= f)
  >>=-Does n first rest = bind-Does 0 n n (omega arith) first rest

  pub if-Does :
      (n : ℕ) {A : Type 0} (test : Bool) {l r : Run A}
      → Does pg rt session_id n l
      → Does pg rt session_id n r
      → Does pg rt session_id n (if test then l else r)
  if-Does n true left right = left
  if-Does n false left right = right

  pub on_db-Does :
      {A : Type 0} (m : ℕ → Action Db Models.Error A)
      → ((t : ℕ) (db : Db) → Reached pg session_id db (m t db).0)
      → Does pg rt session_id 0 (on_db m)
  unfolding on_db
  on_db-Does m h = record {
    effect = λ w. record { reached = h w.moment w.db; tracks = λ k. k; asks = omega arith };
  }

  pub on_sandbox-Does :
      {A : Type 0} (m : ℕ → Statuses → Statuses × Result Failure A)
      → Does pg rt session_id 0 (on_sandbox m)
  unfolding on_sandbox
  on_sandbox-Does m = record {
    effect = λ w. record { reached = stay pg session_id w.db; tracks = λ k. k; asks = omega arith };
  }

  pub emit-Does :
      (event_id : ℕ) (type : EventType) (payload : Fields)
      → Does pg rt session_id 0 (emit rt session_id event_id type payload)
  unfolding emit
  emit-Does event_id type payload =
      on_db-Does (λ t. emits (rt.now t) session_id event_id type (serializable payload))
        (λ t db. emits-Reached pg session_id (rt.now t) event_id type (serializable payload) db)

  pub read_events-Does : Does pg rt session_id 0 (read_events rt session_id)
  unfolding read_events
  read_events-Does = record { effect = λ w. nothing 0 w }
