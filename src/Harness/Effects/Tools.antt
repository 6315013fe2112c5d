-- ===== src/Harness/Effects/Tools.antt =====
-- The effects of a tool call of src/tename/harness/service.py.
use tename.Prelude.{
  ℕ, ◌≡◌, refl, Bool, false, ◌||◌, Option, none, some, List, [], ◌∷◌, ◌++◌, String, str_eq, eq_iff,
  any, Result, ok, err, arith, Bool-cases, inl, inr,
}
use tename.Prelude.Actions.{give, catch, recover}
use tename.Json.{Fields}
use tename.Sessions.Models.{Agent}
use tename.Sessions.Store.{Postgres}
use tename.Sessions.Reached.{stay}
use tename.Sandbox.Service as SandboxFacade
use tename.Sandbox.Service.{Statuses}
use tename.Harness.Adapters.Base.{PendingEvent}
use tename.Harness.Adapters.Events.{is_in}
use tename.Harness.World.{
  SandboxRecipe, Backend, ToolProxy, Raised, Runtime, Run, World, provisioned, own, on_sandbox,
  add_id,
}
use tename.Harness.Tools.{
  noted, provision_one, provision_fresh, reuse_or_provision, get_or_provision_sandbox, execute_in,
  run_sandbox_tool, execute_or_report, run_proxy_tool, latest_sandbox_id, is_live,
}
use tename.Harness.Effects.{
  Effect, Does, left_over-append, completions-append, chain, give-Does, lift-Does, >>=-Does,
  on_sandbox-Does, emit-Does, read_events-Does, if-Does,
}

pub any-append {ℓ} :
    {A : Type ℓ} (test : A → Bool) (xs ys : List A)
    → any test (xs ++ ys) ≡ (any test xs || any test ys)
any-append test [] ys = refl
any-append test (x ∷ xs) ys = ground (arith, any-append test xs ys)

in-add_id :
    (id j : String) (ids : List String) → is_in (add_id id ids) j ≡ (is_in ids j || str_eq id j)
in-add_id id j ids = ground (arith, any-append (λ n. str_eq n j) ids (id ∷ []), eq_iff id j)

module _ (pg : Postgres) (rt : Runtime) (session_id : ℕ) where
  own-Does : (id : String) → Does pg rt session_id 0 (own id)
  unfolding own
  own-Does id = record {
    effect = λ w. record {
      reached = stay pg session_id w.db;
      tracks = λ h j p. (ground (arith, in-add_id id j w.owned, (h j p).0), (h j p).1, (h j p).2);
      asks = omega arith;
    };
  }

  noted-Effect :
      (backend : Backend) (w : World) (out : World × Result Raised String)
      → rt.sandbox ≡ some backend
      → Effect pg rt session_id 0 w out.0
      → Effect pg rt session_id 0 w (noted rt session_id out).0
  unfolding own
  noted-Effect backend w (v, err e) has done_it = done_it
  noted-Effect backend w (v, ok id) has done_it = chain 0 0 0 (omega arith) done_it (record {
    reached = stay pg session_id v.db;
    tracks = λ h j p. elim (Bool-cases (str_eq id j)) [
      | inl new ↦ (ground (arith, in-add_id id j v.owned, new), backend, has)
      | inr old ↦
          let known =
            h j (ground (arith, p, old, left_over-append j false v.deeds (provisioned id ∷ []))) in
          (ground (arith, in-add_id id j v.owned, known.0), known.1, known.2)
    ];
    asks = omega (arith, completions-append v.deeds (provisioned id ∷ []));
  })

  module _ (backend : Backend) (has : rt.sandbox ≡ some backend) where
    provision_one-Does :
        (recipe : SandboxRecipe)
        → Does pg rt session_id 0 (provision_one rt session_id backend recipe)
    unfolding provision_one
    provision_one-Does recipe = record {
      effect = λ w.
          noted-Effect backend w
            (on_sandbox (λ t. SandboxFacade.provision (backend.provision t recipe)) w) has
            ((on_sandbox-Does (λ t. SandboxFacade.provision (backend.provision t recipe))).effect
              w);
    }

    provision_fresh-Does :
        (agent : Agent) → Does pg rt session_id 0 (provision_fresh rt session_id backend agent)
    unfolding provision_fresh
    provision_fresh-Does agent = >>=-Does 0 (lift-Does _) (λ recipe.
        >>=-Does 0 (provision_one-Does recipe)
          (λ id. >>=-Does 0 (emit-Does _ _ _) (λ e. give-Does 0 id)))

    reuse_or_provision-Does :
        (agent : Agent) (existing : Option String)
        → Does pg rt session_id 0 (reuse_or_provision rt session_id backend agent existing)
    unfolding reuse_or_provision
    reuse_or_provision-Does agent none = provision_fresh-Does agent
    reuse_or_provision-Does agent (some id) = >>=-Does 0 (on_sandbox-Does _) (λ status.
        if-Does 0 (is_live rt session_id status) (>>=-Does 0 (own-Does id) (λ u. give-Does 0 id))
          (provision_fresh-Does agent))

    get_or_provision_sandbox-Does :
        (agent : Agent)
        → Does pg rt session_id 0 (get_or_provision_sandbox rt session_id backend agent)
    unfolding get_or_provision_sandbox
    get_or_provision_sandbox-Does agent =
        >>=-Does 0 read_events-Does
          (λ events. reuse_or_provision-Does agent (latest_sandbox_id events))

  caught-Effect :
      {A : Type 0} (w : World) (out : World × Result Raised A) (handler : Raised → A)
      → Effect pg rt session_id 0 w out.0
      → Effect pg rt session_id 0 w (recover (λ e. give (handler e)) out).0
  caught-Effect w (v, ok a) handler h = h
  caught-Effect w (v, err e) handler h = h

  catch-Does :
      {A : Type 0} {m : Run A} (handler : Raised → A)
      → Does pg rt session_id 0 m
      → Does pg rt session_id 0 (catch m (λ e. give (handler e)))
  unfolding catch
  catch-Does {m = m} handler h = record { effect = λ w. caught-Effect w (m w) handler (h.effect w) }

  execute_in-Does :
      (backend : Backend) (call : PendingEvent) (tool_name : String) (tool_input : Fields)
      (id : String)
      → Does pg rt session_id 0 (execute_in rt session_id backend call tool_name tool_input id)
  unfolding execute_in
  execute_in-Does backend call tool_name tool_input id =
      catch-Does _ (>>=-Does 0 (on_sandbox-Does _) (λ r. give-Does 0 _))

  execute_or_report-Does :
      (backend : Backend) (call : PendingEvent) (tool_name : String) (tool_input : Fields)
      (r : Result Raised String)
      → Does pg rt session_id 0
          (execute_or_report rt session_id backend call tool_name tool_input r)
  execute_or_report-Does backend call tool_name tool_input (ok id) =
      execute_in-Does backend call tool_name tool_input id
  execute_or_report-Does backend call tool_name tool_input (err e) = give-Does 0 _

  pub run_sandbox_tool-Does :
      (backend : Backend) (agent : Agent) (call : PendingEvent) (tool_name : String)
      (tool_input : Fields)
      → rt.sandbox ≡ some backend
      → Does pg rt session_id 0
          (run_sandbox_tool rt session_id backend agent call tool_name tool_input)
  unfolding run_sandbox_tool
  run_sandbox_tool-Does backend agent call tool_name tool_input has =
      >>=-Does 0
        (catch-Does err (
          >>=-Does 0 (get_or_provision_sandbox-Does backend has agent) (λ id. give-Does 0 (ok id))))
        (execute_or_report-Does backend call tool_name tool_input)

  pub run_proxy_tool-Does :
      (proxy : ToolProxy) (call : PendingEvent) (tool_name : String) (tool_input : Fields)
      → Does pg rt session_id 0 (run_proxy_tool rt session_id proxy call tool_name tool_input)
  unfolding run_proxy_tool
  run_proxy_tool-Does proxy call tool_name tool_input =
      >>=-Does 0 (lift-Does _) (λ r. give-Does 0 _)
