-- ===== src/Harness/Effects/Results.antt =====
-- Each payload of a tool result of src/tename/harness/service.py names its call and its tool.
use tename.Prelude.{
  ℕ, ◌≡◌, refl, subst, Option, none, some, String, Result, ok, err, Bool-cases, inl, inr,
}
use tename.Prelude.Actions.{give, catch, recover, continue, ◌>>=◌}
use tename.Json.{Fields, str, get}
use tename.Sessions.Models.{Agent}
use tename.Sandbox.Service as SandboxFacade
use tename.Proxy.Service as ProxyFacade
use tename.Proxy.Registry.{proxy_tool_names}
use tename.Harness.Adapters.Base.{PendingEvent}
use tename.Harness.Adapters.Events.{is_in}
use tename.Harness.World.{
  Backend, ToolProxy, Raised, Runtime, World, Run, on_sandbox, raised_in, proxy,
}
use tename.Harness.Tools.{
  builtin_tool_names, text_of_id, stub_payload, execute_in, execute_or_report, run_sandbox_tool,
  run_proxy_tool, get_or_provision_sandbox,
}
use tename.Harness.Loop.{name_of, proxy_or_stub, route, dispatch}

module _ (rt : Runtime) (session_id : ℕ) where
  -- A payload that names the call and its tool.
  abbrev pub Names : PendingEvent → Fields → Type 0
  Names call payload =
      (get "tool_call_id" payload ≡ some (str (text_of_id rt session_id call.id)))
      × (get "tool_name" payload ≡ some (str (name_of call)))

  abbrev pub NamesAll : PendingEvent → World × Result Raised Fields → Type 0
  NamesAll call out = (payload : Fields) → out.1 ≡ ok payload → Names call payload

  give-NamesAll :
      (call : PendingEvent) (payload : Fields) (w : World)
      → Names call payload
      → NamesAll call (give payload w)
  give-NamesAll call payload w names p h =
      let same : payload ≡ p = cc h in subst (Names call) same names

  continue-NamesAll :
      {A : Type 0} (call : PendingEvent) (out : World × Result Raised A) (f : A → Run Fields)
      → ((a : A) (v : World) → NamesAll call (f a v))
      → NamesAll call (continue out f)
  continue-NamesAll call (v, ok a) f names = names a v
  continue-NamesAll call (v, err e) f names = λ p h. absurd (cc h)

  run_proxy_tool-NamesAll :
      (service : ToolProxy) (call : PendingEvent) (tool_input : Fields) (w : World)
      → NamesAll call (run_proxy_tool rt session_id service call (name_of call) tool_input w)
  unfolding run_proxy_tool get
  run_proxy_tool-NamesAll service call tool_input w =
      continue-NamesAll call
        (
          w,
          raised_in proxy (
              ProxyFacade.execute service.texts service.vault rt.registry (name_of call)
                tool_input),
        )
        _ (λ r v. give-NamesAll call _ v (refl, refl))

  proxy_or_stub-NamesAll :
      (o : Option ToolProxy) (call : PendingEvent) (tool_input : Fields) (w : World)
      → NamesAll call (proxy_or_stub rt session_id o call (name_of call) tool_input w)
  unfolding stub_payload get
  proxy_or_stub-NamesAll none call tool_input w = give-NamesAll call _ w (refl, refl)
  proxy_or_stub-NamesAll (some service) call tool_input w =
      elim (Bool-cases (is_in (proxy_tool_names rt.registry) (name_of call))) [
        | inl registered ↦ rw registered (run_proxy_tool-NamesAll service call tool_input w)
        | inr other ↦ rw other (give-NamesAll call _ w (refl, refl))
      ]

  caught-NamesAll :
      {A : Type 0} (call : PendingEvent) (ran : World × Result Raised A) (f : A → Fields)
      (g : Raised → Fields)
      → ((a : A) → Names call (f a))
      → ((e : Raised) → Names call (g e))
      → NamesAll call (recover (λ e. give (g e)) (continue ran (λ a. give (f a))))
  caught-NamesAll call (v, ok a) f g fine failed = give-NamesAll call (f a) v (fine a)
  caught-NamesAll call (v, err e) f g fine failed = give-NamesAll call (g e) v (failed e)

  execute_in-NamesAll :
      (backend : Backend) (call : PendingEvent) (tool_input : Fields) (id : String) (w : World)
      → NamesAll call (execute_in rt session_id backend call (name_of call) tool_input id w)
  unfolding execute_in catch get
  execute_in-NamesAll backend call tool_input id w =
      caught-NamesAll call
        (on_sandbox
          (λ t. SandboxFacade.execute (λ d. d) id (backend.execute t id (name_of call) tool_input))
          w)
        _ _ (λ r. (refl, refl)) (λ e. (refl, refl))

  execute_or_report-NamesAll :
      (backend : Backend) (call : PendingEvent) (tool_input : Fields) (o : Result Raised String)
      (w : World)
      → NamesAll call (execute_or_report rt session_id backend call (name_of call) tool_input o w)
  unfolding get
  execute_or_report-NamesAll backend call tool_input (ok id) w =
      execute_in-NamesAll backend call tool_input id w
  execute_or_report-NamesAll backend call tool_input (err e) w = give-NamesAll call _ w (refl, refl)

  run_sandbox_tool-NamesAll :
      (backend : Backend) (agent : Agent) (call : PendingEvent) (tool_input : Fields) (w : World)
      → NamesAll call
          (run_sandbox_tool rt session_id backend agent call (name_of call) tool_input w)
  unfolding run_sandbox_tool
  run_sandbox_tool-NamesAll backend agent call tool_input w =
      continue-NamesAll call
        (catch (get_or_provision_sandbox rt session_id backend agent >>= λ id. give (ok id))
          (λ e. give (err e)) w)
        (execute_or_report rt session_id backend call (name_of call) tool_input)
        (λ o v. execute_or_report-NamesAll backend call tool_input o v)

  route-NamesAll :
      (o : Option Backend) (agent : Agent) (call : PendingEvent) (tool_input : Fields) (w : World)
      → NamesAll call (route rt session_id o agent call (name_of call) tool_input w)
  route-NamesAll none agent call tool_input w =
      proxy_or_stub-NamesAll rt.tool_proxy call tool_input w
  route-NamesAll (some backend) agent call tool_input w =
      elim (Bool-cases (is_in builtin_tool_names (name_of call))) [
        | inl builtin ↦ rw builtin (run_sandbox_tool-NamesAll backend agent call tool_input w)
        | inr other ↦ rw other (proxy_or_stub-NamesAll rt.tool_proxy call tool_input w)
      ]

  pub dispatch-NamesAll :
      (agent : Agent) (call : PendingEvent) (tool_input : Fields) (w : World)
      → NamesAll call (dispatch rt session_id agent call (name_of call) tool_input w)
  unfolding dispatch
  dispatch-NamesAll agent call tool_input w = route-NamesAll rt.sandbox agent call tool_input w
