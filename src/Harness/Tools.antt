-- ===== src/Harness/Tools.antt =====
-- The tool calls of src/tename/harness/service.py: their dispatch to the sandbox and to the proxy,
-- and the payloads of their results. While a sandbox works, no other task uses the same `Sandbox`.
use Prim.Native.String.{◌++◌ as append}
use tename.Prelude.{
  ℕ, Bool, true, false, not, ◌&&◌, Option, none, some, List, [], ◌∷◌, String, if◌then◌else◌, Result,
  ok, err,
}
use tename.Prelude.Actions.{◌>>=◌, ◌>>◌, give, lift, catch}
use tename.Json.{
  pos, Json, Fields, null, bool, int, str, end, field, get, as_str, is_empty, is_string,
}
use tename.Sessions.Models.{Event, EventType, system_event, same_type, Agent}
use tename.Sessions.Service.{serializable, get_events, default_events_limit}
use tename.Sessions.Reached.{emits}
use tename.Sandbox.StateMachine.{SandboxStatus, ready, idle, running}
pub use tename.Sandbox.Tools.Builtin.{builtin_tool_names}
use tename.Sandbox.Service as SandboxFacade
use tename.Sandbox.Service.{ToolResult}
use tename.Proxy.Registry.{proxy_tool_names}
use tename.Proxy.Service as ProxyFacade
use tename.Harness.Adapters.Base.{PendingEvent}
use tename.Harness.Adapters.Events.{is_in}
use tename.Harness.World.{
  SandboxRecipe, Backend, ToolProxy, Raised, proxy, invalid_recipe, Runtime, Run, World, own, on_db,
  on_sandbox, provisioned, note_deed, raised_in,
}

infixl 20 ◌<>◌
abbrev pub ◌<>◌ : String → String → String
a <> b = append a b

abbrev or_null : Option String → Json
or_null none = null
or_null (some s) = str s

abbrev code_or_null : Option ℕ → Json
code_or_null none = null
code_or_null (some n) = int (pos n)

-- `sandbox_id if isinstance(sandbox_id, str) and sandbox_id`
abbrev nonempty : Option String → Option String
nonempty none = none
nonempty (some s) = if is_empty s then none else some s

abbrev sandbox_id_in : Event → Option String
sandbox_id_in e =
    if same_type e.type system_event && is_string "sandbox_provisioned" (get "type" e.payload)
    then nonempty (as_str (get "sandbox_id" e.payload))
    else none

abbrev later_or : Option String → Option String → Option String
later_or (some later) earlier = some later
later_or none earlier = earlier

-- The last event that names a sandbox.
unfoldable pub latest_sandbox_id : List Event → Option String
latest_sandbox_id [] = none
latest_sandbox_id (e ∷ es) = later_or (latest_sandbox_id es) (sandbox_id_in e)

abbrev pub is_some {ℓ} : {A : Type ℓ} → Option A → Bool
is_some none = false
is_some (some a) = true

module _ (rt : Runtime) (session_id : ℕ) where
  abbrev pub text_of_id : ℕ → String
  text_of_id = rt.python.text_of_uuid

  -- Every event that the harness emits.
  unfoldable pub emit : (event_id : ℕ) → EventType → Fields → Run Event
  emit event_id type payload =
      on_db (λ t. emits (rt.now t) session_id event_id type (serializable payload))

  -- get_events(session_id), with the defaults
  unfoldable pub read_events : Run (List Event)
  read_events w = (
    w,
    raised_in Raised.session (get_events session_id none none [] (pos default_events_limit) w.db),
  )

  abbrev recipe_or : Option SandboxRecipe → Result Raised SandboxRecipe
  recipe_or none = err invalid_recipe
  recipe_or (some r) = ok r

  abbrev recipe_fields : Option Fields → Fields
  recipe_fields none = end
  recipe_fields (some d) = d

  unfoldable pub recipe_from_agent : Agent → Result Raised SandboxRecipe
  recipe_from_agent agent = recipe_or (rt.validate_recipe (recipe_fields agent.sandbox_recipe))

  abbrev call_fields : PendingEvent → String → Fields → Fields
  call_fields call tool_name rest =
      field "tool_call_id" (str (text_of_id call.id)) (field "tool_name" (str tool_name) rest)

  abbrev error_fields : String → Fields → Fields
  error_fields message rest =
      field "is_error" (bool true)
        (field "error" (str message) (field "content" (str message) rest))

  abbrev pub stub_error : String → String
  stub_error tool_name =
      if is_in builtin_tool_names tool_name && not (is_some rt.sandbox)
      then "tool '" <> tool_name
        <> "' is a sandbox tool but no sandbox is configured for this runtime"
      else if is_in (proxy_tool_names rt.registry) tool_name && not (is_some rt.tool_proxy)
      then "tool '" <> tool_name
        <> "' is a proxy tool but no tool proxy is configured for this runtime"
      else "tool '" <> tool_name <> "' is not a registered sandbox or proxy tool"

  unfoldable pub stub_payload : PendingEvent → String → Fields
  stub_payload call tool_name = call_fields call tool_name (error_fields (stub_error tool_name) end)

  -- `status in {READY, IDLE, RUNNING}`
  abbrev pub is_live : SandboxStatus → Bool
  is_live ready = true
  is_live idle = true
  is_live running = true
  is_live _ = false

  abbrev pub noted : World × Result Raised String → World × Result Raised String
  noted (w, ok id) = (own id >> give id) (note_deed (provisioned id) w)
  noted (w, err e) = (w, err e)

  unfoldable pub provision_one : Backend → SandboxRecipe → Run String
  provision_one backend recipe w =
      noted (on_sandbox (λ t. SandboxFacade.provision (backend.provision t recipe)) w)

  abbrev provisioned_payload : String → SandboxRecipe → Fields
  provisioned_payload id recipe =
      field "type" (str "sandbox_provisioned")
        (field "sandbox_id" (str id) (field "runtime" (str recipe.runtime) end))

  -- The second half of _get_or_provision_sandbox.
  unfoldable pub provision_fresh : Backend → Agent → Run String
  provision_fresh backend agent = lift (recipe_from_agent agent) >>= λ recipe.
      provision_one backend recipe >>= λ new_id.
      emit (rt.uuid5 ("tename:sandbox-provisioned:" <> text_of_id session_id <> ":" <> new_id))
        system_event (provisioned_payload new_id recipe)
      >>= λ e. give new_id

  unfoldable pub reuse_or_provision : Backend → Agent → Option String → Run String
  reuse_or_provision backend agent none = provision_fresh backend agent
  reuse_or_provision backend agent (some existing_id) =
      on_sandbox (λ t. SandboxFacade.status existing_id (backend.status t existing_id))
      >>= λ status.
          if is_live status
          then own existing_id >> give existing_id
          else provision_fresh backend agent

  unfoldable pub get_or_provision_sandbox : Backend → Agent → Run String
  get_or_provision_sandbox backend agent =
      read_events >>= λ events. reuse_or_provision backend agent (latest_sandbox_id events)

  abbrev result_fields : ToolResult → String → Fields
  result_fields r id = field "is_error" (bool r.is_error) (
      field "content" (str r.content) (
        field "stdout" (str r.stdout) (
          field "stderr" (str r.stderr) (
            field "exit_code" (code_or_null r.exit_code)
              (field "error" (or_null r.error) (field "sandbox_id" (str id) end))))))

  -- The call on a sandbox that is there: an exception becomes a payload.
  unfoldable pub execute_in : Backend → PendingEvent → String → Fields → String → Run Fields
  execute_in backend call tool_name tool_input id =
      catch
        (on_sandbox
            (λ t. SandboxFacade.execute (λ d. d) id (backend.execute t id tool_name tool_input))
          >>= λ r. give (call_fields call tool_name (result_fields r id)))
        (λ e. give (
          call_fields call tool_name (
            error_fields ("sandbox execute failed: " <> rt.text_of e)
              (field "sandbox_id" (str id) end))))

  -- What follows on the attempt to get a sandbox.
  abbrev pub execute_or_report :
      Backend → PendingEvent → String → Fields → Result Raised String → Run Fields
  execute_or_report backend call tool_name tool_input (ok id) =
      execute_in backend call tool_name tool_input id
  execute_or_report backend call tool_name tool_input (err e) = give (
      call_fields call tool_name
        (error_fields ("sandbox provisioning failed: " <> rt.text_of e) end))

  unfoldable pub run_sandbox_tool : Backend → Agent → PendingEvent → String → Fields → Run Fields
  run_sandbox_tool backend agent call tool_name tool_input =
      catch (get_or_provision_sandbox backend agent >>= λ id. give (ok id)) (λ e. give (err e))
      >>= execute_or_report backend call tool_name tool_input

  unfoldable pub run_proxy_tool : ToolProxy → PendingEvent → String → Fields → Run Fields
  run_proxy_tool service call tool_name tool_input =
      lift (
        raised_in proxy
          (ProxyFacade.execute service.texts service.vault rt.registry tool_name tool_input))
      >>= λ r. give (
          call_fields call tool_name (
            field "is_error" (bool r.is_error)
              (field "content" (str r.content) (field "error" (or_null r.error) end))))
