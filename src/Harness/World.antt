-- ===== src/Harness/World.antt =====
-- What `HarnessRuntime` of src/tename/harness/service.py is made with and what a run of it changes.
-- The surroundings answer at each moment anew: a moment is the number of calls made so far.
use tename.Prelude.{
  ℕ, suc, ◌≡◌, Option, List, [], ◌∷◌, ◌++◌, String, if◌then◌else◌, Result, ok, err,
}
use tename.Prelude.Actions.{Action}
use tename.Json.{Fields}
use tename.Sessions.Models.{Event, EventType, Agent, SessionStatus}
use tename.Sessions.Models
use tename.Sessions.Store.{Db}
use tename.Sandbox.StateMachine.{SandboxStatus, Failure}
pub use tename.Sandbox.Recipes.{NetworkPolicy, open_network, SandboxRecipe}
use tename.Sandbox.Service.{ToolResult, Statuses, Answer}
use tename.Vault.Files
use tename.Proxy.Service as ProxyFacade
use tename.Proxy.Service.{Texts}
use tename.Proxy.Registry
use tename.Router.Types.{Message, ToolDef, Usage}
use tename.Harness.Profiles.{Profile}
use tename.Harness.Inheritance.{ProfileError}
use tename.Harness.Adapters.Base
use tename.Harness.Adapters.Base.{Python}
use tename.Harness.Adapters.Events.{is_in}
use tename.Harness.Turn.{Arrival, StreamEnd, Fault}
use tename.Harness.Turn

-- What the backend of a `Sandbox` answers.
pub record Backend : Type 0 where
  pub provision : ℕ → SandboxRecipe → Answer String
  pub execute : ℕ → (sandbox_id tool_name : String) → Fields → Answer ToolResult
  pub status : ℕ → (sandbox_id : String) → Answer SandboxStatus
  pub destroy : ℕ → (sandbox_id : String) → Answer (Unit {0})

pub record ToolProxy : Type 0 where
  pub texts : Texts
  pub vault : Option (String → Result Files.Error String)

-- The two methods that the loop calls itself; `chunk_to_event` is the same in every adapter.
pub record Adapter : Type 0 where
  pub build_context : List Event → Profile → List Message
  pub get_tools : Agent → List ToolDef

-- A completion as it arrives, with the `uuid4()` and the time of the closer.
pub record Completion : Type 0 where
  pub arrivals : List Arrival
  pub ending : StreamEnd
  pub fresh : ℕ
  pub now : ℕ

-- An exception in a run. Those of pydantic, for a sandbox recipe, a TypeError, and what the stream of
-- the model router raises carry nothing.
pub data Raised : Type 0 where
  session : Models.Error → Raised
  sandbox : Failure → Raised
  proxy : ProxyFacade.Escaped → Raised
  profile : ProfileError → Raised
  adapter : Base.RegistryError → Raised
  invalid_recipe type_error stream : Raised

-- `iterated` is the order in which a set is run through.
pub record Runtime : Type 0 where
  pub sandbox : Option Backend
  pub tool_proxy : Option ToolProxy
  pub registry : Registry.Registry
  pub load_profile : String → Result ProfileError Profile
  pub adapters : Base.Registry
  pub adapter_of : ℕ → Adapter
  pub python : Python
  pub uuid5 : String → ℕ
  pub text_of : Raised → String
  pub validate_recipe : Fields → Option SandboxRecipe
  pub iterated : List String → List String
  pub in-iterated : (ids : List String) (id : String) → is_in (iterated ids) id ≡ is_in ids id
  pub dump_usage : Usage → Fields
  pub now : ℕ → ℕ
  pub monotonic : ℕ → ℕ
  pub complete : ℕ → Profile → List Message → Option (List ToolDef) → Completion

-- What the run has asked of the model router and of the backend.
pub data Deed : Type 0 where
  completed : Deed
  provisioned destroyed : (sandbox_id : String) → Deed

-- `owned` is provisioned_sandbox_ids, in the order of insertion.
pub record World : Type 0 where
  pub db : Db
  pub statuses : Statuses
  pub owned : List String
  pub moment : ℕ
  pub deeds : List Deed

abbrev pub Run : Type 0 → Type 0
Run A = Action World Raised A

-- provisioned_sandbox_ids.add(sandbox_id)
abbrev pub add_id : String → List String → List String
add_id id ids = if is_in ids id then ids else ids ++ id ∷ []

unfoldable pub own : String → Run (Unit {0})
own id w = (record w { owned = add_id id w.owned }, ok tt)

abbrev pub raised_in {ℓ} : {E : Type 0} {A : Type ℓ} → (E → Raised) → Result E A → Result Raised A
raised_in f (ok a) = ok a
raised_in f (err e) = err (f e)

-- A call of the session service at this moment.
unfoldable pub on_db : {A : Type 0} → (ℕ → Action Db Models.Error A) → Run A
on_db m w =
    let out = m w.moment w.db in
    (record w { db = out.0; moment = suc w.moment }, raised_in Raised.session out.1)

abbrev pub raised_by : Turn.Fault → Raised
raised_by (Turn.session e) = Raised.session e
raised_by Turn.stream = Raised.stream

abbrev pub raise_fault {ℓ} : {A : Type ℓ} → Result Fault A → Result Raised A
raise_fault (ok a) = ok a
raise_fault (err e) = err (raised_by e)

-- A turn at this moment.
unfoldable pub on_turn : {A : Type 0} → Action Db Fault A → Run A
on_turn m w =
    let out = m w.db in (record w { db = out.0; moment = suc w.moment }, raise_fault out.1)

-- A call of the `Sandbox` at this moment.
unfoldable pub on_sandbox : {A : Type 0} → (ℕ → Statuses → Statuses × Result Failure A) → Run A
on_sandbox m w =
    let out = m w.moment w.statuses in
    (record w { statuses = out.0; moment = suc w.moment }, raised_in Raised.sandbox out.1)

abbrev pub note_deed : Deed → World → World
note_deed d w = record w { deeds = w.deeds ++ d ∷ [] }
