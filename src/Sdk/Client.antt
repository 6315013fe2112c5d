-- ===== src/Sdk/Client.antt =====
-- The clients of src/tename/sdk/client.py and the background loop of runtime.py. Creating the engine is an
-- argument; the other services are made without a failure.
use tename.Prelude.{
  ℕ, Bool, true, false, Option, none, some, List, [], ◌∷◌, ◌+◌, String, if◌then◌else◌, Result, ok,
  err,
}
use tename.Prelude.Actions.{Action, ◌>>=◌, ◌>>◌, give, raise, catch, finally}
use tename.Json.{Fields, is_empty}
use tename.Sessions.Models.{Error, Session}
use tename.Sessions.Store.{Db, Postgres}
use tename.Sessions.Service.{create_session, wake}
use tename.Sdk.Config.{
  Environment, Arguments, ResolvedConfig, ConfigurationError, resolve_config, setdefault,
}
use tename.Sdk.Agents.{CreateAgentInput}

-- The background loop runs or not; `environment` is os.environ; `engines` counts the calls of
-- `create_async_engine` that returned.
pub record Process : Type 0 where
  pub loop_runs : Bool
  pub environment : Environment
  pub engines : ℕ

-- ConfigurationError, the RuntimeError of a loop that does not run, and what `create_async_engine` or
-- the disposal of an engine raises.
pub data ClientError : Type 0 where
  configuration : ConfigurationError → ClientError
  not_started engine_error : ClientError

-- BackgroundLoop.start
abbrev pub start_loop : Action Process ClientError (Unit {0})
start_loop p = (record p { loop_runs = true }, ok tt)

-- BackgroundLoop.stop
abbrev pub stop_loop : Action Process ClientError (Unit {0})
stop_loop p = (record p { loop_runs = false }, ok tt)

-- BackgroundLoop.run: the coroutine runs on the loop
unfoldable pub run_on_loop :
    {A : Type 0} → Action Process ClientError A → Action Process ClientError A
run_on_loop coroutine p = if p.loop_runs then coroutine p else (p, err not_started)

abbrev pub configured :
    Result ConfigurationError ResolvedConfig → Action Process ClientError ResolvedConfig
configured (ok c) p = (p, ok c)
configured (err e) p = (p, err (configuration e))

abbrev pub surface_key : Option String → Action Process ClientError (Unit {0})
surface_key none p = (p, ok tt)
surface_key (some key) p =
    (record p { environment = setdefault "ANTHROPIC_API_KEY" key p.environment }, ok tt)

-- What a client is made with.
pub record AsyncTename : Type 0 where
  pub config : ResolvedConfig
  pub search_paths : List String
  pub sandbox : Bool

abbrev pub search_paths_of : Option String → List String
search_paths_of none = []
search_paths_of (some d) = if is_empty d then [] else d ∷ []

-- `engine` says whether `create_async_engine` takes the URL.
module _ (engine : String → Bool) where
  -- The SDK and the session service each make an engine of the same URL, so both calls return or the
  -- first raises.
  abbrev pub create_engines : String → Action Process ClientError (Unit {0})
  create_engines url p =
      if engine url then (record p { engines = p.engines + 2 }, ok tt) else (p, err engine_error)

  -- AsyncTename.__init__
  unfoldable pub build_async :
      Arguments → (enable_sandbox : Bool) → Action Process ClientError AsyncTename
  build_async a enable_sandbox p =
      (configured (resolve_config a p.environment) >>= λ c.
      surface_key c.anthropic_api_key
      >> (create_engines c.database_url
          >> give (record {
            config = c;
            search_paths = search_paths_of c.profiles_dir;
            sandbox = enable_sandbox;
          })))
        p

  -- except ConfigurationError: the loop is stopped, and the error raised again
  abbrev pub stop_on : {A : Type 0} → ClientError → Action Process ClientError A
  stop_on (configuration e) = stop_loop >> raise (configuration e)
  stop_on e = raise e

  -- Tename.__init__
  unfoldable pub build :
      Arguments → (enable_sandbox : Bool) → Action Process ClientError AsyncTename
  build a enable_sandbox = start_loop >> catch (run_on_loop (build_async a enable_sandbox)) stop_on

-- The disposal of one engine, which returns or raises.
abbrev pub dispose : (returns : Bool) → Action Process ClientError (Unit {0})
dispose true p = (p, ok tt)
dispose false p = (p, err engine_error)

-- AsyncTename.close
abbrev pub close_async : (service sdk : Bool) → Action Process ClientError (Unit {0})
close_async service sdk = dispose service >> dispose sdk

-- Tename.close
unfoldable pub close : (service sdk : Bool) → Action Process ClientError (Unit {0})
close service sdk = finally (run_on_loop (close_async service sdk)) stop_loop

abbrev or_no_names : Option (List String) → List String
or_no_names none = []
or_no_names (some names) = names

-- AsyncAgentsClient.create, with the defaults filled in
abbrev pub agent_input :
    (name model : String) (system_prompt : Option String) (tools : Option (List String))
    (framework : String) (sandbox_recipe : Option Fields)
    → CreateAgentInput
agent_input name model system_prompt tools framework sandbox_recipe = record {
  name = name;
  model = model;
  system_prompt = system_prompt;
  tools = or_no_names tools;
  framework = framework;
  sandbox_recipe = sandbox_recipe;
}

-- AsyncSessionsClient.create: a handle is its session
unfoldable pub sessions_create :
    Postgres
    → (between later : Db → Db) → (now fresh agent_id : ℕ) → Option Fields
    → Db
    → Result Error (Db × Session)
sessions_create pg between later now fresh agent_id metadata db =
    create_session pg between later now fresh agent_id metadata none db

-- AsyncSessionsClient.get
unfoldable pub sessions_get : ℕ → Db → Result Error Session
sessions_get session_id db = wake session_id db
