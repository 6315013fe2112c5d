-- ===== src/Sandbox/Docker.antt =====
-- src/tename/sandbox/backends/docker.py. The client of the Docker library is an argument, on a state of
-- its own, and so is what becomes of a tool's thread when the time is up.
pub mod Invariant
pub mod Timeouts
use tename.Prelude.{
  ℕ, ◌*◌, Bool, true, false, not, Option, none, some, List, [], ◌∷◌, ◌++◌, String, str_eq, ◌==◌,
  any, if◌then◌else◌, Result, ok, err,
}
use tename.Prelude.Actions.{Action, ◌>>=◌, ◌>>◌, give, raise, catch}
use tename.Prelude.Dicts.{lookup, assign, pop}
use tename.Json.{Fields, is_empty}
use tename.Sandbox.StateMachine.{SandboxStatus, provisioning, idle, destroyed, error}
use tename.Sandbox.Recipes.{SandboxRecipe}
use tename.Sandbox.Service.{ToolResult}
use tename.Sandbox.Tools.{Container, Exec, ToolError, ◌<>◌, failure, run_exec, put_file}
use tename.Sandbox.Tools.Texts.{drop_prefix, is_some, first_characters}
use tename.Sandbox.Tools.Builtin.{builtin_tools, is_builtin}

-- The arguments of `containers.run` that the recipe sets; the others are constants.
pub record RunSettings : Type 0 where
  pub image : String
  pub command : List String
  pub nano_cpus : ℕ
  pub mem_limit : String
  pub pids_limit : ℕ
  pub working_dir : String
  pub environment : List (String × String)
  pub labels : List (String × String)
  pub security_opt : List String
  pub network_mode : String

-- The client, and the methods of a container `K`. `reload` gives the status that it then has.
pub record Client (S K : Type 0) : Type 0 where
  pub get_image : String → Action S ToolError (Unit {0})
  pub pull_image : String → Action S ToolError (Unit {0})
  pub run_container : RunSettings → Action S ToolError K
  pub container : K → Container S
  pub id_of : K → Option String
  pub stop : K → Action S ToolError (Unit {0})
  pub remove : K → Action S ToolError (Unit {0})
  pub kill : K → Action S ToolError (Unit {0})
  pub reload : K → Action S ToolError (Option String)
  pub is_timeout_error : ToolError → Bool
  pub decimal : ℕ → String

-- What the backend raises: an error of the library or of a tool, SandboxNotFoundError, the KeyError of
-- `self._recipes[sandbox_id]`, and the ValueError of `_short_id`.
pub data DockerError : Type 0 where
  library : ToolError → DockerError
  sandbox_not_found key_error no_id : DockerError

-- DockerBackend, and the daemon that it talks to
pub record DockerBackend (S K : Type 0) : Type 0 where
  pub containers : List (String × K)
  pub recipes : List (String × SandboxRecipe)
  pub daemon : S

-- The tool's thread ends in time, or it still runs then and has done this to the daemon.
pub data Deadline (S : Type 0) : Type 0 where
  in_time : Deadline S
  late : (S → S) → Deadline S

abbrev daemon_result :
    {S K A : Type 0}
    → DockerBackend S K
    → S × Result ToolError A
    → DockerBackend S K × Result DockerError A
daemon_result b (s, ok a) = (record b { daemon = s }, ok a)
daemon_result b (s, err e) = (record b { daemon = s }, err (library e))

unfoldable pub on_daemon :
    {S K A : Type 0} → Action S ToolError A → Action (DockerBackend S K) DockerError A
on_daemon m b = daemon_result b (m b.daemon)

-- with contextlib.suppress(Exception)
abbrev suppressed : {S : Type 0} → Action S ToolError (Unit {0}) → Action S ToolError (Unit {0})
suppressed m = catch m (λ _. give tt)

-- _short_id
abbrev pub short_id : Option String → Result DockerError String
short_id none = err no_id
short_id (some id) = if is_empty id then err no_id else ok (first_characters 12 id)

abbrev is_state : Option String → String → Bool
is_state none t = false
is_state (some s) t = str_eq s t

-- _status_from_container, after `reload`
unfoldable pub status_of_state : Option String → SandboxStatus
status_of_state s =
    if is_state s "running"
    then idle
    else if is_state s "created"
    then provisioning
    else if any (is_state s) ("exited" ∷ "dead" ∷ "removing" ∷ [])
    then destroyed
    else error

unfoldable pub timeout_failure : (tool_name seconds : String) → ToolResult
timeout_failure tool_name seconds =
    failure ("tool '" <> tool_name <> "' exceeded " <> seconds <> "s timeout")

module _ {S K : Type 0} (c : Client S K) where
  abbrev pub settings_of : SandboxRecipe → RunSettings
  settings_of r = record {
    image = r.runtime;
    command = "tail" ∷ "-f" ∷ "/dev/null" ∷ [];
    nano_cpus = r.cpu_limit * 1000000000;
    mem_limit = c.decimal r.memory_limit_mb <> "m";
    pids_limit = 512;
    working_dir = "/workspace";
    environment = r.env;
    labels = ("tename.sandbox", "1") ∷ [];
    security_opt = "no-new-privileges:true" ∷ [];
    network_mode = "bridge";
  }

  unfoldable pub put_files : K → List (String × String) → Action S ToolError (Unit {0})
  put_files k [] = give tt
  put_files k ((path, content) ∷ rest) = put_file (c.container k) path content >> put_files k rest

  abbrev pip_install : K → List String → Action S ToolError (Unit {0})
  pip_install k packages =
      run_exec (c.container k) ("pip" ∷ "install" ∷ "--no-cache-dir" ∷ "--quiet" ∷ packages)
      >>= λ r. give tt

  abbrev wants_pip : SandboxRecipe → List String → Bool
  wants_pip r [] = false
  wants_pip r (p ∷ ps) = is_some (drop_prefix "python:" r.runtime)

  unfoldable pub provision_sync : SandboxRecipe → Action S ToolError K
  provision_sync r = catch (c.get_image r.runtime) (λ e. c.pull_image r.runtime) >>= λ pulled.
      c.run_container (settings_of r) >>= λ k.
      run_exec (c.container k) ("mkdir" ∷ "-p" ∷ "/workspace" ∷ []) >>= λ made.
      put_files k r.files >>= λ put.
      (if wants_pip r r.packages then pip_install k r.packages else give tt) >>= λ installed. give k

  -- What `provision` does with the container.
  abbrev pub track :
      K → SandboxRecipe → Result DockerError String → Action (DockerBackend S K) DockerError String
  track k r (err e) = raise e
  track k r (ok id) = λ b.
      (record b { containers = assign id k b.containers; recipes = assign id r b.recipes }, ok id)

  unfoldable pub provision : SandboxRecipe → Action (DockerBackend S K) DockerError String
  provision r = on_daemon (provision_sync r) >>= λ k. track k r (short_id (c.id_of k))

  -- A timeout kills the container.
  abbrev pub time_out :
      K → String → SandboxRecipe → Action (DockerBackend S K) DockerError ToolResult
  time_out k tool_name r = on_daemon (suppressed (c.kill k)) >>= λ killed.
      give (timeout_failure tool_name (c.decimal r.timeout_seconds))

  abbrev pub after_tool :
      K
      → String
      → SandboxRecipe
      → S × Result ToolError ToolResult
      → Action (DockerBackend S K) DockerError ToolResult
  after_tool k tool_name r (s, ok result) b = (record b { daemon = s }, ok result)
  after_tool k tool_name r (s, err e) b =
      if c.is_timeout_error e
      then time_out k tool_name r (record b { daemon = s })
      else (record b { daemon = s }, err (library e))

  abbrev pub run_builtin :
      Deadline S
      → (script : String) → K
      → SandboxRecipe
      → String
      → Fields
      → Option (Container S → (script : String) → Fields → Action S ToolError ToolResult)
      → Action (DockerBackend S K) DockerError ToolResult
  run_builtin deadline script k r tool_name input none b = (b, err key_error)
  run_builtin in_time script k r tool_name input (some tool) b =
      after_tool k tool_name r (tool (c.container k) script input b.daemon) b
  run_builtin (late thread) script k r tool_name input (some tool) b =
      time_out k tool_name r (record b { daemon = thread b.daemon })

  abbrev pub execute_tracked :
      Deadline S
      → (script tool_name : String) → Fields
      → Option K
      → Option SandboxRecipe
      → Action (DockerBackend S K) DockerError ToolResult
  execute_tracked deadline script tool_name input none r = raise sandbox_not_found
  execute_tracked deadline script tool_name input (some k) none = raise key_error
  execute_tracked deadline script tool_name input (some k) (some r) =
      run_builtin deadline script k r tool_name input (lookup tool_name builtin_tools)

  -- `script` is the path that the python tool makes from `uuid4()`.
  unfoldable pub execute :
      Deadline S
      → (script sandbox_id tool_name : String) → Fields
      → Action (DockerBackend S K) DockerError ToolResult
  execute deadline script sandbox_id tool_name input b =
      if not (is_builtin tool_name)
      then (b, ok (failure ("sandbox: unknown tool '" <> tool_name <> "'")))
      else execute_tracked deadline script tool_name input (lookup sandbox_id b.containers)
          (lookup sandbox_id b.recipes) b

  -- _safe_destroy
  abbrev safe_destroy : K → Action S ToolError (Unit {0})
  safe_destroy k = suppressed (c.stop k) >> suppressed (c.remove k)

  abbrev pub destroy_found : Option K → Action (DockerBackend S K) DockerError (Unit {0})
  destroy_found none = give tt
  destroy_found (some k) = on_daemon (safe_destroy k)

  unfoldable pub destroy : String → Action (DockerBackend S K) DockerError (Unit {0})
  destroy sandbox_id b =
      destroy_found (lookup sandbox_id b.containers)
        (record b { containers = pop sandbox_id b.containers; recipes = pop sandbox_id b.recipes })

  abbrev view_container : K → Action S ToolError SandboxStatus
  view_container k = catch (c.reload k >>= λ s. give (status_of_state s)) (λ e. give destroyed)

  abbrev pub status_found : Option K → Action (DockerBackend S K) DockerError SandboxStatus
  status_found none = give destroyed
  status_found (some k) = on_daemon (view_container k)

  unfoldable pub status : String → Action (DockerBackend S K) DockerError SandboxStatus
  status sandbox_id b = status_found (lookup sandbox_id b.containers) b
