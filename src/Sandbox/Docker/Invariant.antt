-- ===== src/Sandbox/Docker/Invariant.antt =====
-- The two tables of `DockerBackend` over every sequence of calls. No call awaits anything between its
-- changes of the two.
use tename.Prelude.{
  ◌≡◌, ◌≢◌, true, Option, none, some, List, [], ◌∷◌, String, Result, ok, err, arith, Bool-cases,
  inl, inr, ap,
}
use tename.Prelude.Actions.{Action, continue, continue_rule, give, catch}
use tename.Prelude.Dicts.{lookup, pop, lookup-assign, lookup-pop, lookup_of_any}
use tename.Json.{Fields}
use tename.Sandbox.Recipes.{SandboxRecipe}
use tename.Sandbox.Service.{ToolResult}
use tename.Sandbox.Tools.{ToolError}
use tename.Sandbox.Tools.Texts.{is_some}
use tename.Sandbox.Tools.Builtin.{SandboxToolFn, builtin_tools, is_builtin}
use tename.Sandbox.Docker.{
  Client, DockerError, key_error, DockerBackend, Deadline, in_time, late, on_daemon, daemon_result,
  timeout_failure, provision_sync, short_id, track, provision, time_out, after_tool, run_builtin,
  execute_tracked, execute, destroy_found, destroy, status_found, status,
}

pub data Call (S : Type 0) : Type 0 where
  provisions : SandboxRecipe → Call S
  executes : Deadline S → (script sandbox_id tool_name : String) → Fields → Call S
  destroys : (sandbox_id : String) → Call S
  asks : (sandbox_id : String) → Call S

-- Each container has its recipe, and the other way round.
abbrev pub Tracked : {S K : Type 0} → DockerBackend S K → Type 0
Tracked b = (id : String) → is_some (lookup id b.containers) ≡ is_some (lookup id b.recipes)

module _ {S K : Type 0} (c : Client S K) where
  abbrev step : Call S → DockerBackend S K → DockerBackend S K
  step (provisions r) b = (provision c r b).0
  step (executes deadline script id tool_name input) b =
      (execute c deadline script id tool_name input b).0
  step (destroys id) b = (destroy c id b).0
  step (asks id) b = (status c id b).0

  unfoldable pub run : List (Call S) → DockerBackend S K → DockerBackend S K
  run [] b = b
  run (x ∷ xs) b = run xs (step x b)

  daemon_result-Tracked :
      {A : Type 0} (b : DockerBackend S K) (out : S × Result ToolError A)
      → Tracked b
      → Tracked (daemon_result b out).0
  daemon_result-Tracked b (s, ok a) tracked = tracked
  daemon_result-Tracked b (s, err e) tracked = tracked

  on_daemon-Tracked :
      {A : Type 0} (m : Action S ToolError A) (b : DockerBackend S K)
      → Tracked b
      → Tracked (on_daemon m b).0
  unfolding on_daemon
  on_daemon-Tracked m b = daemon_result-Tracked b (m b.daemon)

  track-Tracked :
      (k : K) (r : SandboxRecipe) (o : Result DockerError String) (b : DockerBackend S K)
      → Tracked b
      → Tracked (track c k r o b).0
  track-Tracked k r (err e) b tracked = tracked
  track-Tracked k r (ok id) b tracked = λ j.
      ground (arith, lookup-assign j id k b.containers, lookup-assign j id r b.recipes, tracked j)

  provision-Tracked :
      (r : SandboxRecipe) (b : DockerBackend S K) → Tracked b → Tracked (provision c r b).0
  unfolding provision
  provision-Tracked r b tracked =
      let first = on_daemon-Tracked (provision_sync c r) b tracked in
      continue_rule (λ out. Tracked out.0) (on_daemon (provision_sync c r) b)
        (λ k. track c k r (short_id (c.id_of k))) (λ e. first)
        (λ k ran. track-Tracked k r (short_id (c.id_of k)) _ first)

  -- The tables agree, and what is raised, if anything, is no KeyError.
  abbrev Fine : {A : Type 0} → DockerBackend S K × Result DockerError A → Type 0
  Fine out = Tracked out.0 × (out.1 ≢ err key_error)

  daemon_result-Fine :
      {A : Type 0} (b : DockerBackend S K) (out : S × Result ToolError A)
      → Tracked b
      → Fine (daemon_result b out)
  daemon_result-Fine b (s, ok a) tracked = (tracked, λ h. cc h)
  daemon_result-Fine b (s, err e) tracked = (tracked, λ h. cc h)

  give-Fine :
      {A B : Type 0} (a : A) (out : DockerBackend S K × Result DockerError B)
      → Fine out
      → Fine (continue out (λ _. give a))
  give-Fine a (b, ok u) fine = (fine.0, λ h. cc h)
  give-Fine a (b, err e) fine = (fine.0, λ h. fine.1 (ap err (cc h)))

  time_out-Fine :
      (k : K) (tool_name : String) (r : SandboxRecipe) (b : DockerBackend S K)
      → Tracked b
      → Fine (time_out c k tool_name r b)
  unfolding on_daemon
  time_out-Fine k tool_name r b tracked =
      give-Fine (timeout_failure tool_name (c.decimal r.timeout_seconds)) _
        (daemon_result-Fine b (catch (c.kill k) (λ _. give tt) b.daemon) tracked)

  after_tool-Fine :
      (k : K) (tool_name : String) (r : SandboxRecipe) (out : S × Result ToolError ToolResult)
      (b : DockerBackend S K)
      → Tracked b
      → Fine (after_tool c k tool_name r out b)
  after_tool-Fine k tool_name r (s, ok result) b tracked = (tracked, λ h. cc h)
  after_tool-Fine k tool_name r (s, err e) b tracked = elim (Bool-cases (c.is_timeout_error e)) [
    | inl timed ↦ rw timed (time_out-Fine k tool_name r (record b { daemon = s }) tracked)
    | inr raised ↦ rw raised (tracked, λ h. cc h)
  ]

  run_builtin-Fine :
      (deadline : Deadline S) (script : String) (k : K) (r : SandboxRecipe) (tool_name : String)
      (input : Fields) (tool : SandboxToolFn S) (b : DockerBackend S K)
      → Tracked b
      → Fine (run_builtin c deadline script k r tool_name input (some tool) b)
  run_builtin-Fine in_time script k r tool_name input tool b tracked =
      after_tool-Fine k tool_name r (tool (c.container k) script input b.daemon) b tracked
  run_builtin-Fine (late thread) script k r tool_name input tool b tracked =
      time_out-Fine k tool_name r (record b { daemon = thread b.daemon }) tracked

  -- Each name of a built-in tool has its tool.
  tool_of :
      (name : String)
      → is_builtin name ≡ true
      → (tool : SandboxToolFn S) × (lookup name builtin_tools ≡ some tool)
  unfolding is_builtin
  tool_of name builtin = lookup_of_any name builtin_tools builtin

  execute_tracked-Fine :
      (deadline : Deadline S) (script tool_name : String) (input : Fields) (k : Option K)
      (r : Option SandboxRecipe) (b : DockerBackend S K)
      → is_builtin tool_name ≡ true
      → is_some k ≡ is_some r
      → Tracked b
      → Fine (execute_tracked c deadline script tool_name input k r b)
  execute_tracked-Fine deadline script tool_name input none r b builtin same tracked =
      (tracked, λ h. cc h)
  execute_tracked-Fine deadline script tool_name input (some k) none b builtin same tracked =
      absurd (cc same)
  execute_tracked-Fine deadline script tool_name input (some k) (some r) b builtin same tracked =
      let found = tool_of tool_name builtin in
      rw found.1 (run_builtin-Fine deadline script k r tool_name input found.0 b tracked)

  execute-Fine :
      (deadline : Deadline S) (script id tool_name : String) (input : Fields)
      (b : DockerBackend S K)
      → Tracked b
      → Fine (execute c deadline script id tool_name input b)
  unfolding execute
  execute-Fine deadline script id tool_name input b tracked =
      elim (Bool-cases (is_builtin tool_name)) [
        | inr unknown ↦ rw unknown (tracked, λ h. cc h)
        | inl builtin ↦ rw builtin (
            execute_tracked-Fine deadline script tool_name input (lookup id b.containers)
              (lookup id b.recipes) b builtin (tracked id) tracked)
      ]

  destroy_found-Tracked :
      (k : Option K) (b : DockerBackend S K) → Tracked b → Tracked (destroy_found c k b).0
  destroy_found-Tracked none b tracked = tracked
  destroy_found-Tracked (some k) b tracked = on_daemon-Tracked _ b tracked

  status_found-Tracked :
      (k : Option K) (b : DockerBackend S K) → Tracked b → Tracked (status_found c k b).0
  status_found-Tracked none b tracked = tracked
  status_found-Tracked (some k) b tracked = on_daemon-Tracked _ b tracked

  popped-Tracked :
      (id : String) (b : DockerBackend S K)
      → Tracked b
      → Tracked (record b { containers = pop id b.containers; recipes = pop id b.recipes })
  popped-Tracked id b tracked =
      λ j. ground (arith, lookup-pop j id b.containers, lookup-pop j id b.recipes, tracked j)

  step-Tracked : (x : Call S) (b : DockerBackend S K) → Tracked b → Tracked (step x b)
  unfolding destroy status
  step-Tracked (provisions r) b tracked = provision-Tracked r b tracked
  step-Tracked (executes deadline script id tool_name input) b tracked =
      (execute-Fine deadline script id tool_name input b tracked).0
  step-Tracked (destroys id) b tracked =
      destroy_found-Tracked (lookup id b.containers) _ (popped-Tracked id b tracked)
  step-Tracked (asks id) b tracked = status_found-Tracked (lookup id b.containers) b tracked

  run-Tracked : (calls : List (Call S)) (b : DockerBackend S K) → Tracked b → Tracked (run calls b)
  unfolding run
  run-Tracked [] b tracked = tracked
  run-Tracked (x ∷ xs) b tracked = run-Tracked xs (step x b) (step-Tracked x b tracked)

  -- From tables that agree, after any calls, whatever the daemon answers, the tables agree, and a call
  -- of a tool does not raise the KeyError of a missing recipe or tool.
  pub run_executes :
      (calls : List (Call S)) (b : DockerBackend S K) (deadline : Deadline S)
      (script id tool_name : String) (input : Fields)
      → Tracked b
      → Tracked (run calls b)
        × ((execute c deadline script id tool_name input (run calls b)).1 ≢ err key_error)
  run_executes calls b deadline script id tool_name input tracked =
      let held = run-Tracked calls b tracked in
      (held, (execute-Fine deadline script id tool_name input (run calls b) held).1)
