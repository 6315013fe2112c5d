-- ===== src/Tests/DockerRuns.antt =====
-- The Docker backend with a client whose containers are the ones of ToolRuns.
use tename.Prelude.{
  ℕ, ◌≡◌, ◌≢◌, refl, true, false, some, none, List, [], ◌∷◌, String, str_eq, ok, err, ◌==◌,
  if◌then◌else◌,
}
use tename.Json.{Fields, field, str, end, get}
use tename.Sandbox.StateMachine.{
  running, error, invalid_transition, assert_transition, same_status, allowed_transitions,
}
use tename.Sandbox.Recipes.{SandboxRecipe, open_network}
use tename.Sandbox.Service.{ToolResult, Statuses, set_status, Answer, returned, occurs, is_prefix}
use tename.Sandbox.Service as Facade
use tename.Sandbox.Tools.{run_exec, Container, Exec}
use tename.Sandbox.Tools.Files.{file_read_tool}
use tename.Sandbox.Docker.{
  Client, DockerBackend, in_time, late, key_error, timeout_failure, execute,
}
use tename.Sandbox.Docker.Invariant.{Call, provisions, destroys, Tracked, run, run_executes}
use tename.Sandbox.Docker.Timeouts.{killed, answer_of, timeout_lem, failed_read_lem}
use tename.Tests.ToolRuns.{Disk, box}

abbrev client : Client Disk ℕ
client = record {
  get_image = λ image d. (d, ok tt);
  pull_image = λ image d. (d, ok tt);
  run_container = λ settings d. (d, ok 1);
  container = λ k. box;
  id_of = λ k. some "0123456789abcdef";
  stop = λ k d. (d, ok tt);
  remove = λ k d. (d, ok tt);
  kill = λ k d. (d, ok tt);
  reload = λ k d. (d, ok (some "running"));
  is_timeout_error = λ e. false;
  decimal = λ n. "600";
}

abbrev recipe : SandboxRecipe
recipe = record {
  runtime = "python:3.12-slim";
  packages = [];
  files = ("/workspace/a.py", "x = 1") ∷ [];
  env = [];
  cpu_limit = 2;
  memory_limit_mb = 4096;
  timeout_seconds = 600;
  network_policy = open_network;
}

abbrev nothing : DockerBackend Disk ℕ
nothing = record { containers = []; recipes = []; daemon = [] }

abbrev calls : List (Call Disk)
calls = provisions recipe ∷ destroys "other" ∷ []

run_executes_example :
    Tracked (run client calls nothing)
    × ((execute client in_time "/tmp/s.py" "0123456789ab" "bash" end (run client calls nothing)).1
        ≢ err key_error)
unfolding tename.Prelude.Dicts.lookup
run_executes_example =
    run_executes client calls nothing in_time "/tmp/s.py" "0123456789ab" "bash" end (λ id. refl)

abbrev one : DockerBackend Disk ℕ
one = record { containers = ("a", 1) ∷ []; recipes = ("a", recipe) ∷ []; daemon = [] }

timeout_lem_example :
    (execute client (late (λ d. d)) "/tmp/s.py" "a" "bash" end one
      ≡ (record one { daemon = killed client 1 [] }, ok (timeout_failure "bash" "600")))
    × (Facade.execute
          (λ d. d)
          "a"
          (answer_of (execute client (late (λ d. d)) "/tmp/s.py" "a" "bash" end one).1)
          []
        ≡ (set_status "a" error (set_status "a" running []), ok (timeout_failure "bash" "600")))
unfolding tename.Sandbox.Tools.Builtin.is_builtin tename.Prelude.Dicts.lookup assert_transition
    same_status Facade.status_of allowed_transitions
timeout_lem_example =
    timeout_lem client 1 recipe (λ d. d) "/tmp/s.py" "a" "bash" end one [] refl refl refl refl

-- A container without files, which names the missing one.
abbrev empty_box : Container Disk
empty_box = record box {
  exec_run = λ command d. (
    d,
    ok (record {
      exit_code = some 1;
      stdout = none;
      stderr = some "cat: timeout.log: No such file or directory";
    }),
  );
}

abbrev read_input : Fields
read_input = field "path" (str "timeout.log") end

failed_read_lem_example :
    (report : ToolResult) × ((file_read_tool empty_box read_input [] ≡ ([], ok report))
      × (Facade.execute (λ d. d) "a" (returned report) []
          ≡ (set_status "a" error (set_status "a" running []), ok report))
      × ((answer : Answer ToolResult)
          → Facade.execute (λ d. d) "a" answer (set_status "a" error (set_status "a" running []))
            ≡ (set_status "a" error (set_status "a" running []), err invalid_transition)))
unfolding get occurs assert_transition same_status Facade.status_of allowed_transitions run_exec
failed_read_lem_example =
    failed_read_lem empty_box read_input "timeout.log" "a" [] []
      (record {
        exit_code = 1;
        stdout = "";
        stderr = "cat: timeout.log: No such file or directory";
      })
      [] refl refl refl refl refl refl
