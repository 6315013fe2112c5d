-- ===== src/Sandbox/Docker/Timeouts.antt =====
-- A timeout of the Docker backend as the facade of service.py sees it, and what else it takes for one.
use text.Mathlib.TextPositions.{eq_refl}
use text.Mathlib.TextLemmas.{nil-append, cons-append}
use tename.Prelude.{
  ℕ, ◌≡◌, refl, ap, true, false, Option, none, some, List, [], ◌∷◌, ◌++◌, String, Result, ok, err,
  ◌==◌, Bool-cases, inl, inr, eq_iff, subst, code,
}
use tename.Prelude.Actions.{catch, give, recover, continue}
use tename.Prelude.Dicts.{lookup, lookup_of_any}
use tename.Json.{Fields, str, get, is_empty}
use tename.Json.Dumps.{codes}
use tename.Sandbox.StateMachine.{
  running, error, invalid_transition, assert_transition, same_status, allowed_transitions,
}
use tename.Sandbox.Recipes.{SandboxRecipe}
use tename.Sandbox.Service.{
  ToolResult, Statuses, set_status, status_of, status-set_status, status_or_ready, or_ready, Answer,
  raised, returned, is_prefix, occurs, is_timeout,
}
use tename.Sandbox.Service as Facade
use tename.Sandbox.Lifecycle.{execute_lem}
use tename.Sandbox.Tools.{run_exec, Container, Exec, ToolError, ◌<>◌, failed_exec}
use tename.Sandbox.Tools.Texts.{is_some}
use tename.Sandbox.Tools.Files.{file_read_tool}
use tename.Sandbox.Tools.Builtin.{SandboxToolFn, builtin_tools, is_builtin}
use tename.Sandbox.Docker.{
  Client, DockerError, DockerBackend, late, on_daemon, daemon_result, timeout_failure, time_out,
  run_builtin, execute,
}

codes-append : (s t : String) → codes (s <> t) ≡ codes s ++ codes t
codes-append String.[] t = rw (nil-append t) refl
codes-append (String.◌∷◌ c s) t = rw (cons-append c s t) (ap (◌∷◌ (code c)) (codes-append s t))

occurs-append : (part xs ys : List ℕ) → occurs part ys ≡ true → occurs part (xs ++ ys) ≡ true
unfolding occurs
occurs-append part [] ys h = h
occurs-append part (x ∷ xs) ys h = elim (Bool-cases (is_prefix part (x ∷ xs ++ ys))) [
  | inl here ↦ rw here refl
  | inr later ↦ rw later (occurs-append part xs ys h)
]

-- The message of a timeout says so.
is_timeout-timeout_failure :
    (tool_name seconds : String) → is_timeout (timeout_failure tool_name seconds) ≡ true
unfolding is_timeout timeout_failure occurs is_prefix
is_timeout-timeout_failure tool_name seconds =
    let m = "tool '" <> tool_name <> "' exceeded " <> seconds in
    rw (codes-append m "s timeout")
      (occurs-append (codes "timeout") (codes m) (codes "s timeout") refl)

-- `await self._backend.execute(...)`
abbrev pub answer_of : {A : Type 0} → Result DockerError A → Answer A
answer_of (ok a) = returned a
answer_of (err e) = raised

-- The facade takes a report of a timeout for one, from whatever it comes.
settled :
    (id : String) (report : ToolResult) (statuses : Statuses)
    → is_timeout report ≡ true
    → assert_transition (status_or_ready id statuses) running ≡ ok tt
    → Facade.execute (λ d. d) id (returned report) statuses
      ≡ (set_status id error (set_status id running statuses), ok report)
settled id report statuses timed fine = elim (execute_lem id (returned report) statuses) [
  | inl (allowed, ran) ↦ rw timed at ran
  | inr (refused, ran) ↦ cc (fine, refused)
]

module _ {S K : Type 0} (c : Client S K) where
  -- What is left of the daemon after the kill, whether that raised or not.
  abbrev pub killed : K → S → S
  killed k s = (catch (c.kill k) (λ _. give tt) s).0

  after_kill :
      {A : Type 0} (a : A) (b : DockerBackend S K) (out : S × Result ToolError (Unit {0}))
      → continue (daemon_result b (recover (λ _. give tt) out)) (λ _. give a)
        ≡ (record b { daemon = (recover (λ _. give tt) out).0 }, ok a)
  after_kill a b (s, ok u) = refl
  after_kill a b (s, err e) = refl

  time_out_lem :
      (k : K) (tool_name : String) (r : SandboxRecipe) (b : DockerBackend S K)
      → time_out c k tool_name r b ≡ (
        record b { daemon = killed k b.daemon },
        ok (timeout_failure tool_name (c.decimal r.timeout_seconds)),
      )
  unfolding on_daemon catch
  time_out_lem k tool_name r b =
      after_kill (timeout_failure tool_name (c.decimal r.timeout_seconds)) b (c.kill k b.daemon)

  timed_tool :
      (k : K) (r : SandboxRecipe) (thread : S → S) (script tool_name : String) (input : Fields)
      (tool : Option (SandboxToolFn S)) (b : DockerBackend S K)
      → is_some tool ≡ true
      → run_builtin c (late thread) script k r tool_name input tool b ≡ (
        record b { daemon = killed k (thread b.daemon) },
        ok (timeout_failure tool_name (c.decimal r.timeout_seconds)),
      )
  timed_tool k r thread script tool_name input none b there = cc there
  timed_tool k r thread script tool_name input (some tool) b there =
      time_out_lem k tool_name r (record b { daemon = thread b.daemon })

  builtin_some :
      (tool_name : String)
      → is_builtin tool_name ≡ true
      → is_some (lookup tool_name (builtin_tools {S = S})) ≡ true
  unfolding is_builtin
  builtin_some tool_name builtin =
      let found = lookup_of_any tool_name (builtin_tools {S = S}) builtin in rw found.1 refl

  -- When the time of a built-in tool is up in a sandbox that is there, the container is killed after
  -- what the thread did, and the facade, where the sandbox may start running, returns the backend's
  -- report and leaves the sandbox in ERROR.
  pub timeout_lem :
      (k : K) (r : SandboxRecipe) (thread : S → S) (script id tool_name : String) (input : Fields)
      (b : DockerBackend S K) (statuses : Statuses)
      → is_builtin tool_name ≡ true
      → lookup id b.containers ≡ some k
      → lookup id b.recipes ≡ some r
      → assert_transition (status_or_ready id statuses) running ≡ ok tt
      → (execute c (late thread) script id tool_name input b ≡ (
        record b { daemon = killed k (thread b.daemon) },
        ok (timeout_failure tool_name (c.decimal r.timeout_seconds)),
      ))
        × (Facade.execute
              (λ d. d)
              id
              (answer_of (execute c (late thread) script id tool_name input b).1)
              statuses
            ≡ (
              set_status id error (set_status id running statuses),
              ok (timeout_failure tool_name (c.decimal r.timeout_seconds)),
            ))
  unfolding execute
  timeout_lem k r thread script id tool_name input b statuses builtin at_k at_r fine =
      let report = timeout_failure tool_name (c.decimal r.timeout_seconds) in
      let ran : execute c (late thread) script id tool_name input b
          ≡ (record b { daemon = killed k (thread b.daemon) }, ok report) =
        rw (builtin, at_k, at_r)
          (timed_tool k r thread script tool_name input _ b (builtin_some tool_name builtin)) in
      (
        ran,
        rw ran (
            settled id report statuses
              (is_timeout-timeout_failure tool_name (c.decimal r.timeout_seconds)) fine),
      )

-- A text with "timeout" in it is not empty.
not_empty : (s : String) → occurs (codes "timeout") (codes s) ≡ true → is_empty s ≡ false
unfolding occurs is_prefix
not_empty s h = elim (Bool-cases (is_empty s)) [
  | inr full ↦ full
  | inl empty ↦
      let same : s ≡ "" = (eq_iff s "").0 empty in
      absurd (cc (subst (λ t. occurs (codes "timeout") (codes t) ≡ true) same h))
]

-- A sandbox in ERROR runs no tool.
error_refuses :
    (id : String) (answer : Answer ToolResult) (before : Statuses)
    → Facade.execute (λ d. d) id answer (set_status id error before)
      ≡ (set_status id error before, err invalid_transition)
unfolding assert_transition same_status allowed_transitions
error_refuses id answer before =
    let now : status_or_ready id (set_status id error before) ≡ error =
      rw (ap or_ready (status-set_status id id error before)) (rw (eq_refl id) refl) in
    elim (execute_lem id answer (set_status id error before)) [
      | inr (refused, ran) ↦ ran
      | inl (allowed, ran) ↦ absurd (cc (rw now at allowed))
    ]

-- Where `cat` fails with a message that has "timeout" in it, as for a missing file of such a name,
-- file_read reports that message, the facade takes it for a timeout, and every later call of a tool in
-- that sandbox is refused.
pub failed_read_lem :
    {S : Type 0} (c : Container S) (input : Fields) (path id : String) (s s' : S) (r : Exec)
    (statuses : Statuses)
    → get "path" input ≡ some (str path)
    → is_empty path ≡ false
    → run_exec c ("cat" ∷ "--" ∷ path ∷ []) s ≡ (s', ok r)
    → (r.exit_code == 0) ≡ false
    → occurs (codes "timeout") (codes (c.strip r.stderr)) ≡ true
    → assert_transition (status_or_ready id statuses) running ≡ ok tt
    → (report : ToolResult) × ((file_read_tool c input s ≡ (s', ok report))
        × (Facade.execute (λ d. d) id (returned report) statuses
            ≡ (set_status id error (set_status id running statuses), ok report))
        × ((answer : Answer ToolResult)
            → Facade.execute
                (λ d. d)
                id
                answer
                (set_status id error (set_status id running statuses))
              ≡ (set_status id error (set_status id running statuses), err invalid_transition)))
unfolding file_read_tool is_timeout
failed_read_lem c input path id s s' r statuses at_path some_path ran failed says fine =
    let report = failed_exec c ("file_read exited with code " <> c.decimal r.exit_code) r in
    (
      report,
      (
        rw (at_path, some_path, ran, failed) refl,
        settled id report statuses (rw (not_empty (c.strip r.stderr) says, says) refl) fine,
        λ answer. error_refuses id answer (set_status id running statuses),
      ),
    )
