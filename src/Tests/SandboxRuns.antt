-- ===== src/Tests/SandboxRuns.antt =====
-- The sandbox facade at concrete inputs.
use tename.Prelude.{◌≡◌, refl, true, none, some, [], ◌∷◌, ok, err, ◌⊎◌}
use tename.Sandbox.StateMachine.{destroyed, ready, running, assert_transition, invalid_transition}
use tename.Sandbox.Service.{
  ToolResult, Statuses, set_status, status_or_ready, returned, execute, is_timeout,
}
use tename.Sandbox.Lifecycle.{
  Follows, outcome_status, result_of, execute_lem, executes, destroys, use_all, use_all-Follows,
}

abbrev boxes : Statuses
boxes = ("a", ready) ∷ ("b", destroyed) ∷ []

abbrev slow : ToolResult
slow = record {
  is_error = true;
  content = "";
  stdout = "";
  stderr = "";
  exit_code = none;
  error = some "Timeout after 600s";
}

slow-is_timeout : is_timeout slow ≡ true
unfolding is_timeout
slow-is_timeout = refl

execute_lem_example :
    ((assert_transition (status_or_ready "a" boxes) running ≡ ok tt)
      × (execute (λ d. d) "a" (returned slow) boxes ≡ (
        set_status "a" (outcome_status (returned slow)) (set_status "a" running boxes),
        result_of (returned slow),
      )))
    ⊎ ((assert_transition (status_or_ready "a" boxes) running ≡ err invalid_transition)
        × (execute (λ d. d) "a" (returned slow) boxes ≡ (boxes, err invalid_transition)))
execute_lem_example = execute_lem "a" (returned slow) boxes

use_all-Follows_example :
    Follows boxes (use_all boxes (executes "a" (returned slow) ∷ destroys "a" (returned tt) ∷ []))
use_all-Follows_example =
    use_all-Follows boxes (executes "a" (returned slow) ∷ destroys "a" (returned tt) ∷ [])
