-- ===== src/Sandbox/Lifecycle.antt =====
-- The facade of src/tename/sandbox/service.py against the transitions of its state machine.
use tename.Prelude.{
  ◌≡◌, refl, ap, any, ◌∙◌, true, false, some, List, [], ◌∷◌, String, str_eq, eq_iff, Result, ok,
  err, if◌then◌else◌, inl, inr, ◌⊎◌, Bool-cases, Option-cases, subst,
}
use text.Mathlib.TextPositions.{eq_refl}
use tename.Sandbox.StateMachine.{
  SandboxStatus, running, idle, destroyed, error, Failure, backend_error, invalid_transition,
  assert_transition, same_status, allowed_transitions, assert_transition_sound,
  assert_transition_complete, ◌⟶◌, ◌⟶*◌, here, step, finish, fail, ⟶*-trans, ⟶*-of_destroyed,
}
use tename.Sandbox.Service.{
  ToolResult, Statuses, status_of, set_status, status-set_status, or_ready, status_or_ready, Answer,
  raised, returned, is_timeout, finish_with, transition, settle, execute, destroy, status,
}

abbrev pub outcome_status : Answer ToolResult → SandboxStatus
outcome_status raised = error
outcome_status (returned r) = if is_timeout r then error else idle

running_moves : (answer : Answer ToolResult) → running ⟶ outcome_status answer
running_moves raised = fail tt
running_moves (returned r) = elim (is_timeout r) as (λ b. running ⟶ (if b then error else idle)) [
  | true ↦ fail tt
  | false ↦ finish
]

assert_cases :
    (s t : SandboxStatus)
    → (assert_transition s t ≡ ok tt) ⊎ (assert_transition s t ≡ err invalid_transition)
unfolding assert_transition
assert_cases s t = elim (Bool-cases (same_status t s)) [
  | inl same ↦ inl (rw same)
  | inr other ↦ elim (Bool-cases (any (same_status t) (allowed_transitions s))) [
    | inl permitted ↦ inl (rw other (rw permitted))
    | inr forbidden ↦ inr (rw other (rw forbidden))
  ]
]

-- A transition that the table allows.
transition_ok :
    (id : String) (nxt : SandboxStatus) (statuses : Statuses)
    → assert_transition (status_or_ready id statuses) nxt ≡ ok tt
    → transition id nxt statuses ≡ (set_status id nxt statuses, ok tt)
unfolding transition
transition_ok id nxt statuses h = rw (h, transition)

-- From RUNNING the call ends in the status of its outcome, and raises what the backend raised.
abbrev pub result_of : Answer ToolResult → Result Failure ToolResult
result_of raised = err backend_error
result_of (returned r) = ok r

settle_running :
    (id : String) (answer : Answer ToolResult) (statuses : Statuses)
    → status_of id statuses ≡ some running
    → settle id answer statuses ≡ (set_status id (outcome_status answer) statuses, result_of answer)
unfolding settle
settle_running id raised statuses h =
    ap (λ t. finish_with t (err backend_error))
      (transition_ok id error statuses
        (rw (ap or_ready h) (assert_transition_complete (running_moves raised))))
settle_running id (returned r) statuses h =
    ap (λ t. finish_with t (ok r))
      (transition_ok id (outcome_status (returned r)) statuses
        (rw (ap or_ready h) (assert_transition_complete (running_moves (returned r)))))

running_set :
    (id : String) (statuses : Statuses)
    → status_of id (set_status id running statuses) ≡ some running
running_set id statuses = status-set_status id id running statuses ∙ rw (eq_refl id)

-- `execute` while no other task touches the statuses: if the sandbox may start running, it ends in
-- IDLE, or in ERROR after a timeout or an exception of the backend, and returns the backend's answer;
-- if not, the call is refused, whatever the backend would answer, and no status changes.
pub execute_lem :
    (id : String) (answer : Answer ToolResult) (statuses : Statuses)
    → ((assert_transition (status_or_ready id statuses) running ≡ ok tt)
        × (execute (λ d. d) id answer statuses ≡ (
          set_status id (outcome_status answer) (set_status id running statuses),
          result_of answer,
        )))
      ⊎ ((assert_transition (status_or_ready id statuses) running ≡ err invalid_transition)
          × (execute (λ d. d) id answer statuses ≡ (statuses, err invalid_transition)))
unfolding execute
execute_lem id answer statuses = elim (assert_cases (status_or_ready id statuses) running) [
  | inl fine ↦ inl (
    fine,
    rw (fine, execute)
        (settle_running id answer (set_status id running statuses) (running_set id statuses)),
  )
  | inr refused ↦ inr (refused, rw (refused, execute) refl)
]

-- The statuses of all sandboxes move along `⟶`.
pub record Follows (before after : Statuses) : Type 0 where
  pub moves : (id : String) → status_or_ready id before ⟶* status_or_ready id after

one_move : {s t : SandboxStatus} → (s ≡ t) ⊎ (s ⟶ t) → s ⟶* t
one_move {s} (inl e) = subst (λ x. s ⟶* x) e here
one_move (inr e) = step e here

Follows-set_status :
    (id : String) (s : SandboxStatus) (statuses : Statuses)
    → status_or_ready id statuses ⟶* s
    → Follows statuses (set_status id s statuses)
Follows-set_status id s statuses path = record {
  moves = λ j. elim (Bool-cases (str_eq id j)) [
    | inl same ↦
        rw (ap or_ready (status-set_status id j s statuses))
          (rw same (rw ((eq_iff id j).0 same) at path))
    | inr other ↦ rw (ap or_ready (status-set_status id j s statuses)) (rw other here)
  ];
}

Follows-trans : {a b c : Statuses} → Follows a b → Follows b c → Follows a c
Follows-trans p q = record { moves = λ j. ⟶*-trans (p.moves j) (q.moves j) }

-- `execute` moves every sandbox along `⟶`, or leaves it where it is.
pub execute-Follows :
    (id : String) (answer : Answer ToolResult) (statuses : Statuses)
    → Follows statuses (execute (λ d. d) id answer statuses).0
execute-Follows id answer statuses = elim (execute_lem id answer statuses) [
  | inl (fine, e) ↦ rw e (
      Follows-trans
        (Follows-set_status id running statuses
          (one_move (assert_transition_sound (status_or_ready id statuses) running fine)))
        (Follows-set_status id (outcome_status answer) (set_status id running statuses)
          (rw (ap or_ready (running_set id statuses)) (step (running_moves answer) here))))
  | inr (refused, e) ↦ rw e (record { moves = λ j. here })
]

destroy_raised : (id : String) (statuses : Statuses) → (destroy id raised statuses).0 ≡ statuses
unfolding destroy
destroy_raised id statuses = elim (Option-cases (status_of id statuses)) [
  | inl untracked ↦ rw (untracked, destroy) refl
  | inr (s, tracked) ↦ elim (assert_cases s destroyed) [
    | inl fine ↦ rw (tracked, destroy) (rw (fine, destroy) refl)
    | inr refused ↦ rw (tracked, destroy) (rw (refused, destroy) refl)
  ]
]

-- `destroy` moves every sandbox along `⟶`, or leaves it where it is.
pub destroy-Follows :
    (id : String) (answer : Answer (Unit {0})) (statuses : Statuses)
    → Follows statuses (destroy id answer statuses).0
unfolding destroy
destroy-Follows id raised statuses = rw (destroy_raised id statuses) (record { moves = λ j. here })
destroy-Follows id (returned u) statuses = elim (Option-cases (status_of id statuses)) [
  | inl untracked ↦ rw (untracked, destroy) (record { moves = λ j. here })
  | inr (s, tracked) ↦ elim (assert_cases s destroyed) [
    | inl fine ↦
        rw (tracked, destroy)
          (rw (fine, destroy)
            (Follows-set_status id destroyed statuses
              (rw (ap or_ready tracked) (one_move (assert_transition_sound s destroyed fine)))))
    | inr refused ↦ rw (tracked, destroy) (rw (refused, destroy) (record { moves = λ j. here }))
  ]
]

-- The two calls that work on a sandbox that is there.
pub data Use : Type 0 where
  executes : String → Answer ToolResult → Use
  destroys : String → Answer (Unit {0}) → Use

unfoldable pub use_sandbox : Statuses → Use → Statuses
use_sandbox statuses (executes id answer) = (execute (λ d. d) id answer statuses).0
use_sandbox statuses (destroys id answer) = (destroy id answer statuses).0

unfoldable pub use_all : Statuses → List Use → Statuses
use_all statuses [] = statuses
use_all statuses (u ∷ us) = use_all (use_sandbox statuses u) us

use_sandbox-Follows : (statuses : Statuses) (u : Use) → Follows statuses (use_sandbox statuses u)
unfolding use_sandbox
use_sandbox-Follows statuses (executes id answer) = execute-Follows id answer statuses
use_sandbox-Follows statuses (destroys id answer) = destroy-Follows id answer statuses

-- Whatever sandboxes are used and destroyed, one call after the other, and whatever the backend
-- answers, every status moves only along the edges: from provisioning to ready, from ready or idle to
-- running, from running to idle, from these to error, and from every state but destroyed to destroyed.
pub use_all-Follows :
    (statuses : Statuses) (uses : List Use) → Follows statuses (use_all statuses uses)
unfolding use_all
use_all-Follows statuses [] = record { moves = λ j. here }
use_all-Follows statuses (u ∷ us) =
    Follows-trans (use_sandbox-Follows statuses u) (use_all-Follows (use_sandbox statuses u) us)

destroyed_refuses : assert_transition destroyed running ≡ err invalid_transition
unfolding assert_transition allowed_transitions same_status
destroyed_refuses = refl

refused_after_destroy :
    (id : String) (answer : Answer ToolResult) (statuses : Statuses)
    → status_or_ready id statuses ≡ destroyed
    → execute (λ d. d) id answer statuses ≡ (statuses, err invalid_transition)
unfolding execute
refused_after_destroy id answer statuses h =
    let refused : assert_transition (status_or_ready id statuses) running ≡ err invalid_transition =
      rw h destroyed_refuses in
    rw (refused, execute) refl

-- A destroyed sandbox stays destroyed under any further uses, and each later `execute` on it is
-- refused without a change.
pub destroyed_is_final :
    (id : String) (statuses : Statuses) (uses : List Use) (answer : Answer ToolResult)
    → status_or_ready id statuses ≡ destroyed
    → (status_or_ready id (use_all statuses uses) ≡ destroyed)
      × (execute (λ d. d) id answer (use_all statuses uses)
          ≡ (use_all statuses uses, err invalid_transition))
destroyed_is_final id statuses uses answer h =
    let stays = ⟶*-of_destroyed ((use_all-Follows statuses uses).moves id) h in
    (stays, refused_after_destroy id answer (use_all statuses uses) stays)

-- `status` takes a tracked sandbox from DESTROYED to ERROR when the backend reports ERROR, and
-- `assert_transition` refuses that move.
pub status_leaves_destroyed :
    (id : String) (statuses : Statuses)
    → status_of id statuses ≡ some destroyed
    → (status id (returned error) statuses ≡ (set_status id error statuses, ok error))
      × (status_of id (status id (returned error) statuses).0 ≡ some error)
      × (assert_transition destroyed error ≡ err invalid_transition)
unfolding status assert_transition allowed_transitions same_status
status_leaves_destroyed id statuses h = (
  rw (h, status) refl,
  rw (h, status) (status-set_status id id error statuses ∙ rw (eq_refl id)),
  refl,
)
