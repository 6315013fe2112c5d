-- ===== src/Sandbox/Service.antt =====
-- src/tename/sandbox/service.py. What the backend answers is an argument of each call: a value, or
-- that it raised. The statuses change also when a call raises.
use tename.Prelude.{
  ℕ, ◌≡◌, refl, Bool, true, false, ◌&&◌, Option, none, some, List, [], ◌∷◌, String, str_eq, eq_iff,
  ◌+◌, ◌==◌, leb, Result, ok, err, if◌then◌else◌, arith,
}
use tename.Json.Dumps.{codes}
use tename.Sandbox.StateMachine.{
  SandboxStatus, ready, running, idle, destroyed, error, Failure, backend_error, assert_transition,
}

-- types.py
pub record ToolResult : Type 0 where
  pub is_error : Bool
  pub content : String
  pub stdout : String
  pub stderr : String
  pub exit_code : Option ℕ
  pub error : Option String

-- self._status
abbrev pub Statuses : Type 0
Statuses = List (String × SandboxStatus)

-- self._status.get(sandbox_id)
unfoldable pub status_of : String → Statuses → Option SandboxStatus
status_of id [] = none
status_of id ((i, s) ∷ rest) = if str_eq i id then some s else status_of id rest

-- self._status[sandbox_id] = status
unfoldable pub set_status : String → SandboxStatus → Statuses → Statuses
set_status id s [] = (id, s) ∷ []
set_status id s ((i, t) ∷ rest) =
    if str_eq i id then (id, s) ∷ rest else (i, t) ∷ set_status id s rest

pub status-set_status :
    (id j : String) (s : SandboxStatus) (statuses : Statuses)
    → status_of j (set_status id s statuses)
      ≡ (if str_eq id j then some s else status_of j statuses)
unfolding status_of set_status
status-set_status id j s [] = refl
status-set_status id j s ((i, t) ∷ rest) =
    ground (arith, eq_iff id j, eq_iff i id, eq_iff i j, status-set_status id j s rest)

-- self._status.get(sandbox_id, SandboxStatus.READY)
abbrev pub or_ready : Option SandboxStatus → SandboxStatus
or_ready none = ready
or_ready (some s) = s

abbrev pub status_or_ready : String → Statuses → SandboxStatus
status_or_ready id statuses = or_ready (status_of id statuses)

-- What a call of the backend comes to.
pub data Answer {ℓ} (A : Type ℓ) : Type ℓ where
  raised : Answer A
  returned : A → Answer A

unfoldable pub provision : Answer String → Statuses → Statuses × Result Failure String
provision raised statuses = (statuses, err backend_error)
provision (returned id) statuses = (set_status id ready statuses, ok id)

-- _transition
unfoldable pub transition : String → SandboxStatus → Statuses → Statuses × Result Failure (Unit {0})
transition id nxt statuses = elim (assert_transition (status_or_ready id statuses) nxt) [
  | err e ↦ (statuses, err e)
  | ok _ ↦ (set_status id nxt statuses, ok tt)
]

-- str.lower, for the letters that "timeout" is made of
abbrev lower : ℕ → ℕ
lower c = if leb 65 c && leb c 90 then c + 32 else c

unfoldable pub is_prefix : List ℕ → List ℕ → Bool
is_prefix [] text = true
is_prefix (p ∷ ps) [] = false
is_prefix (p ∷ ps) (c ∷ cs) = lower c == p && is_prefix ps cs

unfoldable pub occurs : List ℕ → List ℕ → Bool
unfolding is_prefix
occurs part [] = is_prefix part []
occurs part (c ∷ cs) = let later = occurs part cs in if is_prefix part (c ∷ cs) then true else later

-- `result.is_error and result.error and "timeout" in result.error.lower()`
unfoldable pub is_timeout : ToolResult → Bool
unfolding occurs
is_timeout r =
    r.is_error && (elim r.error [ none ↦ false | some e ↦ occurs (codes "timeout") (codes e) ])

abbrev pub finish_with {ℓ} :
    {A : Type ℓ}
    → Statuses × Result Failure (Unit {0})
    → Result Failure A
    → Statuses × Result Failure A
finish_with (statuses, ok _) r = (statuses, r)
finish_with (statuses, err e) r = (statuses, err e)

-- The second half, after the backend has answered.
unfoldable pub settle : String → Answer ToolResult → Statuses → Statuses × Result Failure ToolResult
settle id raised statuses = finish_with (transition id error statuses) (err backend_error)
settle id (returned r) statuses =
    finish_with (transition id (if is_timeout r then error else idle) statuses) (ok r)

-- `meanwhile` is what other tasks do to the statuses while the backend works.
unfoldable pub execute :
    (meanwhile : Statuses → Statuses)
    → String
    → Answer ToolResult
    → Statuses
    → Statuses × Result Failure ToolResult
execute meanwhile id answer statuses =
    elim (assert_transition (status_or_ready id statuses) running) [
      | err e ↦ (statuses, err e)
      | ok _ ↦ settle id answer (meanwhile (set_status id running statuses))
    ]

unfoldable pub destroy :
    String → Answer (Unit {0}) → Statuses → Statuses × Result Failure (Unit {0})
destroy id answer statuses = elim (status_of id statuses) [
  | none ↦ elim answer [ raised ↦ (statuses, err backend_error) | returned _ ↦ (statuses, ok tt) ]
  | some current ↦ elim (assert_transition current destroyed) [
    | err e ↦ (statuses, err e)
    | ok _ ↦ elim answer [
      | raised ↦ (statuses, err backend_error)
      | returned _ ↦ (set_status id destroyed statuses, ok tt)
    ]
  ]
]

-- A backend that says DESTROYED or ERROR is believed.
abbrev pub believed : SandboxStatus → Bool
believed destroyed = true
believed error = true
believed _ = false

unfoldable pub status :
    String → Answer SandboxStatus → Statuses → Statuses × Result Failure SandboxStatus
status id raised statuses = (statuses, err backend_error)
status id (returned view) statuses = elim (status_of id statuses) [
  | none ↦ (statuses, ok view)
  | some tracked ↦
      if believed view then (set_status id view statuses, ok view) else (statuses, ok tracked)
]
