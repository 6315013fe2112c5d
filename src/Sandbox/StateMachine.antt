-- ===== src/Sandbox/StateMachine.antt =====
-- src/tename/sandbox/state_machine.py and the status of types.py. Logging is left out.
use tename.Prelude.{
  ℕ, ◌≡◌, refl, Bool, List, [], ◌∷◌, Result, ok, err, if◌then◌else◌, ◌==◌, any, ◌⊎◌, ◌↔◌, subst,
  inl, inr,
}

pub data SandboxStatus : Type 0 where
  provisioning ready running idle destroyed error : SandboxStatus

pub data Failure : Type 0 where
  invalid_transition : Failure
  backend_error : Failure  -- whatever the backend raised

unfoldable pub tag : SandboxStatus → ℕ
tag provisioning = 0
tag ready = 1
tag running = 2
tag idle = 3
tag destroyed = 4
tag error = 5

-- `==` on the enumeration
unfoldable pub same_status : SandboxStatus → SandboxStatus → Bool
unfolding tag
same_status a b = tag a == tag b

unfoldable pub allowed_transitions : SandboxStatus → List SandboxStatus
allowed_transitions provisioning = ready ∷ error ∷ destroyed ∷ []
allowed_transitions ready = running ∷ destroyed ∷ error ∷ []
allowed_transitions running = idle ∷ error ∷ destroyed ∷ []
allowed_transitions idle = running ∷ destroyed ∷ error ∷ []
allowed_transitions error = destroyed ∷ []
allowed_transitions destroyed = []

-- A transition to the same state is a no-op.
unfoldable pub assert_transition : SandboxStatus → SandboxStatus → Result Failure (Unit {0})
assert_transition current nxt =
    if same_status nxt current
    then ok tt
    else if any (same_status nxt) (allowed_transitions current)
    then ok tt
    else err invalid_transition

-- The states with an edge to `error`, and those with an edge to `destroyed`.
abbrev pub IsLive : SandboxStatus → Type 0
IsLive error = ⊥
IsLive destroyed = ⊥
IsLive _ = Unit

abbrev pub IsUp : SandboxStatus → Type 0
IsUp destroyed = ⊥
IsUp _ = Unit

-- The life of a sandbox, as ALLOWED_TRANSITIONS has it. The drawing in docs/architecture/sandbox.md has
-- other edges: from running and from idle back to ready, none from idle to running, and none to error.
infix 40 ◌⟶◌ ◌⟶*◌
pub data ◌⟶◌ : SandboxStatus → SandboxStatus → Type 0 where
  provisioned : provisioning ⟶ ready
  start : ready ⟶ running
  finish : running ⟶ idle
  restart : idle ⟶ running
  fail : {s : SandboxStatus} → IsLive s → s ⟶ error
  destroy : {s : SandboxStatus} → IsUp s → s ⟶ destroyed

pub data ◌⟶*◌ : SandboxStatus → SandboxStatus → Type 0 where
  here : {s : SandboxStatus} → s ⟶* s
  step : {s t u : SandboxStatus} → s ⟶ t → t ⟶* u → s ⟶* u

pub ⟶*-trans : {s t u : SandboxStatus} → s ⟶* t → t ⟶* u → s ⟶* u
⟶*-trans here q = q
⟶*-trans (step e p) q = step e (⟶*-trans p q)

-- What `assert_transition` accepts leaves the state as it is or is an edge of the life of a sandbox.
pub assert_transition_sound :
    (s t : SandboxStatus) → assert_transition s t ≡ ok tt → (s ≡ t) ⊎ (s ⟶ t)
unfolding assert_transition same_status allowed_transitions
assert_transition_sound provisioning provisioning h = inl refl
assert_transition_sound provisioning ready h = inr provisioned
assert_transition_sound provisioning destroyed h = inr (destroy tt)
assert_transition_sound provisioning error h = inr (fail tt)
assert_transition_sound ready ready h = inl refl
assert_transition_sound ready running h = inr start
assert_transition_sound ready destroyed h = inr (destroy tt)
assert_transition_sound ready error h = inr (fail tt)
assert_transition_sound running running h = inl refl
assert_transition_sound running idle h = inr finish
assert_transition_sound running destroyed h = inr (destroy tt)
assert_transition_sound running error h = inr (fail tt)
assert_transition_sound idle idle h = inl refl
assert_transition_sound idle running h = inr restart
assert_transition_sound idle destroyed h = inr (destroy tt)
assert_transition_sound idle error h = inr (fail tt)
assert_transition_sound error error h = inl refl
assert_transition_sound error destroyed h = inr (destroy tt)
assert_transition_sound destroyed destroyed h = inl refl
assert_transition_sound _ _ h = cc

-- `assert_transition` accepts every edge of the life of a sandbox.
pub assert_transition_complete : {s t : SandboxStatus} → s ⟶ t → assert_transition s t ≡ ok tt
unfolding assert_transition same_status allowed_transitions
assert_transition_complete provisioned = refl
assert_transition_complete start = refl
assert_transition_complete finish = refl
assert_transition_complete restart = refl
assert_transition_complete (fail {s = provisioning} h) = refl
assert_transition_complete (fail {s = ready} h) = refl
assert_transition_complete (fail {s = running} h) = refl
assert_transition_complete (fail {s = idle} h) = refl
assert_transition_complete (fail {s = destroyed} h) = elim h [ ]
assert_transition_complete (fail {s = error} h) = elim h [ ]
assert_transition_complete (destroy {s = provisioning} h) = refl
assert_transition_complete (destroy {s = ready} h) = refl
assert_transition_complete (destroy {s = running} h) = refl
assert_transition_complete (destroy {s = idle} h) = refl
assert_transition_complete (destroy {s = error} h) = refl
assert_transition_complete (destroy {s = destroyed} h) = elim h [ ]

accepts_same : (s : SandboxStatus) → assert_transition s s ≡ ok tt
unfolding assert_transition same_status
accepts_same provisioning = refl
accepts_same ready = refl
accepts_same running = refl
accepts_same idle = refl
accepts_same error = refl
accepts_same destroyed = refl

-- `assert_transition` accepts a move exactly if it leaves the state as it is or is an edge of the
-- life of a sandbox.
pub assert_transition_iff :
    (s t : SandboxStatus) → (assert_transition s t ≡ ok tt) ↔ ((s ≡ t) ⊎ (s ⟶ t))
assert_transition_iff s t = (
  assert_transition_sound s t,
  λ move. elim move [
    | inl same ↦ subst (λ u. assert_transition s u ≡ ok tt) same (accepts_same s)
    | inr edge ↦ assert_transition_complete edge
  ],
)

-- Nothing leads out of `destroyed`.
pub ⟶*-of_destroyed : {s t : SandboxStatus} → s ⟶* t → s ≡ destroyed → t ≡ destroyed
⟶*-of_destroyed here e = e
⟶*-of_destroyed (step provisioned p) e = cc
⟶*-of_destroyed (step start p) e = cc
⟶*-of_destroyed (step finish p) e = cc
⟶*-of_destroyed (step restart p) e = cc
⟶*-of_destroyed (step (fail h) p) e = absurd (rw e at h)
⟶*-of_destroyed (step (destroy h) p) e = absurd (rw e at h)
