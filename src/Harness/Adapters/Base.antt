-- ===== src/Harness/Adapters/Base.antt =====
-- src/tename/harness/adapters/base.py: pending events and the registry of adapters.
use tename.Prelude.{
  ℕ, ◌≡◌, Option, none, some, List, [], ◌∷◌, String, str_eq, if◌then◌else◌, ◌==◌, Result, ok, err,
}
use tename.Json.{Json, Fields}
use tename.Sessions.Models.{EventType}

-- What the interpreter makes of texts and values: `uuid.UUID(text)`, which is `none` for a
-- ValueError, `str(uuid)`, and `str(value)` of a value that is neither a string nor a list.
pub record Python : Type 0 where
  pub uuid_of : String → Option ℕ
  pub text_of_uuid : ℕ → String
  pub uuid_of-text : (n : ℕ) → uuid_of (text_of_uuid n) ≡ some n
  pub str_of : Json → String

pub record PendingEvent : Type 0 where
  pub id : ℕ
  pub type : EventType
  pub payload : Fields

-- _ADAPTERS: a class is named by a number, its identity.
abbrev pub Registry : Type 0
Registry = List (String × ℕ)

pub data RegistryError : Type 0 where
  already_registered unknown_adapter : RegistryError

unfoldable pub find_class : String → Registry → Option ℕ
find_class name [] = none
find_class name ((n, cls) ∷ rest) = if str_eq n name then some cls else find_class name rest

unfoldable pub register_adapter : String → ℕ → Registry → Result RegistryError Registry
register_adapter name cls registry = elim (find_class name registry) [
  | none ↦ ok ((name, cls) ∷ registry)
  | some existing ↦ if existing == cls then ok registry else err already_registered
]

unfoldable pub get_adapter : String → Registry → Result RegistryError ℕ
get_adapter name registry = elim (find_class name registry) [
  | none ↦ err unknown_adapter
  | some cls ↦ ok cls
]
