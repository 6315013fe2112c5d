-- ===== src/Sessions/Models.antt =====
-- src/tename/sessions/models.py and exceptions.py. A UUID and a time are numbers; the text of an
-- exception is left out.
use tename.Prelude.{ℕ, Bool, true, false, Option, List, String, ◌==◌}
use tename.Json.{Fields}

pub data Error : Type 0 where
  validation not_found failed_precondition runtime : Error
  integrity : Error  -- sqlalchemy.exc.IntegrityError

pub data SessionStatus : Type 0 where
  active completed failed deleted : SessionStatus

-- `status in TERMINAL_STATUSES`
unfoldable pub is_terminal : SessionStatus → Bool
is_terminal active = false
is_terminal completed = true
is_terminal failed = true
is_terminal deleted = true

pub data EventType : Type 0 where
  user_message assistant_message tool_call tool_result harness_event system_event error : EventType

unfoldable pub tag : EventType → ℕ
tag user_message = 0
tag assistant_message = 1
tag tool_call = 2
tag tool_result = 3
tag harness_event = 4
tag system_event = 5
tag error = 6

-- `==` on the enumeration
unfoldable pub same_type : EventType → EventType → Bool
unfolding tag
same_type a b = tag a == tag b

pub record Agent : Type 0 where
  pub id : ℕ
  pub tenant_id : ℕ
  pub name : String
  pub model : String
  pub framework : String
  pub system_prompt : Option String
  pub tools : List String
  pub sandbox_recipe : Option Fields
  pub created_at : ℕ

pub record Session : Type 0 where
  pub id : ℕ
  pub tenant_id : ℕ
  pub agent_id : ℕ
  pub status : SessionStatus
  pub last_sequence : ℕ
  pub metadata : Fields
  pub created_at : ℕ
  pub updated_at : ℕ

pub record Event : Type 0 where
  pub id : ℕ
  pub session_id : ℕ
  pub sequence : ℕ
  pub type : EventType
  pub payload : Fields
  pub created_at : ℕ
