-- ===== src/Harness/Profiles.antt =====
-- src/tename/harness/profiles.py: the fields of a profile that the harness reads.
use tename.Prelude.{ℕ, ◌*◌, ◌/◌, Option, none, some, String}

pub record ContextConfig : Type 0 where
  pub max_tokens : ℕ
  pub effective_budget : ℕ
  pub compaction_threshold : Option ℕ
  pub compaction_strategy : String
  pub keep_last_n_events : ℕ

-- `int(effective_budget * 0.8)`; for budgets below 2 ^ 50 the float product has this integer part.
unfoldable pub resolved_compaction_threshold : ContextConfig → ℕ
resolved_compaction_threshold c = elim c.compaction_threshold [
  | some t ↦ t
  | none ↦ c.effective_budget * 4 / 5
]

pub record StopConditions : Type 0 where
  pub no_tool_calls_for : ℕ
  pub max_turns : ℕ
  pub max_duration_seconds : Option ℕ

-- The sections that the loop reads; the router-facing ones stay shut.
pub record Profile : Type 0 where
  pub context : ContextConfig
  pub stop_conditions : StopConditions
