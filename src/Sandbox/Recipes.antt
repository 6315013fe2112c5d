-- ===== src/Sandbox/Recipes.antt =====
-- SandboxRecipe of src/tename/sandbox/types.py
use tename.Prelude.{ℕ, List, String}

pub data NetworkPolicy : Type 0 where
  open_network isolated allowlist : NetworkPolicy

pub record SandboxRecipe : Type 0 where
  pub runtime : String
  pub packages : List String
  pub files : List (String × String)
  pub env : List (String × String)
  pub cpu_limit : ℕ
  pub memory_limit_mb : ℕ
  pub timeout_seconds : ℕ
  pub network_policy : NetworkPolicy
