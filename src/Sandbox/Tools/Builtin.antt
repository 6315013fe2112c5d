-- ===== src/Sandbox/Tools/Builtin.antt =====
-- The registry of src/tename/sandbox/tools/__init__.py.
use tename.Prelude.{Bool, List, [], ◌∷◌, String, str_eq, any}
use tename.Prelude.Actions.{Action}
use tename.Json.{Fields}
use tename.Sandbox.Service.{ToolResult}
use tename.Sandbox.Tools.{Container, ToolError}
use tename.Sandbox.Tools.Files.{
  bash_tool, python_tool, file_read_tool, file_write_tool, file_edit_tool, file_list_tool,
}

-- A tool on a container, with the path of the script that the python tool makes up.
abbrev pub SandboxToolFn : Type 0 → Type 0
SandboxToolFn S = Container S → (script : String) → Fields → Action S ToolError ToolResult

-- _BUILTIN_TOOLS; only the python tool makes a script
abbrev pub builtin_tools : {S : Type 0} → List (String × SandboxToolFn S)
builtin_tools =
    ("bash", λ c script. bash_tool c)
    ∷ ("python", λ c script. python_tool c script)
    ∷ ("file_read", λ c script. file_read_tool c)
    ∷ ("file_write", λ c script. file_write_tool c)
    ∷ ("file_edit", λ c script. file_edit_tool c)
    ∷ ("file_list", λ c script. file_list_tool c)
    ∷ []

-- BUILTIN_TOOL_NAMES
abbrev pub builtin_tool_names : List String
builtin_tool_names = "bash" ∷ "python" ∷ "file_read" ∷ "file_write" ∷ "file_edit" ∷ "file_list" ∷ []

unfoldable pub is_builtin : String → Bool
is_builtin name = any (λ n. str_eq n name) builtin_tool_names
