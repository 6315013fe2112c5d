-- ===== src/Sandbox/Tools/Files.antt =====
-- The tools of src/tename/sandbox/tools: file_ops.py, bash.py and python.py.
use tename.Prelude.{
  ℕ, Bool, false, not, ◌&&◌, Option, none, some, [], ◌∷◌, String, if◌then◌else◌, ◌==◌, ltb, Result,
  ok, err,
}
use tename.Prelude.Actions.{Action, ◌>>=◌, give, catch}
use tename.Json.{Json, Fields, bool, str, get, get_default, is_empty, truthy}
use tename.Sandbox.Service.{ToolResult}
use tename.Sandbox.Tools.Texts.{size, count, replace_first, replace_all}
use tename.Sandbox.Tools.{
  Exec, ToolError, Container, run_exec, ◌<>◌, failure, success, missing, put_file, failed_exec,
  finished_exec, command_result,
}

-- A field that is a text: `isinstance(value, str)`.
abbrev pub text_in : Option Json → Option String
text_in (some (str t)) = some t
text_in other = none

-- `not isinstance(value, str) or not value`
abbrev some_text : String → Option String
some_text t = if is_empty t then none else some t

abbrev pub filled : Option String → Option String
filled none = none
filled (some t) = some_text t

module _ {S : Type 0} (c : Container S) where
  abbrev shown : String → Exec → ToolResult
  shown tool r =
      if r.exit_code == 0
      then finished_exec c r
      else failed_exec c (tool <> " exited with code " <> c.decimal r.exit_code) r

  abbrev read_path : Option String → Action S ToolError ToolResult
  read_path none = give (missing "file_read" "path")
  read_path (some path) = run_exec c ("cat" ∷ "--" ∷ path ∷ []) >>= λ r. give (shown "file_read" r)

  unfoldable pub file_read_tool : Fields → Action S ToolError ToolResult
  file_read_tool input = read_path (filled (text_in (get "path" input)))

  abbrev list_path : Option String → Action S ToolError ToolResult
  list_path none = give (missing "file_list" "path")
  list_path (some path) =
      run_exec c ("ls" ∷ "-la" ∷ "--" ∷ path ∷ []) >>= λ r. give (shown "file_list" r)

  unfoldable pub file_list_tool : Fields → Action S ToolError ToolResult
  file_list_tool input =
      list_path (filled (text_in (some (get_default "path" (str "/workspace") input))))

  -- try: put_file(...) except Exception as exc
  unfoldable pub store_file : (path content prefix message : String) → Action S ToolError ToolResult
  store_file path content prefix message =
      catch (put_file c path content >>= λ u. give (success message))
        (λ e. give (failure (prefix <> c.text_of e)))

  abbrev pub write_path : Option String → Option String → Action S ToolError ToolResult
  write_path none content = give (missing "file_write" "path")
  write_path (some path) none = give (failure "file_write: 'content' must be a string")
  write_path (some path) (some content) =
      store_file path content "file_write: "
        ("wrote " <> c.decimal (size content) <> " bytes to " <> path)

  unfoldable pub file_write_tool : Fields → Action S ToolError ToolResult
  file_write_tool input =
      write_path (filled (text_in (get "path" input))) (text_in (get "content" input))

  abbrev pub unreadable_result : String → Exec → ToolResult
  unreadable_result path r =
      record (failed_exec c
        ("file_edit: cannot read " <> path <> " (exit " <> c.decimal r.exit_code <> ")") r) {
          stdout = "";
        }

  abbrev updated : Bool → String → String → String → String
  updated every old new original =
      if every then replace_all old new original else replace_first old new original

  abbrev edit_message : String → ℕ → String
  edit_message path matches =
      "edited "
      <> path
      <> " ("
      <> c.decimal matches
      <> " replacement"
      <> (if matches == 1 then "" else "s")
      <> ")"

  abbrev too_many : String → ℕ → String
  too_many path matches =
      "file_edit: old_str matches "
      <> c.decimal matches
      <> " locations in "
      <> path
      <> "; pass replace_all=true to replace every match"

  -- file_edit after the file was read
  unfoldable pub edit_read :
      (every : Bool) → (path old new original : String) → Action S ToolError ToolResult
  edit_read every path old new original =
      let matches = count old original in
      if matches == 0
      then give (failure ("file_edit: old_str not found in " <> path))
      else if ltb 1 matches && not every
      then give (failure (too_many path matches))
      else store_file path (updated every old new original) "file_edit: "
          (edit_message path matches)

  unfoldable pub edit_file :
      (every : Bool) → (path old new : String) → Action S ToolError ToolResult
  edit_file every path old new = run_exec c ("cat" ∷ "--" ∷ path ∷ []) >>= λ r.
      if r.exit_code == 0
      then edit_read every path old new r.stdout
      else give (unreadable_result path r)

  abbrev pub edit_fields :
      Bool → Option String → Option String → Option String → Action S ToolError ToolResult
  edit_fields every none old new = give (missing "file_edit" "path")
  edit_fields every (some path) none new = give (failure "file_edit: 'old_str' must be a string")
  edit_fields every (some path) (some old) none =
      give (failure "file_edit: 'new_str' must be a string")
  edit_fields every (some path) (some old) (some new) = edit_file every path old new

  unfoldable pub file_edit_tool : Fields → Action S ToolError ToolResult
  file_edit_tool input =
      edit_fields (truthy (get_default "replace_all" (bool false) input))
        (filled (text_in (get "path" input))) (text_in (get "old_str" input))
        (text_in (get "new_str" input))

  abbrev no_command : ToolResult
  no_command = failure "bash: missing required input 'command' (non-empty string)"

  abbrev run_command : Option String → Action S ToolError ToolResult
  run_command none = give no_command
  run_command (some command) =
      if is_empty (c.strip command)
      then give no_command
      else run_exec c ("bash" ∷ "-lc" ∷ command ∷ []) >>= λ r. give (command_result c "bash" r)

  -- bash.py
  unfoldable pub bash_tool : Fields → Action S ToolError ToolResult
  bash_tool input = run_command (text_in (get "command" input))

  -- A script that is stored is run, and then removed.
  unfoldable pub run_script : (script : String) → Action S ToolError ToolResult
  run_script script = run_exec c ("python" ∷ script ∷ []) >>= λ r.
      run_exec c ("rm" ∷ "-f" ∷ script ∷ []) >>= λ removed. give (command_result c "python" r)

  abbrev stored_script : String → S × Result ToolError (Unit {0}) → S × Result ToolError ToolResult
  stored_script script (s, ok u) = run_script script s
  stored_script script (s, err e) =
      (s, ok (failure ("python: could not upload script: " <> c.text_of e)))

  abbrev run_code : (script : String) → Option String → Action S ToolError ToolResult
  run_code script none = give (failure "python: missing required input 'code' (non-empty string)")
  run_code script (some code) = λ s. stored_script script (put_file c script code s)

  -- python.py, with the name of the new file as an argument
  unfoldable pub python_tool : (script : String) → Fields → Action S ToolError ToolResult
  python_tool script input = run_code script (filled (text_in (get "code" input)))
