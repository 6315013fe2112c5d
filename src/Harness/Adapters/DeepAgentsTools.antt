-- ===== src/Harness/Adapters/DeepAgentsTools.antt =====
-- BUILTIN_TOOLS of src/tename/harness/adapters/deep_agents.py.
use tename.Prelude.{List, [], ◌∷◌, String, false}
use tename.Json.{pos, Fields, bool, int, str, arr, obj, nil, cons, end, field}
use tename.Router.Types.{ToolDef}

abbrev pub write_todos_schema : Fields
write_todos_schema = field "type" (str "object") (
    field "properties"
      (obj (
        field "todos"
          (obj (
            field "type" (str "array") (
              field "description"
                (str
                  "The updated full todo list. Replace the prior list each time — the Deep Agents planning middleware stores the latest value.")
                (field "items"
                  (obj (
                    field "type" (str "object") (
                      field "properties"
                        (obj (
                          field "content"
                            (obj (
                              field "type" (str "string")
                                (field "description" (str "What the todo accomplishes.") end)))
                            (field "status"
                              (obj (
                                field "type" (str "string") (
                                  field "enum"
                                    (arr (
                                      cons (str "pending")
                                        (cons (str "in_progress") (cons (str "completed") nil))))
                                    end)))
                              end)))
                        (field "required" (arr (cons (str "content") (cons (str "status") nil)))
                          end))))
                  end))))
          end))
      (field "required" (arr (cons (str "todos") nil)) end))

abbrev pub ls_schema : Fields
ls_schema =
    field "type" (str "object")
      (field "properties" (obj end) (field "additionalProperties" (bool false) end))

abbrev pub read_file_schema : Fields
read_file_schema = field "type" (str "object") (
    field "properties"
      (obj (
        field "file_path"
          (obj (
            field "type" (str "string") (
              field "description" (str "Path to read inside the agent's virtual filesystem.") end)))
          (field "offset"
            (obj (
              field "type" (str "integer") (
                field "description" (str "Optional 0-based line offset to start reading from.")
                  (field "minimum" (int (pos 0)) end))))
            (field "limit"
              (obj (
                field "type" (str "integer") (
                  field "description" (str "Optional line count cap; omit to read the whole file.")
                    (field "minimum" (int (pos 1)) end))))
              end))))
      (field "required" (arr (cons (str "file_path") nil)) end))

abbrev pub write_file_schema : Fields
write_file_schema = field "type" (str "object") (
    field "properties"
      (obj (
        field "file_path" (obj (field "type" (str "string") end))
          (field "content" (obj (field "type" (str "string") end)) end)))
      (field "required" (arr (cons (str "file_path") (cons (str "content") nil))) end))

abbrev pub edit_file_schema : Fields
edit_file_schema = field "type" (str "object") (
    field "properties"
      (obj (
        field "file_path" (obj (field "type" (str "string") end)) (
          field "old_string" (obj (field "type" (str "string") end)) (
            field "new_string" (obj (field "type" (str "string") end)) (
              field "replace_all"
                (obj (
                  field "type" (str "boolean") (
                    field "description"
                      (str "Replace every match instead of erroring on ambiguous matches.") end)))
                end)))))
      (field "required"
        (arr (cons (str "file_path") (cons (str "old_string") (cons (str "new_string") nil)))) end))

abbrev pub task_schema : Fields
task_schema = field "type" (str "object") (
    field "properties"
      (obj (
        field "description"
          (obj (
            field "type" (str "string")
              (field "description" (str "What the subagent should accomplish.") end)))
          (field "subagent_type"
            (obj (
              field "type" (str "string") (
                field "description"
                  (str
                    "Which registered subagent to spawn. Use 'general-purpose' for the Deep Agents default research subagent.")
                  end)))
            end)))
      (field "required" (arr (cons (str "description") (cons (str "subagent_type") nil))) end))

abbrev pub write_todos_def : ToolDef
write_todos_def = record {
  name = "write_todos";
  description =
      "Write or update the agent's todo list. Use for any multi-step task: plan first, then execute. Replaces the full list each call.";
  input_schema = write_todos_schema;
}

abbrev pub ls_def : ToolDef
ls_def = record {
  name = "ls";
  description = "List every path currently present in the virtual filesystem.";
  input_schema = ls_schema;
}

abbrev pub read_file_def : ToolDef
read_file_def = record {
  name = "read_file";
  description = "Read a file from the virtual filesystem.";
  input_schema = read_file_schema;
}

abbrev pub write_file_def : ToolDef
write_file_def = record {
  name = "write_file";
  description = "Create or overwrite a file in the virtual filesystem.";
  input_schema = write_file_schema;
}

abbrev pub edit_file_def : ToolDef
edit_file_def = record {
  name = "edit_file";
  description =
      "Apply a string-replacement edit to an existing file. Errors on ambiguous matches unless `replace_all` is true.";
  input_schema = edit_file_schema;
}

abbrev pub task_def : ToolDef
task_def = record {
  name = "task";
  description =
      "Spawn a subagent to handle an isolated task. Use when the subtask has its own context needs or produces output you don't want in the main agent's context.";
  input_schema = task_schema;
}

-- BUILTIN_TOOLS
abbrev pub deep_agents_tools : List (String × ToolDef)
deep_agents_tools =
    ("write_todos", write_todos_def)
    ∷ ("ls", ls_def)
    ∷ ("read_file", read_file_def)
    ∷ ("write_file", write_file_def)
    ∷ ("edit_file", edit_file_def)
    ∷ ("task", task_def)
    ∷ []
